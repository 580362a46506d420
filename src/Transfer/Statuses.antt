-- ===== src/Transfer/Statuses.antt =====
-- What `handle_map_size` of apps/strajer-agent/src/main.rs writes.
use strajer.Common.{
  ℕ, ◌+◌, ◌≡◌, inl, inr, refl, ◌∙◌, Bool, true, false, not, ◌&&◌, if◌then◌else◌, List, [], ◌∷◌,
  ◌++◌, Result, ok, err, Result-cases, arith, append-nil, ltb, ◌==◌,
}
use strajer.Common.Bytes.{Bytes, u8_max, to_le_bytes}
use strajer.Frame.{Frame}
use strajer.Frame.Shape.{new-framed}
use strajer.Maps.{MapSize, decode_map_size, start_download_frame, has_map, continues_download}
use strajer.Maps.Layout.{IsPeer}
use strajer.Transfer.{
  ActiveMapTransfer, TransferError, acknowledge, should_log_progress, progress_percent, smaller,
}
use strajer.Transfer.States.{
  MapTransferState, awaiting_status, preparing, downloading, verified, TransferConfig,
  handle_map_size, handle_status, on_status, acknowledged,
}
use strajer.Transfer.Written.{beginning, Written, Leaves, stays, if-Leaves}

-- A transfer that differs in its progress at most.
record Same (t u : ActiveMapTransfer) : Type 0 where
  map : u.bytes ≡ t.bytes
  sender : u.from_player_id ≡ t.from_player_id
  receiver : u.to_player_id ≡ t.to_player_id
  next : u.next_offset ≡ t.next_offset

acknowledge-Same :
    (offset now : ℕ) (t : ActiveMapTransfer) (advanced : Bool) (u : ActiveMapTransfer)
    → acknowledge offset now t ≡ ok (advanced, u)
    → Same t u
unfolding acknowledge
acknowledge-Same offset now t advanced u e = record {
  map = ground arith;
  sender = ground arith;
  receiver = ground arith;
  next = ground arith;
}

logged-Same :
    (kept : Bool) (percent : ℕ) (t u : ActiveMapTransfer)
    → Same t u
    → Same t
        (if◌then◌else◌ {A = Bool × ActiveMapTransfer} kept
          (false, u)
          (true, record u { last_logged_percent = percent })).1
logged-Same true percent t u h = h
logged-Same false percent t u h = record {
  map = h.map;
  sender = h.sender;
  receiver = h.receiver;
  next = h.next;
}

should_log_progress-Same : (t u : ActiveMapTransfer) → Same t u → Same t (should_log_progress u).1
should_log_progress-Same t u h =
    logged-Same
      (ltb (progress_percent u) (smaller u8_max (u.last_logged_percent + 10))
        && not (progress_percent u == 100))
      (progress_percent u) t u h

module _ (hash : Bytes → ℕ) (map : Bytes) (c : TransferConfig) (player_id : ℕ)
    (host : IsPeer c.host_player_id) (peer : IsPeer player_id) where
  begins : start_download_frame c.host_player_id ≡ ok (beginning c)
  unfolding start_download_frame
  begins =
      ground (arith, new-framed 0x3F (to_le_bytes 4 1 ++ (c.host_player_id ∷ [])) (omega arith))

  verified-Written :
      (state : MapTransferState) (frames : List Frame)
      → Written hash map c player_id state frames
      → Written hash map c player_id verified frames
  verified-Written awaiting_status frames w = inl w
  verified-Written (preparing p) frames w = inr (0, w.2)
  verified-Written (downloading t) frames w = inr (t.next_offset, w.1)
  verified-Written verified frames w = w

  Same-Written :
      (t u : ActiveMapTransfer) (frames : List Frame)
      → Same t u
      → Written hash map c player_id (downloading t) frames
      → Written hash map c player_id (downloading u) (frames ++ [])
  Same-Written t u frames h w = rw (append-nil frames) (
    record {
      same_map = h.map ∙ w.0.same_map;
      sender = h.sender ∙ w.0.sender;
      receiver = h.receiver ∙ w.0.receiver;
      within = rw h.next w.0.within;
    },
    rw h.next w.1,
  )

  acknowledged-Leaves :
      (t : ActiveMapTransfer) (x : Result TransferError (Bool × ActiveMapTransfer))
      (frames : List Frame)
      → ((advanced : Bool) (u : ActiveMapTransfer) → x ≡ ok (advanced, u) → Same t u)
      → Written hash map c player_id (downloading t) frames
      → Leaves hash map c player_id frames (acknowledged t x)
  acknowledged-Leaves t (err e) frames same w b h = absurd (cc h)
  acknowledged-Leaves t (ok (true, u)) frames same w b h =
      Same-Written t _ frames (should_log_progress-Same t u (same true u refl)) w
  acknowledged-Leaves t (ok (false, u)) frames same w b h =
      Same-Written t u frames (same false u refl) w

  on_status-Leaves :
      (writes : Bool) (now : ℕ) (m : MapSize) (state : MapTransferState) (frames : List Frame)
      → Written hash map c player_id state frames
      → Leaves hash map c player_id frames (on_status c player_id writes now m state)
  unfolding on_status acknowledge
  on_status-Leaves true now m awaiting_status frames w =
      λ b e. rw begins (refl, refl, record { parts = []; begun = rw w refl; assembled = refl })
  on_status-Leaves false now m awaiting_status frames w = λ b e. absurd (cc (rw begins at e))
  on_status-Leaves writes now m (preparing p) frames w =
      stays hash map c player_id (preparing p) frames false w
  on_status-Leaves writes now m (downloading t) frames w =
      if-Leaves hash map c player_id (continues_download m) _ _ frames
        (λ h.
          acknowledged-Leaves t (acknowledge m.map_size now t) frames
            (acknowledge-Same m.map_size now t) w)
        (λ h. stays hash map c player_id (downloading t) frames false w)
  on_status-Leaves writes now m verified frames w = λ b e. absurd (cc e)

  handle_status-Leaves :
      (writes : Bool) (now : ℕ) (m : MapSize) (state : MapTransferState) (frames : List Frame)
      → Written hash map c player_id state frames
      → Leaves hash map c player_id frames (handle_status c player_id writes now m state)
  unfolding handle_status
  handle_status-Leaves writes now m state frames w =
      if-Leaves hash map c player_id (has_map m && (m.map_size == c.file_size)) _ _ frames
        (λ h. stays hash map c player_id verified frames _ (verified-Written state frames w))
        λ h.
          if-Leaves hash map c player_id (ltb c.file_size m.map_size) _ _ frames
            (λ h'. λ b e. absurd (cc e))
            λ h'.
              if-Leaves hash map c player_id (not (has_map m) && not (continues_download m)) _ _
                frames (λ k. λ b e. absurd (cc e))
                (λ k. on_status-Leaves writes now m state frames w)

  pub handle_map_size-Leaves :
      (writes : Bool) (now : ℕ) (f : Frame) (state : MapTransferState) (frames : List Frame)
      → Written hash map c player_id state frames
      → Leaves hash map c player_id frames (handle_map_size c player_id writes now f state)
  unfolding handle_map_size
  handle_map_size-Leaves writes now f state frames w b e = elim (Result-cases (decode_map_size f)) [
    | inl (m, read) ↦ rw read (handle_status-Leaves writes now m state frames w b (rw read at e))
    | inr (e', bad) ↦ absurd (cc (rw bad at e))
  ]
