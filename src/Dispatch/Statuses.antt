-- ===== src/Dispatch/Statuses.antt =====
-- Which statuses of the map make `handle_map_size` of apps/strajer-agent/src/main.rs report that the game
-- is ready.
use strajer.Common.{
  ◌⊎◌, refl, List, [], ◌∷◌, Option, none, some, Option-cases, ◌>>=◌, ℕ, ◌≡◌, ◌≢◌, Bool, true, false,
  Result, Result-cases, inl, inr, ok, err, arith,
}
use strajer.Common.Bytes.{Bytes}
use strajer.Frame.{Frame}
use strajer.Transfer
use strajer.Transfer.{ActiveMapTransfer, TransferError, acknowledge, pending_frames}
use strajer.Maps.{MapTransferError, start_download_frame, MapSize, decode_map_size, has_map}
use strajer.Transfer.States.{
  on_status, handle_status, begin_download, acknowledged, MapTransferState, awaiting_status,
  preparing, downloading, verified, TransferConfig, handle_map_size, Handled, write_frames,
  send_pending, start_transfer, advance_map_transfer,
}

-- A status by which the game has the whole map.
abbrev pub Reports : TransferConfig → Frame → Type 0
Reports c f =
    (m : MapSize) × (decode_map_size f ≡ ok m) × (has_map m ≡ true) × (m.map_size ≡ c.file_size)

abbrev pub HasReport : TransferConfig → List Frame → Type 0
HasReport c [] = ⊥
HasReport c (f ∷ fs) = Reports c f ⊎ HasReport c fs

write_frames-state :
    (writes : Bool) (t : ActiveMapTransfer) (x : Result TransferError (List Frame))
    → (write_frames writes t x).state ≢ verified
write_frames-state writes t (err e) h = cc
write_frames-state true t (ok fs) h = cc
write_frames-state false t (ok fs) h = cc

module _ (writes : Bool) (c : TransferConfig) (player_id : ℕ) where
  begin_download-quiet :
      (now : ℕ) (accepted : Bool) (x : Result MapTransferError Frame)
      → (begin_download c player_id accepted now x).result ≢ ok true
  begin_download-quiet now accepted (err e') e = cc
  begin_download-quiet now true (ok f) e = cc
  begin_download-quiet now false (ok f) e = cc

  acknowledged-quiet :
      (t : ActiveMapTransfer) (x : Result TransferError (Bool × ActiveMapTransfer))
      → (acknowledged t x).result ≢ ok true
  acknowledged-quiet t (err e') e = cc
  acknowledged-quiet t (ok (advanced, u)) e = cc

  on_status-quiet :
      (now : ℕ) (m : MapSize) (state : MapTransferState)
      → (on_status c player_id writes now m state).result ≢ ok true
  unfolding on_status
  on_status-quiet now m awaiting_status e =
      begin_download-quiet now writes (start_download_frame c.host_player_id) e
  on_status-quiet now m (preparing p) e = cc
  on_status-quiet now m (downloading t) e =
      ground (arith, acknowledged-quiet t (acknowledge m.map_size now t))
  on_status-quiet now m verified e = cc

  handle_status-verified :
      (now : ℕ) (m : MapSize) (state : MapTransferState)
      → (handle_status c player_id writes now m state).result ≡ ok true
      → (handle_status c player_id writes now m state).state ≡ verified
  unfolding handle_status
  handle_status-verified now m state e = ground (arith, on_status-quiet now m state)

  pub handle_map_size-verified :
      (now : ℕ) (f : Frame) (state : MapTransferState)
      → (handle_map_size c player_id writes now f state).result ≡ ok true
      → (handle_map_size c player_id writes now f state).state ≡ verified
  unfolding handle_map_size
  handle_map_size-verified now f state e = elim (Result-cases (decode_map_size f)) [
    | inl (m, read) ↦ rw read (handle_status-verified now m state (rw read at e))
    | inr (e', bad) ↦ absurd (cc (rw bad at e))
  ]

  pub verified_stays :
      (now : ℕ) (f : Frame) → (handle_map_size c player_id writes now f verified).state ≡ verified
  unfolding handle_map_size handle_status on_status
  verified_stays now f = ground arith

  begin_download-state :
      (now : ℕ) (accepted : Bool) (x : Result MapTransferError Frame)
      → (begin_download c player_id accepted now x).state ≢ verified
  begin_download-state now accepted (err e') e = cc
  begin_download-state now true (ok f) e = cc
  begin_download-state now false (ok f) e = cc

  acknowledged-state :
      (t : ActiveMapTransfer) (x : Result TransferError (Bool × ActiveMapTransfer))
      → (acknowledged t x).state ≢ verified
  acknowledged-state t (err e') e = cc
  acknowledged-state t (ok (advanced, u)) e = cc

  on_status-state :
      (now : ℕ) (m : MapSize) (state : MapTransferState)
      → (on_status c player_id writes now m state).state ≡ verified
      → state ≡ verified
  unfolding on_status
  on_status-state now m awaiting_status e =
      absurd (begin_download-state now writes (start_download_frame c.host_player_id) e)
  on_status-state now m (preparing p) e = e
  on_status-state now m (downloading t) e =
      ground (arith, acknowledged-state t (acknowledge m.map_size now t))
  on_status-state now m verified e = refl

  handle_status-state :
      (now : ℕ) (m : MapSize) (state : MapTransferState)
      → (handle_status c player_id writes now m state).state ≡ verified
      → ((has_map m ≡ true) × (m.map_size ≡ c.file_size)) ⊎ (state ≡ verified)
  unfolding handle_status
  handle_status-state now m state e = ground (arith, on_status-state now m state)

  pub handle_map_size-state :
      (now : ℕ) (f : Frame) (state : MapTransferState)
      → (handle_map_size c player_id writes now f state).state ≡ verified
      → Reports c f ⊎ (state ≡ verified)
  unfolding handle_map_size
  handle_map_size-state now f state e = elim (Result-cases (decode_map_size f)) [
    | inl (m, read) ↦ elim (handle_status-state now m state (rw read at e)) [
      | inl whole ↦ inl (m, read, whole.0, whole.1)
      | inr before ↦ inr before
    ]
    | inr (e', bad) ↦ inr (rw bad at e)
  ]

  module _ (hash : Bytes → ℕ) where
    send_pending-state :
        (now : ℕ) (state : MapTransferState) (h : Handled)
        → send_pending hash writes now state ≡ some h
        → h.state ≡ verified
        → state ≡ verified
    unfolding send_pending
    send_pending-state now (downloading t) h e done = elim (Option-cases (pending_frames hash t)) [
      | inl stuck ↦ ground (arith, stuck)
      | inr (s, sent) ↦ ground (arith, sent, write_frames-state writes s.transfer s.frames)
    ]
    send_pending-state now awaiting_status h e done = ground arith
    send_pending-state now (preparing p) h e done = ground arith
    send_pending-state now verified h e done = refl

    start_transfer-state :
        (now : ℕ) (x : Result TransferError ActiveMapTransfer) (h : Handled)
        → start_transfer hash writes now x ≡ some h
        → h.state ≢ verified
    unfolding start_transfer
    start_transfer-state now (err e') h e done = ground arith
    start_transfer-state now (ok t) h e done = cc (send_pending-state now (downloading t) h e done)

    pub advance_map_transfer-state :
        (prepared : Option (Result TransferError Bytes)) (now : ℕ) (state : MapTransferState)
        (h : Handled)
        → advance_map_transfer hash c prepared writes now state ≡ some h
        → h.state ≡ verified
        → state ≡ verified
    unfolding advance_map_transfer
    advance_map_transfer-state none now (preparing p) h e done = ground arith
    advance_map_transfer-state (some loaded) now (preparing p) h e done = ground (
      arith,
      start_transfer-state now
          (loaded >>= λ bytes. Transfer.new bytes p.from_player_id p.to_player_id c.file_size now)
          h,
    )
    advance_map_transfer-state prepared now (downloading t) h e done =
        send_pending-state now (downloading t) h e done
    advance_map_transfer-state prepared now awaiting_status h e done =
        send_pending-state now awaiting_status h e done
    advance_map_transfer-state prepared now verified h e done = refl
