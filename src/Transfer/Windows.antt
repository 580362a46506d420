-- ===== src/Transfer/Windows.antt =====
-- What a call of `pending_frames` of apps/strajer-agent/src/main.rs sends.
use strajer.Common.{
  Bool, true, false, ◌&&◌, ℕ, zero, suc, ◌+◌, ◌-◌, ◌≤◌, ◌<◌, ◌≡◌, ◌⊎◌, inl, inr, refl, sym, ap, ◌∙◌,
  if◌then◌else◌, List, [], ◌∷◌, ◌++◌, Option, some, ok, ltb, length, take, drop, take-append-take,
  drop-drop, length-take, length-drop, arith,
}
use strajer.Common.Bytes.{Bytes, u32_max}
use strajer.Frame.{Frame}
use strajer.Frame.Shape.{framed}
use strajer.Maps.{map_part_payload, map_part_data_bytes, map_part_frame}
use strajer.Maps.Layout.{IsPeer, map_part_frame_lem}
use strajer.Transfer.{
  ActiveMapTransfer, Sending, smaller, window_end, part_end, part_bytes, push, pending_loop,
  pending_frames,
}
use strajer.Transfer.Receiving.{assemble, assemble-part, receive_part-payload}

-- The bytes of a map between two offsets.
abbrev pub slice : ℕ → ℕ → Bytes → Bytes
slice start stop bytes = take (stop - start) (drop start bytes)

pub slice-append :
    (start middle stop : ℕ) (bytes : Bytes)
    → start ≤ middle
    → middle ≤ stop
    → slice start middle bytes ++ slice middle stop bytes ≡ slice start stop bytes
slice-append start middle stop bytes h h' =
    let gap : start + (middle - start) ≡ middle = omega arith in
    let sum : (middle - start) + (stop - middle) ≡ stop - start = omega arith in
    rw
      (
        sym sum,
        sym (take-append-take (middle - start) (stop - middle) (drop start bytes)),
        drop-drop start (middle - start) bytes,
        gap,
      )
      refl

pub length-slice :
    (start stop : ℕ) (bytes : Bytes)
    → start ≤ stop
    → stop ≤ length bytes
    → length (slice start stop bytes) ≡ stop - start
length-slice start stop bytes h h' =
    omega (arith, length-take (stop - start) (drop start bytes), length-drop start bytes)

-- A transfer between two players whose next part is within the map.
pub record IsTransfer (t : ActiveMapTransfer) : Type 0 where
  pub sender : IsPeer t.from_player_id
  pub receiver : IsPeer t.to_player_id
  pub within : t.next_offset ≤ length t.bytes
  pub addressed : length t.bytes ≤ u32_max

-- Frames from which the receiver puts together the map up to another offset, at or behind the window.
pub record Sends (hash : Bytes → ℕ) (last : ℕ) (t : ActiveMapTransfer) (sending : Option Sending)
    : Type 0 where
  pub parts : List Frame
  pub stop : ℕ
  pub sent :
      sending ≡ some (record { transfer = record t { next_offset = stop }; frames = ok parts })
  pub further : t.next_offset ≤ stop
  pub inside : stop ≤ length t.bytes
  pub all_of_window : smaller last (length t.bytes) ≤ stop
  pub one_part_over : (stop ≡ t.next_offset) ⊎ (stop < last + map_part_data_bytes)
  pub assembled :
      assemble hash t.from_player_id t.to_player_id t.next_offset parts
      ≡ some (slice t.next_offset stop t.bytes)

module _ (hash : Bytes → ℕ) where
  part_end_bounds :
      (t : ActiveMapTransfer)
      → t.next_offset < length t.bytes
      → (t.next_offset < part_end t)
        × (part_end t ≤ length t.bytes)
        × (part_end t ≤ t.next_offset + map_part_data_bytes)
  part_end_bounds t more = ground arith

  part_frame :
      (t : ActiveMapTransfer)
      → IsTransfer t
      → t.next_offset < length t.bytes
      → map_part_frame hash t.from_player_id t.to_player_id t.next_offset (part_bytes t)
        ≡ ok (
            framed 0x43
              (map_part_payload hash t.from_player_id t.to_player_id t.next_offset (part_bytes t)))
  part_frame t v more =
      let (larger, inside, short) = part_end_bounds t more in
      let size : length (part_bytes t) ≡ part_end t - t.next_offset =
        length-slice t.next_offset (part_end t) t.bytes (omega arith) inside in
      map_part_frame_lem hash t.from_player_id t.to_player_id t.next_offset (part_bytes t) v.sender
        v.receiver (omega arith) (omega arith) (omega (arith, v.addressed))

  push-Sends :
      (last : ℕ) (t : ActiveMapTransfer) (rest : Option Sending)
      → IsTransfer t
      → t.next_offset < length t.bytes
      → t.next_offset < last
      → Sends hash last (record t { next_offset = part_end t }) rest
      → Sends hash last t (
          push t
            (map_part_frame hash t.from_player_id t.to_player_id t.next_offset (part_bytes t))
            rest)
  push-Sends last t rest v more under w =
      let (larger, inside, short) = part_end_bounds t more in
      let f : Frame =
        framed 0x43
          (map_part_payload hash t.from_player_id t.to_player_id t.next_offset (part_bytes t)) in
      let size : length (part_bytes t) ≡ part_end t - t.next_offset =
        length-slice t.next_offset (part_end t) t.bytes (omega arith) inside in
      let there : t.next_offset + length (part_bytes t) ≡ part_end t = omega arith in
      record {
        parts = f ∷ w.parts;
        stop = w.stop;
        sent = rw (part_frame t v more, w.sent) refl;
        further = omega (arith, w.further);
        inside = w.inside;
        all_of_window = w.all_of_window;
        one_part_over =
            inr (elim w.one_part_over [ inl last_part ↦ omega arith | inr over ↦ over ]);
        assembled =
            assemble-part hash t.from_player_id t.to_player_id t.next_offset f w.parts
              (part_bytes t) (slice (part_end t) w.stop t.bytes)
              (receive_part-payload hash t.from_player_id t.to_player_id t.next_offset
                (part_bytes t) (omega (arith, v.addressed)))
              (rw there w.assembled)
            ∙ ap some
                (slice-append t.next_offset (part_end t) w.stop t.bytes (omega arith) w.further);
      }

  stop-Sends :
      (last : ℕ) (t : ActiveMapTransfer)
      → IsTransfer t
      → smaller last (length t.bytes) ≤ t.next_offset
      → Sends hash last t (some (record { transfer = t; frames = ok [] }))
  stop-Sends last t v reached =
      let nothing : t.next_offset - t.next_offset ≡ 0 = omega arith in
      record {
        parts = [];
        stop = t.next_offset;
        sent = refl;
        further = omega arith;
        inside = v.within;
        all_of_window = reached;
        one_part_over = inl refl;
        assembled = rw nothing refl;
      }

  round-Sends :
      (last : ℕ) (t : ActiveMapTransfer) (rest : Option Sending) (more under : Bool)
      → ltb t.next_offset (length t.bytes) ≡ more
      → ltb t.next_offset last ≡ under
      → IsTransfer t
      → (t.next_offset < length t.bytes
          → Sends hash last (record t { next_offset = part_end t }) rest)
      → Sends hash last t (
          if more && under
          then push t
              (map_part_frame hash t.from_player_id t.to_player_id t.next_offset (part_bytes t))
              rest
          else some (record { transfer = t; frames = ok [] }))
  round-Sends last t rest true true e e' v w =
      let more : t.next_offset < length t.bytes = ground arith in
      push-Sends last t rest v more (ground arith) (w more)
  round-Sends last t rest true false e e' v w = stop-Sends last t v (ground arith)
  round-Sends last t rest false under e e' v w = stop-Sends last t v (ground arith)

  pending_loop-Sends :
      (fuel last : ℕ) (t : ActiveMapTransfer)
      → IsTransfer t
      → length t.bytes < fuel + t.next_offset
      → Sends hash last t (pending_loop hash fuel (length t.bytes) last t)
  unfolding pending_loop
  pending_loop-Sends zero last t v enough = absurd (omega (arith, v.within))
  pending_loop-Sends (suc fuel) last t v enough =
      round-Sends last t
        (pending_loop hash fuel (length t.bytes) last (record t { next_offset = part_end t }))
        (ltb t.next_offset (length t.bytes)) (ltb t.next_offset last) refl refl v
        λ more.
          let (larger, inside, short) = part_end_bounds t more in
          pending_loop-Sends fuel last (record t { next_offset = part_end t })
            (record {
              sender = v.sender;
              receiver = v.receiver;
              within = inside;
              addressed = v.addressed;
            })
            (omega arith)

  -- Of a map of less than 4 GiB, between two players of the game, `pending_frames` never fails and its
  -- loop ends: it sends parts from which a receiver puts together the map from the last offset on, to the
  -- end of the window or of the map, and less than one part over.
  pub pending_frames-Sends :
      (t : ActiveMapTransfer) → IsTransfer t → Sends hash (window_end t) t (pending_frames hash t)
  unfolding pending_frames
  pending_frames-Sends t v =
      let addressed : ltb u32_max (length t.bytes) ≡ false = ground (arith, v.addressed) in
      rw addressed (pending_loop-Sends (suc (length t.bytes)) (window_end t) t v (omega arith))
