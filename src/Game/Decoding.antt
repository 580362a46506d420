-- ===== src/Game/Decoding.antt =====
-- What the decoders of crates/strajer-w3gs/src/game.rs accept, and that they always end.
use strajer.Common.{
  ℕ, zero, suc, ◌%◌, ◌^◌, ◌≤◌, ◌<◌, ◌≡◌, ◌≢◌, ◌∙◌, refl, ap, List, [], ◌∷◌, ◌++◌, arith, ok, err,
  All, length, take, drop, take-append-drop, length-drop, length-take, All-take, All-drop,
  append_assoc, append-nil,
}
use strajer.Common.Bytes.{
  Bytes, IsByte, u32_max, to_le_bytes, from_le_bytes, to_le_bytes-from_le_bytes,
  from_le_bytes-to_le_bytes,
}
use strajer.Frame.{Frame, FrameHeader}
use strajer.Frame.Shape.{IsFrame, framed}
use strajer.Game.{
  PlayerAction, OutgoingAction, decode_action, new_action, max_action_data_bytes, stuck,
  outgoing_action_packet_id,
}
use strajer.Game.Groups.{IsAction}
use strajer.Game.Incoming.{action_records, decode_actions_loop, decode_player_actions}

decode_actions_loop-ne-stuck :
    (fuel : ℕ) (bytes : Bytes) (out : List PlayerAction)
    → length bytes ≤ fuel
    → decode_actions_loop fuel bytes out ≢ err stuck
unfolding decode_actions_loop new_action
decode_actions_loop-ne-stuck fuel [] out h = λ e. cc
decode_actions_loop-ne-stuck zero (b ∷ bytes) out h = absurd (omega arith)
decode_actions_loop-ne-stuck (suc fuel) (b0 ∷ b1 ∷ b2 ∷ after) out h =
    let n : ℕ = from_le_bytes (b1 ∷ b2 ∷ []) in
    let action : PlayerAction = record { player_id = b0; bytes = take n after } in
    ground (
      arith,
      length-drop n after,
      decode_actions_loop-ne-stuck fuel (drop n after) (out ++ (action ∷ [])),
    )
decode_actions_loop-ne-stuck (suc fuel) _ out h = ground arith

-- The loop over the records ends on every input.
pub decode_player_actions-ne-stuck : (bytes : Bytes) → decode_player_actions bytes ≢ err stuck
unfolding decode_player_actions
decode_player_actions-ne-stuck bytes = decode_actions_loop-ne-stuck _ bytes [] (omega arith)

-- The actions that the loop adds to `out`, and where they came from.
abbrev Reads : Bytes → List PlayerAction → List PlayerAction → Type 0
Reads bytes out actions =
    (new : List PlayerAction) × (actions ≡ out ++ new)
    × (action_records new ≡ bytes)
    × All IsAction new

-- What one accepted round has checked.
accepted_round :
    (fuel b0 b1 b2 : ℕ) (after : Bytes) (out actions : List PlayerAction)
    → decode_actions_loop (suc fuel) (b0 ∷ b1 ∷ b2 ∷ after) out ≡ ok actions
    → let n = from_le_bytes (b1 ∷ b2 ∷ []) in
      let action : PlayerAction = record { player_id = b0; bytes = take n after } in
      (0 < b0)
      × (n ≤ length after)
      × (length (take n after) ≤ max_action_data_bytes)
      × (decode_actions_loop fuel (drop n after) (out ++ (action ∷ [])) ≡ ok actions)
unfolding decode_actions_loop new_action
accepted_round fuel b0 b1 b2 after out actions e = ground arith

-- A record written again is the bytes that it was read from.
record_again :
    (b0 b1 b2 : ℕ) (after rest : Bytes)
    → IsByte b1
    → IsByte b2
    → let n = from_le_bytes (b1 ∷ b2 ∷ []) in
      n ≤ length after
      → rest ≡ drop n after
      → b0 ∷ (to_le_bytes 2 (length (take n after) % 2 ^ 16) ++ (take n after ++ rest))
        ≡ b0 ∷ b1 ∷ b2 ∷ after
record_again b0 b1 b2 after rest h1 h2 fits e =
    let n : ℕ = from_le_bytes (b1 ∷ b2 ∷ []) in
    let size : length (take n after) % 2 ^ 16 ≡ n = omega (arith, length-take n after) in
    rw (size, e)
      (ground
        (arith, to_le_bytes-from_le_bytes (b1 ∷ b2 ∷ []) (h1, (h2, tt)), take-append-drop n after))

decode_actions_loop_sound :
    (fuel : ℕ) (bytes : Bytes) (out actions : List PlayerAction)
    → All IsByte bytes
    → decode_actions_loop fuel bytes out ≡ ok actions
    → Reads bytes out actions
unfolding action_records
decode_actions_loop_sound fuel [] out actions h e =
    ([], unfold decode_actions_loop in ground (arith, append-nil out), refl, tt)
decode_actions_loop_sound zero (b ∷ bytes) out actions h e =
    absurd (unfold decode_actions_loop in cc)
decode_actions_loop_sound (suc fuel) (b0 ∷ b1 ∷ b2 ∷ after) out actions h e =
    let n : ℕ = from_le_bytes (b1 ∷ b2 ∷ []) in
    let action : PlayerAction = record { player_id = b0; bytes = take n after } in
    let (pos, fits, short, more) = accepted_round fuel b0 b1 b2 after out actions e in
    let (new, all, again, valid) =
      decode_actions_loop_sound fuel (drop n after) (out ++ (action ∷ [])) actions
        (All-drop IsByte n after h.1.1.1) more in
    let first : IsAction action = record {
      id_pos = pos;
      id_byte = h.0;
      short = short;
      bytes = All-take IsByte n after h.1.1.1;
    } in
    (
      action ∷ new,
      all ∙ append_assoc out (action ∷ []) new,
      record_again b0 b1 b2 after _ h.1.0 h.1.1.0 fits again,
      (first, valid),
    )
decode_actions_loop_sound (suc fuel) (b0 ∷ b1 ∷ []) out actions h e =
    absurd (unfold decode_actions_loop in ground arith)
decode_actions_loop_sound (suc fuel) (b0 ∷ []) out actions h e =
    absurd (unfold decode_actions_loop in ground arith)

-- Bytes that the loop accepts are exactly the records of the actions that it returns, and each of these
-- is an action that `PlayerAction::new` accepts.
pub decode_player_actions_sound :
    (bytes : Bytes) (actions : List PlayerAction)
    → All IsByte bytes
    → decode_player_actions bytes ≡ ok actions
    → (action_records actions ≡ bytes) × All IsAction actions
unfolding decode_player_actions
decode_player_actions_sound bytes actions h e =
    let (new, all, again, valid) = decode_actions_loop_sound _ bytes [] actions h e in
    (ap action_records all ∙ again, rw all valid)

module _ (hash : Bytes → ℕ) where
  -- Action data of at most 1,449 bytes behind its 32-bit checksum is read back.
  pub decode_action-framed :
      (bytes : Bytes)
      → hash bytes ≤ u32_max
      → length bytes ≤ max_action_data_bytes
      → decode_action hash (framed outgoing_action_packet_id (to_le_bytes 4 (hash bytes) ++ bytes))
        ≡ ok (record { bytes = bytes })
  unfolding decode_action
  decode_action-framed bytes crc short =
      ground (arith, from_le_bytes-to_le_bytes 4 (hash bytes) (omega arith))

  action_payload :
      (header : FrameHeader) (payload : Bytes) (a : OutgoingAction)
      → All IsByte payload
      → decode_action hash (record { header = header; payload = payload }) ≡ ok a
      → (header.packet_id ≡ outgoing_action_packet_id)
        × (payload ≡ to_le_bytes 4 (hash a.bytes) ++ a.bytes)
        × (length a.bytes ≤ max_action_data_bytes)
  unfolding decode_action
  action_payload header (b0 ∷ b1 ∷ b2 ∷ b3 ∷ rest) a h e = ground (
    arith,
    to_le_bytes-from_le_bytes (b0 ∷ b1 ∷ b2 ∷ b3 ∷ []) (h.0, (h.1.0, (h.1.1.0, (h.1.1.1.0, tt)))),
  )
  action_payload header _ a h e = ground arith

  -- A frame that `OutgoingAction::decode` accepts is the frame of a checksum of the returned data and then
  -- that data, which has at most 1,449 bytes.
  pub decode_action_sound :
      (f : Frame) (a : OutgoingAction)
      → IsFrame f
      → decode_action hash f ≡ ok a
      → (f ≡ framed outgoing_action_packet_id (to_le_bytes 4 (hash a.bytes) ++ a.bytes))
        × (length a.bytes ≤ max_action_data_bytes)
  decode_action_sound f a v e =
      let (id, payload, short) = action_payload f.header f.payload a v.bytes e in
      (ground (arith, id, payload, ap length payload, v.exact), short)
