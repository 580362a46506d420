-- ===== src/Game/RoundTrip.antt =====
-- A player that decodes the frames of a timeslot gets the actions back.
use strajer.Common.{
  ℕ, zero, suc, ◌≤◌, ◌≡◌, ◌%◌, ◌^◌, refl, ap, sym, ◌∙◌, Bool, true, false, List, [], ◌∷◌, ◌++◌,
  arith, ok, All, length, All-append, append_assoc, append-nil, length-append, take-length_append,
  drop-length_append,
}
use strajer.Common.Bytes.{Bytes, IsByte, to_le_bytes, u16_max, from_le_bytes-to_le_bytes}
use strajer.Frame.Shape.{IsFrame, framed, new-framed, framed-IsFrame}
use strajer.Game.{PlayerAction, new_action, incoming_action_packet_id, incoming_action_2_packet_id}
use strajer.Game.Groups.{IsAction, IsGroup, records_length}
use strajer.Game.Incoming.{
  action_records, decode_actions_loop, decode_player_actions, encode_action_group, decode,
  packet_fragment, decode_checked_actions,
}

pub length-action_records :
    (xs : List PlayerAction) → length (action_records xs) ≡ records_length xs
unfolding action_records
length-action_records [] = refl
length-action_records (a ∷ xs) =
    omega (arith, length-append a.bytes (action_records xs), length-action_records xs)

action_records-IsByte : (xs : List PlayerAction) → All IsAction xs → All IsByte (action_records xs)
unfolding action_records
action_records-IsByte [] h = tt
action_records-IsByte (a ∷ xs) h = (
  h.0.id_byte,
  (
    omega arith,
    (omega arith, All-append IsByte a.bytes _ h.0.bytes (action_records-IsByte xs h.1)),
  ),
)

decode_actions_step :
    (fuel : ℕ) (a : PlayerAction) (xs out : List PlayerAction)
    → IsAction a
    → decode_actions_loop (suc fuel) (action_records (a ∷ xs)) out
      ≡ decode_actions_loop fuel (action_records xs) (out ++ (a ∷ []))
unfolding decode_actions_loop action_records new_action
decode_actions_step fuel a xs out h = ground (
  arith,
  from_le_bytes-to_le_bytes 2 (length a.bytes) (omega (arith, h.short)),
  length-append a.bytes (action_records xs),
  take-length_append a.bytes (action_records xs),
  drop-length_append a.bytes (action_records xs),
)

decode_actions_loop-action_records :
    (xs : List PlayerAction) (fuel : ℕ) (out : List PlayerAction)
    → All IsAction xs
    → records_length xs ≤ fuel
    → decode_actions_loop fuel (action_records xs) out ≡ ok (out ++ xs)
decode_actions_loop-action_records [] fuel out h f =
    unfold decode_actions_loop action_records in ap ok (sym (append-nil out))
decode_actions_loop-action_records (a ∷ xs) zero out h f = absurd (omega arith)
decode_actions_loop-action_records (a ∷ xs) (suc fuel) out h f =
    decode_actions_step fuel a xs out h.0
    ∙ decode_actions_loop-action_records xs fuel (out ++ (a ∷ [])) h.1 (omega arith)
    ∙ ap ok (append_assoc out (a ∷ []) xs)

pub decode_player_actions-action_records :
    (g : List PlayerAction) → All IsAction g → decode_player_actions (action_records g) ≡ ok g
unfolding decode_player_actions
decode_player_actions-action_records g h =
    decode_actions_loop-action_records g _ [] h (omega (arith, length-action_records g))

module _ (hash : Bytes → ℕ) where
  -- The payload and the frame of a group.
  abbrev pub group_payload : ℕ → List PlayerAction → Bytes
  group_payload time g =
      to_le_bytes 2 time ++ (to_le_bytes 2 (hash (action_records g) % 2 ^ 16) ++ action_records g)

  pub encode_action_group_lem :
      (id time : ℕ) (g : List PlayerAction)
      → IsGroup g
      → encode_action_group hash id time g ≡ ok (framed id (group_payload time g))
  unfolding encode_action_group
  encode_action_group_lem id time g h =
      rw (new-framed id (group_payload time g) (omega (arith, length-action_records g)))

  decode_checked_actions_lem :
      (fragment : Bool) (time : ℕ) (g : List PlayerAction)
      → IsGroup g
      → decode_checked_actions hash fragment time (group_payload time g)
        ≡ ok (record { fragment = fragment; time_increment_ms = time; actions = g })
  unfolding decode_checked_actions
  decode_checked_actions_lem fragment time [] h = absurd (omega arith)
  decode_checked_actions_lem fragment time (a ∷ g) h =
      let crc : ℕ = hash (action_records (a ∷ g)) % 2 ^ 16 in
      ground (
        arith,
        from_le_bytes-to_le_bytes 2 crc (omega arith),
        decode_player_actions-action_records (a ∷ g) h.2,
      )

  pub decode_final :
      (time : ℕ) (g : List PlayerAction)
      → IsGroup g
      → time ≤ u16_max
      → decode hash (framed incoming_action_packet_id (group_payload time g))
        ≡ ok (record { fragment = false; time_increment_ms = time; actions = g })
  unfolding decode packet_fragment
  decode_final time g h t = ground (
    arith,
    length-action_records g,
    from_le_bytes-to_le_bytes 2 time (omega arith),
    decode_checked_actions_lem false time g h,
  )

  pub decode_fragment :
      (g : List PlayerAction)
      → IsGroup g
      → decode hash (framed incoming_action_2_packet_id (group_payload 0 g))
        ≡ ok (record { fragment = true; time_increment_ms = 0; actions = g })
  unfolding decode packet_fragment
  decode_fragment g h =
      ground (arith, length-action_records g, decode_checked_actions_lem true 0 g h)

  pub framed_group-IsFrame :
      (id time : ℕ) (g : List PlayerAction)
      → IsByte id
      → IsGroup g
      → IsFrame (framed id (group_payload time g))
  framed_group-IsFrame id time g b h =
      framed-IsFrame id _ b
        (omega arith, (omega arith, (omega arith, (omega arith, action_records-IsByte g h.2))))
        (omega (arith, length-action_records g))
