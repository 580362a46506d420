-- ===== src/Game/Timeslots.antt =====
-- `incoming_action_frames` as a whole: what the host broadcasts for a timeslot is what every player
-- decodes.
use strajer.Common.{
  ℕ, ◌+◌, ◌≤◌, ◌<◌, ◌≡◌, refl, Bool, true, false, List, [], ◌∷◌, arith, ok, All, length,
  length-append, ap,
}
use strajer.Common.Bytes.{Bytes, u16_max, to_le_bytes, from_le_bytes-to_le_bytes}
use strajer.Frame.{Frame}
use strajer.Frame.Shape.{IsFrame, framed, new-framed, framed-IsFrame}
use strajer.Game.{
  PlayerAction, max_incoming_action_frame_bytes, incoming_action_packet_id,
  incoming_action_2_packet_id,
}
use strajer.Game.Groups.{IsAction, IsGroup, concat, group_actions_lem}
use strajer.Game.Incoming.{encode_groups, incoming_action_frames, decode, packet_fragment}
use strajer.Game.RoundTrip.{
  group_payload, encode_action_group_lem, decode_final, decode_fragment, framed_group-IsFrame,
  length-action_records,
}

length-concat : (gs : List (List PlayerAction)) → All IsGroup gs → length gs ≤ length (concat gs)
length-concat [] h = omega arith
length-concat ([] ∷ gs) h = absurd (omega (arith, h.0.0))
length-concat ((a ∷ g) ∷ gs) h = omega (arith, length-concat gs h.1, length-append g (concat gs))

module _ (hash : Bytes → ℕ) where
  -- A truthful frame of at most 1,460 bytes that decodes to this.
  abbrev pub Sends : Frame → Bool → ℕ → List PlayerAction → Type 0
  Sends f fragment time actions =
      IsFrame f
      × (f.frame_length ≤ max_incoming_action_frame_bytes)
      × (decode hash f
          ≡ ok (record { fragment = fragment; time_increment_ms = time; actions = actions }))

  -- One frame for each group: fragments that leave the time as it is, then the frame that advances it.
  abbrev pub IsTimeslot : ℕ → List (List PlayerAction) → List Frame → Type 0
  IsTimeslot time [] fs = ⊥
  IsTimeslot time (g ∷ gs) [] = ⊥
  IsTimeslot time (g ∷ []) (f ∷ []) = Sends f false time g
  IsTimeslot time (g ∷ []) (f ∷ f' ∷ fs) = ⊥
  IsTimeslot time (g ∷ h ∷ gs) (f ∷ fs) = Sends f true 0 g × IsTimeslot time (h ∷ gs) fs

  Sends-group :
      (id time : ℕ) (fragment : Bool) (g : List PlayerAction)
      → id < 256
      → IsGroup g
      → decode hash (framed id (group_payload hash time g))
        ≡ ok (record { fragment = fragment; time_increment_ms = time; actions = g })
      → Sends (framed id (group_payload hash time g)) fragment time g
  Sends-group id time fragment g b h e =
      (framed_group-IsFrame hash id time g b h, omega (arith, length-action_records g), e)

  encode_groups-IsTimeslot :
      (time : ℕ) (g : List PlayerAction) (gs : List (List PlayerAction))
      → time ≤ u16_max
      → All IsGroup (g ∷ gs)
      → (fs : List Frame) × (encode_groups hash time (g ∷ gs) ≡ ok fs) × IsTimeslot time (g ∷ gs) fs
  unfolding encode_groups
  encode_groups-IsTimeslot time g [] t h = (
    framed incoming_action_packet_id (group_payload hash time g) ∷ [],
    rw (encode_action_group_lem hash incoming_action_packet_id time g h.0),
    Sends-group incoming_action_packet_id time false g (omega arith) h.0
        (decode_final hash time g h.0 t),
  )
  encode_groups-IsTimeslot time g (g' ∷ gs) t h =
      let (fs, e, slot) = encode_groups-IsTimeslot time g' gs t h.1 in
      (
        framed incoming_action_2_packet_id (group_payload hash 0 g) ∷ fs,
        rw (encode_action_group_lem hash incoming_action_2_packet_id 0 g h.0, e),
        (
          Sends-group incoming_action_2_packet_id 0 true g (omega arith) h.0
              (decode_fragment hash g h.0),
          slot,
        ),
      )

  encode_batch :
      (time : ℕ) (a : PlayerAction) (rest : List PlayerAction) (gs : List (List PlayerAction))
      → time ≤ u16_max
      → All IsGroup gs
      → concat gs ≡ a ∷ rest
      → (fs : List Frame) × (encode_groups hash time gs ≡ ok fs) × IsTimeslot time gs fs
  encode_batch time a rest [] t h e = absurd (cc e)
  encode_batch time a rest (g ∷ gs) t h e = encode_groups-IsTimeslot time g gs t h

  empty_slot-Sends :
      (time : ℕ)
      → time ≤ u16_max
      → Sends (framed incoming_action_packet_id (to_le_bytes 2 time)) false time []
  empty_slot-Sends time t = (
    framed-IsFrame incoming_action_packet_id _ (omega arith) (omega arith) (omega arith),
    omega arith,
    unfold decode packet_fragment in ground (arith, from_le_bytes-to_le_bytes 2 time (omega arith)),
  )

  IsTimeslot-length :
      (time : ℕ) (gs : List (List PlayerAction)) (fs : List Frame)
      → IsTimeslot time gs fs
      → length fs ≡ length gs
  IsTimeslot-length time [] fs h = absurd h
  IsTimeslot-length time (g ∷ gs) [] h = absurd h
  IsTimeslot-length time (g ∷ []) (f ∷ []) h = refl
  IsTimeslot-length time (g ∷ []) (f ∷ f' ∷ fs) h = absurd h
  IsTimeslot-length time (g ∷ g' ∷ gs) (f ∷ fs) h =
      omega (arith, IsTimeslot-length time (g' ∷ gs) fs h.1)

  -- For every 16-bit time increment and every batch of valid actions, empty or not,
  -- `incoming_action_frames` returns frames of at most 1,460 bytes each. Decoded one by one they give
  -- all the actions of the batch in their order, and only the last of them advances the time. There are
  -- at most one more of them than actions.
  pub incoming_action_frames_lem :
      (time : ℕ) (actions : List PlayerAction)
      → time ≤ u16_max
      → All IsAction actions
      → (fs : List Frame) × (gs : List (List PlayerAction)) × (incoming_action_frames hash time
            actions
          ≡ ok fs)
        × IsTimeslot time gs fs
        × (concat gs ≡ actions)
        × (length fs ≤ 1 + length actions)
  unfolding incoming_action_frames
  incoming_action_frames_lem time [] t h = (
    framed incoming_action_packet_id (to_le_bytes 2 time) ∷ [],
    [] ∷ [],
    rw (new-framed incoming_action_packet_id (to_le_bytes 2 time) (omega arith)),
    empty_slot-Sends time t,
    refl,
    omega arith,
  )
  incoming_action_frames_lem time (a ∷ rest) t h =
      let (gs, e, groups, all) = group_actions_lem a rest h in
      let (fs, encoded, slot) = encode_batch time a rest gs t groups all in
      (
        fs,
        gs,
        rw e encoded,
        slot,
        all,
        omega (arith, IsTimeslot-length time gs fs slot, length-concat gs groups, ap length all),
      )
