-- ===== src/Slots/Tables.antt =====
-- A table of slots on the wire: its length field tells where it ends, and it can always be sent.
use strajer.Common.{
  ℕ, ◌+◌, ◌*◌, ◌≤◌, ◌<◌, ◌≡◌, ◌↔◌, refl, List, [], ◌∷◌, ◌++◌, ok, length, length-append, take, true,
  arith,
}
use strajer.Common.Bytes.{Bytes, to_le_bytes, from_le_bytes, from_le_bytes-to_le_bytes}
use strajer.Frame.Shape.{framed, new-framed}
use strajer.Players.{SocketAddrV4, encode_ipv4_socket_address}
use strajer.Slots.{
  SlotData, SlotInfo, SlotLayout, new_slot_info, encode_slot, encode_slots, encode_payload,
  slot_info_frame, join_frame, assigned_slot_exists, layout_code, max_slot_count,
  slot_info_packet_id, slot_info_join_packet_id,
}

encode_slots-length : (slots : List SlotData) → length (encode_slots slots) ≡ 9 * length slots
unfolding encode_slots encode_slot
encode_slots-length [] = refl
encode_slots-length (s ∷ slots) = omega (arith, encode_slots-length slots)

encode_payload-length : (i : SlotInfo) → length (encode_payload i) ≡ 9 + 9 * length i.slots
unfolding encode_payload
encode_payload-length i = omega (
  arith,
  encode_slots-length i.slots,
  length-append (encode_slots i.slots)
      (to_le_bytes 4 i.random_seed ++ (layout_code i.layout ∷ i.player_slots ∷ [])),
)

few_slots :
    (slots : List SlotData) (random_seed : ℕ) (layout : SlotLayout) (player_slots : ℕ)
    (i : SlotInfo)
    → new_slot_info slots random_seed layout player_slots ≡ ok i
    → length i.slots ≤ max_slot_count
unfolding new_slot_info
few_slots slots random_seed layout player_slots i h = ground arith

declared-length :
    (i : SlotInfo)
    → length i.slots ≤ max_slot_count
    → 2 + from_le_bytes (take 2 (encode_payload i)) ≡ length (encode_payload i)
declared-length i few =
    let n : ℕ = 7 + 9 * length i.slots in
    let field : from_le_bytes (take 2 (encode_payload i)) ≡ n =
      unfold encode_payload in omega (arith, from_le_bytes-to_le_bytes 2 n (omega arith)) in
    omega (arith, field, encode_payload-length i)

-- The table that `SlotInfo::new` accepts can always be sent, and its length field, the first two bytes,
-- is the number of bytes behind it.
pub slot_info_frame_lem :
    (slots : List SlotData) (random_seed : ℕ) (layout : SlotLayout) (player_slots : ℕ)
    (i : SlotInfo)
    → new_slot_info slots random_seed layout player_slots ≡ ok i
    → (slot_info_frame i ≡ ok (framed slot_info_packet_id (encode_payload i)))
      × (2 + from_le_bytes (take 2 (encode_payload i)) ≡ length (encode_payload i))
unfolding slot_info_frame
slot_info_frame_lem slots random_seed layout player_slots i h =
    let few = few_slots slots random_seed layout player_slots i h in
    (
      ground (
        arith,
        new-framed slot_info_packet_id (encode_payload i) (omega (arith, encode_payload-length i)),
      ),
      declared-length i few,
    )

-- With the table that `SlotInfo::new` accepts, a player is told of its own id and address exactly if
-- the id is positive and an occupied slot has it.
pub join_frame_iff :
    (slots : List SlotData) (random_seed : ℕ) (layout : SlotLayout) (player_slots : ℕ)
    (i : SlotInfo) (player_id : ℕ) (address : SocketAddrV4)
    → new_slot_info slots random_seed layout player_slots ≡ ok i
    → (join_frame i player_id address
        ≡ ok (
            framed slot_info_join_packet_id
              (encode_payload i ++ (player_id ∷ encode_ipv4_socket_address address))))
      ↔ ((0 < player_id) × (assigned_slot_exists i player_id ≡ true))
unfolding join_frame encode_ipv4_socket_address
join_frame_iff slots random_seed layout player_slots i player_id address h =
    let few = few_slots slots random_seed layout player_slots i h in
    let more : Bytes = player_id ∷ encode_ipv4_socket_address address in
    let payload : Bytes = encode_payload i ++ more in
    ground (
      arith,
      new-framed slot_info_join_packet_id payload
          (omega (arith, length-append (encode_payload i) more, encode_payload-length i)),
    )
