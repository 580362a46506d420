-- ===== src/Tests/Packets.antt =====
-- Join requests and packets about players.
use strajer.Common.{◌≡◌, refl, List, [], ◌∷◌, ok, arith}
use strajer.Common.Bytes.{Bytes}
use strajer.Frame.{Frame}
use strajer.Frame.Shape.{framed}
use strajer.Joining
use strajer.Joining.{ReqJoin, req_join_packet_id}
use strajer.Joining.Layout.{layout, IsRequest, decode-layout, decode-layout_sound}
use strajer.Players.{SocketAddrV4, leave_request_packet_id}
use strajer.Slots.{SlotData, SlotInfo, melee, new_slot_info, open_slot, occupied_human}

abbrev request : ReqJoin
request = record {
  host_counter = 7;
  entry_key = 0x5354_524A;
  unknown = 0;
  listen_port = 6112;
  join_counter = 1;
  player_name = b'a' ∷ b'n' ∷ b'n' ∷ [];
  tail = 1 ∷ 2 ∷ [];
}

request-IsRequest : IsRequest request
request-IsRequest = record {
  host_counter = omega arith;
  entry_key = omega arith;
  listen_port = omega arith;
  join_counter = omega arith;
  no_nul = omega arith;
  named = omega arith;
  short = omega arith;
}

decode-layout_example : Joining.decode (framed req_join_packet_id (layout request)) ≡ ok request
decode-layout_example = decode-layout request request-IsRequest

request_frame_test : Joining.decode (framed req_join_packet_id (layout request)) ≡ ok request
unfolding Joining.decode Joining.read_u16_le Joining.read_u32_le Joining.position_nul
request_frame_test = refl

decode-layout_sound_example :
    (0x1E ≡ req_join_packet_id) × (layout request ≡ layout request) × IsRequest request
decode-layout_sound_example =
    decode-layout_sound (framed req_join_packet_id (layout request)) request (omega arith)
      request_frame_test

abbrev short_name : Bytes
short_name = b'a' ∷ []

abbrev home : SocketAddrV4
home = record { o0 = 127; o1 = 0; o2 = 0; o3 = 1; port = 6112 }

abbrev leave_request : Frame
leave_request = framed leave_request_packet_id (7 ∷ 0 ∷ 0 ∷ 0 ∷ [])

abbrev two_slots : List SlotData
two_slots = occupied_human 1 0 0 0x01 ∷ open_slot 1 1 0x20 ∷ []

abbrev two_slot_info : SlotInfo
two_slot_info = record { slots = two_slots; random_seed = 77; layout = melee; player_slots = 2 }

two_slots_valid : new_slot_info two_slots 77 melee 2 ≡ ok two_slot_info
unfolding new_slot_info
two_slots_valid = refl
