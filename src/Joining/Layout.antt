-- ===== src/Joining/Layout.antt =====
-- The layout of the join request, written as an encoder, against `ReqJoin::decode`.
use strajer.Common.{
  ℕ, zero, suc, ◌≤◌, ◌<◌, ◌≡◌, refl, [], ◌∷◌, ◌++◌, some, ok, All, length, take, drop, arith,
  take-length_append, length-append, Option-cases, inl, inr,
}
use strajer.Common.Bytes.{
  Bytes, IsByte, u16_max, u32_max, to_le_bytes, from_le_bytes, from_le_bytes-to_le_bytes,
  to_le_bytes-from_le_bytes,
}
use strajer.Frame.{Frame, FrameHeader}
use strajer.Frame.Shape.{framed}
use strajer.Joining.{
  ReqJoin, req_join_packet_id, max_player_name_bytes, position_nul, read_u16_le, read_u32_le,
  decode,
}

-- The payload of a request: five numbers, the name with its terminator, and whatever follows.
abbrev pub layout : ReqJoin → Bytes
layout j =
    to_le_bytes 4 j.host_counter
    ++ (to_le_bytes 4 j.entry_key
        ++ (j.unknown
            ∷ (to_le_bytes 2 j.listen_port
                ++ (to_le_bytes 4 j.join_counter ++ (j.player_name ++ (0 ∷ j.tail))))))

pub record IsRequest (j : ReqJoin) : Type 0 where
  pub host_counter : j.host_counter ≤ u32_max
  pub entry_key : j.entry_key ≤ u32_max
  pub listen_port : j.listen_port ≤ u16_max
  pub join_counter : j.join_counter ≤ u32_max
  pub no_nul : All (λ b. 0 < b) j.player_name
  pub named : 0 < length j.player_name
  pub short : length j.player_name ≤ max_player_name_bytes

position_nul-append :
    (name tail : Bytes)
    → All (λ b. 0 < b) name
    → position_nul (name ++ (0 ∷ tail)) ≡ some (length name)
unfolding position_nul
position_nul-append [] tail h = refl
position_nul-append (b ∷ name) tail h = ground (arith, position_nul-append name tail h.1)

drop-after : (name tail : Bytes) → drop (suc (length name)) (name ++ (0 ∷ tail)) ≡ tail
drop-after [] tail = refl
drop-after (b ∷ name) tail = drop-after name tail

-- Every request in its layout is read back.
pub decode-layout :
    (j : ReqJoin) → IsRequest j → decode (framed req_join_packet_id (layout j)) ≡ ok j
unfolding decode read_u16_le read_u32_le
decode-layout j v = ground (
  arith,
  position_nul-append j.player_name j.tail v.no_nul,
  length-append j.player_name (0 ∷ j.tail),
  take-length_append j.player_name (0 ∷ j.tail),
  drop-after j.player_name j.tail,
  from_le_bytes-to_le_bytes 4 j.host_counter (omega arith),
  from_le_bytes-to_le_bytes 4 j.entry_key (omega arith),
  from_le_bytes-to_le_bytes 2 j.listen_port (omega arith),
  from_le_bytes-to_le_bytes 4 j.join_counter (omega arith),
)

-- The first terminator cuts a byte string into a name without one and the rest.
position_nul_sound :
    (bs : Bytes) (n : ℕ)
    → All IsByte bs
    → position_nul bs ≡ some n
    → (bs ≡ take n bs ++ (0 ∷ drop (suc n) bs))
      × All (λ b. 0 < b) (take n bs)
      × (length (take n bs) ≡ n)
unfolding position_nul
position_nul_sound [] n h e = absurd (cc e)
position_nul_sound (b ∷ bs) zero h e = ground (arith, e)
position_nul_sound (b ∷ bs) (suc n) h e = ground (arith, position_nul_sound bs n h.1)

-- The name and the tail that an accepted payload is cut into.
accepted_name :
    (header : FrameHeader) (a0 a1 a2 a3 b0 b1 b2 b3 c d0 d1 e0 e1 e2 e3 : ℕ) (rest : Bytes)
    (j : ReqJoin)
    → decode (record {
      header = header;
      payload = a0 ∷ a1 ∷ a2 ∷ a3 ∷ b0 ∷ b1 ∷ b2 ∷ b3 ∷ c ∷ d0 ∷ d1 ∷ e0 ∷ e1 ∷ e2 ∷ e3 ∷ rest;
    })
      ≡ ok j
    → (n : ℕ) × (position_nul rest ≡ some n)
      × (0 < n)
      × (n ≤ max_player_name_bytes)
      × (header.packet_id ≡ req_join_packet_id)
      × (j ≡ record {
        host_counter = from_le_bytes (a0 ∷ a1 ∷ a2 ∷ a3 ∷ []);
        entry_key = from_le_bytes (b0 ∷ b1 ∷ b2 ∷ b3 ∷ []);
        unknown = c;
        listen_port = from_le_bytes (d0 ∷ d1 ∷ []);
        join_counter = from_le_bytes (e0 ∷ e1 ∷ e2 ∷ e3 ∷ []);
        player_name = take n rest;
        tail = drop (suc n) rest;
      })
unfolding decode read_u16_le read_u32_le
accepted_name header a0 a1 a2 a3 b0 b1 b2 b3 c d0 d1 e0 e1 e2 e3 rest j h =
    elim (Option-cases (position_nul rest)) [
      | inl missing ↦ absurd (ground (arith, missing))
      | inr (n, found) ↦ (
        n,
        found,
        ground (arith, found),
        ground (arith, found),
        ground (arith, found),
        ground (arith, found),
      )
    ]

-- A frame of bytes that `ReqJoin::decode` accepts has the packet id and exactly the layout of the request
-- that it returns, whose name has 1 to 255 bytes, none of them the terminator.
pub decode-layout_sound :
    (f : Frame) (j : ReqJoin)
    → All IsByte f.payload
    → decode f ≡ ok j
    → (f.packet_id ≡ req_join_packet_id) × (f.payload ≡ layout j) × IsRequest j
decode-layout_sound f j v h = go f.header f.payload v h
  where
    go :
        (header : FrameHeader) (payload : Bytes)
        → All IsByte payload
        → decode (record { header = header; payload = payload }) ≡ ok j
        → (header.packet_id ≡ req_join_packet_id) × (payload ≡ layout j) × IsRequest j
    go header (a0 ∷ a1 ∷ a2 ∷ a3 ∷ b0 ∷ b1 ∷ b2 ∷ b3 ∷ c ∷ d0 ∷ d1 ∷ e0 ∷ e1 ∷ e2 ∷ e3 ∷ rest) v h =
        let (n, found, pos, short, id, same) =
          accepted_name header a0 a1 a2 a3 b0 b1 b2 b3 c d0 d1 e0 e1 e2 e3 rest j h in
        let bytes : All IsByte rest = v.1.1.1.1.1.1.1.1.1.1.1.1.1.1.1 in
        let (split, no_nul, size) = position_nul_sound rest n bytes found in
        let a : All IsByte (a0 ∷ a1 ∷ a2 ∷ a3 ∷ []) = omega arith in
        let b : All IsByte (b0 ∷ b1 ∷ b2 ∷ b3 ∷ []) = omega arith in
        let d : All IsByte (d0 ∷ d1 ∷ []) = omega arith in
        let e : All IsByte (e0 ∷ e1 ∷ e2 ∷ e3 ∷ []) = omega arith in
        rw same (
          id,
          ground (
            arith,
            split,
            to_le_bytes-from_le_bytes (a0 ∷ a1 ∷ a2 ∷ a3 ∷ []) a,
            to_le_bytes-from_le_bytes (b0 ∷ b1 ∷ b2 ∷ b3 ∷ []) b,
            to_le_bytes-from_le_bytes (d0 ∷ d1 ∷ []) d,
            to_le_bytes-from_le_bytes (e0 ∷ e1 ∷ e2 ∷ e3 ∷ []) e,
          ),
          record {
            host_counter = omega (arith, a);
            entry_key = omega (arith, b);
            listen_port = omega (arith, d);
            join_counter = omega (arith, e);
            no_nul = no_nul;
            named = omega (arith, pos, size);
            short = omega (arith, short, size);
          },
        )
    go header _ v h = absurd (unfold decode in ground arith)
