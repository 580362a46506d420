-- ===== src/Transfer/Delivery.antt =====
-- A download of apps/strajer-agent/src/main.rs to a game that acknowledges what it gets.
use strajer.Common.{
  ℕ, zero, suc, ◌+◌, ◌-◌, ◌≤◌, ◌<◌, ◌≡◌, refl, sym, ap, ◌∙◌, true, List, [], ◌++◌, some, ok, length,
  arith, take, take-length_append, append-nil,
}
use native.Mathlib.Decide.{dec_lt}
use strajer.Common.Bytes.{Bytes, u32_max}
use strajer.Frame.{Frame}
use strajer.Maps.Layout.{IsPeer}
use strajer.Transfer
use strajer.Transfer.{ActiveMapTransfer, Sending, smaller, acknowledge, pending_frames, window_end}
use strajer.Transfer.Receiving.{assemble, assemble-append}
use strajer.Transfer.Windows.{slice, slice-append, length-slice, IsTransfer, pending_frames-Sends}

-- Windows that are sent and then acknowledged, and the frames of them all.
pub data Rounds (hash : Bytes → ℕ) (now : ℕ)
    : ActiveMapTransfer → ActiveMapTransfer → List Frame → Type 0 where
  rests : {t : ActiveMapTransfer} → Rounds hash now t t []
  round :
      {t u v w : ActiveMapTransfer} {parts later : List Frame}
      → pending_frames hash t ≡ some (record { transfer = u; frames = ok parts })
      → acknowledge u.next_offset now u ≡ ok (true, v)
      → Rounds hash now v w later
      → Rounds hash now t w (parts ++ later)

-- Rounds to the end of the map, of whose parts a receiver puts together all that was missing.
pub record Delivers (hash : Bytes → ℕ) (now : ℕ) (t : ActiveMapTransfer) : Type 0 where
  pub last : ActiveMapTransfer
  pub parts : List Frame
  pub rounds : Rounds hash now t last parts
  pub complete : last.acknowledged_offset ≡ length t.bytes
  pub assembled :
      assemble hash t.from_player_id t.to_player_id t.next_offset parts
      ≡ some (slice t.next_offset (length t.bytes) t.bytes)

module _ (hash : Bytes → ℕ) (now : ℕ) where
  acknowledge_next :
      (t : ActiveMapTransfer) (stop : ℕ)
      → length t.bytes ≤ u32_max
      → stop ≤ length t.bytes
      → t.acknowledged_offset < stop
      → acknowledge stop now (record t { next_offset = stop })
        ≡ ok (
          true,
          record t { next_offset = stop; acknowledged_offset = stop; last_progress_at = now },
        )
  unfolding acknowledge
  acknowledge_next t stop addressed inside newer = ground arith

  at_end :
      (t : ActiveMapTransfer)
      → IsTransfer t
      → t.acknowledged_offset ≡ t.next_offset
      → length t.bytes ≤ t.next_offset
      → Delivers hash now t
  at_end t v same reached =
      let nothing : length t.bytes - t.next_offset ≡ 0 = omega arith in
      record {
        last = t;
        parts = [];
        rounds = rests;
        complete = omega (arith, v.within);
        assembled = rw nothing refl;
      }

  window_further :
      (t : ActiveMapTransfer) (stop : ℕ)
      → IsTransfer t
      → t.acknowledged_offset ≡ t.next_offset
      → t.next_offset < length t.bytes
      → smaller (window_end t) (length t.bytes) ≤ stop
      → t.next_offset < stop
  window_further t stop v same more reached = ground (arith, v.addressed)

  deliver :
      (fuel : ℕ) (t : ActiveMapTransfer)
      → IsTransfer t
      → t.acknowledged_offset ≡ t.next_offset
      → length t.bytes ≤ fuel + t.next_offset
      → Delivers hash now t
  deliver zero t v same enough = at_end t v same (omega arith)
  deliver (suc fuel) t v same enough = elim (dec_lt t.next_offset (length t.bytes)) [
    | no over ↦ at_end t v same (omega arith)
    | yes more ↦
        let s = pending_frames-Sends hash t v in
        let further = window_further t s.stop v same more s.all_of_window in
        let u : ActiveMapTransfer = record t {
          next_offset = s.stop;
          acknowledged_offset = s.stop;
          last_progress_at = now;
        } in
        let rest =
          deliver fuel u
            (record {
              sender = v.sender;
              receiver = v.receiver;
              within = s.inside;
              addressed = v.addressed;
            })
            refl (omega arith) in
        record {
          last = rest.last;
          parts = s.parts ++ rest.parts;
          rounds =
              round s.sent (acknowledge_next t s.stop v.addressed s.inside (omega arith))
                rest.rounds;
          complete = rest.complete;
          assembled =
              assemble-append hash t.from_player_id t.to_player_id t.next_offset s.stop s.parts
                rest.parts (slice t.next_offset s.stop t.bytes)
                (slice s.stop (length t.bytes) t.bytes) s.assembled
                (omega (arith, length-slice t.next_offset s.stop t.bytes (omega arith) s.inside))
                rest.assembled
              ∙ ap some (
                  slice-append t.next_offset s.stop (length t.bytes) t.bytes (omega arith)
                    s.inside);
        }
  ]

whole : (map : Bytes) → slice 0 (length map) map ≡ map
whole map =
    let all_of_it : length map - 0 ≡ length map = omega arith in
    rw (all_of_it, sym (ap (take (length map)) (append-nil map))) (take-length_append map [])

delivered_whole :
    (hash : Bytes → ℕ) (now : ℕ) (map : Bytes) (t : ActiveMapTransfer) (d : Delivers hash now t)
    (k j : ℕ)
    → t.bytes ≡ map
    → t.from_player_id ≡ k
    → t.to_player_id ≡ j
    → t.next_offset ≡ 0
    → assemble hash k j 0 d.parts ≡ some map
delivered_whole hash now map t d k j same_map sender receiver start =
    rw (same_map, sender, receiver, start) at d.assembled ∙ ap some (whole map)

new_fields :
    (hash : Bytes → ℕ) (now : ℕ) (map : Bytes) (k j size : ℕ) (t : ActiveMapTransfer)
    → Transfer.new map k j size now ≡ ok t
    → (t.bytes ≡ map)
      × (t.from_player_id ≡ k)
      × (t.to_player_id ≡ j)
      × ((t.next_offset ≡ 0) × (t.acknowledged_offset ≡ 0))
      × (length map ≡ size)
unfolding Transfer.new
new_fields hash now map k j size t e =
    (ground arith, ground arith, ground arith, (ground arith, ground arith), ground arith)

-- A download of a map of less than 4 GiB, in which the game acknowledges each window, runs to the end of the
-- map without an error, and a receiver puts together the whole map from its parts.
pub new-Delivers :
    (hash : Bytes → ℕ) (now : ℕ) (map : Bytes) (from_player_id to_player_id expected_size : ℕ)
    (t : ActiveMapTransfer)
    → IsPeer from_player_id
    → IsPeer to_player_id
    → expected_size ≤ u32_max
    → Transfer.new map from_player_id to_player_id expected_size now ≡ ok t
    → (last : ActiveMapTransfer) × (parts : List Frame) × Rounds hash now t last parts
      × (last.acknowledged_offset ≡ length map)
      × (assemble hash from_player_id to_player_id 0 parts ≡ some map)
unfolding Transfer.new
new-Delivers hash now map k j size t hk hj addressed e =
    let (same_map, sender, receiver, start, size_of_map) = new_fields hash now map k j size t e in
    let d =
      deliver hash now (length map) t
        (record {
          sender = rw sender hk;
          receiver = rw receiver hj;
          within = omega (arith, start);
          addressed = rw same_map (omega (arith, size_of_map));
        })
        (omega arith) (rw same_map (omega arith)) in
    (
      d.last,
      d.parts,
      d.rounds,
      d.complete ∙ ap length same_map,
      delivered_whole hash now map t d k j same_map sender receiver start.0,
    )
