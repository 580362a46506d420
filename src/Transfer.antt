-- ===== src/Transfer.antt =====
-- apps/strajer-agent/src/main.rs: the transfer of a map to the game beside the agent
-- (`ActiveMapTransfer`). The clock is a number of milliseconds, and the checksum of
-- crc32fast the parameter `hash`.
pub mod States
pub mod Receiving
pub mod Windows
pub mod Written
pub mod Statuses
pub mod Timers
pub mod Runs
pub mod Delivery
use strajer.Common.{
  ℕ, zero, suc, ◌+◌, ◌-◌, ◌*◌, ◌/◌, ◌%◌, ◌^◌, Bool, true, false, not, ◌&&◌, List, [], ◌∷◌, Option,
  none, some, ltb, leb, ◌==◌, Result, ok, err, ◌>>=◌, ◌>>◌, reject_if, if◌then◌else◌, length, take,
  drop,
}
use strajer.Common.Bytes.{Bytes, u8_max, u32_max}
use strajer.Frame.{Frame}
use strajer.Maps.{MapSizeError, MapTransferError, map_part_data_bytes, map_part_frame}

abbrev pub map_transfer_window_parts : ℕ
map_transfer_window_parts = 100

-- The time of preparing, stalling and of a whole transfer, in milliseconds.
abbrev pub map_preparation_timeout : ℕ
map_preparation_timeout = 300000

abbrev pub map_transfer_stall_timeout : ℕ
map_transfer_stall_timeout = 60000

abbrev pub map_transfer_total_timeout : ℕ
map_transfer_total_timeout = 300000

pub data TransferError : Type 0 where
  wrong_size : (actual expected : ℕ) → TransferError
  outside_map : (offset size : ℕ) → TransferError
  map_too_large : TransferError
  status : MapSizeError → TransferError
  unsupported_flag : ℕ → TransferError
  inconsistent_state : TransferError
  preparation_timed_out : TransferError
  preparation_failed : TransferError
  transfer_timed_out : TransferError
  transfer_stalled : TransferError
  packet : MapTransferError → TransferError
  not_written : TransferError

pub record ActiveMapTransfer : Type 0 where
  pub bytes : Bytes
  pub from_player_id : ℕ
  pub to_player_id : ℕ
  pub next_offset : ℕ
  pub acknowledged_offset : ℕ
  pub started_at : ℕ
  pub last_progress_at : ℕ
  pub last_logged_percent : ℕ

-- `ActiveMapTransfer::new`, with `Instant::now()` as `now`.
unfoldable pub new : Bytes → ℕ → ℕ → ℕ → ℕ → Result TransferError ActiveMapTransfer
new bytes from_player_id to_player_id expected_size now = do
  reject_if (not (length bytes == expected_size)) (wrong_size (length bytes) expected_size)
  ok (record {
    bytes = bytes;
    from_player_id = from_player_id;
    to_player_id = to_player_id;
    next_offset = 0;
    acknowledged_offset = 0;
    started_at = now;
    last_progress_at = now;
    last_logged_percent = 0;
  })

-- Whether the offset is new, and the transfer behind it.
unfoldable pub acknowledge :
    ℕ → ℕ → ActiveMapTransfer → Result TransferError (Bool × ActiveMapTransfer)
acknowledge offset now t = do
  reject_if (ltb u32_max (length t.bytes)) map_too_large
  reject_if (ltb (length t.bytes) offset) (outside_map offset (length t.bytes))
  if leb offset t.acknowledged_offset
      then ok (false, t)
      else ok (true, record t { acknowledged_offset = offset; last_progress_at = now })

-- The transfer behind a call, and what the call returned.
pub record Sending : Type 0 where
  pub transfer : ActiveMapTransfer
  pub frames : Result TransferError (List Frame)

abbrev pub smaller : ℕ → ℕ → ℕ
smaller a b = if ltb a b then a else b

-- `acknowledged_offset.saturating_add(window_size)`
abbrev pub window_end : ActiveMapTransfer → ℕ
window_end t =
    smaller u32_max (t.acknowledged_offset + map_part_data_bytes * map_transfer_window_parts)

-- `start.saturating_add(MAP_PART_DATA_BYTES).min(data.len())`, for a `start` of 32 bits.
abbrev pub part_end : ActiveMapTransfer → ℕ
part_end t = smaller (t.next_offset + map_part_data_bytes) (length t.bytes)

-- `&data[start..end]`
abbrev pub part_bytes : ActiveMapTransfer → Bytes
part_bytes t = take (part_end t - t.next_offset) (drop t.next_offset t.bytes)

-- A frame before those of the rounds that follow, or its error.
abbrev pub push :
    ActiveMapTransfer → Result MapTransferError Frame → Option Sending → Option Sending
push t (err e) rest = some (record { transfer = t; frames = err (packet e) })
push t (ok f) none = none
push t (ok f) (some s) =
    some (record { transfer = s.transfer; frames = s.frames >>= λ fs. ok (f ∷ fs) })

module _ (hash : Bytes → ℕ) where
  -- The loop of `pending_frames`; `none` stands for a loop that has not ended.
  unfoldable pub pending_loop : ℕ → ℕ → ℕ → ActiveMapTransfer → Option Sending
  pending_loop zero map_size last t = none
  pending_loop (suc fuel) map_size last t =
      let rest = pending_loop fuel map_size last (record t { next_offset = part_end t }) in
      if ltb t.next_offset map_size && ltb t.next_offset last
      then push t (map_part_frame hash t.from_player_id t.to_player_id t.next_offset (part_bytes t))
          rest
      else some (record { transfer = t; frames = ok [] })

  unfoldable pub pending_frames : ActiveMapTransfer → Option Sending
  unfolding pending_loop
  pending_frames t =
      if ltb u32_max (length t.bytes)
      then some (record { transfer = t; frames = err map_too_large })
      else pending_loop (suc (length t.bytes)) (length t.bytes) (window_end t) t

-- `progress_percent`
abbrev pub progress_percent : ActiveMapTransfer → ℕ
progress_percent t =
    if length t.bytes == 0 then 0 else ((t.acknowledged_offset * 100) / length t.bytes) % 2 ^ 8

abbrev pub should_log_progress : ActiveMapTransfer → Bool × ActiveMapTransfer
should_log_progress t =
    let percent = progress_percent t in
    if ltb percent (smaller u8_max (t.last_logged_percent + 10)) && not (percent == 100)
    then (false, t)
    else (true, record t { last_logged_percent = percent })
