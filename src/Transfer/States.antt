-- ===== src/Transfer/States.antt =====
-- apps/strajer-agent/src/main.rs: `MapTransferState`, `handle_map_size` and `advance_map_transfer`. The
-- preparation of the map runs beside the session: what has come of it when a timer fires is an
-- argument, and so is whether the stream takes what is written.
use strajer.Common.{
  ℕ, ◌-◌, Bool, true, false, not, ◌&&◌, List, [], ◌∷◌, Option, none, some, ltb, ◌==◌, Result, ok,
  err, ◌>>=◌, map_err, if◌then◌else◌,
}
use mathlib.Core.Option.{map}
use strajer.Common.Bytes.{Bytes}
use strajer.Frame.{Frame}
use strajer.Maps.{
  MapSize, MapTransferError, decode_map_size, has_map, continues_download, start_download_frame,
}
use strajer.Transfer
use strajer.Transfer.{
  ActiveMapTransfer, TransferError, Sending, acknowledge, pending_frames, should_log_progress,
  status, outside_map, unsupported_flag, inconsistent_state, preparation_timed_out,
  preparation_failed, transfer_timed_out, transfer_stalled, packet, not_written,
  map_preparation_timeout, map_transfer_stall_timeout, map_transfer_total_timeout,
}

pub record PreparingMapTransfer : Type 0 where
  pub from_player_id : ℕ
  pub to_player_id : ℕ
  pub started_at : ℕ

pub data MapTransferState : Type 0 where
  awaiting_status : MapTransferState
  preparing : PreparingMapTransfer → MapTransferState
  downloading : ActiveMapTransfer → MapTransferState
  verified : MapTransferState

-- What the transfer reads of `LobbySessionConfig`.
pub record TransferConfig : Type 0 where
  pub file_size : ℕ
  pub host_player_id : ℕ

-- The state behind a handler, the frames written, and what it returned.
pub record Handled : Type 0 where
  pub state : MapTransferState
  pub written : List Frame
  pub result : Result TransferError Bool

abbrev pub fail : MapTransferState → TransferError → Handled
fail state e = record { state = state; written = []; result = err e }

abbrev pub is_verified : MapTransferState → Bool
is_verified verified = true
is_verified _ = false

-- The first status of a game that needs the map.
abbrev pub begin_download : TransferConfig → ℕ → Bool → ℕ → Result MapTransferError Frame → Handled
begin_download c player_id writes now (err e) = fail awaiting_status (packet e)
begin_download c player_id false now (ok f) = fail awaiting_status not_written
begin_download c player_id true now (ok f) = record {
  state =
      preparing
        (record { from_player_id = c.host_player_id; to_player_id = player_id; started_at = now });
  written = f ∷ [];
  result = ok false;
}

-- The progress of a download, which `should_log_progress` notes.
abbrev pub acknowledged :
    ActiveMapTransfer → Result TransferError (Bool × ActiveMapTransfer) → Handled
acknowledged t (err e) = fail (downloading t) e
acknowledged t (ok (advanced, u)) = record {
  state = downloading (if advanced then (should_log_progress u).1 else u);
  written = [];
  result = ok false;
}

-- The `match` on the state at the end of `handle_map_size`.
unfoldable pub on_status : TransferConfig → ℕ → Bool → ℕ → MapSize → MapTransferState → Handled
unfolding start_download_frame acknowledge
on_status c player_id writes now m awaiting_status =
    begin_download c player_id writes now (start_download_frame c.host_player_id)
on_status c player_id writes now m (preparing p) = record {
  state = preparing p;
  written = [];
  result = ok false;
}
on_status c player_id writes now m (downloading t) =
    if continues_download m
    then acknowledged t (acknowledge m.map_size now t)
    else record { state = downloading t; written = []; result = ok false }
on_status c player_id writes now m verified = fail verified inconsistent_state

-- `handle_map_size` behind `MapSize::decode`.
unfoldable pub handle_status : TransferConfig → ℕ → Bool → ℕ → MapSize → MapTransferState → Handled
unfolding on_status
handle_status c player_id writes now m state =
    if has_map m && (m.map_size == c.file_size)
    then record { state = verified; written = []; result = ok (not (is_verified state)) }
    else if ltb c.file_size m.map_size
    then fail state (outside_map m.map_size c.file_size)
    else if not (has_map m) && not (continues_download m)
    then fail state (unsupported_flag m.size_flag)
    else on_status c player_id writes now m state

abbrev pub decoded : Result TransferError MapSize → MapTransferState → (MapSize → Handled) → Handled
decoded (err e) state k = fail state e
decoded (ok m) state k = k m

unfoldable pub handle_map_size : TransferConfig → ℕ → Bool → ℕ → Frame → MapTransferState → Handled
unfolding decode_map_size handle_status
handle_map_size c player_id writes now f state =
    decoded (map_err status (decode_map_size f)) state
      λ m. handle_status c player_id writes now m state

-- What a window has come to: its frames, if the stream takes them, or the error.
abbrev pub write_frames : Bool → ActiveMapTransfer → Result TransferError (List Frame) → Handled
write_frames writes t (err e) = fail (downloading t) e
write_frames true t (ok fs) = record { state = downloading t; written = fs; result = ok false }
write_frames false t (ok fs) = fail (downloading t) not_written

module _ (hash : Bytes → ℕ) where
  -- The end of `advance_map_transfer`, behind the preparation.
  unfoldable pub send_pending : Bool → ℕ → MapTransferState → Option Handled
  unfolding pending_frames
  send_pending writes now (downloading t) =
      if ltb map_transfer_total_timeout (now - t.started_at)
      then some (fail (downloading t) transfer_timed_out)
      else if ltb map_transfer_stall_timeout (now - t.last_progress_at)
      then some (fail (downloading t) transfer_stalled)
      else map (λ s. write_frames writes s.transfer s.frames) (pending_frames hash t)
  send_pending writes now state = some (record { state = state; written = []; result = ok false })

  -- A transfer that has begun, or the reason why it has not.
  unfoldable pub start_transfer : Bool → ℕ → Result TransferError ActiveMapTransfer → Option Handled
  unfolding send_pending
  start_transfer writes now (err e) = some (fail awaiting_status e)
  start_transfer writes now (ok t) = send_pending writes now (downloading t)

  -- `prepared` is what `MapCache::load` has returned, if it has. A panic of its task is an error too.
  unfoldable pub advance_map_transfer :
      TransferConfig
      → Option (Result TransferError Bytes)
      → Bool
      → ℕ
      → MapTransferState
      → Option Handled
  unfolding start_transfer Transfer.new
  advance_map_transfer c prepared writes now (preparing p) =
      if ltb map_preparation_timeout (now - p.started_at)
      then some (fail (preparing p) preparation_timed_out)
      else elim prepared [
        | none ↦ some (record { state = preparing p; written = []; result = ok false })
        | some loaded ↦
            start_transfer writes now (
              loaded >>= λ bytes.
              Transfer.new bytes p.from_player_id p.to_player_id c.file_size now)
      ]
  advance_map_transfer c prepared writes now state = send_pending writes now state
