-- ===== src/Tests/Transfers.antt =====
-- The transfer of a map of five bytes.
use strajer.Common.{◌≡◌, refl, ap, true, false, List, [], ◌∷◌, ◌++◌, some, ok, length, arith}
use strajer.Common.Bytes.{Bytes, to_le_bytes}
use mathlib.Core.Path.{subst}
use strajer.Frame
use strajer.Frame.{Frame}
use strajer.Frame.Shape.{framed}
use strajer.Maps.{
  decode_map_size, start_download_frame, map_part_frame, map_part_payload, validate_player_id,
}
use strajer.Transfer
use strajer.Transfer.{ActiveMapTransfer, pending_loop, pending_frames, acknowledge, window_end}
use strajer.Transfer.Receiving.{assemble}
use strajer.Transfer.Windows.{Sends, pending_frames-Sends}
use strajer.Transfer.States.{
  Handled, downloading, preparing, awaiting_status, TransferConfig, handle_map_size, handle_status,
  on_status, advance_map_transfer, start_transfer, send_pending,
}
use strajer.Transfer.Written.{Run, Written, connects, reports, ticks}
use strajer.Transfer.Runs.{Run-Written}
use strajer.Transfer.Delivery.{Rounds, new-Delivers}
use strajer.Tests.Games.{sum}

abbrev small_map : Bytes
small_map = 1 ∷ 2 ∷ 3 ∷ 4 ∷ 5 ∷ []

abbrev small : ActiveMapTransfer
small = record {
  bytes = small_map;
  from_player_id = 12;
  to_player_id = 1;
  next_offset = 0;
  acknowledged_offset = 0;
  started_at = 7;
  last_progress_at = 7;
  last_logged_percent = 0;
}

small-new : Transfer.new small_map 12 1 5 7 ≡ ok small
unfolding Transfer.new
small-new = refl

new-Delivers_example :
    (last : ActiveMapTransfer) × (parts : List Frame) × Rounds sum 7 small last parts
    × (last.acknowledged_offset ≡ length small_map)
    × (assemble sum 12 1 0 parts ≡ some small_map)
new-Delivers_example =
    new-Delivers sum 7 small_map 12 1 5 small (omega arith, omega arith) (omega arith, omega arith)
      (omega arith) small-new

pending_frames-Sends_example : Sends sum (window_end small) small (pending_frames sum small)
pending_frames-Sends_example = pending_frames-Sends sum small (record {
  sender = (omega arith, omega arith);
  receiver = (omega arith, omega arith);
  within = omega arith;
  addressed = omega arith;
})

abbrev pub configured : TransferConfig
configured = record { file_size = 5; host_player_id = 12 }

-- A game without the map.
abbrev nothing_yet : Frame
nothing_yet = framed 0x42 (to_le_bytes 4 1 ++ (1 ∷ to_le_bytes 4 0))

abbrev asked : Handled
asked = record {
  state = preparing (record { from_player_id = 12; to_player_id = 1; started_at = 3 });
  written = framed 0x3F (to_le_bytes 4 1 ++ (12 ∷ [])) ∷ [];
  result = ok false;
}

asks : handle_map_size configured 1 true 3 nothing_yet awaiting_status ≡ asked
unfolding handle_map_size decode_map_size handle_status on_status start_download_frame
    validate_player_id Frame.new
asks = refl

asked-Run : Run sum small_map configured 1 asked.state ([] ++ asked.written)
asked-Run =
    subst (λ h. Run sum small_map configured 1 h.state ([] ++ h.written)) asks
      (reports connects true 3 nothing_yet false (ap (λ h. h.result) asks))

abbrev sent_all : Handled
sent_all = record {
  state = downloading (record small { next_offset = 5 });
  written = framed 0x43 (map_part_payload sum 12 1 0 small_map) ∷ [];
  result = ok false;
}

sends_all :
    advance_map_transfer sum configured (some (ok small_map)) true 7 asked.state ≡ some sent_all
unfolding advance_map_transfer start_transfer send_pending Transfer.new pending_frames pending_loop
    map_part_frame validate_player_id map_part_payload Frame.new
sends_all = refl

Run-Written_example :
    Written sum small_map configured 1 sent_all.state (([] ++ asked.written) ++ sent_all.written)
Run-Written_example =
    Run-Written sum small_map configured 1 sent_all.state
      (([] ++ asked.written) ++ sent_all.written) (omega arith, omega arith)
      (omega arith, omega arith) (omega arith)
      (ticks asked-Run true true 7 sent_all false sends_all refl)
