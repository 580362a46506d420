-- ===== src/Transfer/Runs.antt =====
-- The transfer of a map from the first status of the game to the last: `handle_map_size` and
-- `advance_map_transfer` of apps/strajer-agent/src/main.rs in any order.
use strajer.Common.{ℕ, ◌≤◌, refl, List, length}
use strajer.Common.Bytes.{Bytes, u32_max}
use strajer.Frame.{Frame}
use strajer.Maps.Layout.{IsPeer}
use strajer.Transfer.States.{MapTransferState, TransferConfig}
use strajer.Transfer.Written.{Written, Run, connects, reports, ticks}
use strajer.Transfer.Statuses.{handle_map_size-Leaves}
use strajer.Transfer.Timers.{advance_map_transfer-Advances}

-- Between a host and a player of the game, and of a map of less than 4 GiB, however the statuses of the game
-- and the timers follow each other: what has been written is nothing, or the packet that begins a
-- download and parts from which a receiver puts together the map up to some offset. In a download this
-- is the offset of the next part.
pub Run-Written :
    (hash : Bytes → ℕ) (map : Bytes) (c : TransferConfig) (player_id : ℕ) (state : MapTransferState)
    (frames : List Frame)
    → IsPeer c.host_player_id
    → IsPeer player_id
    → length map ≤ u32_max
    → Run hash map c player_id state frames
    → Written hash map c player_id state frames
Run-Written hash map c player_id _ _ host peer addressed connects = refl
Run-Written hash map c player_id _ _ host peer addressed
      (reports {state} {frames} run writes now f b e) =
    handle_map_size-Leaves hash map c player_id host peer writes now f state frames
      (Run-Written hash map c player_id state frames host peer addressed run) b e
Run-Written hash map c player_id _ _ host peer addressed
      (ticks {state} {frames} run prepared writes now h b e e') =
    advance_map_transfer-Advances hash map c player_id host peer addressed prepared writes now state
      frames (Run-Written hash map c player_id state frames host peer addressed run) h e b e'
