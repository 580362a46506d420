-- ===== src/Tests/Dispatches.antt =====
-- A game that has the map, and its agent.
use strajer.Common.{◌≡◌, refl, true, false, [], ◌∷◌, ◌++◌, Option, some}
use strajer.Common.Bytes.{to_le_bytes}
use strajer.Common.Texts.{Text}
use strajer.Frame.{Frame}
use strajer.Frame.Shape.{framed}
use strajer.Protocol.Messages.{AgentLobbyMessage}
use strajer.Remote.Sessions.{encode_agent_message, mark_ready}
use strajer.Maps.{decode_map_size}
use strajer.Transfer.States.{awaiting_status, verified, handle_map_size, handle_status}
use strajer.Dispatch.{LobbyGame, handle_lobby_frame, on_map_size}
use strajer.Dispatch.Ready.{starts, receives, Plays-verified}
use strajer.Dispatch.Statuses.{HasReport}
use strajer.Tests.Games.{sum}
use strajer.Tests.Updates.{watching}
use strajer.Tests.Transfers.{configured}

abbrev print_all : AgentLobbyMessage → Option Text
print_all m = some []

abbrev joined_game : LobbyGame
joined_game = record { map_transfer = awaiting_status; remote_session = watching; written = [] }

abbrev whole_map : Frame
whole_map = framed 0x42 (to_le_bytes 4 1 ++ (1 ∷ to_le_bytes 4 5))

ready_sent :
    (handle_lobby_frame sum print_all true true configured 1 false 3 whole_map
      joined_game).behind.remote_session.ready_sent
    ≡ true
unfolding handle_lobby_frame on_map_size handle_map_size decode_map_size handle_status mark_ready
    encode_agent_message
ready_sent = refl

Plays-verified_example :
    ((handle_lobby_frame sum print_all true true configured 1 false 3 whole_map
        joined_game).behind.map_transfer
      ≡ verified)
    × HasReport configured (whole_map ∷ [])
Plays-verified_example =
    Plays-verified true configured 1 sum print_all true joined_game
      (handle_lobby_frame sum print_all true true configured 1 false 3 whole_map joined_game).behind
      (whole_map ∷ []) refl refl (receives starts false 3 whole_map) ready_sent
