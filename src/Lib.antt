-- ===== src/Lib.antt =====
-- Strajer lets players of Warcraft III on different networks share a lobby: an agent beside each game
-- speaks the game's own W3GS protocol and tunnels it to a server, which keeps one room for each lobby.
-- These files model the core of the server and of the agent, and the formats between them and the game.
--
-- Parts, and how they interact:
-- Frame: crates/strajer-w3gs/src/frame.rs. `Frame` and `FrameHeader` are records, `Frame::new`,
-- `decode_exact` and `to_bytes` are `new`, `decode_exact` and `to_bytes`. Frame/Reader is `FrameReader`:
-- `read_next` over a record of the two stream operations it calls, with tokio's documented behaviour as
-- the record `Delivers`.
-- Game: crates/strajer-w3gs/src/game.rs. `OutgoingAction::decode` is `decode_action`,
-- `OutgoingKeepAlive::decode` is `decode_keepalive`, `PlayerAction::new` is `new_action`. Game/Incoming
-- has `incoming_action_frames` and `IncomingActionFrame::decode`, which use Frame.
-- Tunnel: crates/strajer-protocol/src/game_tunnel.rs, with Tunnel/Agent and Tunnel/Server for the two
-- directions.
-- Joining: crates/strajer-w3gs/src/req_join.rs, with `ReqJoin::decode` as `decode`.
-- Players: crates/strajer-w3gs/src/player.rs and net.rs, the packets about other players.
-- Slots: crates/strajer-w3gs/src/slot.rs, the table of slots and its two packets.
-- Maps: crates/strajer-w3gs/src/map.rs, the packets by which a game checks and downloads its map.
-- `MapCheck::new` is `new_map_check`, the `decode` functions are `decode_map_size` and
-- `decode_map_part_ack`.
-- Control: crates/strajer-w3gs/src/control.rs, lobby chat (`LobbyChatToHost::decode` is
-- `decode_lobby_chat`) and the packets without contents. Common/Utf8 is the encoding of strings.
-- Protobuf: crates/strajer-w3gs/src/protobuf.rs, the envelope of the messages of prost.
-- Protocol: crates/strajer-protocol/src/lib.rs. Protocol/Roster validates rosters, Protocol/Messages has
-- the control messages and the leave codes, and Protocol/Catalog the catalog of lobbies, from which
-- Room/Registry (`LobbyRegistry`) builds the rooms.
-- Room: apps/strajer-server/src/lobby.rs. `LobbyRoomState` is the record of that name and `LobbyRoom` the
-- record `Room`, which also lists the updates sent and the tasks still to run. The handlers are in
-- Room/Lobby (`join`, `mark_ready`, `publish_chat`, `request_manual_start`, ..) and Room/Play
-- (`mark_loaded`, `submit_action`, `submit_keepalive`, `leave`, `end_game` as `finish_game`, ..), the
-- tasks in Room/Tasks, the comparison of checksums in Room/Consensus. A room publishes its actions
-- through Game and Frame, and its rosters are those of Protocol.
-- Session: apps/strajer-server/src/http.rs, the websocket session of a player. Session/Handlers has
-- `handle_active_agent_message` and `handle_active_agent_game_message`, Session/Loop the arms of the loop
-- of `run_connected_lobby_socket`, and Session/Serving the whole of `serve_lobby_socket` as a step for
-- each event (`serve`), which calls the handlers of Room.
-- Remote: apps/strajer-agent/src/remote_lobby.rs. `RemoteLobbySession` is the record of that name;
-- Remote/Sessions has what it sends and the loop of `next_event`, Remote/Incoming what it accepts.
-- Link puts the two ends together: what Session sends for the updates of a Room, and what Remote makes of
-- it.
-- Transfer: apps/strajer-agent/src/main.rs, the transfer of a map. `ActiveMapTransfer` is the record of
-- that name, with its methods as `new`, `acknowledge`, `pending_frames`, ..; Transfer/States has
-- `MapTransferState`, `handle_map_size` and `advance_map_transfer`. Transfer/Receiving is the other end,
-- a receiver of parts that stands for the game.
-- Topology: `build_dota_slot_info` of apps/strajer-agent/src/main.rs, from a lobby of Protocol/Catalog
-- and a roster to a table of Slots.
-- Dispatch: `handle_lobby_frame` of apps/strajer-agent/src/main.rs, with a function for each packet; it
-- calls Remote and Transfer.
-- Room/Actions is the monad of the handlers: a state that is kept when a handler fails, as a Rust `?`
-- keeps what was assigned before it. Room/Rules and Room/Outcomes are the rules by which a proof follows
-- a handler's code, and Room/Invariant, Room/Outcomes, Room/Timeslots, Room/Rosters, Room/News,
-- Room/Published, Room/Settings and Room/Tasks/Countdown have the proofs. Common holds what all share.
--
-- Conventions and bounds. A machine integer is a native number; its checked, saturating or truncating
-- operations are written out (`checked_add`, `saturating_add`, `% 2 ^ 16`), and `usize` has 64 bits. A
-- Rust string is the list of its characters, or of its bytes in Players and Maps. The `BTreeMap` of
-- players is an association list in the order of its keys. The loop of `decode_player_actions` runs on as
-- much fuel as there are bytes, of which each round takes three or more, and `consume_checksum_consensus`
-- on the length of the first player's queue, of which each round takes one. The loop of `pending_frames`
-- runs on the length of the map and one round more, since a round sends a byte or more.
--
-- Concurrency. The room's mutex makes every locked section one step; what runs after the lock is released
-- or in a spawned task is an entry of the list of tasks and a later step, and the relation `Step` lets
-- calls and tasks follow each other in any order. The relation `Trace` of Session/Serving/Sessions does
-- the same for the events of a session. `join` subscribes to the updates just before it locks; here both
-- happen at once.
--
-- Parameters. The checksum of crc32fast is an argument `hash` on byte strings, and the decoding of the
-- crate hex an argument `decode_hex`. The JSON codec of serde is an argument `parse` or `print`, and what
-- a socket delivers is the events of a session. The results assume nothing of them but that, where a
-- message goes from the server to the agent, the codec reads back what it wrote. The loading of a map,
-- the clock and the success of a write or a reply are arguments of the transfer, the dispatch and the
-- session of the agent.
--
-- Not modelled: time itself (intervals, delays and the scheduling of tasks), logging, the capacity of the
-- broadcast channel, the routes of the server and its files, the agent's sockets, process and files and
-- what it tells the game of the events of the server, LAN discovery, and the contents of protobuf
-- messages.
pub mod Common
pub mod Frame
pub mod Tunnel
pub mod Joining
pub mod Players
pub mod Slots
pub mod Game
pub mod Maps
pub mod Control
pub mod Protobuf
pub mod Protocol
pub mod Room
pub mod Session
pub mod Remote
pub mod Link
pub mod Topology
pub mod Transfer
pub mod Dispatch
pub mod Tests
