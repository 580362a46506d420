-- ===== src/Protocol.antt =====
-- crates/strajer-protocol/src/lib.rs: the messages of a lobby session and what makes them valid.
-- Serialisation to JSON is serde's and is not modelled.
pub mod Roster
pub mod Messages
pub mod Catalog
use strajer.Common.{
  ℕ, ◌+◌, ◌%◌, Bool, not, ◌||◌, List, [], ◌∷◌, ltb, leb, ◌==◌, Result, ok, err, reject_if, any,
  is_empty,
}
use strajer.Common.Texts.{Text, str_len, contains_nul, is_control}

abbrev pub lobby_countdown_seconds : ℕ
lobby_countdown_seconds = 60

abbrev pub lobby_countdown_step_seconds : ℕ
lobby_countdown_step_seconds = 10

abbrev pub max_lobby_control_message_bytes : ℕ
max_lobby_control_message_bytes = 4_096

abbrev pub max_lobby_chat_message_bytes : ℕ
max_lobby_chat_message_bytes = 254

abbrev pub max_lobby_player_name_bytes : ℕ
max_lobby_player_name_bytes = 15

abbrev pub max_warcraft_players : ℕ
max_warcraft_players = 24

pub data LobbyLeaveReason : Type 0 where
  disconnect lost lost_buildings won draw observer lobby : LobbyLeaveReason

pub data GameEndReason : Type 0 where
  last_player_standing desync empty_lobby protocol_error : GameEndReason

pub record LobbyPlayer : Type 0 where
  pub player_id : ℕ
  pub slot_index : ℕ
  pub name : Text

pub record LobbyRoster : Type 0 where
  pub revision : ℕ
  pub players : List LobbyPlayer

pub data LobbySessionValidationError : Type 0 where
  unsupported_protocol_version : (actual expected : ℕ) → LobbySessionValidationError
  invalid_player_name : LobbySessionValidationError
  invalid_roster_revision : LobbySessionValidationError
  invalid_roster_player_count : (actual maximum : ℕ) → LobbySessionValidationError
  invalid_roster_player_id : ℕ → LobbySessionValidationError
  invalid_roster_slot_index : ℕ → LobbySessionValidationError
  duplicate_roster_player_id : ℕ → LobbySessionValidationError
  duplicate_roster_slot_index : ℕ → LobbySessionValidationError
  invalid_countdown_seconds : ℕ → LobbySessionValidationError
  invalid_leave_reason : ℕ → LobbySessionValidationError
  invalid_chat_message : LobbySessionValidationError

unfoldable pub validate_lobby_countdown_seconds : ℕ → Result LobbySessionValidationError (Unit {0})
validate_lobby_countdown_seconds remaining =
    reject_if
      (remaining == 0
        || ltb lobby_countdown_seconds remaining
        || not (remaining % lobby_countdown_step_seconds == 0))
      (invalid_countdown_seconds remaining)

unfoldable pub validate_lobby_chat_message : Text → Result LobbySessionValidationError (Unit {0})
validate_lobby_chat_message message =
    reject_if
      (is_empty message
        || ltb max_lobby_chat_message_bytes (str_len message)
        || contains_nul message
        || any is_control message)
      invalid_chat_message

unfoldable pub validate_lobby_player_name : Text → Result LobbySessionValidationError (Unit {0})
validate_lobby_player_name name =
    reject_if
      (is_empty name
        || ltb max_lobby_player_name_bytes (str_len name)
        || contains_nul name
        || any is_control name)
      invalid_player_name
