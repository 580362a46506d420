-- ===== src/Room/Published/Handlers.antt =====
-- Every handler and task of apps/strajer-server/src/lobby.rs publishes only updates that fit.
use strajer.Common.{
  All, arith, ℕ, ◌≤◌, ◌<◌, ◌≡◌, refl, Bool, List, [], ◌∷◌, Option, none, some, ok, ok_or,
  checked_add,
}
use strajer.Common.Bytes.{u64_max}
use strajer.Common.Texts.{Text}
use strajer.Frame.{Frame, to_bytes}
use strajer.Protocol.{
  LobbyLeaveReason, GameEndReason, max_warcraft_players, validate_lobby_chat_message,
  validate_lobby_countdown_seconds,
}
use strajer.Game.{PlayerAction}
use strajer.Room.{
  Room, LobbyUpdate, run_gameplay, LobbyMembershipError, gameplay_sequence_exhausted,
  default_countdown_policy,
}
use strajer.Room.State.{reset_game}
use strajer.Room.Actions.{Action, from, ◌>>=◌, ◌>>◌, get_state, put_state, broadcast}
use strajer.Room.Lobby.{
  begin_countdown, spawn_countdown, mark_ready, publish_chat, request_manual_start,
}
use strajer.Room.Play.{
  begin_gameplay_if_ready, spawn_gameplay, mark_loaded, submit_action, submit_keepalive,
  finish_game, publish_frames, remove_player, after_departure,
}
use strajer.Tunnel.{validate_sequence, validate_w3gs_frame}
use strajer.Room.Published.{
  Fits, get_published, try_published, bind_published, put_published, broadcast_published, IsPlace,
  Publishes, publishing, pure_published, spawn_published,
}
use strajer.Room.Published.Tables.{
  set_ready-IsGood, set_loaded-IsGood, set_chat-IsGood, push_checksum-IsGood, consumed-IsGood,
  found-IsPlace, active-IsPlace, accepted-IsGood, departed-IsGood, departed-Fits, departed-player,
}

module _ (maximum : ℕ) (positive : 0 < maximum) (most : maximum ≤ max_warcraft_players) where
  initial-Fits :
      (r : Room)
      → r.countdown_policy ≡ default_countdown_policy
      → validate_lobby_countdown_seconds r.countdown_policy.initial_seconds ≡ ok tt
  unfolding validate_lobby_countdown_seconds
  initial-Fits r e = rw e refl

  begin_countdown-Publishes : Publishes maximum begin_countdown
  unfolding begin_countdown
  begin_countdown-Publishes = search (publishing, initial-Fits) depth 40 fits 3000

  spawn_countdown-Publishes : (generation : ℕ) → Publishes maximum (spawn_countdown generation)
  unfolding spawn_countdown
  spawn_countdown-Publishes generation = search (publishing, initial-Fits) depth 40 fits 3000

  pub mark_ready-Publishes : (k session : ℕ) → Publishes maximum (mark_ready k session)
  unfolding mark_ready
  mark_ready-Publishes k session =
      search (publishing, set_ready-IsGood, begin_countdown-Publishes, spawn_countdown-Publishes)
        depth 40 fits 3000

  pub publish_chat-Publishes :
      (k session : ℕ) (message : Text) (now : ℕ)
      → validate_lobby_chat_message message ≡ ok tt
      → Publishes maximum (publish_chat k session message now)
  unfolding publish_chat
  publish_chat-Publishes k session message now valid =
      search (publishing, set_chat-IsGood, found-IsPlace) depth 40 fits 3000

  pub request_manual_start-Publishes :
      (k session : ℕ) → Publishes maximum (request_manual_start k session)
  unfolding request_manual_start
  request_manual_start-Publishes k session =
      search (publishing, begin_countdown-Publishes, spawn_countdown-Publishes) depth 40 fits 3000

  begin_gameplay_if_ready-Publishes : Publishes maximum begin_gameplay_if_ready
  unfolding begin_gameplay_if_ready
  begin_gameplay_if_ready-Publishes = search publishing depth 40 fits 3000

  spawn_gameplay-Publishes : (o : Option ℕ) → Publishes maximum (spawn_gameplay o)
  spawn_gameplay-Publishes none = pure_published tt
  spawn_gameplay-Publishes (some generation) = spawn_published (run_gameplay generation) tt

  pub mark_loaded-Publishes : (k session : ℕ) → Publishes maximum (mark_loaded k session)
  unfolding mark_loaded
  mark_loaded-Publishes k session =
      search
        (
          publishing, set_loaded-IsGood, active-IsPlace, begin_gameplay_if_ready-Publishes,
          spawn_gameplay-Publishes,
        )
        depth 40 fits 3000

  pub submit_action-Publishes :
      (k session sequence : ℕ) (action : PlayerAction)
      → Publishes maximum (submit_action k session sequence action)
  unfolding submit_action
  submit_action-Publishes k session sequence action =
      search (publishing, accepted-IsGood) depth 40 fits 3000

  pub submit_keepalive-Publishes :
      (k session sequence checksum : ℕ)
      → Publishes maximum (submit_keepalive k session sequence checksum)
  unfolding submit_keepalive
  submit_keepalive-Publishes k session sequence checksum =
      search (publishing, accepted-IsGood, push_checksum-IsGood, consumed-IsGood) depth 40 fits 3000

  pub finish_game-Publishes : (reason : GameEndReason) → Publishes maximum (finish_game reason)
  unfolding finish_game reset_game
  finish_game-Publishes reason = search publishing depth 40 fits 3000

  -- A number that was counted up is positive.
  next-Fits :
      (n k : ℕ) (e : LobbyMembershipError) (f : Frame)
      → ok_or (checked_add u64_max n 1) e ≡ ok k
      → validate_w3gs_frame (to_bytes f) ≡ ok tt
      → Fits maximum (LobbyUpdate.game_frame k (to_bytes f))
  unfolding validate_sequence
  next-Fits n k e f h sized = (ground arith, sized)

  publish_frame-Publishes :
      (f : Frame) (rest : Action LobbyMembershipError (Unit {0}))
      → validate_w3gs_frame (to_bytes f) ≡ ok tt
      → Publishes maximum rest
      → Publishes maximum (do
        s ← get_state
        sequence ←
            from (ok_or (checked_add u64_max s.gameplay_sequence 1) gameplay_sequence_exhausted)
        put_state (record s { gameplay_sequence = sequence })
        broadcast (LobbyUpdate.game_frame sequence (to_bytes f))
        rest)
  publish_frame-Publishes f rest sized h = get_published _ λ s v. try_published _ _ λ k e.
      bind_published _ _ (put_published _ v)
        λ _. bind_published _ _ (broadcast_published _ (next-Fits _ k _ f e sized)) λ _. h

  pub publish_frames-Publishes :
      (fs : List Frame)
      → All (λ f. validate_w3gs_frame (to_bytes f) ≡ ok tt) fs
      → Publishes maximum (publish_frames fs)
  unfolding publish_frames
  publish_frames-Publishes [] sized = record { publishes = λ r v. v }
  publish_frames-Publishes (f ∷ fs) sized = record {
    publishes =
        (publish_frame-Publishes f (publish_frames fs) sized.0
          (publish_frames-Publishes fs sized.1)).publishes;
  }

  pub remove_player-Publishes :
      (k : ℕ) (reason : LobbyLeaveReason)
      → IsPlace maximum k
      → Publishes maximum (remove_player k reason)
  unfolding remove_player
  remove_player-Publishes k reason place =
      search (publishing, departed-IsGood, departed-Fits, departed-player) depth 40 fits 3000

  pub after_departure-Publishes : (started : Bool) → Publishes maximum (after_departure started)
  unfolding after_departure reset_game
  after_departure-Publishes started =
      search (publishing, begin_gameplay_if_ready-Publishes, spawn_gameplay-Publishes) depth 40 fits
        3000
