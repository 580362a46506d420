-- ===== src/Dispatch/Honest.antt =====
-- The steps of `handle_lobby_frame` of apps/strajer-agent/src/main.rs that tell the server nothing of the map.
use strajer.Common.{◌≡◌, refl, Bool, true, false, Option, Result, ok, err, if◌then◌else◌, arith}
use strajer.Common.Texts.{Text}
use strajer.Frame.{Frame}
use strajer.Protocol.Messages.{AgentLobbyMessage}
use strajer.Remote.{RemoteError, RemoteLobbySession}
use strajer.Remote.Sessions
use strajer.Protocol.{LobbyLeaveReason}
use strajer.Transfer.States.{verified}
use strajer.Dispatch.{
  LobbyGame, Dispatched, AgentError, LobbyFrameOutcome, after_remote, write_frame, followed,
  attempt,
}

-- The server has been told that the player is ready only with the map at verified, and the map stands
-- there only for the reason `T`.
pub record IsHonest (T : Type 0) (g : LobbyGame) : Type 0 where
  pub honest : g.remote_session.ready_sent ≡ true → g.map_transfer ≡ verified
  pub reported : g.map_transfer ≡ verified → T

pub IsHonest-map : {T U : Type 0} {g : LobbyGame} → (T → U) → IsHonest T g → IsHonest U g
IsHonest-map f v = record { honest = v.honest; reported = λ e. f (v.reported e) }

-- Sends that say nothing of the map.
pub record Silent (s : RemoteLobbySession) (x : Result RemoteError (Unit {0}) × RemoteLobbySession)
    : Type 0 where
  pub silent : x.1.ready_sent ≡ s.ready_sent

module _ (print : AgentLobbyMessage → Option Text) (sends : Bool) (s : RemoteLobbySession) where
  pub mark_loaded-Silent : Silent s (Sessions.mark_loaded print sends s)
  unfolding Sessions.mark_loaded Sessions.encode_agent_message
  mark_loaded-Silent = record { silent = ground arith }

  pub send_game_frame-Silent : (f : Frame) → Silent s (Sessions.send_game_frame print sends f s)
  unfolding Sessions.send_game_frame Sessions.encode_game_frame
  send_game_frame-Silent f = record { silent = ground arith }

  pub send_chat-Silent : (message : Text) → Silent s (Sessions.send_chat print sends message s)
  unfolding Sessions.send_chat Sessions.encode_agent_message
  send_chat-Silent message = record { silent = ground arith }

  pub leave-Silent : (reason : LobbyLeaveReason) → Silent s (Sessions.leave print sends reason s)
  unfolding Sessions.leave Sessions.encode_agent_message
  leave-Silent reason = record { silent = ground arith }

pub after_remote-IsHonest :
    {T : Type 0} (g : LobbyGame) (outcome : LobbyFrameOutcome)
    (x : Result RemoteError (Unit {0}) × RemoteLobbySession)
    → Silent g.remote_session x
    → IsHonest T g
    → IsHonest T (after_remote g outcome x).behind
after_remote-IsHonest g outcome (ok done, s) h v = record {
  honest = λ e. v.honest (ground (arith, h.silent));
  reported = v.reported;
}
after_remote-IsHonest g outcome (err e', s) h v = record {
  honest = λ e. v.honest (ground (arith, h.silent));
  reported = v.reported;
}

pub after_remote-map_transfer :
    (g : LobbyGame) (outcome : LobbyFrameOutcome)
    (x : Result RemoteError (Unit {0}) × RemoteLobbySession)
    → (after_remote g outcome x).behind.map_transfer ≡ g.map_transfer
after_remote-map_transfer g outcome (ok done, s) = refl
after_remote-map_transfer g outcome (err e, s) = refl

pub write_frame-IsHonest :
    {T : Type 0} (writes : Bool) (f : Frame) (outcome : LobbyFrameOutcome) (g : LobbyGame)
    → IsHonest T g
    → IsHonest T (write_frame writes f outcome g).behind
write_frame-IsHonest true f outcome g v = record { honest = v.honest; reported = v.reported }
write_frame-IsHonest false f outcome g v = v

pub attempt-IsHonest :
    {T A : Type 0} (x : Result AgentError A) (g : LobbyGame) (k : A → Dispatched)
    → ((a : A) → x ≡ ok a → IsHonest T (k a).behind)
    → IsHonest T g
    → IsHonest T (attempt x g k).behind
attempt-IsHonest (ok a) g k h v = h a refl
attempt-IsHonest (err e) g k h v = v

pub followed-IsHonest :
    {T : Type 0} (x : Result AgentError LobbyFrameOutcome) (g : LobbyGame)
    (k : LobbyGame → Dispatched)
    → IsHonest T (k g).behind
    → IsHonest T g
    → IsHonest T (followed x g k).behind
followed-IsHonest (ok outcome) g k h v = h
followed-IsHonest (err e) g k h v = v

pub if-IsHonest :
    {T : Type 0} (test : Bool) (d d' : Dispatched)
    → IsHonest T d.behind
    → IsHonest T d'.behind
    → IsHonest T (if test then d else d').behind
if-IsHonest true d d' v v' = v
if-IsHonest false d d' v v' = v'
