-- ===== src/Link.antt =====
-- The server and the agent together: what apps/strajer-server/src/http.rs sends is what
-- apps/strajer-agent/src/remote_lobby.rs takes. A message arrives as it was sent.
pub mod Frames
pub mod Joining
pub mod Actions
pub mod Control
use strajer.Common.{Bool, ℕ, List, [], ◌∷◌, ◌++◌, Option, none, some, Result, ok, err, ◌>>=◌}
use strajer.Common.Bytes.{Bytes}
use strajer.Common.Texts.{Text}
use strajer.Protocol.Messages.{ServerLobbyMessage}
use strajer.Room.{LobbyUpdate}
use strajer.Session
use strajer.Session.{SessionError}
use strajer.Session.Loop.{Sending, Flow, goes_on, finishes, quiet, on_update}
use strajer.Remote
use strajer.Remote.{RemoteError, RemoteLobbySession, RemoteLobbyEvent}
use strajer.Remote.Sessions.{Next, waits, yields, on_received}

-- The two crates' types for a message.
abbrev pub carry : Session.Message → Remote.Message
carry (Session.Message.text t) = Remote.Message.text t
carry (Session.Message.binary b) = Remote.Message.binary b
carry (Session.Message.ping b) = Remote.Message.ping b
carry (Session.Message.pong b) = Remote.Message.pong b
carry Session.Message.close = Remote.Message.close

abbrev before : List Session.Message → Sending Flow → Sending Flow
before ms s = record { messages = ms ++ s.messages; outcome = s.outcome }

abbrev unless_over : Sending Flow → Sending Flow → Sending Flow
unless_over s rest = elim s.outcome [
  | ok goes_on ↦ before s.messages rest
  | ok finishes ↦ s
  | err e ↦ s
]

module _ (print : ServerLobbyMessage → Option Text) where
  -- The loop of the server over these updates, where nothing else happens.
  unfoldable pub relay_all : List LobbyUpdate → Sending Flow
  relay_all [] = quiet (ok goes_on)
  relay_all (u ∷ us) = unless_over (on_update print u) (relay_all us)

abbrev events : Next → List RemoteLobbyEvent → List RemoteLobbyEvent
events waits es = es
events (yields none) es = es
events (yields (some e)) es = e ∷ es

module _ (hash : Bytes → ℕ) (parse : Text → Option ServerLobbyMessage) (now : ℕ)
    (sends : Bool) where
  -- The events of the agent for these messages, and its session after them.
  unfoldable pub receive_all :
      List Session.Message
      → RemoteLobbySession
      → Result RemoteError (List RemoteLobbyEvent × RemoteLobbySession)
  receive_all [] s = ok ([], s)
  receive_all (m ∷ ms) s = do
    received ← on_received hash parse sends (some (some (carry m))) now s
    rest ← receive_all ms received.1
    ok (events received.0 rest.0, rest.1)
