-- ===== src/Session/Serving/Sessions.antt =====
-- The session of a player, interleaved in any way with whatever else happens to the room, such as the
-- sessions of the other players.
use strajer.Common.{ℕ, ◌≤◌, ◌≡◌, refl, [], Option}
use strajer.Common.Bytes.{Bytes, u8_max}
use strajer.Common.Texts.{Text}
use strajer.Protocol.Messages.{AgentLobbyMessage, ServerLobbyMessage}
use strajer.Room.{Room}
use strajer.Room.Tasks.{Step, Reach, here, next}
use strajer.Room.Invariant.{IsRoom}
use strajer.Room.Outcomes.Cleanups.{CleanedUp}
use strajer.Session.Serving.{Member, opening, closed, connected, World, Event, serve}
use strajer.Session.Serving.Steps.{
  IsEvent, InPlaces, IsWorld, in_phase-IsWorld, in_phase-closed, reached-IsRoom,
}

-- A socket that nothing was received from yet.
abbrev pub new_world : Room → World
new_world r = record { room = r; phase = opening; sent = [] }

module _ (hash : Bytes → ℕ) (parse : Text → Option AgentLobbyMessage)
    (print : ServerLobbyMessage → Option Text) where
  -- The session handles an event, or something else happens to the room.
  pub data Trace (w : World) : World → Type 0 where
    begins : Trace w w
    handles : {u : World} (e : Event) → IsEvent e → Trace w u → Trace w (serve hash parse print e u)
    meanwhile :
        {u : World} {r : Room} → Trace w u → Step hash u.room r → Trace w (record u { room = r })

  module _ (start : Room) (valid : IsRoom start) (small : start.maximum_players ≤ u8_max) where
    Trace-IsWorld : (u : World) → Trace (new_world start) u → IsWorld hash start valid u
    unfolding serve
    Trace-IsWorld _ begins = record { reach = here; member = tt }
    Trace-IsWorld _ (handles {u} e h before) =
        in_phase-IsWorld hash parse print start valid small u.phase e u refl h
          (Trace-IsWorld u before)
    Trace-IsWorld _ (meanwhile {u} {r} before step) =
        let v = Trace-IsWorld u before in record { reach = next v.reach step; member = v.member }

    -- A session, whatever arrives on its socket and however the steps of the room interleave with it, changes
    -- the room only by calls that the room's connections may make: the room is reached by such
    -- calls and tasks alone, and so satisfies the invariant. The player of a connected session
    -- has an id within the places of the room.
    pub served-Reach :
        (u : World)
        → Trace (new_world start) u
        → Reach hash start u.room × IsRoom u.room × InPlaces start.maximum_players u.phase
    served-Reach u t =
        let v = Trace-IsWorld u t in
        (v.reach, reached-IsRoom hash start valid u.room v.reach, v.member)

    -- Whatever ends a session that had joined, a message, the end or a failure of the socket, silence, a
    -- lag or the end of the game, the player is no longer in the room under that session right
    -- after, unless the 64-bit numbers of the frames are used up.
    pub closed-CleanedUp :
        (u : World) (c : Member) (e : Event)
        → Trace (new_world start) u
        → u.phase ≡ connected c
        → IsEvent e
        → (serve hash parse print e u).phase ≡ closed
        → CleanedUp c.player_id c.session_id (serve hash parse print e u).room
    unfolding serve
    closed-CleanedUp u c e t at h d =
        in_phase-closed hash parse print start valid small u.phase e c u refl at h
          (Trace-IsWorld u t) d
