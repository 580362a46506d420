-- ===== src/Room/Published/Frames.antt =====
-- The frames of the game that a room of apps/strajer-server/src/lobby.rs publishes.
use strajer.Common.{ℕ, ◌≤◌, ◌<◌, ◌≡◌, Bool, true, false, List, [], ◌∷◌, ok, map_err, All, arith}
use mathlib.Core.Path.{subst}
use strajer.Common.Bytes.{Bytes, u16_max}
use strajer.Frame.{Frame, to_bytes}
use strajer.Frame.Shape.{length-to_bytes}
use strajer.Protocol.{LobbyLeaveReason, max_warcraft_players}
use strajer.Game.{PlayerAction}
use strajer.Game.Incoming.{incoming_action_frames}
use strajer.Game.Timeslots.{Sends, IsTimeslot, incoming_action_frames_lem}
use strajer.Tunnel.{validate_w3gs_frame}
use strajer.Room.{Room, LobbyMembershipError}
use strajer.Room.Rules.{
  Leaves, pure_end, if_rule, get_rule, gets_rule, put_rule, from_rule, bind_rule, when_rule,
}
use strajer.Room.Actions.{when}
use strajer.Room.Play.{publish_pending_actions, publish_gameplay_tick, leave, remove_player}
use strajer.Room.Invariant.{IsRoom}
use strajer.Room.Published.{IsPublic}
use strajer.Room.Published.Tables.{matched-IsPlace}
use strajer.Room.Published.Handlers.{
  publish_frames-Publishes, remove_player-Publishes, after_departure-Publishes,
}

-- The tunnel takes the frame.
abbrev IsSized : Frame → Type 0
IsSized f = validate_w3gs_frame (to_bytes f) ≡ ok tt

module _ (hash : Bytes → ℕ) where
  sent-IsSized :
      (f : Frame) (fragment : Bool) (time : ℕ) (actions : List PlayerAction)
      → Sends hash f fragment time actions
      → IsSized f
  unfolding validate_w3gs_frame
  sent-IsSized f fragment time actions h = ground (arith, length-to_bytes f h.0, h.0.exact, h.1)

  slot-IsSized :
      (time : ℕ) (gs : List (List PlayerAction)) (fs : List Frame)
      → IsTimeslot hash time gs fs
      → All IsSized fs
  slot-IsSized time [] fs h = absurd h
  slot-IsSized time (g ∷ gs) [] h = absurd h
  slot-IsSized time (g ∷ []) (f ∷ []) h = (sent-IsSized f false time g h, tt)
  slot-IsSized time (g ∷ []) (f ∷ f' ∷ fs) h = absurd h
  slot-IsSized time (g ∷ g' ∷ gs) (f ∷ fs) h =
      (sent-IsSized f true 0 g h.0, slot-IsSized time (g' ∷ gs) fs h.1)

  encoded-IsSized :
      (time : ℕ) (r : Room) (e : LobbyMembershipError) (fs : List Frame)
      → IsRoom r
      → time ≤ u16_max
      → map_err (λ _. e) (incoming_action_frames hash time r.state.pending_actions) ≡ ok fs
      → All IsSized fs
  encoded-IsSized time r e fs v t found =
      let (gs', gs, same, slot, _, _) =
        incoming_action_frames_lem hash time r.state.pending_actions t v.pending.valid in
      let all : All IsSized gs' = slot-IsSized time gs gs' slot in
      let equal : ok gs' ≡ ok fs = rw same at found in subst (All IsSized) (cc equal) all

  module _ (maximum : ℕ) (positive : 0 < maximum) (most : maximum ≤ max_warcraft_players) where
    publish_pending_actions-IsPublic :
        (time : ℕ) (r : Room)
        → time ≤ u16_max
        → IsRoom r
        → IsPublic maximum r
        → Leaves (IsPublic maximum) (publish_pending_actions hash time) r
    unfolding publish_pending_actions
    publish_pending_actions-IsPublic time r t w v =
        let cleared : IsPublic maximum (record r {
          state = record r.state { pending_actions = []; pending_action_bytes = 0 };
        }) =
          record {
            places = v.places;
            policy = v.policy;
            tick = v.tick;
            good = v.good;
            updates = v.updates;
            tasks = v.tasks;
          } in
        get_rule _ (
          put_rule _ _ (
            from_rule _ _ cleared λ frames e. record {
              holds =
                  (publish_frames-Publishes maximum positive most frames
                      (encoded-IsSized time r _ frames w t e)).publishes
                    _ cleared;
            }))

    pub publish_gameplay_tick-IsPublic :
        (generation : ℕ) (r : Room)
        → IsRoom r
        → IsPublic maximum r
        → Leaves (IsPublic maximum) (publish_gameplay_tick hash generation) r
    unfolding publish_gameplay_tick
    publish_gameplay_tick-IsPublic generation r w v = get_rule _ (
        gets_rule _ _ (
          if_rule _ _ _ (λ _. pure_end _ v)
            λ _.
              let published = publish_pending_actions-IsPublic _ r v.tick w v in
              bind_rule _ _ published λ _ _. pure_end _ published.holds))

    pub leave-IsPublic :
        (k session : ℕ) (reason : LobbyLeaveReason) (r : Room)
        → IsRoom r
        → IsPublic maximum r
        → Leaves (IsPublic maximum) (leave hash k session reason) r
    unfolding leave
    leave-IsPublic k session reason r w v =
        let published : (b : Bool)
            → Leaves (IsPublic maximum) (when b (publish_pending_actions hash 0)) r =
          λ b. when_rule _ _ (λ _. publish_pending_actions-IsPublic 0 r (omega arith) w v) λ _. v in
        get_rule _ (
          if_rule _ _ _ (λ _. pure_end _ v)
            λ matches. bind_rule _ _ (published _) λ _ _.
              let removed : Leaves (IsPublic maximum) (remove_player k reason) _ = record {
                holds =
                    (remove_player-Publishes maximum positive most k reason
                        (matched-IsPlace r.state v.good k session matches)).publishes
                      _ (published _).holds;
              } in
              bind_rule _ _ removed λ _ _. record {
                holds =
                    (after_departure-Publishes maximum positive most r.state.started).publishes _
                      removed.holds;
              })
