-- ===== src/Room/Timeslots.antt =====
-- What the room broadcasts of a running game: all the queued actions, in frames that are numbered one
-- after the other.
use strajer.Common.{
  ℕ, ◌+◌, ◌≤◌, ◌≡◌, ◌∙◌, refl, ap, List, [], ◌∷◌, ◌++◌, ok, length, arith, append_assoc, append-nil,
}
use strajer.Common.Bytes.{Bytes, u16_max, u64_max}
use strajer.Frame.{Frame, to_bytes}
use strajer.Game.{PlayerAction}
use strajer.Game.Groups.{concat}
use strajer.Game.Incoming.{incoming_action_frames}
use strajer.Game.Timeslots.{IsTimeslot, incoming_action_frames_lem}
use strajer.Room.{Room, LobbyUpdate, game_frame}
use strajer.Room.Actions.{◌>>=◌}
use strajer.Room.Play.{publish_frames, publish_pending_actions}
use strajer.Room.Invariant.{IsRoom}

-- The updates for these frames, with the numbers behind `last`.
abbrev pub numbered : ℕ → List Frame → List LobbyUpdate
numbered last [] = []
numbered last (f ∷ fs) = game_frame (last + 1) (to_bytes f) ∷ numbered (last + 1) fs

-- The room after these frames.
abbrev pub with_frames : List Frame → Room → Room
with_frames fs r = record r {
  state = record r.state { gameplay_sequence = r.state.gameplay_sequence + length fs };
  updates = r.updates ++ numbered r.state.gameplay_sequence fs;
}

pub publish_frame :
    (f : Frame) (fs : List Frame) (r : Room)
    → r.state.gameplay_sequence + 1 ≤ u64_max
    → publish_frames (f ∷ fs) r ≡ publish_frames fs (with_frames (f ∷ []) r)
unfolding publish_frames ◌>>=◌
publish_frame f fs r h = ground arith

with_frames-append :
    (f : Frame) (fs : List Frame) (r : Room)
    → with_frames fs (with_frames (f ∷ []) r) ≡ with_frames (f ∷ fs) r
with_frames-append f fs r =
    let last = r.state.gameplay_sequence in
    ground (
      arith,
      append_assoc r.updates (game_frame (last + 1) (to_bytes f) ∷ []) (numbered (last + 1) fs),
    )

publish_frames_lem :
    (fs : List Frame) (r : Room)
    → r.state.gameplay_sequence + length fs ≤ u64_max
    → publish_frames fs r ≡ (ok tt, with_frames fs r)
publish_frames_lem [] r h = unfold publish_frames in ground (arith, append-nil r.updates)
publish_frames_lem (f ∷ fs) r h =
    publish_frame f fs r (omega arith)
    ∙ publish_frames_lem fs (with_frames (f ∷ []) r) (omega arith)
    ∙ ap (λ s. (ok tt, s)) (with_frames-append f fs r)

pub pending_published :
    (hash : Bytes → ℕ) (time : ℕ) (fs : List Frame) (r : Room)
    → incoming_action_frames hash time r.state.pending_actions ≡ ok fs
    → publish_pending_actions hash time r
      ≡ publish_frames fs
          (record r { state = record r.state { pending_actions = []; pending_action_bytes = 0 } })
unfolding publish_pending_actions ◌>>=◌
pending_published hash time fs r e = rw e refl

-- With the bound on the number of frames that the numbers are spared for.
pub pending_frames :
    (hash : Bytes → ℕ) (time : ℕ) (r : Room)
    → IsRoom r
    → time ≤ u16_max
    → r.state.gameplay_sequence + 1 + length r.state.pending_actions ≤ u64_max
    → (fs : List Frame) × (gs : List (List PlayerAction)) × IsTimeslot hash time gs fs
      × (concat gs ≡ r.state.pending_actions)
      × (length fs ≤ 1 + length r.state.pending_actions)
      × (publish_pending_actions hash time r ≡ (
        ok tt,
        record r {
          state = record r.state {
            pending_actions = [];
            pending_action_bytes = 0;
            gameplay_sequence = r.state.gameplay_sequence + length fs;
          };
          updates = r.updates ++ numbered r.state.gameplay_sequence fs;
        },
      ))
pending_frames hash time r v t few =
    let (fs, gs, e, slot, all, short) =
      incoming_action_frames_lem hash time r.state.pending_actions t v.pending.valid in
    (
      fs,
      gs,
      slot,
      all,
      short,
      pending_published hash time fs r e ∙ publish_frames_lem fs _ (omega arith),
    )

-- In a room that satisfies the invariant, with room for the numbers, publishing never fails. It empties
-- the queue and sends exactly the queued actions in their order, in frames that decode one by one,
-- each numbered one more than the last frame sent, of which only the last advances the time.
pub publish_pending_actions_lem :
    (hash : Bytes → ℕ) (time : ℕ) (r : Room)
    → IsRoom r
    → time ≤ u16_max
    → r.state.gameplay_sequence + 1 + length r.state.pending_actions ≤ u64_max
    → (fs : List Frame) × (gs : List (List PlayerAction)) × IsTimeslot hash time gs fs
      × (concat gs ≡ r.state.pending_actions)
      × (publish_pending_actions hash time r ≡ (
        ok tt,
        record r {
          state = record r.state {
            pending_actions = [];
            pending_action_bytes = 0;
            gameplay_sequence = r.state.gameplay_sequence + length fs;
          };
          updates = r.updates ++ numbered r.state.gameplay_sequence fs;
        },
      ))
publish_pending_actions_lem hash time r v t few =
    let (fs, gs, slot, all, short, published) = pending_frames hash time r v t few in
    (fs, gs, slot, all, published)
