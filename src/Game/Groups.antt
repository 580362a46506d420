-- ===== src/Game/Groups.antt =====
-- How `incoming_action_frames` cuts a batch of actions into groups.
use strajer.Common.{
  ℕ, ◌+◌, ◌≤◌, ◌<◌, ◌≡◌, refl, ap, sym, ◌∙◌, List, [], ◌∷◌, ◌++◌, arith, ok, All, length,
  All-append, append_assoc, append-nil,
}
use strajer.Common.Bytes.{IsByte}
use strajer.Game.{
  PlayerAction, encoded_length, max_action_data_bytes, max_action_subpacket_bytes,
  validate_player_id, validate_action_data,
}
use strajer.Game.Incoming.{Grouping, place, group_actions, no_groups}

-- What `PlayerAction::new` accepts, over bytes.
pub record IsAction (a : PlayerAction) : Type 0 where
  pub id_pos : 0 < a.player_id
  pub id_byte : IsByte a.player_id
  pub short : length a.bytes ≤ max_action_data_bytes
  pub bytes : All IsByte a.bytes

-- The bytes that a group takes on the wire.
abbrev pub records_length : List PlayerAction → ℕ
records_length [] = 0
records_length (a ∷ rest) = encoded_length a + records_length rest

pub records_length-append :
    (xs ys : List PlayerAction) → records_length (xs ++ ys) ≡ records_length xs + records_length ys
records_length-append [] ys = omega arith
records_length-append (a ∷ xs) ys = omega (arith, records_length-append xs ys)

abbrev pub concat : List (List PlayerAction) → List PlayerAction
concat [] = []
concat (g ∷ gs) = g ++ concat gs

pub concat-append : (xs ys : List (List PlayerAction)) → concat (xs ++ ys) ≡ concat xs ++ concat ys
concat-append [] ys = refl
concat-append (g ∷ xs) ys = ap (◌++◌ g) (concat-append xs ys) ∙ sym (append_assoc g _ _)

abbrev pub IsGroup : List PlayerAction → Type 0
IsGroup g =
    (0 < records_length g) × (records_length g ≤ max_action_subpacket_bytes) × All IsAction g

record IsGrouping (g : Grouping) : Type 0 where
  closed : All IsGroup g.groups
  counted : g.group_bytes ≡ records_length g.current
  fits : g.group_bytes ≤ max_action_subpacket_bytes
  actions : All IsAction g.current

abbrev placed : Grouping → List PlayerAction
placed g = concat g.groups ++ g.current

place-IsGrouping :
    (g : Grouping) (a : PlayerAction) → IsGrouping g → IsAction a → IsGrouping (place g a)
unfolding place
place-IsGrouping g a v h = ground (
  arith,
  All-append IsGroup g.groups (g.current ∷ []) v.closed,
  All-append IsAction g.current (a ∷ []) v.actions,
  records_length-append g.current (a ∷ []),
)

placed-place : (g : Grouping) (a : PlayerAction) → placed (place g a) ≡ placed g ++ (a ∷ [])
unfolding place
placed-place g a = ground (
  arith,
  concat-append g.groups (g.current ∷ []),
  append-nil g.current,
  append_assoc (concat g.groups) g.current (a ∷ []),
)

place_pos : (g : Grouping) (a : PlayerAction) → 0 < (place g a).group_bytes
unfolding place
place_pos g a = ground arith

group_actions_step :
    (g : Grouping) (a : PlayerAction) (rest : List PlayerAction)
    → IsAction a
    → group_actions g (a ∷ rest) ≡ group_actions (place g a) rest
unfolding group_actions validate_player_id validate_action_data
group_actions_step g a rest h = ground arith

-- The groups that the loop ends with, from a state in which a group is open.
abbrev Grouped : Grouping → List PlayerAction → Type 0
Grouped g rest =
    (gs : List (List PlayerAction)) × (group_actions g rest ≡ ok gs)
    × All IsGroup gs
    × (concat gs ≡ placed g ++ rest)

group_actions-Grouped :
    (g : Grouping) (rest : List PlayerAction)
    → IsGrouping g
    → 0 < g.group_bytes
    → All IsAction rest
    → Grouped g rest
group_actions-Grouped g [] v pos h =
    unfold group_actions in
    (
      g.groups ++ (g.current ∷ []),
      refl,
      All-append IsGroup g.groups (g.current ∷ []) v.closed
          ((omega (arith, v.counted), omega (arith, v.counted, v.fits), v.actions), tt),
      concat-append g.groups (g.current ∷ [])
          ∙ ap (◌++◌ (concat g.groups)) (append-nil g.current)
          ∙ sym (append-nil (placed g)),
    )
group_actions-Grouped g (a ∷ rest) v pos h =
    let (gs, e, groups, all) =
      group_actions-Grouped (place g a) rest (place-IsGrouping g a v h.0) (place_pos g a) h.1 in
    (
      gs,
      group_actions_step g a rest h.0 ∙ e,
      groups,
      all ∙ rw (placed-place g a) (append_assoc (placed g) (a ∷ []) rest),
    )

no_groups-IsGrouping : IsGrouping no_groups
no_groups-IsGrouping = record { closed = tt; counted = refl; fits = omega arith; actions = tt }

-- Valid actions are cut into non-empty groups that each fit a frame and that hold all the actions in
-- their order.
pub group_actions_lem :
    (a : PlayerAction) (rest : List PlayerAction)
    → All IsAction (a ∷ rest)
    → (gs : List (List PlayerAction)) × (group_actions no_groups (a ∷ rest) ≡ ok gs)
      × All IsGroup gs
      × (concat gs ≡ a ∷ rest)
group_actions_lem a rest h =
    let v = place-IsGrouping no_groups a no_groups-IsGrouping h.0 in
    let (gs, e, groups, all) =
      group_actions-Grouped (place no_groups a) rest v (place_pos no_groups a) h.1 in
    (gs, group_actions_step no_groups a rest h.0 ∙ e, groups, all ∙ rw (placed-place no_groups a))
