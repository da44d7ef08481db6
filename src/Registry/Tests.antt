-- ===== src/Registry/Tests.antt =====
-- A configuration that inherits from another one.
use asct.Prelude.{ℕ, ◌<◌, length, ◌≡◌, refl, none, [], ◌∷◌, ok, err, nat_key, arith}
use asct.Text.{codes, text_key, text_beq}
use asct.Dict.{lookup, insert, update}
use asct.Registry.{Heap, new, new_from, set_item, get_item, get_attribute, get_dict, key_error}
use asct.Registry.Invariant.{Reach, Step, Reach-Agree, Reach-IsWellFormed, empty-IsWellFormed}
use asct.Registry.Parents.{Agree, IsWellFormed}

abbrev bare : Heap ℕ
bare = []

abbrev base_config : Heap ℕ
base_config = new bare ((codes "duration", 5) ∷ (codes "delay", 7) ∷ [])

abbrev inherited_config : Heap ℕ
inherited_config = new_from base_config 0 ((codes "duration", 9) ∷ [])

reads_child : get_item 2 inherited_config 1 (codes "duration") ≡ ok 9
unfolding get_item new_from new set_item text_beq lookup insert
reads_child = refl

reads_parent : get_item 2 inherited_config 1 (codes "delay") ≡ ok 7
unfolding get_item new_from new set_item text_beq lookup insert
reads_parent = refl

reads_neither : get_item 2 inherited_config 1 (codes "cpus") ≡ err (key_error (codes "cpus"))
unfolding get_item new_from new set_item text_beq lookup insert
reads_neither = refl

missing_attribute : get_attribute 2 inherited_config 1 (codes "cpus") ≡ ok none
unfolding get_attribute new_from new set_item text_beq lookup insert
missing_attribute = refl

whole : get_dict 2 inherited_config 1 ≡ ok ((codes "duration", 9) ∷ (codes "delay", 7) ∷ [])
unfolding get_dict new_from new set_item text_beq update
whole = refl

reached : Reach bare inherited_config
unfolding new new_from text_beq set_item
reached =
    Reach.next
      (Reach.next Reach.here (Step.created ((codes "duration", 5) ∷ (codes "delay", 7) ∷ [])))
      (Step.inherited 0 ((codes "duration", 9) ∷ []) (omega arith))

is_child : 1 < length inherited_config
unfolding new new_from text_beq set_item
is_child = omega arith

Reach-Agree_example : Agree 2 inherited_config 1
Reach-Agree_example = Reach-Agree 1 reached is_child

inherited_config-IsWellFormed : IsWellFormed inherited_config
inherited_config-IsWellFormed = Reach-IsWellFormed (empty-IsWellFormed bare refl) reached
