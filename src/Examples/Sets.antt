-- ===== src/Examples/Sets.antt =====
-- Sets and sequences on two replicas.
use numax.Prelude.{some, List, ◌≡◌, refl, ◌&&◌, ◌||◌, not, [], ◌∷◌, Bytes, bytes_ord, none, true}
use mathlib.Core.List.Memᴰ
use numax.Map.{contains_key}
use numax.Map.Join.{IsMap_of_entries}
use numax.Set
use numax.Set.{member}
use numax.Sync.Convergence.{receive}
use numax.Sync.Convergence.Types.{orset_converges, rga_converges}
use numax.Sync.OrSet
use numax.Sync.OrSet.{OrSet, add, remove, apply_remove, contains, elements}
use numax.Sync.OrSet.Merge.{IsValid}
use numax.Sync.OrSet.Laws.{add_wins}
use numax.Sync.Rga
use numax.Sync.Rga.{Rga, RgaElement, RgaElementId}
use numax.Sync.Rga.Merge as ListMerge
use numax.Sync.Rga.Order.{ordered_elements_total}

abbrev element : Bytes
element = 120 ∷ []

-- The element under the first tag; it is also what the other replica starts from.
abbrev one : OrSet
one = record { adds = (element, (1 ∷ [], tt) ∷ []) ∷ []; removes = [] }

-- The element under the first tag, which was removed.
abbrev gone : OrSet
gone = record {
  adds = (element, (1 ∷ [], tt) ∷ []) ∷ [];
  removes = (element, (1 ∷ [], tt) ∷ []) ∷ [];
}

one-IsValid : IsValid one
one-IsValid = record {
  adds = IsMap_of_entries _ _ (tt, tt) ((tt, tt), tt);
  removes = IsMap_of_entries _ _ tt tt;
}

gone-IsValid : IsValid gone
gone-IsValid = record {
  adds = IsMap_of_entries _ _ (tt, tt) ((tt, tt), tt);
  removes = IsMap_of_entries _ _ (tt, tt) ((tt, tt), tt);
}

orset_converges_example :
    receive OrSet.merged_with one (gone ∷ one ∷ [])
    ≡ receive OrSet.merged_with one (one ∷ gone ∷ gone ∷ [])
orset_converges_example =
    orset_converges one (gone ∷ one ∷ []) (one ∷ gone ∷ gone ∷ []) one-IsValid
      (gone-IsValid, (one-IsValid, tt)) (one-IsValid, (gone-IsValid, (gone-IsValid, tt)))
      (Memᴰ.tail (Memᴰ.head refl), (Memᴰ.head refl, (Memᴰ.head refl, tt)))
      (Memᴰ.tail (Memᴰ.head refl), (Memᴰ.head refl, tt))

add_wins_example :
    contains (OrSet.merged_with (add one element (2 ∷ [])).0 (remove one element).0) element ≡ true
unfolding numax.Map.get
add_wins_example = add_wins one one element (2 ∷ []) one-IsValid refl refl refl

-- Every identifier stands for the element at the head that has it as its value.
abbrev standing_for : RgaElementId → RgaElement
standing_for id = record { id = id; parent = none; value = id }

abbrev text : Rga
text = record { elements = (1 ∷ [], standing_for (1 ∷ [])) ∷ []; tombstones = [] }

abbrev edited : Rga
edited = record {
  elements = (1 ∷ [], standing_for (1 ∷ [])) ∷ (2 ∷ [], standing_for (2 ∷ [])) ∷ [];
  tombstones = (1 ∷ [], tt) ∷ [];
}

text-IsValid : ListMerge.IsValid standing_for text
text-IsValid = record { elements = IsMap_of_entries _ _ (tt, tt) (refl, tt); tombstones = tt }

edited-IsValid : ListMerge.IsValid standing_for edited
edited-IsValid = record {
  elements = IsMap_of_entries _ _ ((refl, tt), (tt, tt)) (refl, (refl, tt));
  tombstones = (tt, tt);
}

rga_converges_example :
    receive Rga.merged_with text (edited ∷ text ∷ [])
    ≡ receive Rga.merged_with text (text ∷ edited ∷ edited ∷ [])
rga_converges_example =
    rga_converges standing_for text (edited ∷ text ∷ []) (text ∷ edited ∷ edited ∷ []) text-IsValid
      (edited-IsValid, (text-IsValid, tt)) (text-IsValid, (edited-IsValid, (edited-IsValid, tt)))
      (Memᴰ.tail (Memᴰ.head refl), (Memᴰ.head refl, (Memᴰ.head refl, tt)))
      (Memᴰ.tail (Memᴰ.head refl), (Memᴰ.head refl, tt))

contains-merged_with_example : Rga.contains (Rga.merged_with text edited) (1 ∷ []) ≡ (
    (contains_key text.elements (1 ∷ []) || contains_key edited.elements (1 ∷ []))
    && not (Set.contains text.tombstones (1 ∷ []) || Set.contains edited.tombstones (1 ∷ [])))
contains-merged_with_example =
    ListMerge.contains-merged_with text edited (1 ∷ []) ((refl, tt), (tt, tt))

-- Two elements that name each other as parents, beside one that hangs from the head.
abbrev tangled : Rga
tangled = record {
  elements =
      (1 ∷ [], record { id = 1 ∷ []; parent = some (2 ∷ []); value = [] })
      ∷ (2 ∷ [], record { id = 2 ∷ []; parent = some (1 ∷ []); value = [] })
      ∷ (3 ∷ [], record { id = 3 ∷ []; parent = none; value = 120 ∷ [] })
      ∷ [];
  tombstones = [];
}

ordered_elements_total_example :
    (listed : List RgaElement) × (Rga.ordered_elements tangled ≡ some listed)
ordered_elements_total_example =
    ordered_elements_total tangled
      (IsMap_of_entries _ _ ((refl, (refl, tt)), ((refl, tt), (tt, tt))) (refl, (refl, (refl, tt))))
