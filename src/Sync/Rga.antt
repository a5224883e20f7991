-- ===== src/Sync/Rga.antt =====
-- crates/nx-sync/src/crdt/rga.rs: the replicated growable array. An element names the element that it
-- was inserted after; deletion leaves a tombstone.
pub mod Merge
mod Paths
pub mod Order
use numax.Prelude.{
  ℕ, zero, suc, ◌+◌, Bool, true, false, not, ◌&&◌, ◌||◌, Option, none, some, List, [], ◌∷◌, ◌++◌,
  map, Bytes, bytes_ord, option_ord, same, length, ◌==◌, if◌then◌else◌,
}
use numax.Map.{BTreeMap, get, insert, contains_key, get_or, upsert, for_entries}
use numax.Set
use numax.Set.{BTreeSet, keys, extend}

abbrev pub RgaElementId : Type 0
RgaElementId = Bytes

pub record RgaElement : Type 0 where
  pub id : RgaElementId
  pub parent : Option RgaElementId
  pub value : Bytes

pub record Rga : Type 0 where
  pub elements : BTreeMap RgaElementId RgaElement
  pub tombstones : BTreeSet RgaElementId

abbrev pub new : Rga
new = record { elements = []; tombstones = [] }

unfoldable pub rga_insert : Rga → Bytes → Option Bytes → Bytes → Rga × Bool
rga_insert r id parent value = if contains_key r.elements id then (r, false) else (
  record r { elements = insert r.elements id (record { id = id; parent = parent; value = value }) },
  true,
)

unfoldable pub apply_insert : Rga → Bytes → Option Bytes → Bytes → Rga × Bool
unfolding rga_insert
apply_insert r id parent value = rga_insert r id parent value

unfoldable pub delete : Rga → Bytes → Rga × Bool
delete r id =
    (record r { tombstones = Set.add r.tombstones id }, not (Set.contains r.tombstones id))

unfoldable pub apply_delete : Rga → Bytes → Rga × Bool
unfolding delete
apply_delete r id = delete r id

unfoldable pub contains : Rga → Bytes → Bool
contains r id = contains_key r.elements id && not (Set.contains r.tombstones id)

-- The parent under which `ordered_elements` files an element: the head where it is not there.
unfoldable pub filed_under : BTreeMap RgaElementId RgaElement → RgaElement → Option RgaElementId
filed_under elements element = elim element.parent [
  | some parent ↦ if contains_key elements parent then some parent else none
  | none ↦ none
]

abbrev pub Children : Type 0
Children = BTreeMap (Option RgaElementId) (List RgaElementId)

-- One round of the loop that fills `children`.
unfoldable pub file_child :
    BTreeMap RgaElementId RgaElement → Children → RgaElementId → RgaElement → Children
unfolding filed_under
file_child elements children _ element =
    upsert children (filed_under elements element)
      (λ siblings. get_or siblings [] ++ element.id ∷ [])

unfoldable pub children_of : BTreeMap RgaElementId RgaElement → Children
unfolding file_child
children_of elements = for_entries (file_child elements) [] elements

-- `append_children`, depth first. It recurs on the depth that is left; `none` means that the depth
-- did not suffice. `walk` is the loop over the children of one parent, and takes what the recursive
-- call appends for a child.
unfoldable pub walk :
    (RgaElementId → List RgaElement → Option (List RgaElement))
    → BTreeMap RgaElementId RgaElement
    → List RgaElementId
    → List RgaElement
    → Option (List RgaElement)
walk descend elements [] out = some out
walk descend elements (child_id ∷ rest) out = elim (get elements child_id) [
  | none ↦ walk descend elements rest out
  | some element ↦ elim (descend child_id (out ++ element ∷ [])) [
    | none ↦ none
    | some out' ↦ walk descend elements rest out'
  ]
]

unfoldable pub append_children :
    ℕ
    → Option RgaElementId
    → Children
    → BTreeMap RgaElementId RgaElement
    → List RgaElement
    → Option (List RgaElement)
append_children zero parent children elements out = none
append_children (suc depth) parent children elements out = elim (get children parent) [
  | none ↦ some out
  | some child_ids ↦
      walk (λ child. append_children depth (some child) children elements) elements child_ids out
]

-- The depth is one more than the number of elements.
unfoldable pub ordered_elements : Rga → Option (List RgaElement)
unfolding append_children walk children_of
ordered_elements r =
    append_children (length r.elements + 1) none (children_of r.elements) r.elements []

unfoldable pub keep_alive : BTreeSet RgaElementId → List RgaElement → List RgaElement
keep_alive tombstones [] = []
keep_alive tombstones (element ∷ rest) =
    let kept = keep_alive tombstones rest in
    if Set.contains tombstones element.id then kept else element ∷ kept

abbrev on_some : {A B : Type 0} → (A → B) → Option A → Option B
on_some f none = none
on_some f (some a) = some (f a)

unfoldable pub visible_elements : Rga → Option (List RgaElement)
unfolding ordered_elements keep_alive
visible_elements r = on_some (keep_alive r.tombstones) (ordered_elements r)

unfoldable pub values : Rga → Option (List Bytes)
unfolding visible_elements
values r = on_some (map (λ (e : RgaElement). e.value)) (visible_elements r)

unfoldable pub ordered_ids : Rga → Option (List Bytes)
unfolding ordered_elements
ordered_ids r = on_some (map (λ (e : RgaElement). e.id)) (ordered_elements r)

-- The body of the loop of `merge`, with `changed` beside the elements.
unfoldable pub merge_element :
    BTreeMap RgaElementId RgaElement × Bool
    → RgaElementId
    → RgaElement
    → BTreeMap RgaElementId RgaElement × Bool
merge_element (elements, changed) id element =
    if contains_key elements id then (elements, changed) else (insert elements id element, true)

unfoldable pub merge : Rga → Rga → Rga × Bool
unfolding merge_element
merge r other =
    let (elements', changed) = for_entries merge_element (r.elements, false) other.elements in
    let tombstones' = extend r.tombstones (keys other.tombstones) in
    (
      record { elements = elements'; tombstones = tombstones' },
      changed || not (length tombstones' == length r.tombstones),
    )

unfoldable pub merged_with : Rga → Rga → Rga
unfolding merge
merged_with r other = (merge r other).0
