-- ===== src/Sync/OrSet.antt =====
-- crates/nx-sync/src/crdt/orset.rs: the observed-remove set. An add carries a fresh tag; a remove
-- carries the tags that its replica has seen, and hides those alone.
pub mod Merge
pub mod Valid
pub mod Laws
pub mod Commute
use numax.Prelude.{
  ℕ, Bool, true, false, not, ◌&&◌, ◌||◌, Option, none, some, List, [], ◌∷◌, Bytes, bytes_ord, same,
  length, ◌==◌, if◌then◌else◌,
}
use numax.Map.{BTreeMap, get, insert, get_or, upsert, for_entries}
use numax.Set
use numax.Set.{BTreeSet, keys, extend}

-- For each element, the tags under which it was added, and those that were removed.
abbrev pub Tags : Type 0
Tags = BTreeMap Bytes (BTreeSet Bytes)

pub record OrSet : Type 0 where
  pub adds : Tags
  pub removes : Tags

abbrev pub new : OrSet
new = record { adds = []; removes = [] }

-- `map.entry(element).or_default()`
abbrev pub tags_of : Option (BTreeSet Bytes) → BTreeSet Bytes
tags_of found = get_or found []

-- The set after the call, and whether the tag is new.
unfoldable pub add : OrSet → Bytes → Bytes → OrSet × Bool
add s element tag = (
  record s { adds = upsert s.adds element (λ tags. Set.add (tags_of tags) tag) },
  not (Set.contains (tags_of (get s.adds element)) tag),
)

unfoldable pub apply_add : OrSet → Bytes → Bytes → OrSet × Bool
unfolding add
apply_add s element tag = add s element tag

unfoldable pub apply_remove : OrSet → Bytes → List Bytes → OrSet × Bool
apply_remove s element observed_tags =
    let tags = tags_of (get s.removes element) in
    (
      record s { removes = upsert s.removes element (λ t. extend (tags_of t) observed_tags) },
      not (length (extend tags observed_tags) == length tags),
    )

unfoldable pub observed_tags : OrSet → Bytes → List Bytes
observed_tags s element = keys (tags_of (get s.adds element))

-- The set after the call, and the tags for the remove operation to carry.
unfoldable pub remove : OrSet → Bytes → OrSet × List Bytes
remove s element =
    let observed = observed_tags s element in ((apply_remove s element observed).0, observed)

-- The filter of `visible_tags`; `removed` is the entry for the element.
unfoldable pub keep_visible : Option (BTreeSet Bytes) → List Bytes → List Bytes
keep_visible removed [] = []
keep_visible removed (tag ∷ tags) =
    let rest = keep_visible removed tags in
    if Set.contains (tags_of removed) tag then rest else tag ∷ rest

unfoldable pub visible_tags : OrSet → Bytes → List Bytes
unfolding keep_visible
visible_tags s element = keep_visible (get s.removes element) (keys (tags_of (get s.adds element)))

abbrev is_nonempty : List Bytes → Bool
is_nonempty [] = false
is_nonempty (_ ∷ _) = true

unfoldable pub contains : OrSet → Bytes → Bool
unfolding visible_tags
contains s element = is_nonempty (visible_tags s element)

-- The filter of `elements`.
unfoldable pub keep_contained : OrSet → List Bytes → List Bytes
unfolding contains
keep_contained s [] = []
keep_contained s (element ∷ rest) =
    let kept = keep_contained s rest in if contains s element then element ∷ kept else kept

unfoldable pub elements : OrSet → List Bytes
unfolding keep_contained
elements s = keep_contained s (keys s.adds)

-- The body of both loops of `merge`, over one of the two tables, with `changed` beside it.
unfoldable pub merge_tags : Tags × Bool → Bytes → BTreeSet Bytes → Tags × Bool
merge_tags (local, changed) element tags =
    let local_tags = tags_of (get local element) in
    let extended = extend local_tags (keys tags) in
    (insert local element extended, changed || not (length extended == length local_tags))

unfoldable pub merge : OrSet → OrSet → OrSet × Bool
merge s other =
    let (adds', changed) = for_entries merge_tags (s.adds, false) other.adds in
    let (removes', changed') = for_entries merge_tags (s.removes, changed) other.removes in
    (record { adds = adds'; removes = removes' }, changed')

unfoldable pub merged_with : OrSet → OrSet → OrSet
unfolding merge
merged_with s other = (merge s other).0
