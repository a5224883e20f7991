-- ===== src/Sync/OrSet/Laws.antt =====
-- What a client sees of an `ORSet`, through `contains` and `elements`.
use numax.Prelude.{
  ◌≡◌, refl, sym, ap, ◌∙◌, ◌↔◌, Bool, true, false, not, ◌&&◌, ◌||◌, Option, none, List, [], ◌∷◌,
  Bytes, bytes_ord, length, ◌==◌, same, same_refl, arith, same→eq, inl, inr, Bool-cases,
}
use numax.Map.{get}
use numax.Map.Upsert.{get-upsert}
use numax.Set
use numax.Set.{BTreeSet, keys, extend, member}
use numax.Set.Laws.{contains-add, contains-extend, member-keys}
use numax.Sync.OrSet.{
  OrSet, tags_of, add, apply_remove, observed_tags, remove, keep_visible, visible_tags, is_nonempty,
  contains, keep_contained, elements, merged_with,
}
use numax.Sync.OrSet.Valid.{apply_remove-IsValid}
use numax.Sync.OrSet.Merge.{IsValid, has_tag, has_tag-merged_with}

-- A tag that hides under no remove.
abbrev pub tag_is_visible : OrSet → Bytes → Bytes → Bool
tag_is_visible s e t = has_tag s.adds e t && not (has_tag s.removes e t)

member-keep_visible :
    (removed : Option (BTreeSet Bytes)) (tags : List Bytes) (t : Bytes)
    → member (keep_visible removed tags) t
      ≡ (member tags t && not (Set.contains (tags_of removed) t))
unfolding keep_visible member
member-keep_visible removed [] t = refl
member-keep_visible removed (x ∷ tags) t =
    ground (arith, member-keep_visible removed tags t, same→eq t x)

-- The visible tags of an element are those that were added and not removed.
pub member-visible_tags :
    (s : OrSet) (e t : Bytes) → member (visible_tags s e) t ≡ tag_is_visible s e t
unfolding visible_tags
member-visible_tags s e t =
    member-keep_visible (get s.removes e) (keys (tags_of (get s.adds e))) t
    ∙ ap (λ b. b && not (has_tag s.removes e t)) (member-keys (tags_of (get s.adds e)) t)

nonempty_of_member : (ts : List Bytes) (t : Bytes) → member ts t ≡ true → is_nonempty ts ≡ true
unfolding member
nonempty_of_member [] t h = h
nonempty_of_member (x ∷ ts) t h = refl

member_of_nonempty : (ts : List Bytes) → is_nonempty ts ≡ true → (t : Bytes) × (member ts t ≡ true)
unfolding member
member_of_nonempty [] h = cc
member_of_nonempty (x ∷ ts) h = (x, ground (arith, same_refl x))

-- `contains` holds of an element exactly if it has a tag that was added and not removed.
pub contains_iff :
    (s : OrSet) (e : Bytes) → (contains s e ≡ true) ↔ ((t : Bytes) × (tag_is_visible s e t ≡ true))
unfolding contains
contains_iff s e = (
  λ h.
      let (t, m) = member_of_nonempty (visible_tags s e) h in
      (t, sym (member-visible_tags s e t) ∙ m),
  λ w. nonempty_of_member (visible_tags s e) w.0 (member-visible_tags s e w.0 ∙ w.1),
)

pub has_tag-add :
    (s : OrSet) (e t i u : Bytes)
    → has_tag (add s e t).0.adds i u ≡ ((same i e && same u t) || has_tag s.adds i u)
unfolding add
has_tag-add s e t i u = ground (
  arith,
  get-upsert s.adds e (λ (tags : Option (BTreeSet Bytes)). Set.add (tags_of tags) t) i,
  contains-add (tags_of (get s.adds i)) t u,
)

has_tag-apply_remove :
    (s : OrSet) (e : Bytes) (ts : List Bytes) (i u : Bytes)
    → has_tag (apply_remove s e ts).0.removes i u
      ≡ ((same i e && member ts u) || has_tag s.removes i u)
unfolding apply_remove
has_tag-apply_remove s e ts i u = ground (
  arith,
  get-upsert s.removes e (λ (tags : Option (BTreeSet Bytes)). extend (tags_of tags) ts) i,
  contains-extend (tags_of (get s.removes i)) ts u,
)

-- `contains` is false where no tag is visible.
not-contains :
    (s : OrSet) (e : Bytes) → ((t : Bytes) → tag_is_visible s e t ≡ false) → contains s e ≡ false
not-contains s e h = elim (Bool-cases (contains s e)) [
  | inl c ↦ let (t, v) = (contains_iff s e).0 c in cc (v, h t)
  | inr c ↦ c
]

adds-remove : (s : OrSet) (e : Bytes) → (remove s e).0.adds ≡ s.adds
unfolding remove apply_remove
adds-remove s e = refl

removes-add : (s : OrSet) (e t : Bytes) → (add s e t).0.removes ≡ s.removes
unfolding add
removes-add s e t = refl

has_tag-remove :
    (s : OrSet) (e i u : Bytes)
    → has_tag (remove s e).0.removes i u
      ≡ ((same i e && has_tag s.adds e u) || has_tag s.removes i u)
unfolding remove observed_tags
has_tag-remove s e i u =
    has_tag-apply_remove s e (observed_tags s e) i u
    ∙ ap (λ b. (same i e && b) || has_tag s.removes i u) (member-keys (tags_of (get s.adds e)) u)

remove-IsValid : (s : OrSet) (e : Bytes) → IsValid s → IsValid (remove s e).0
unfolding remove
remove-IsValid s e v = apply_remove-IsValid s e (observed_tags s e) v

-- After a remove of an element the set does not contain it.
pub contains-remove_self : (s : OrSet) (e : Bytes) → contains (remove s e).0 e ≡ false
contains-remove_self s e =
    not-contains (remove s e).0 e
      λ t. rw (adds-remove s e) (ground (arith, has_tag-remove s e e t, same_refl e))

-- An add of an element is visible after its replica merges one that has just removed the element,
-- if the removing set is valid and had the tag neither among the adds nor among the removes of the
-- element, and the adding set did not have it among the removes.
pub add_wins :
    (a b : OrSet) (e t : Bytes)
    → IsValid b
    → has_tag b.adds e t ≡ false
    → has_tag b.removes e t ≡ false
    → has_tag a.removes e t ≡ false
    → contains (merged_with (add a e t).0 (remove b e).0) e ≡ true
add_wins a b e t vb new_to_b not_removed_b not_removed_a =
    let m = has_tag-merged_with (add a e t).0 (remove b e).0 e t (remove-IsValid b e vb) in
    (contains_iff (merged_with (add a e t).0 (remove b e).0) e).1 (
      t,
      rw (m.0, m.1, removes-add a e t)
          (ground (arith, has_tag-add a e t e t, has_tag-remove b e e t, same_refl e, same_refl t)),
    )

-- The filter of no tags.
nonempty-keep_visible :
    (removed : Option (BTreeSet Bytes)) (tags : List Bytes)
    → (length tags == 0) ≡ true
    → is_nonempty (keep_visible removed tags) ≡ false
unfolding keep_visible
nonempty-keep_visible removed [] h = refl
nonempty-keep_visible removed (tag ∷ tags) h = absurd (ground arith)

-- A set from which a remove would take no tags does not contain the element.
pub contains-unobserved :
    (s : OrSet) (e : Bytes) → (length (remove s e).1 == 0) ≡ true → contains s e ≡ false
unfolding contains visible_tags remove observed_tags
contains-unobserved s e h =
    nonempty-keep_visible (get s.removes e) (keys (tags_of (get s.adds e))) h

-- A set contains an element that it just added under a tag that it has not removed.
pub contains-add_self :
    (s : OrSet) (e t : Bytes) → has_tag s.removes e t ≡ false → contains (add s e t).0 e ≡ true
contains-add_self s e t fresh = (contains_iff (add s e t).0 e).1 (
  t,
  rw (removes-add s e t, fresh) (ground (arith, has_tag-add s e t e t, same_refl e, same_refl t)),
)

member-keep_contained :
    (s : OrSet) (es : List Bytes) (e : Bytes)
    → member (keep_contained s es) e ≡ (member es e && contains s e)
unfolding keep_contained member
member-keep_contained s [] e = refl
member-keep_contained s (x ∷ es) e = ground (arith, member-keep_contained s es e, same→eq e x)

not-contains_of_absent : (s : OrSet) (e : Bytes) → get s.adds e ≡ none → contains s e ≡ false
unfolding contains keep_visible
not-contains_of_absent s e h = rw h

-- `elements` lists an element exactly if `contains` finds it.
pub member-elements : (s : OrSet) (e : Bytes) → member (elements s) e ≡ contains s e
unfolding elements
member-elements s e =
    member-keep_contained s (keys s.adds) e
    ∙ ap (λ b. b && contains s e) (member-keys s.adds e)
    ∙ ground (arith, not-contains_of_absent s e)
