-- ===== src/Sync/Rga/Order.antt =====
-- `Rga::ordered_elements`: the ways that its recursion takes from the head down.
use numax.Prelude.{
  ℕ, zero, suc, ◌+◌, ◌≤◌, ◌≡◌, refl, sym, ap, ◌∙◌, subst, inl, inr, Option, none, some, List, [],
  ◌∷◌, ◌++◌, Bytes, bytes_ord, option_ord, same, same→eq, same_refl, length, arith, Bool-cases,
  Option-cases,
}
use numax.Map.{get, get_or, for_entries, contains_key}
use numax.Map.Laws.{IsSorted, IsSorted-insert, get-insert, get-eq-none_of_IsAbove}
use numax.Map.Join.{IsMap}
use numax.Map.Upsert.{get-upsert, get-upsert_self}
use numax.Sync.Rga.{
  Rga, RgaElement, RgaElementId, filed_under, Children, file_child, children_of, walk,
  append_children, ordered_elements, rga_insert,
}
use numax.Sync.Rga.Paths.{Elements, IsChild, PathTo, root, down, path_bounded}

module _ (elements : Elements) where
  abbrev AllChildren : Option RgaElementId → List RgaElementId → Type 0
  AllChildren parent [] = Unit
  AllChildren parent (id ∷ ids) = IsChild elements parent id × AllChildren parent ids

  AllChildren-append :
      (parent : Option RgaElementId) (ids : List RgaElementId) (id : RgaElementId)
      → AllChildren parent ids
      → IsChild elements parent id
      → AllChildren parent (ids ++ id ∷ [])
  AllChildren-append parent [] id a c = (c, tt)
  AllChildren-append parent (x ∷ ids) id a c = (a.0, AllChildren-append parent ids id a.1 c)

  -- Every list of a table of children has children of its parent.
  abbrev IsTable : Children → Type 0
  IsTable children =
      (parent : Option RgaElementId) (ids : List RgaElementId)
      → get children parent ≡ some ids
      → AllChildren parent ids

  -- Entries that are those of the sequence, under the identifiers of their elements.
  abbrev AllFrom : Elements → Type 0
  AllFrom [] = Unit
  AllFrom ((id, element) ∷ m) = (get elements id ≡ some element) × (element.id ≡ id) × AllFrom m

  AllChildren-get_or :
      (parent : Option RgaElementId) (found : Option (List RgaElementId))
      → ((ids : List RgaElementId) → found ≡ some ids → AllChildren parent ids)
      → AllChildren parent (get_or found [])
  AllChildren-get_or parent none h = tt
  AllChildren-get_or parent (some ids) h = h ids refl

  file_child-IsTable :
      (children : Children) (id : RgaElementId) (element : RgaElement)
      → get elements id ≡ some element
      → element.id ≡ id
      → IsTable children
      → IsTable (file_child elements children id element)
  unfolding file_child
  file_child-IsTable children id element g own t parent ids h =
      let p = filed_under elements element in
      let pushed = get_or (get children p) [] ++ element.id ∷ [] in
      let here : AllChildren p pushed =
        AllChildren-append p (get_or (get children p) []) element.id
          (AllChildren-get_or p (get children p) (t p))
          (element, ap (get elements) own ∙ g, refl) in
      let found =
        get-upsert children p (λ siblings. get_or siblings [] ++ element.id ∷ []) parent in
      elim (Bool-cases (same parent p)) [
        | inl e ↦
            let at_p : parent ≡ p = same→eq parent p e in
            let same_ids : pushed ≡ ids = ground (
              arith,
              get-upsert_self children p (λ siblings. get_or siblings [] ++ element.id ∷ []),
              h,
              ap (get (file_child elements children id element)) at_p,
            ) in
            subst (AllChildren parent) same_ids (subst (λ q. AllChildren q pushed) (sym at_p) here)
        | inr e ↦ t parent ids (ground (arith, found, e, h))
      ]

  children-IsTable :
      (m : Elements) (children : Children)
      → AllFrom m
      → IsTable children
      → IsTable (for_entries (file_child elements) children m)
  unfolding for_entries
  children-IsTable [] children a t = t
  children-IsTable ((id, element) ∷ m) children a t =
      children-IsTable m (file_child elements children id element) a.2
        (file_child-IsTable children id element a.0 a.1 t)

  walk_total :
      (descend : RgaElementId → List RgaElement → Option (List RgaElement))
      (parent : Option RgaElementId) (ids : List RgaElementId) (out : List RgaElement)
      → AllChildren parent ids
      → ((id : RgaElementId)
          → IsChild elements parent id
          → (out : List RgaElement) → (listed : List RgaElement) × (descend id out ≡ some listed))
      → (listed : List RgaElement) × (walk descend elements ids out ≡ some listed)
  unfolding walk
  walk_total descend parent [] out a d = (out, refl)
  walk_total descend parent (id ∷ ids) out a d =
      let (element, g, p) = a.0 in
      let (listed, e) = d id a.0 (out ++ element ∷ []) in
      let (rest, r) = walk_total descend parent ids listed a.1 d in (rest, rw (walk, g, e) r)

  append_total :
      (depth : ℕ) (parent : Option RgaElementId) (path : List RgaElementId) (children : Children)
      (out : List RgaElement)
      → IsTable children
      → PathTo elements parent path
      → suc (length elements) ≤ depth + length path
      → (listed : List RgaElement) × (append_children depth parent children elements out
          ≡ some listed)
  unfolding append_children
  append_total zero parent path children out t w h =
      absurd (omega (arith, h, path_bounded elements parent path w))
  append_total (suc depth) parent path children out t w h =
      elim (Option-cases (get children parent)) [
        | inl e ↦ (out, rw (append_children, e) refl)
        | inr (ids, e) ↦
            let (listed, r) =
              walk_total (λ child. append_children depth (some child) children elements) parent ids
                out (t parent ids e)
                λ id c next.
                  append_total depth (some id) (id ∷ path) children next t (down id c w)
                    (omega (arith, h)) in
            (listed, rw (append_children, e) r)
      ]

-- An element stands under its own identifier.
abbrev pub OwnId : RgaElementId → RgaElement → Type 0
OwnId id element = element.id ≡ id

module _ (elements : Elements) (v : IsMap OwnId elements) where
  AllFrom-entries :
      (m : Elements)
      → IsSorted m
      → ((id : RgaElementId) (element : RgaElement)
          → get m id ≡ some element
          → get elements id ≡ some element)
      → AllFrom elements m
  unfolding get
  AllFrom-entries [] s sub = tt
  AllFrom-entries ((id, element) ∷ m) s sub =
      let found = sub id element (ground (arith, same_refl id)) in
      (
        found,
        v.values id element found,
        AllFrom-entries m s.1
            (λ i e h. sub i e (ground (arith, h, get-eq-none_of_IsAbove id m s.0, same→eq i id))),
      )

-- The recursion that lists the elements ends within its depth and gives a list, for a sequence
-- whose elements stand in order and each under its own identifier, whatever parents they name.
pub ordered_elements_total :
    (r : Rga)
    → IsMap OwnId r.elements
    → (listed : List RgaElement) × (ordered_elements r ≡ some listed)
unfolding ordered_elements children_of get
ordered_elements_total r v =
    append_total r.elements (length r.elements + 1) none [] (children_of r.elements) []
      (children-IsTable r.elements r.elements []
        (AllFrom-entries r.elements v r.elements v.sorted (λ i e h. h))
        (λ parent ids h. absurd (cc h)))
      root (omega arith)

-- Inserting an element keeps the elements under their own identifiers.
pub rga_insert-OwnId :
    (r : Rga) (id : Bytes) (parent : Option Bytes) (value : Bytes)
    → IsMap OwnId r.elements
    → IsMap OwnId (rga_insert r id parent value).0.elements
unfolding rga_insert
rga_insert-OwnId r id parent value v = elim (Bool-cases (contains_key r.elements id)) [
  | inl e ↦ rw e v
  | inr e ↦ rw e (record {
    sorted = IsSorted-insert r.elements id _ v.sorted;
    values = λ k element h. ground (
      arith,
      h,
      get-insert r.elements id (record { id = id; parent = parent; value = value }) k,
      same→eq k id,
      v.values k element,
    );
  })
]
