-- ===== src/Store/Loops.antt =====
-- The loops of the pages, from any point on.
use numax.Prelude.{
  ℕ, zero, suc, ◌+◌, ◌-◌, ◌≡◌, refl, sym, ap, ◌∙◌, true, false, Option, some, List, [], ◌∷◌, ◌++◌,
  map, Bytes, bytes_ord, above, leb, ltb, starts_with, length, length-append, take, drop,
  drop-nil_generic, Bool-cases, inl, inr, arith,
}
use mathlib.Core.List.{append_assoc, append-nil}
use numax.Prelude.Result.{Result, ok}
use numax.Map.Laws.{IsSorted}
use numax.Store.{StoreError}
use numax.Store.Sled.{Entry, Entries}
use numax.Store.Scan.{is_excluded, page_at, page_from_start, page_behind}
use numax.Store.Visible.{is_visible, visible, behind, shown, visible_none}

-- What a page that is full, or that has room, still takes.
take_full : {A : Type 0} (limit n : ℕ) (xs : List A) → leb limit n ≡ true → take (limit - n) xs ≡ []
take_full limit n xs h = ap (λ m. take m xs) {x = limit - n} {y = 0} (ground arith)

take_room :
    {A : Type 0} (limit n : ℕ) (x : A) (xs : List A)
    → leb limit n ≡ false
    → take (limit - n) (x ∷ xs) ≡ x ∷ take (limit - (n + 1)) xs
take_room limit n x xs h =
    ap (λ m. take m (x ∷ xs)) {x = limit - n} {y = suc (limit - (n + 1))} (ground arith)

take_nil : {A : Type 0} (n : ℕ) → take {A = A} n [] ≡ []
take_nil zero = refl
take_nil (suc n) = refl

drop_more :
    {A : Type 0} (cursor skipped : ℕ) (x : A) (xs : List A)
    → ltb skipped cursor ≡ true
    → drop (cursor - skipped) (x ∷ xs) ≡ drop (cursor - (skipped + 1)) xs
drop_more cursor skipped x xs h =
    ap (λ n. drop n (x ∷ xs)) {x = cursor - skipped} {y = suc (cursor - (skipped + 1))}
      (ground arith)

drop_none :
    {A : Type 0} (cursor skipped : ℕ) (xs : List A)
    → ltb skipped cursor ≡ false
    → drop (cursor - skipped) xs ≡ xs
drop_none cursor skipped xs h = ap (λ n. drop n xs) {x = cursor - skipped} {y = 0} (ground arith)

module _ {E A : Type 0} (row : Entry → A) (excluded : Option Bytes) (limit : ℕ) where
  -- A page with some rows, and the rows that come behind them.
  abbrev pub filled : List A → List Entry → Result (StoreError E) (List A)
  filled out items = ok (out ++ map row (take (limit - length out) items))

  filled_full :
      (out : List A) (items : List Entry)
      → leb limit (length out) ≡ true
      → filled out items ≡ ok out
  filled_full out items full =
      ap (λ (l : List Entry). ok (out ++ map row l)) (take_full limit (length out) items full)
      ∙ ap (λ (l : List A). ok l) (append-nil out)

  filled_room :
      (out : List A) (e : Entry) (items : List Entry)
      → leb limit (length out) ≡ false
      → filled (out ++ row e ∷ []) items ≡ filled out (e ∷ items)
  filled_room out e items room =
      ap (λ (l : List A). ok l)
        (append_assoc out (row e ∷ []) _
          ∙ ap (λ (n : ℕ). out ++ row e ∷ map row (take (limit - n) items))
              (length-append out (row e ∷ []))
          ∙ ap (λ (l : List Entry). out ++ map row l)
              (sym (take_room limit (length out) e items room)))

  filled_nil : (out : List A) → ◌≡◌ {A = Result (StoreError E) (List A)} (ok out) (filled out [])
  filled_nil out =
      ap (λ (l : List A). ok l)
        (sym (append-nil out)
          ∙ ap (λ (l : List Entry). out ++ map row l) (sym (take_nil (limit - length out))))

  pub page_from_start_lem :
      (items : List Entry) (out : List A)
      → page_from_start {E = E} row excluded limit (map ok items) out
        ≡ filled out (shown excluded items)
  unfolding page_from_start
  page_from_start_lem [] out = filled_nil out
  page_from_start_lem (e ∷ items) out = elim (Bool-cases (is_excluded excluded e.0)) [
    | inl skip ↦ rw (skip, page_from_start) (page_from_start_lem items out)
    | inr keep ↦ elim (Bool-cases (leb limit (length out))) [
      | inl full ↦
          rw (keep, full, page_from_start) (sym (filled_full out (e ∷ shown excluded items) full))
      | inr room ↦
          rw (keep, room, page_from_start)
            (page_from_start_lem items (out ++ row e ∷ [])
              ∙ filled_room out e (shown excluded items) room)
    ]
  ]

  pub page_at_lem :
      (cursor : ℕ) (items : List Entry) (skipped : ℕ) (out : List A)
      → page_at {E = E} row excluded limit cursor (map ok items) skipped out
        ≡ filled out (drop (cursor - skipped) (shown excluded items))
  unfolding page_at
  page_at_lem cursor [] skipped out =
      filled_nil out
      ∙ ap (λ (l : List Entry). filled out l) (sym (drop-nil_generic (cursor - skipped)))
  page_at_lem cursor (e ∷ items) skipped out = elim (Bool-cases (is_excluded excluded e.0)) [
    | inl skip ↦ rw (skip, page_at) (page_at_lem cursor items skipped out)
    | inr keep ↦ elim (Bool-cases (ltb skipped cursor)) [
      | inl more ↦
          rw (keep, more, page_at)
            (page_at_lem cursor items (skipped + 1) out
              ∙ ap (λ (l : List Entry). filled out l)
                  (sym (drop_more cursor skipped e (shown excluded items) more)))
      | inr enough ↦ elim (Bool-cases (leb limit (length out))) [
        | inl full ↦
            rw (keep, enough, full, page_at)
              (sym (filled_full out (drop (cursor - skipped) (e ∷ shown excluded items)) full))
        | inr room ↦
            rw (keep, enough, room, page_at)
              (page_at_lem cursor items skipped (out ++ row e ∷ [])
                ∙ ap (λ (l : List Entry). filled (out ++ row e ∷ []) l)
                    (drop_none cursor skipped (shown excluded items) enough)
                ∙ filled_room out e (shown excluded items) room
                ∙ ap (λ (l : List Entry). filled out l)
                    (sym (drop_none cursor skipped (e ∷ shown excluded items) enough)))
      ]
    ]
  ]

  pub page_behind_lem :
      (prefix start : Bytes)
      → starts_with start prefix ≡ true
      → (items : Entries) (out : List A) → IsSorted items
      → page_behind {E = E} row excluded limit prefix start (map ok items) out
        ≡ filled out (behind (some start) (visible prefix excluded items))
  unfolding page_behind visible is_visible
  page_behind_lem prefix start f [] out s = filled_nil out
  page_behind_lem prefix start f (e ∷ items) out s = elim (Bool-cases (above e.0 start)) [
    | inr below ↦ elim (Bool-cases (is_visible prefix excluded e)) [
      | inl shows ↦
          rw (below, page_behind) (rw (shows, below) (page_behind_lem prefix start f items out s.1))
      | inr hides ↦
          rw (below, page_behind) (rw hides (page_behind_lem prefix start f items out s.1))
    ]
    | inl up ↦ elim (Bool-cases (starts_with e.0 prefix)) [
      | inr left ↦
          rw (up, left, page_behind)
            (filled_nil out
              ∙ ap (λ (l : List Entry). filled out (behind (some start) l))
                  (sym (visible_none prefix start e.0 excluded items f left up s.0)))
      | inl stays ↦ elim (Bool-cases (is_excluded excluded e.0)) [
        | inl skip ↦
            rw (up, stays, skip, page_behind) (page_behind_lem prefix start f items out s.1)
        | inr keep ↦ elim (Bool-cases (leb limit (length out))) [
          | inl full ↦
              rw (up, stays, keep, full, page_behind)
                (rw up (
                  sym (
                    filled_full out (e ∷ behind (some start) (visible prefix excluded items))
                      full)))
          | inr room ↦
              rw (up, stays, keep, room, page_behind)
                (rw up (
                  page_behind_lem prefix start f items (out ++ row e ∷ []) s.1
                  ∙ filled_room out e (behind (some start) (visible prefix excluded items)) room))
        ]
      ]
    ]
  ]
