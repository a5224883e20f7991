-- ===== src/Store/Pages.antt =====
-- The pages of the store are those of the list of visible entries.
use numax.Prelude.{
  ℕ, ◌-◌, ◌≡◌, refl, sym, ap, ◌∙◌, true, not, Option, none, some, List, [], ◌∷◌, map, Bytes,
  bytes_ord, above, starts_with, filter, take, drop, arith,
}
use numax.Prelude.Result.{Result, ok}
use numax.Map.Laws.{IsSorted}
use numax.Store.{StoreError}
use numax.Store.Sled.{Sled, Entry, Entries, Shows}
use numax.Store.Scan.{
  page_at, page_from_start, page_behind, scan_prefix_page, scan_prefix_page_after, keys_prefix_page,
  keys_prefix_page_after,
}
use numax.Store.Visible.{
  visible, behind, shown, visible_range, IsSorted-filter, visible_prefix, filter_all,
}
use numax.Store.Loops.{filled, page_from_start_lem, page_at_lem, page_behind_lem}

-- A cursor that a page may start behind: a key with the prefix, or none.
abbrev pub IsCursor : Bytes → Option Bytes → Type 0
IsCursor prefix none = Unit
IsCursor prefix (some start) = starts_with start prefix ≡ true

pub map_id : {A : Type 0} (xs : List A) → map (λ x. x) xs ≡ xs
map_id [] = refl
map_id (x ∷ xs) = ap (◌∷◌ x) (map_id xs)

module _ {E A : Type 0} (row : Entry → A) (excluded : Option Bytes) (limit : ℕ) (prefix : Bytes)
    (entries : Entries) where
  abbrev page : Option Bytes → Result (StoreError E) (List A)
  page start = ok (map row (take limit (behind start (visible prefix excluded entries))))

  filled_page :
      (items : List Entry)
      → filled {E = E} row excluded limit [] items ≡ ok (map row (take limit items))
  filled_page items =
      ap (λ (n : ℕ). ok (map row (take n items))) {x = limit - 0} {y = limit} (omega arith)

  start_page :
      page_from_start {E = E} row excluded limit
        (map ok (filter (λ e. starts_with e.0 prefix) entries))
        []
      ≡ page none
  start_page =
      page_from_start_lem row excluded limit (filter (λ e. starts_with e.0 prefix) entries) []
      ∙ filled_page _
      ∙ ap (λ (l : List Entry). ok (map row (take limit l)))
          (visible_prefix prefix excluded entries
            ∙ sym (filter_all (visible prefix excluded entries)))

  behind_page :
      (start : Bytes)
      → starts_with start prefix ≡ true
      → IsSorted entries
      → page_behind {E = E} row excluded limit prefix start
          (map ok (filter (λ e. not (above start e.0)) entries))
          []
        ≡ page (some start)
  behind_page start c sorted =
      page_behind_lem row excluded limit prefix start c
        (filter (λ e. not (above start e.0)) entries) [] (IsSorted-filter _ entries sorted)
      ∙ filled_page _
      ∙ ap (λ (l : List Entry). ok (map row (take limit l)))
          (visible_range prefix start excluded entries)

  offset_page :
      (cursor : ℕ)
      → page_at {E = E} row excluded limit cursor
          (map ok (filter (λ e. starts_with e.0 prefix) entries))
          0
          []
        ≡ ok (map row (take limit (drop cursor (visible prefix excluded entries))))
  offset_page cursor =
      page_at_lem row excluded limit cursor (filter (λ e. starts_with e.0 prefix) entries) 0 []
      ∙ filled_page _
      ∙ ap
          (λ (n : ℕ). ok (
            map row (
              take limit (drop n (shown excluded (filter (λ e. starts_with e.0 prefix) entries))))))
          {x = cursor - 0} {y = cursor} (omega arith)
      ∙ ap (λ (l : List Entry). ok (map row (take limit (drop cursor l))))
          (visible_prefix prefix excluded entries)

module _ (s : Sled) (db : s.Db) (entries : Entries) (shows : Shows s db entries) where
  pub scan_prefix_page_after_lem :
      (prefix : Bytes) (start : Option Bytes) (limit : ℕ) (excluded : Option Bytes)
      → IsCursor prefix start
      → scan_prefix_page_after s db prefix start limit excluded
        ≡ ok (take limit (behind start (visible prefix excluded entries)))
  unfolding scan_prefix_page_after
  scan_prefix_page_after_lem prefix none limit excluded c =
      rw (shows.shows_prefix prefix) (
        start_page (λ e. e) excluded limit prefix entries
        ∙ ap (λ (l : List Entry). ok l) (map_id _))
  scan_prefix_page_after_lem prefix (some start) limit excluded c = rw (shows.shows_range start) (
      behind_page (λ e. e) excluded limit prefix entries start c shows.sorted
      ∙ ap (λ (l : List Entry). ok l) (map_id _))

  pub keys_prefix_page_after_lem :
      (prefix : Bytes) (start : Option Bytes) (limit : ℕ) (excluded : Option Bytes)
      → IsCursor prefix start
      → keys_prefix_page_after s db prefix start limit excluded
        ≡ ok (map (λ e. e.0) (take limit (behind start (visible prefix excluded entries))))
  unfolding keys_prefix_page_after
  keys_prefix_page_after_lem prefix none limit excluded c =
      rw (shows.shows_prefix prefix) (start_page (λ e. e.0) excluded limit prefix entries)
  keys_prefix_page_after_lem prefix (some start) limit excluded c =
      rw (shows.shows_range start)
        (behind_page (λ e. e.0) excluded limit prefix entries start c shows.sorted)

  -- `scan_prefix_page` and `keys_prefix_page` return the first `limit` of the entries, or of their
  -- keys, that have the prefix and are not excluded, behind the first `cursor` of them, if sled
  -- shows the entries of the store.
  pub prefix_pages_lem :
      (prefix : Bytes) (cursor limit : ℕ) (excluded : Option Bytes)
      → (scan_prefix_page s db prefix cursor limit excluded
          ≡ ok (take limit (drop cursor (visible prefix excluded entries))))
        × (keys_prefix_page s db prefix cursor limit excluded
            ≡ ok (map (λ e. e.0) (take limit (drop cursor (visible prefix excluded entries)))))
  unfolding scan_prefix_page keys_prefix_page
  prefix_pages_lem prefix cursor limit excluded = rw (shows.shows_prefix prefix) (
    offset_page (λ e. e) excluded limit prefix entries cursor
        ∙ ap (λ (l : List Entry). ok l) (map_id _),
    offset_page (λ e. e.0) excluded limit prefix entries cursor,
  )
