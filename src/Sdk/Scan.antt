-- ===== src/Sdk/Scan.antt =====
-- The guest's `scan` and `keys` over the host functions over a store: every visible entry, in key
-- order, once.
use numax.Prelude.{
  ℕ, ◌*◌, ◌≤◌, ◌<◌, ◌≡◌, refl, sym, ap, ◌∙◌, subst, true, false, some, Option-cases, List, [], ◌++◌,
  map, Bytes, bytes_ord, length, drop, drop-append, take, starts_with, inl, inr, ◌⊎◌, arith,
}
use numax.Prelude.Result.{ok}
use numax.Map.Laws.{IsSorted}
use numax.Store.Sled.{Sled, Entry, Entries, Shows}
use numax.Store.Writes.{Store}
use numax.Store.Visible.{visible, behind, is_visible, IsSorted-filter}
use numax.Store.Pages.{map_id}
use numax.HostApi.Guest.{max_key_len, reserved_prefix}
use numax.HostApi.Encode.{encode_scan_rows, encode_keys}
use numax.Sdk.Db.{scan, keys, scan_page_after, keys_page_after, last_of, default_scan_limit}
use numax.Sdk.RoundTrip.{All}
use numax.Sdk.Pages.{key_of, collect_pages_lem}
use numax.Sdk.Link.{Placement, Places, linked}
use numax.Sdk.Served.{IsAllowed}
use numax.Sdk.Cursors.{last_of-All, last_of_nonempty, behind-last_of, visible-All}
use numax.Sdk.PageCalls.{IsResumable, guest_rows, PagesFit, scan_page_lem, keys_page_lem}

module _ (s : Sled) (store : Store s) (entries : Entries) (shows : Shows s store.db entries)
    (place : Placement)
    (places : (first second : Bytes) (room : ℕ)
      → Places (place first second room) first second room)
    (prefix : Bytes) (allowed : IsAllowed prefix) where
  abbrev rows : List Entry
  rows = guest_rows prefix entries

  rows-IsSorted : IsSorted rows
  unfolding visible
  rows-IsSorted = IsSorted-filter (is_visible prefix (some reserved_prefix)) entries shows.sorted

  abbrev ShortKeys : Type 0
  ShortKeys = All (λ e. length e.0 ≤ max_key_len) rows

  IsResumable-some :
      (done rest : List Entry) (k : Bytes)
      → rows ≡ done ++ rest
      → default_scan_limit ≤ length done
      → ShortKeys
      → last_of key_of done ≡ some k
      → IsResumable prefix (some k)
  IsResumable-some done rest k split long short e =
      let seen =
        subst
          (λ (l : List Entry).
            All (λ e. (starts_with e.0 prefix ≡ true) × (starts_with e.0 reserved_prefix ≡ false))
              l)
          split (visible-All prefix reserved_prefix entries) in
      let (inside, outside) =
        last_of-All (λ k. (starts_with k prefix ≡ true) × (starts_with k reserved_prefix ≡ false))
          done rest k seen e in
      let fits =
        last_of-All (λ k. length k ≤ max_key_len) done rest k
          (subst (λ (l : List Entry). All (λ e. length e.0 ≤ max_key_len) l) split short) e in
      (
        record { short = fits; unreserved = outside },
        last_of_nonempty done rest k (subst (λ (l : List Entry). IsSorted l) split rows-IsSorted)
            (omega (arith, long)) e,
        inside,
      )

  IsResumable-last :
      (done rest : List Entry)
      → rows ≡ done ++ rest
      → (done ≡ []) ⊎ (default_scan_limit ≤ length done)
      → ShortKeys
      → IsResumable prefix (last_of key_of done)
  unfolding last_of
  IsResumable-last done rest split (inl none_yet) short = rw none_yet tt
  IsResumable-last done rest split (inr long) short = elim (Option-cases (last_of key_of done)) [
    | inl e ↦ rw e tt
    | inr (k, e) ↦ rw e (IsResumable-some done rest k split long short e)
  ]

  rest_behind :
      (done rest : List Entry) → rows ≡ done ++ rest → behind (last_of key_of done) rows ≡ rest
  rest_behind done rest split =
      ap (λ (l : List Entry). behind (last_of key_of done) l) split
      ∙ behind-last_of done rest (subst (λ (l : List Entry). IsSorted l) split rows-IsSorted)

  rest_dropped : (done rest : List Entry) → rows ≡ done ++ rest → drop (length done) rows ≡ rest
  rest_dropped done rest split = ap (drop (length done)) split ∙ drop-append done rest

  -- `scan` of an allowed prefix, over the host functions over a store, returns all entries that
  -- start with the prefix and are not reserved, in key order, each once. Their keys are at most 8
  -- KiB long, every page of 64 of them fits 1 MiB once encoded, there is fuel for one page more
  -- than they fill, sled shows the entries of the store, and the guest has its slices and its
  -- buffer in memory.
  pub scan_lem :
      (pages : ℕ)
      → ShortKeys
      → PagesFit encode_scan_rows (λ e. e) rows
      → length rows < default_scan_limit * pages
      → scan (linked s store place) pages prefix ≡ some (ok rows)
  unfolding scan last_of
  scan_lem pages short fit enough =
      collect_pages_lem (λ e. e) (λ e. e.0) (λ e. refl)
        (λ last_key. scan_page_after (linked s store place) prefix last_key default_scan_limit) rows
        (λ done rest split start.
          let (bytes, encoded, small) = fit (length done) in
          scan_page_lem s store entries shows place places prefix allowed (last_of key_of done)
            bytes (map (λ e. e) (take default_scan_limit rest))
            (IsResumable-last done rest split start short)
            (map_id (take default_scan_limit rest)
              ∙ ap (take default_scan_limit) (sym (rest_behind done rest split)))
            (ap (λ (l : List Entry). encode_scan_rows (map (λ e. e) (take default_scan_limit l)))
                (sym (rest_dropped done rest split))
              ∙ encoded)
            small)
        pages [] rows refl (inl refl) enough
      ∙ ap (λ (l : List Entry). some (ok l)) (map_id rows)

  -- `keys` of an allowed prefix, over the host functions over a store, returns the keys of all
  -- entries that start with the prefix and are not reserved, in order, each once. The keys are at
  -- most 8 KiB long, every page of 64 of them fits 1 MiB once encoded, there is fuel for one page
  -- more than they fill, sled shows the entries of the store, and the guest has its slices and its
  -- buffer in memory.
  pub keys_lem :
      (pages : ℕ)
      → ShortKeys
      → PagesFit encode_keys key_of rows
      → length rows < default_scan_limit * pages
      → keys (linked s store place) pages prefix ≡ some (ok (map key_of rows))
  unfolding keys last_of
  keys_lem pages short fit enough =
      collect_pages_lem key_of (λ k. k) (λ e. refl)
        (λ last_key. keys_page_after (linked s store place) prefix last_key default_scan_limit) rows
        (λ done rest split start.
          let (bytes, encoded, small) = fit (length done) in
          keys_page_lem s store entries shows place places prefix allowed (last_of key_of done)
            bytes (map key_of (take default_scan_limit rest))
            (IsResumable-last done rest split start short)
            (ap (λ (l : List Entry). map key_of (take default_scan_limit l))
              (sym (rest_behind done rest split)))
            (ap (λ (l : List Entry). encode_keys (map key_of (take default_scan_limit l)))
                (sym (rest_dropped done rest split))
              ∙ encoded)
            small)
        pages [] rows refl (inl refl) enough
