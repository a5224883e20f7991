-- ===== src/Store/Scan.antt =====
-- The reads of the store. A function for keys runs the loop of the function for rows, and pushes the
-- key of an entry instead of the entry.
use numax.Prelude.{
  ℕ, ◌+◌, Bool, true, false, ◌&&◌, Option, none, some, List, [], ◌∷◌, ◌++◌, Bytes, bytes_ord,
  u64_max, saturating_add, above, leb, ltb, ◌==◌, ◌%◌, starts_with, length, if◌then◌else◌,
}
use numax.Prelude.Result.{Result, ok, err}
use numax.Store.{StoreError, sled, scan_batch_byte_limit_exceeded}
use numax.Store.Sled.{Sled, Entry}

-- `excluded_prefix.is_some_and(|excluded| k.starts_with(excluded))`
unfoldable pub is_excluded : Option Bytes → Bytes → Bool
is_excluded none k = false
is_excluded (some excluded) k = starts_with k excluded

module _ {E A : Type 0} (row : Entry → A) (excluded : Option Bytes) (limit : ℕ) where
  -- The loop of `scan_prefix_page`, which counts the rows that it skips.
  unfoldable pub page_at : ℕ → List (Result E Entry) → ℕ → List A → Result (StoreError E) (List A)
  unfolding is_excluded
  page_at cursor [] skipped out = ok out
  page_at cursor (err e ∷ items) skipped out = err (sled e)
  page_at cursor (ok entry ∷ items) skipped out = elim (is_excluded excluded entry.0) [
    | true ↦ page_at cursor items skipped out
    | false ↦ elim (ltb skipped cursor) [
      | true ↦ page_at cursor items (skipped + 1) out
      | false ↦ elim (leb limit (length out)) [
        | true ↦ ok out
        | false ↦ page_at cursor items skipped (out ++ row entry ∷ [])
      ]
    ]
  ]

  -- The loops of `scan_prefix_page_after`: from the start of the prefix, and behind a key.
  unfoldable pub page_from_start : List (Result E Entry) → List A → Result (StoreError E) (List A)
  unfolding is_excluded
  page_from_start [] out = ok out
  page_from_start (err e ∷ items) out = err (sled e)
  page_from_start (ok entry ∷ items) out = elim (is_excluded excluded entry.0) [
    | true ↦ page_from_start items out
    | false ↦ elim (leb limit (length out)) [
      | true ↦ ok out
      | false ↦ page_from_start items (out ++ row entry ∷ [])
    ]
  ]

  unfoldable pub page_behind :
      Bytes → Bytes → List (Result E Entry) → List A → Result (StoreError E) (List A)
  unfolding is_excluded
  page_behind prefix start_after [] out = ok out
  page_behind prefix start_after (err e ∷ items) out = err (sled e)
  page_behind prefix start_after (ok entry ∷ items) out = elim (above entry.0 start_after) [
    | false ↦ page_behind prefix start_after items out
    | true ↦ elim (starts_with entry.0 prefix) [
      | false ↦ ok out
      | true ↦ elim (is_excluded excluded entry.0) [
        | true ↦ page_behind prefix start_after items out
        | false ↦ elim (leb limit (length out)) [
          | true ↦ ok out
          | false ↦ page_behind prefix start_after items (out ++ row entry ∷ [])
        ]
      ]
    ]
  ]

-- `push_item`: the rows so far and their bytes, and whether the scan goes on.
unfoldable pub push_item :
    {E : Type 0} → ℕ → ℕ → Entry → List Entry × ℕ → Result (StoreError E) ((List Entry × ℕ) × Bool)
unfolding saturating_add
push_item max_records max_bytes entry (out, accumulated) =
    let record_bytes = saturating_add (length entry.0) (length entry.1) in
    let total = saturating_add accumulated record_bytes in
    let rows = out ++ entry ∷ [] in
    if ltb max_bytes record_bytes
    then err (scan_batch_byte_limit_exceeded record_bytes max_bytes)
    else (if ltb 0 (length out) && ltb max_bytes total
        then ok ((out, accumulated), false)
        else ok ((rows, total), ltb (length rows) max_records))

module _ {E : Type 0} (max_records max_bytes : ℕ) where
  unfoldable pub bounded_from_start :
      List (Result E Entry) → List Entry × ℕ → Result (StoreError E) (List Entry)
  unfolding push_item
  bounded_from_start [] batch = ok batch.0
  bounded_from_start (err e ∷ items) batch = err (sled e)
  bounded_from_start (ok entry ∷ items) batch = elim (push_item max_records max_bytes entry batch) [
    | err e ↦ err e
    | ok (next_batch, false) ↦ ok next_batch.0
    | ok (next_batch, true) ↦ bounded_from_start items next_batch
  ]

  unfoldable pub bounded_behind :
      Bytes → Bytes → List (Result E Entry) → List Entry × ℕ → Result (StoreError E) (List Entry)
  unfolding push_item
  bounded_behind prefix start_after [] batch = ok batch.0
  bounded_behind prefix start_after (err e ∷ items) batch = err (sled e)
  bounded_behind prefix start_after (ok entry ∷ items) batch = elim (above entry.0 start_after) [
    | false ↦ bounded_behind prefix start_after items batch
    | true ↦ elim (starts_with entry.0 prefix) [
      | false ↦ ok batch.0
      | true ↦ elim (push_item max_records max_bytes entry batch) [
        | err e ↦ err e
        | ok (next_batch, false) ↦ ok next_batch.0
        | ok (next_batch, true) ↦ bounded_behind prefix start_after items next_batch
      ]
    ]
  ]

-- `StoreStats`
pub record StoreStats : Type 0 where
  pub keys : ℕ
  pub bytes : ℕ

abbrev wrap : ℕ → ℕ
wrap n = n % (u64_max + 1)

unfoldable pub count_items :
    {E : Type 0} → List (Result E Entry) → StoreStats → Result (StoreError E) StoreStats
count_items [] stats = ok stats
count_items (err e ∷ items) stats = err (sled e)
count_items (ok (key, value) ∷ items) stats = count_items items (record {
  keys = wrap (stats.keys + 1);
  bytes = wrap (stats.bytes + wrap (length key + length value));
})

unfoldable pub collect_items :
    {E : Type 0} → List (Result E Entry) → List Entry → Result (StoreError E) (List Entry)
collect_items [] out = ok out
collect_items (err e ∷ items) out = err (sled e)
collect_items (ok entry ∷ items) out = collect_items items (out ++ entry ∷ [])

-- An error of sled becomes one of the store by `?`.
unfoldable pub from_sled : {E A : Type 0} → Result E A → Result (StoreError E) A
from_sled (ok a) = ok a
from_sled (err e) = err (sled e)

-- Whether an iterator has a first item.
unfoldable pub has_first : {E : Type 0} → List (Result E Entry) → Result (StoreError E) Bool
has_first [] = ok false
has_first (ok _ ∷ _) = ok true
has_first (err e ∷ _) = err (sled e)

module _ (s : Sled) (db : s.Db) where
  unfoldable pub get : Bytes → Result (StoreError s.Error) (Option Bytes)
  unfolding from_sled
  get key = from_sled (s.get_key db key)

  unfoldable pub exists : Bytes → Result (StoreError s.Error) Bool
  unfolding from_sled
  exists key = from_sled (s.has_key db key)

  unfoldable pub prefix_exists : Bytes → Result (StoreError s.Error) Bool
  unfolding has_first
  prefix_exists prefix = has_first (s.scan_prefix db prefix)

  unfoldable pub stats : Result (StoreError s.Error) StoreStats
  unfolding count_items
  stats = count_items (s.iter db) (record { keys = 0; bytes = 0 })

  unfoldable pub scan_prefix : Bytes → Result (StoreError s.Error) (List Entry)
  unfolding collect_items
  scan_prefix prefix = collect_items (s.scan_prefix db prefix) []

  unfoldable pub scan_prefix_page :
      Bytes → ℕ → ℕ → Option Bytes → Result (StoreError s.Error) (List Entry)
  unfolding page_at
  scan_prefix_page prefix cursor limit excluded =
      page_at (λ entry. entry) excluded limit cursor (s.scan_prefix db prefix) 0 []

  unfoldable pub keys_prefix_page :
      Bytes → ℕ → ℕ → Option Bytes → Result (StoreError s.Error) (List Bytes)
  unfolding page_at
  keys_prefix_page prefix cursor limit excluded =
      page_at (λ entry. entry.0) excluded limit cursor (s.scan_prefix db prefix) 0 []

  unfoldable pub scan_prefix_page_after :
      Bytes → Option Bytes → ℕ → Option Bytes → Result (StoreError s.Error) (List Entry)
  unfolding page_from_start page_behind
  scan_prefix_page_after prefix none limit excluded =
      page_from_start (λ entry. entry) excluded limit (s.scan_prefix db prefix) []
  scan_prefix_page_after prefix (some start_after) limit excluded =
      page_behind (λ entry. entry) excluded limit prefix start_after (s.range_from db start_after)
        []

  unfoldable pub keys_prefix_page_after :
      Bytes → Option Bytes → ℕ → Option Bytes → Result (StoreError s.Error) (List Bytes)
  unfolding page_from_start page_behind
  keys_prefix_page_after prefix none limit excluded =
      page_from_start (λ entry. entry.0) excluded limit (s.scan_prefix db prefix) []
  keys_prefix_page_after prefix (some start_after) limit excluded =
      page_behind (λ entry. entry.0) excluded limit prefix start_after (s.range_from db start_after)
        []

  unfoldable pub scan_prefix_page_after_bounded :
      Bytes → Option Bytes → ℕ → ℕ → Result (StoreError s.Error) (List Entry)
  unfolding bounded_from_start bounded_behind
  scan_prefix_page_after_bounded prefix none max_records max_bytes =
      if max_records == 0
      then ok []
      else bounded_from_start max_records max_bytes (s.scan_prefix db prefix) ([], 0)
  scan_prefix_page_after_bounded prefix (some start_after) max_records max_bytes =
      if max_records == 0
      then ok []
      else bounded_behind max_records max_bytes prefix start_after (s.range_from db start_after)
          ([], 0)
