-- ===== src/Store/Visible.antt =====
-- What a scan is meant to show of the entries of the store.
use numax.Prelude.{
  ◌≡◌, refl, ap, Bool, true, false, ◌&&◌, not, Option, none, some, List, [], ◌∷◌, Bytes, bytes_ord,
  above, above_asym, starts_with, starts_with_between, filter, Bool-cases, inl, inr, arith,
}
use numax.Map.Laws.{IsSorted, IsAbove}
use numax.Store.Sled.{Entry, Entries}
use numax.Store.Scan.{is_excluded}

-- An entry that a scan of a prefix shows.
unfoldable pub is_visible : Bytes → Option Bytes → Entry → Bool
unfolding starts_with is_excluded
is_visible prefix excluded entry = starts_with entry.0 prefix && not (is_excluded excluded entry.0)

unfoldable pub visible : Bytes → Option Bytes → Entries → List Entry
unfolding is_visible
visible prefix excluded entries = filter (is_visible prefix excluded) entries

abbrev pub is_behind : Option Bytes → Entry → Bool
is_behind none entry = true
is_behind (some start) entry = above entry.0 start

abbrev pub behind : Option Bytes → List Entry → List Entry
behind start entries = filter (is_behind start) entries

pub filter_all : {A : Type 0} (xs : List A) → filter (λ _. true) xs ≡ xs
filter_all [] = refl
filter_all (x ∷ xs) = ap (◌∷◌ x) (filter_all xs)

filter-filter :
    {A : Type 0} (p q r : A → Bool)
    → ((x : A) → (p x && q x) ≡ r x)
    → (xs : List A) → filter q (filter p xs) ≡ filter r xs
filter-filter p q r h [] = refl
filter-filter p q r h (x ∷ xs) = ground (arith, h x, filter-filter p q r h xs)

abbrev pub shown : Option Bytes → List Entry → List Entry
shown excluded items = filter (λ e. not (is_excluded excluded e.0)) items

-- Behind a key that has left the prefix of an earlier one, no key has it.
pub visible_none :
    (prefix start k : Bytes) (excluded : Option Bytes) (items : Entries)
    → starts_with start prefix ≡ true
    → starts_with k prefix ≡ false
    → above k start ≡ true
    → IsAbove k items
    → visible prefix excluded items ≡ []
unfolding visible is_visible
visible_none prefix start k excluded [] f g h a = refl
visible_none prefix start k excluded ((j, v) ∷ items) f g h a =
    elim (Bool-cases (starts_with j prefix)) [
      | inr no_match ↦ rw no_match (visible_none prefix start k excluded items f g h a.1)
      | inl match ↦
          let between =
            starts_with_between prefix start k j f match
              (ground (arith, bytes_ord.lt_of_gt k start)) a.0 in
          absurd (cc)
    ]

-- The entries from a key on hold all that stand behind it.
pub visible_range :
    (prefix start : Bytes) (excluded : Option Bytes) (entries : Entries)
    → behind (some start) (visible prefix excluded (filter (λ e. not (above start e.0)) entries))
      ≡ behind (some start) (visible prefix excluded entries)
unfolding visible
visible_range prefix start excluded [] = refl
visible_range prefix start excluded (e ∷ entries) =
    ground (arith, visible_range prefix start excluded entries, above_asym start e.0)

IsAbove-filter :
    (test : Entry → Bool) (k : Bytes) (entries : Entries)
    → IsAbove k entries
    → IsAbove k (filter test entries)
IsAbove-filter test k [] a = tt
IsAbove-filter test k (e ∷ entries) a = ground (arith, IsAbove-filter test k entries a.1)

pub IsSorted-filter :
    (test : Entry → Bool) (entries : Entries) → IsSorted entries → IsSorted (filter test entries)
IsSorted-filter test [] s = tt
IsSorted-filter test (e ∷ entries) s =
    ground (arith, IsAbove-filter test e.0 entries s.0, IsSorted-filter test entries s.1)

pub visible_prefix :
    (prefix : Bytes) (excluded : Option Bytes) (entries : Entries)
    → shown excluded (filter (λ e. starts_with e.0 prefix) entries)
      ≡ visible prefix excluded entries
unfolding visible is_visible
visible_prefix prefix excluded entries =
    filter-filter (λ e. starts_with e.0 prefix) (λ e. not (is_excluded excluded e.0))
      (is_visible prefix excluded) (λ _. refl) entries
