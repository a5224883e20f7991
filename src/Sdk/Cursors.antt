-- ===== src/Sdk/Cursors.antt =====
-- The last key of what a scan has shown, as the cursor of the next page.
use numax.Prelude.{
  ◌≤◌, ◌<◌, ◌≡◌, refl, subst, true, false, some, List, [], ◌∷◌, ◌++◌, Bytes, Ordering, bytes_ord,
  cmp_bytes, length, starts_with, arith,
}
use numax.Map.Laws.{IsSorted, IsAbove}
use numax.Store.Sled.{Entry, Entries}
use numax.Store.Scan.{is_excluded}
use numax.Store.Visible.{is_visible, visible, behind, is_behind, filter_all}
use numax.Sdk.RoundTrip.{All}
use numax.Sdk.Db.{last_of}
use numax.Sdk.Pages.{key_of}

-- What holds of every key holds of the last one.
pub last_of-All :
    (P : Bytes → Type 0) (done rest : List Entry) (k : Bytes)
    → All (λ e. P e.0) (done ++ rest)
    → last_of key_of done ≡ some k
    → P k
unfolding last_of
last_of-All P [] rest k all e = absurd (cc)
last_of-All P (d ∷ []) rest k all e = subst P (cc) all.0
last_of-All P (d ∷ c ∷ done) rest k all e = last_of-All P (c ∷ done) rest k all.1 e

IsAbove-append_left : (i : Bytes) (done rest : Entries) → IsAbove i (done ++ rest) → IsAbove i done
IsAbove-append_left i [] rest a = tt
IsAbove-append_left i (d ∷ done) rest a = (a.0, IsAbove-append_left i done rest a.1)

pub IsAbove-last_of :
    (i : Bytes) (d : Entry) (done : Entries) (k : Bytes)
    → IsAbove i (d ∷ done)
    → last_of key_of (d ∷ done) ≡ some k
    → cmp_bytes i k ≡ Ordering.lt
unfolding last_of
IsAbove-last_of i d [] k a e = subst (λ (j : Bytes). cmp_bytes i j ≡ Ordering.lt) (cc) a.0
IsAbove-last_of i d (c ∷ done) k a e = IsAbove-last_of i c done k a.1 e

above_nonempty : (i k : Bytes) → cmp_bytes i k ≡ Ordering.lt → 0 < length k
above_nonempty [] [] h = absurd (cc)
above_nonempty (x ∷ i) [] h = absurd (cc)
above_nonempty i (y ∷ k) h = omega arith

-- The last of two keys or more is not empty.
pub last_of_nonempty :
    (done rest : Entries) (k : Bytes)
    → IsSorted (done ++ rest)
    → 2 ≤ length done
    → last_of key_of done ≡ some k
    → 0 < length k
unfolding last_of
last_of_nonempty [] rest k s h e = absurd (omega arith)
last_of_nonempty (d ∷ []) rest k s h e = absurd (omega arith)
last_of_nonempty (d ∷ c ∷ done) rest k s h e =
    above_nonempty d.0 k
      (IsAbove-last_of d.0 c done k (IsAbove-append_left d.0 (c ∷ done) rest s.0) e)

-- Behind the last key of a front of sorted entries stands the rest.
behind_all : (k : Bytes) (rest : Entries) → IsAbove k rest → behind (some k) rest ≡ rest
behind_all k [] a = refl
behind_all k (e ∷ rest) a = ground (arith, behind_all k rest a.1, bytes_ord.gt_of_lt k e.0)

not_behind_last :
    (d c : Entry) (done : Entries)
    → IsAbove d.0 (c ∷ done)
    → is_behind (last_of key_of (c ∷ done)) d ≡ false
unfolding last_of
not_behind_last d c [] a = ground (arith, a.0)
not_behind_last d c (b ∷ done) a = not_behind_last d b done a.1

pub behind-last_of :
    (done rest : Entries)
    → IsSorted (done ++ rest)
    → behind (last_of key_of done) (done ++ rest) ≡ rest
unfolding last_of
behind-last_of [] rest s = filter_all rest
behind-last_of (d ∷ []) rest s = ground (arith, bytes_ord.cmp_refl d.0, behind_all d.0 rest s.0)
behind-last_of (d ∷ c ∷ done) rest s =
    rw (not_behind_last d c done (IsAbove-append_left d.0 (c ∷ done) rest s.0))
      (behind-last_of (c ∷ done) rest s.1)

pub visible-All :
    (prefix reserved : Bytes) (entries : Entries)
    → All
        (λ e. (starts_with e.0 prefix ≡ true) × (starts_with e.0 reserved ≡ false))
        (visible prefix (some reserved) entries)
unfolding visible is_visible is_excluded
visible-All prefix reserved [] = tt
visible-All prefix reserved (e ∷ entries) = ground (arith, visible-All prefix reserved entries)
