-- ===== src/Sdk/Pages.antt =====
-- The loops of `scan` and `keys` over pages that show a list 64 rows at a time.
use numax.Prelude.{
  ℕ, zero, suc, ◌*◌, ◌≤◌, ◌<◌, ◌≡◌, refl, sym, ap, ap₂, ◌∙◌, true, false, Option, some, List, [],
  ◌∷◌, ◌++◌, map, Bytes, length, length-append, length-take, length-drop, take, drop,
  take-append-drop, ltb, min, Bool-cases, inl, inr, ◌⊎◌, arith,
}
use mathlib.Core.List.{append_assoc, append-nil, map-append}
use numax.Prelude.Result.{ok}
use numax.Store.Sled.{Entry}
use numax.Sdk.Ffi.{Run}
use numax.Sdk.Db.{collect_pages, last_of, default_scan_limit}

length-map_generic : {A B : Type 0} (f : A → B) (xs : List A) → length (map f xs) ≡ length xs
length-map_generic f [] = refl
length-map_generic f (x ∷ xs) = ap suc (length-map_generic f xs)

take_all : {A : Type 0} (n : ℕ) (xs : List A) → length xs ≤ n → take n xs ≡ xs
take_all zero [] h = refl
take_all (suc n) [] h = refl
take_all zero (x ∷ xs) h = absurd (omega arith)
take_all (suc n) (x ∷ xs) h = ap (◌∷◌ x) (take_all n xs (omega arith))

-- The key of an entry, or of the row that stands for it.
abbrev pub key_of : Entry → Bytes
key_of entry = entry.0

pub last_of-append :
    (done : List Entry) (e : Entry) (more : List Entry)
    → last_of key_of (done ++ e ∷ more) ≡ last_of key_of (e ∷ more)
unfolding last_of
last_of-append [] e more = refl
last_of-append (d ∷ []) e more = refl
last_of-append (d ∷ c ∷ done) e more = last_of-append (c ∷ done) e more

module _ {A : Type 0} (row : Entry → A) (key : A → Bytes)
    (same : (e : Entry) → key (row e) ≡ e.0) where
  last_of-map : (es : List Entry) → last_of key (map row es) ≡ last_of key_of es
  unfolding last_of
  last_of-map [] = refl
  last_of-map (e ∷ []) = ap some (same e)
  last_of-map (e ∷ c ∷ es) = last_of-map (c ∷ es)

  -- Pages behind the last key of what is there already show the rest.
  abbrev pub Resumes : (Option Bytes → Run (List A)) → List Entry → Type 0
  Resumes page rows =
      (done rest : List Entry)
      → rows ≡ done ++ rest
      → (done ≡ []) ⊎ (default_scan_limit ≤ length done)
      → page (last_of key_of done) ≡ some (ok (map row (take default_scan_limit rest)))

  page_length :
      (r : Entry) (rest : List Entry)
      → length (map row (take 64 (r ∷ rest))) ≡ min 64 (suc (length rest))
  page_length r rest = length-map_generic row (take 64 (r ∷ rest)) ∙ length-take 64 (r ∷ rest)

  short_rest :
      (r : Entry) (rest : List Entry)
      → ltb (length (map row (take 64 (r ∷ rest)))) default_scan_limit ≡ true
      → length rest ≤ 63
  short_rest r rest h = let h' = rw (page_length r rest) at h in ground arith

  full_page :
      (r : Entry) (rest : List Entry)
      → ltb (length (map row (take 64 (r ∷ rest)))) default_scan_limit ≡ false
      → 63 ≤ length rest
  full_page r rest h = let h' = rw (page_length r rest) at h in ground arith

  pub collect_pages_lem :
      (page : Option Bytes → Run (List A)) (rows : List Entry)
      → Resumes page rows
      → (fuel : ℕ) (done rest : List Entry) → rows ≡ done ++ rest
      → (done ≡ []) ⊎ (default_scan_limit ≤ length done)
      → length rest < default_scan_limit * fuel
      → collect_pages key page fuel (last_of key_of done) (map row done) ≡ some (ok (map row rows))
  unfolding collect_pages
  collect_pages_lem page rows resumes zero done rest split start enough = absurd (omega arith)
  collect_pages_lem page rows resumes (suc fuel) done [] split start enough =
      rw (resumes done [] split start, collect_pages)
        (ap (λ (l : List Entry). some (ok (map row l))) (sym (append-nil done) ∙ sym split))
  collect_pages_lem page rows resumes (suc fuel) done (r ∷ rest) split start enough =
      elim (Bool-cases (ltb (length (map row (take 64 (r ∷ rest)))) default_scan_limit)) [
        | inl short ↦
            rw (resumes done (r ∷ rest) split start, short, collect_pages)
              (ap (λ (l : List A). some (ok l))
                (sym (map-append row done (r ∷ take 63 rest))
                  ∙ ap (λ (l : List Entry). map row (done ++ r ∷ l))
                      (take_all 63 rest (short_rest r rest short))
                  ∙ ap (map row) (sym split)))
        | inr full ↦
            rw (resumes done (r ∷ rest) split start, full, collect_pages)
              (ap₂ (λ (k : Option Bytes) (l : List A). collect_pages key page fuel k l)
                  (last_of-map (r ∷ take 63 rest) ∙ sym (last_of-append done r (take 63 rest)))
                  (sym (map-append row done (r ∷ take 63 rest)))
                ∙ collect_pages_lem page rows resumes fuel (done ++ r ∷ take 63 rest) (drop 63 rest)
                    (split
                      ∙ ap (λ (l : List Entry). done ++ r ∷ l) (sym (take-append-drop 63 rest))
                      ∙ sym (append_assoc done (r ∷ take 63 rest) (drop 63 rest)))
                    (inr (
                      omega (
                        arith,
                        full_page r rest full,
                        length-append done (r ∷ take 63 rest),
                        length-take 63 rest,
                      )))
                    (omega (arith, full_page r rest full, length-drop 63 rest)))
      ]
