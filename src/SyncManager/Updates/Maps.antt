-- ===== src/SyncManager/Updates/Maps.antt =====
-- What a map of updates reads as over a registry, for each way in which an operation writes to it.
use numax.Prelude.{
  ◌≡◌, refl, ◌∙◌, false, Option, none, some, Bytes, bytes_ord, same, ℕ, arith, if◌then◌else◌,
}
use numax.Map.{HashMap, get, insert, get_or, upsert}
use numax.Map.Laws.{IsSorted, IsSorted-insert, get-insert, map_ext}
use numax.Map.Join.{get-for_entries, IsSorted-for_entries}
use numax.Map.Upsert.{get-upsert}
use numax.Sync.LwwRegister
use numax.Sync.LwwRegister.{LwwRegister}
use numax.Sync.Op.{NodeId}
use numax.SyncManager.Updates.{with_entry, set_register, apply_remote_lww_register_set, commit_map}

-- The value at a key under an update, if there is one.
abbrev over : {V : Type 0} → Option V → Option V → Option V
over x none = x
over x (some v) = some v

module _ {V : Type 0} where
  get-commit_map :
      (registry updates : HashMap Bytes V) (i : Bytes)
      → IsSorted updates
      → get (commit_map registry updates) i ≡ over (get registry i) (get updates i)
  unfolding commit_map
  get-commit_map registry updates i s =
      get-for_entries insert (λ x v. v) get-insert IsSorted-insert registry updates i s
      ∙ ground arith

  pub IsSorted-commit_map :
      (registry updates : HashMap Bytes V)
      → IsSorted registry
      → IsSorted (commit_map registry updates)
  unfolding commit_map
  IsSorted-commit_map registry updates s =
      IsSorted-for_entries insert (λ x v. v) get-insert IsSorted-insert registry updates s

  -- A change of an entry under the updates is that change of the committed entry.
  pub commit_map-with_entry :
      (new : V) (registry updates : HashMap Bytes V) (key : Bytes) (change : V → V)
      → IsSorted registry
      → IsSorted updates
      → commit_map registry (with_entry new registry updates key change)
        ≡ upsert (commit_map registry updates) key (λ entry. change (get_or entry new))
  commit_map-with_entry new registry updates key change sr su =
      let entry = λ (e : Option V). change (get_or e (get_or (get registry key) new)) in
      map_ext (commit_map registry (upsert updates key entry))
        (upsert (commit_map registry updates) key (λ e. change (get_or e new)))
        (IsSorted-commit_map registry (upsert updates key entry) sr)
        (IsSorted-insert (commit_map registry updates) key _
          (IsSorted-commit_map registry updates sr))
        λ i. ground (
          arith,
          get-commit_map registry (upsert updates key entry) i (IsSorted-insert updates key _ su),
          get-upsert updates key entry i,
          get-upsert (commit_map registry updates) key (λ (e : Option V). change (get_or e new)) i,
          get-commit_map registry updates i su,
          bytes_ord.eq_of_cmp i key,
        )

-- A register set writes the first value, or assigns.
abbrev pub assigned : NodeId → Bytes → ℕ → Option LwwRegister → LwwRegister
assigned origin value timestamp_ms none = LwwRegister.new value timestamp_ms origin
assigned origin value timestamp_ms (some register) =
    (LwwRegister.assign register value timestamp_ms origin).0

assign-false :
    (register : LwwRegister) (value : Bytes) (timestamp_ms : ℕ) (origin : NodeId)
    → (LwwRegister.assign register value timestamp_ms origin).1 ≡ false
    → (LwwRegister.assign register value timestamp_ms origin).0 ≡ register
unfolding LwwRegister.assign
assign-false register value timestamp_ms origin h = ground arith

module _ (origin : NodeId) (key value : Bytes) (timestamp_ms : ℕ)
    (registry updates : HashMap Bytes LwwRegister) where
  -- The updates after a register set read, over the registry, as the assignment of what was there.
  set_register_reads :
      (x y : Option LwwRegister) (i : Bytes)
      → get updates key ≡ x
      → get registry key ≡ y
      → over
          (get registry i)
          (get (set_register origin key value timestamp_ms x registry updates) i)
        ≡ (if same i key
            then some (assigned origin value timestamp_ms (over y x))
            else over (get registry i) (get updates i))
  unfolding set_register
  set_register_reads (some r) y i hx hy = ground (
    arith,
    get-insert updates key (LwwRegister.assign r value timestamp_ms origin).0 i,
    bytes_ord.eq_of_cmp i key,
  )
  set_register_reads none none i hx hy = ground (
    arith,
    get-insert updates key (LwwRegister.new value timestamp_ms origin) i,
    bytes_ord.eq_of_cmp i key,
  )
  set_register_reads none (some r) i hx hy = rw hy (
      ground (
        arith,
        get-insert updates key (LwwRegister.assign r value timestamp_ms origin).0 i,
        assign-false r value timestamp_ms origin,
        bytes_ord.eq_of_cmp i key,
      ))

  IsSorted-set_register :
      (x y : Option LwwRegister)
      → get registry key ≡ y
      → IsSorted updates
      → IsSorted (set_register origin key value timestamp_ms x registry updates)
  unfolding set_register
  IsSorted-set_register (some r) y hy s = IsSorted-insert updates key _ s
  IsSorted-set_register none none hy s = rw hy (IsSorted-insert updates key _ s)
  IsSorted-set_register none (some r) hy s = rw hy (
      ground
        (arith, IsSorted-insert updates key (LwwRegister.assign r value timestamp_ms origin).0 s))

  pub IsSorted-lww_register_set :
      IsSorted updates
      → IsSorted (apply_remote_lww_register_set origin key value timestamp_ms registry updates)
  unfolding apply_remote_lww_register_set
  IsSorted-lww_register_set s = IsSorted-set_register (get updates key) (get registry key) refl s

  pub commit_map-lww_register_set :
      IsSorted registry
      → IsSorted updates
      → commit_map registry
          (apply_remote_lww_register_set origin key value timestamp_ms registry updates)
        ≡ upsert (commit_map registry updates) key (assigned origin value timestamp_ms)
  unfolding apply_remote_lww_register_set
  commit_map-lww_register_set sr su =
      map_ext
        (commit_map registry
          (set_register origin key value timestamp_ms (get updates key) registry updates))
        (upsert (commit_map registry updates) key (assigned origin value timestamp_ms))
        (IsSorted-commit_map registry
          (set_register origin key value timestamp_ms (get updates key) registry updates) sr)
        (IsSorted-insert (commit_map registry updates) key _
          (IsSorted-commit_map registry updates sr))
        λ i.
          get-commit_map registry
            (set_register origin key value timestamp_ms (get updates key) registry updates) i
            (IsSorted-set_register (get updates key) (get registry key) refl su)
          ∙ set_register_reads (get updates key) (get registry key) i refl refl
          ∙ ground (
            arith,
            get-upsert (commit_map registry updates) key (assigned origin value timestamp_ms) i,
            get-commit_map registry updates i su,
            bytes_ord.eq_of_cmp i key,
          )
