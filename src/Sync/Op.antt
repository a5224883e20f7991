-- ===== src/Sync/Op.antt =====
-- crates/nx-sync/src/op.rs, node_id.rs and error.rs: operations, identifiers and errors.
-- A `String` is its UTF-8 bytes, and the newtypes `NodeId` and `OpId` are the string they hold. The
-- constructors of `Op` take the identifier that `OpId::generate` (a random UUID) returns.
use numax.Prelude.{ℕ, Bytes, Option, List}

abbrev pub NodeId : Type 0
NodeId = Bytes

abbrev pub OpId : Type 0
OpId = Bytes

-- `Serialization` holds the message of the JSON library's error.
pub data SyncError : Type 0 where
  serialization unknown_node duplicate_op invalid_op : Bytes → SyncError

pub data SyncResult {ℓ} (A : Type ℓ) : Type ℓ where
  ok : A → SyncResult A
  err : SyncError → SyncResult A

-- The fields stand in the order of the source; the first is the `key`.
pub data OpKind : Type 0 where
  gcounter_increment : Bytes → ℕ → OpKind
  pncounter_increment : Bytes → ℕ → OpKind
  pncounter_decrement : Bytes → ℕ → OpKind
  -- value, timestamp_ms
  lww_register_set : Bytes → Bytes → ℕ → OpKind
  -- field, value, timestamp_ms
  lww_map_set : Bytes → Bytes → Bytes → ℕ → OpKind
  -- field, timestamp_ms
  lww_map_remove : Bytes → Bytes → ℕ → OpKind
  -- element, tag
  orset_add : Bytes → Bytes → Bytes → OpKind
  -- element, observed_tags
  orset_remove : Bytes → Bytes → List Bytes → OpKind
  -- id, parent, value
  rga_insert : Bytes → Bytes → Option Bytes → Bytes → OpKind
  -- id
  rga_delete : Bytes → Bytes → OpKind

pub record Op : Type 0 where
  pub id : OpId
  pub origin : NodeId
  pub kind : OpKind

module _ (id : OpId) (origin : NodeId) (key : Bytes) where
  unfoldable pub new_gcounter_increment : ℕ → Op
  new_gcounter_increment increment = record {
    id = id;
    origin = origin;
    kind = gcounter_increment key increment;
  }

  unfoldable pub new_pncounter_increment : ℕ → Op
  new_pncounter_increment increment = record {
    id = id;
    origin = origin;
    kind = pncounter_increment key increment;
  }

  unfoldable pub new_pncounter_decrement : ℕ → Op
  new_pncounter_decrement decrement = record {
    id = id;
    origin = origin;
    kind = pncounter_decrement key decrement;
  }

  unfoldable pub new_lww_register_set : Bytes → ℕ → Op
  new_lww_register_set value timestamp_ms = record {
    id = id;
    origin = origin;
    kind = lww_register_set key value timestamp_ms;
  }

  unfoldable pub new_lww_map_set : Bytes → Bytes → ℕ → Op
  new_lww_map_set field value timestamp_ms = record {
    id = id;
    origin = origin;
    kind = lww_map_set key field value timestamp_ms;
  }

  unfoldable pub new_lww_map_remove : Bytes → ℕ → Op
  new_lww_map_remove field timestamp_ms = record {
    id = id;
    origin = origin;
    kind = lww_map_remove key field timestamp_ms;
  }

  unfoldable pub new_orset_add : Bytes → Bytes → Op
  new_orset_add element tag = record { id = id; origin = origin; kind = orset_add key element tag }

  unfoldable pub orset_add_with_op_id_tag : Bytes → Op
  orset_add_with_op_id_tag element = record {
    id = id;
    origin = origin;
    kind = orset_add key element id;
  }

  unfoldable pub new_orset_remove : Bytes → List Bytes → Op
  new_orset_remove element observed_tags = record {
    id = id;
    origin = origin;
    kind = orset_remove key element observed_tags;
  }

  unfoldable pub new_rga_insert : Bytes → Option Bytes → Bytes → Op
  new_rga_insert element_id parent value = record {
    id = id;
    origin = origin;
    kind = rga_insert key element_id parent value;
  }

  unfoldable pub rga_insert_with_op_id : Option Bytes → Bytes → Op
  rga_insert_with_op_id parent value = record {
    id = id;
    origin = origin;
    kind = rga_insert key id parent value;
  }

  unfoldable pub new_rga_delete : Bytes → Op
  new_rga_delete element_id = record { id = id; origin = origin; kind = rga_delete key element_id }
