-- ===== src/Contracts/Sync.antt =====
-- Synchronization fields and collections of references (contracts/common.py).
use mind_runtime.Base.{
  ℕ, not, Option, none, some, List, [], ◌∷◌, String, ◌==◌, nat_eq, string_eq, ltb, Result, ok,
  value_error, raise_if, ◌>>◌, eq_by, ◌⊗◌, refl, Eq,
}
use mind_runtime.Contracts.Scopes.{Scope, scope_eq, require_non_empty}

pub record SyncFields : Type 0 where
  pub scope : Scope
  pub origin_runtime_id : String
  pub object_id : String
  pub version : ℕ
  pub idempotency_key : String

abbrev sync_tuple : SyncFields → (Scope × (String × (String × (ℕ × String))))
sync_tuple s = (s.scope, (s.origin_runtime_id, (s.object_id, (s.version, s.idempotency_key))))

abbrev sync_of : (Scope × (String × (String × (ℕ × String)))) → SyncFields
sync_of (a, (b, (c, (d, e)))) = record {
  scope = a;
  origin_runtime_id = b;
  object_id = c;
  version = d;
  idempotency_key = e;
}

instance abbrev pub sync_fields_eq : Eq SyncFields
sync_fields_eq =
    eq_by ⦃e = scope_eq ⊗ string_eq ⊗ string_eq ⊗ nat_eq ⊗ string_eq⦄ sync_tuple sync_of (λ s. refl)

-- The references are texts already: what is left of `freeze_refs` is the check of each.
unfoldable pub freeze_refs : List String → Result (Unit {0})
freeze_refs [] = ok tt
freeze_refs (ref ∷ refs) = require_non_empty ref >> freeze_refs refs

abbrev check_version : Option ℕ → ℕ → Result (Unit {0})
check_version none version = ok tt
check_version (some expected) version = raise_if (not (version == expected)) value_error

-- The checks that a `SyncFields` describes the object that holds it.
unfoldable pub validate_sync_fields :
    SyncFields → Scope → String → String → Option ℕ → Result (Unit {0})
validate_sync_fields sync scope origin_runtime_id object_id expected_version = do
  raise_if (not (sync.scope == scope)) value_error
  raise_if (not (sync.origin_runtime_id == origin_runtime_id)) value_error
  raise_if (not (sync.object_id == object_id)) value_error
  require_non_empty sync.origin_runtime_id
  require_non_empty sync.object_id
  require_non_empty sync.idempotency_key
  raise_if (ltb sync.version 1) value_error
  check_version expected_version sync.version
