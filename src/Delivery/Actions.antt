-- ===== src/Delivery/Actions.antt =====
-- Code that calls the store several times: what one call wrote stays written when a later one raises.
use mind_runtime.Base.{Result, ok, raise, Exc}
use mind_runtime.Delivery.Store.{Db}

abbrev pub Action {ℓ} : Type ℓ → Type ℓ
Action A = Db → Result A × Db

abbrev pub after {ℓ κ} : {A : Type ℓ} {B : Type κ} → (A → Action B) → Result A × Db → Result B × Db
after f (ok a, db) = f a db
after f (raise e, db) = (raise e, db)

infixl 5 ◌>>=◌ ◌>>◌
abbrev pub ◌>>=◌ {ℓ κ} : {A : Type ℓ} {B : Type κ} → Action A → (A → Action B) → Action B
(m >>= f) db = after f (m db)

abbrev pub ◌>>◌ {ℓ κ} : {A : Type ℓ} {B : Type κ} → Action A → Action B → Action B
m >> k = m >>= λ _. k

abbrev pub pure {ℓ} : {A : Type ℓ} → A → Action A
pure a db = (ok a, db)

abbrev pub failure {ℓ} : {A : Type ℓ} → Exc → Action A
failure e db = (raise e, db)

abbrev pub outcome_of {ℓ} : {A : Type ℓ} → Db → Result (A × Db) → Result A × Db
outcome_of db (ok (a, db_after)) = (ok a, db_after)
outcome_of db (raise e) = (raise e, db)

-- One method of the store, which raises before it writes.
abbrev pub call {ℓ} : {A : Type ℓ} → (Db → Result (A × Db)) → Action A
call method db = outcome_of db (method db)

abbrev pub swallow {ℓ} : {A : Type ℓ} → Db → Result (A × Db) → Result (Unit {0}) × Db
swallow db (ok (_, db_after)) = (ok tt, db_after)
swallow db (raise _) = (ok tt, db)

-- `try: method() except ValueError: pass`, around a method that raises nothing else.
abbrev pub attempt {ℓ} : {A : Type ℓ} → (Db → Result (A × Db)) → Action (Unit {0})
attempt method db = swallow db (method db)
