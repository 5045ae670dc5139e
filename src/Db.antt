-- ===== src/Db.antt =====
-- packages/db/src/client.ts, and the row-level security that packages/db/migrations/0021 sets up
-- for the application's role: a statement of a tenant's transaction sees the rows of that tenant
-- and those with no tenant, and may leave behind only rows of that tenant.
pub mod Tables
pub mod Rows
pub mod Keeps
pub mod Isolation
pub mod Ordering
pub mod References
use ai_digital_office_os.Prelude.{
  ℕ, String, Bool, true, false, ◌&&◌, Option, none, some, List, [], ◌∷◌, ◌++◌, ◌==◌, find, filter,
  length, if◌then◌else◌,
}
use ai_digital_office_os.Failure.{
  Failure, database_error, row_level_security, Result, ok, err, ◌>>=◌ as and_then,
}
use ai_digital_office_os.Schema.{Db}

-- A service's call: it may throw, and what its transactions committed before stays.
abbrev pub Action {ℓ} : Type ℓ → Type ℓ
Action A = Db → Result A × Db

module _ {ℓ} {A : Type ℓ} where
  unfoldable pub pure : A → Action A
  pure a db = (ok a, db)

  unfoldable pub throw : Failure → Action A
  throw e db = (err e, db)

  unfoldable pub lift : Result A → Action A
  lift r db = (r, db)

  unfoldable pub gets : (Db → A) → Action A
  gets f db = (ok (f db), db)

  -- `if (!x) throw …`
  unfoldable pub require : Option A → Failure → Action A
  require none e db = (err e, db)
  require (some a) e db = (ok a, db)

unfoldable pub modify : (Db → Db) → Action (Unit {0})
modify f db = (ok tt, f db)

-- `if (!b) throw …`
unfoldable pub guard : Bool → Failure → Action (Unit {0})
guard true e db = (ok tt, db)
guard false e db = (err e, db)

module _ {ℓ κ} {A : Type ℓ} {B : Type κ} where
  abbrev pub continue : Result A → (A → Action B) → Action B
  continue (ok a) f db = f a db
  continue (err e) f db = (err e, db)

  infixl 5 ◌>>=◌
  unfoldable pub ◌>>=◌ : Action A → (A → Action B) → Action B
  ◌>>=◌ m f db = let (r, db') = m db in continue r f db'

module _ {ℓ} {B : Type ℓ} where
  infixl 5 ◌>>◌
  abbrev pub ◌>>◌ : Action (Unit {0}) → Action B → Action B
  m >> k = m >>= λ _. k

module _ {ℓ κ} {A : Type ℓ} {B : Type κ} where
  abbrev pub handle : Result A → (A → Action B) → (Failure → Action B) → Action B
  handle (ok a) f h db = f a db
  handle (err e) f h db = h e db

  -- `try { … } catch (err) { … }`, the rest of the body in both continuations
  unfoldable pub try_catch : Action A → (A → Action B) → (Failure → Action B) → Action B
  try_catch m f h db = let (r, db') = m db in handle r f h db'

module _ {ℓ} {A : Type ℓ} where
  -- COMMIT, or ROLLBACK to the state at BEGIN and throw again
  abbrev pub finish : Db → Result A × Db → Result A × Db
  finish before (ok a, after) = (ok a, after)
  finish before (err e, after) = (err e, before)

  -- `fn` is given the tenant that set_config put into the session
  unfoldable pub with_tenant_transaction : String → (String → Action A) → Action A
  with_tenant_transaction tenant fn db = finish db (fn tenant db)

-- the USING policy; a row with no tenant is a system template
abbrev pub visible : String → Option String → Bool
visible tenant none = true
visible tenant (some owner) = owner == tenant

-- the WITH CHECK policy
abbrev pub writable : String → Option String → Bool
writable tenant none = false
writable tenant (some owner) = owner == tenant

-- The statements, on a table whose rows have the owner `owner`, in the tenant's session.
module _ {A : Type 0} (owner : A → Option String) (tenant : String) where
  -- SELECT … WHERE p
  unfoldable pub select : (A → Bool) → List A → List A
  select p rows = filter (λ r. visible tenant (owner r) && p r) rows

  -- the first row of it
  unfoldable pub select_one : (A → Bool) → List A → Option A
  select_one p rows = find (λ r. visible tenant (owner r) && p r) rows

  -- INSERT
  unfoldable pub insert : A → List A → Result (List A)
  insert row rows =
      if writable tenant (owner row)
      then ok (rows ++ row ∷ [])
      else err (database_error row_level_security)

  -- one row of an UPDATE
  unfoldable pub update_row : (A → Bool) → (A → A) → A → Result A
  update_row p f row =
      if visible tenant (owner row) && p row
      then if writable tenant (owner (f row))
        then ok (f row)
        else err (database_error row_level_security)
      else ok row

  -- UPDATE … SET f WHERE p
  unfoldable pub update : (A → Bool) → (A → A) → List A → Result (List A)
  update p f [] = ok []
  update p f (row ∷ rows) =
      and_then (update_row p f row) (λ r. and_then (update p f rows) (λ rs. ok (r ∷ rs)))

  -- DELETE … WHERE p
  unfoldable pub delete : (A → Bool) → List A → List A
  delete p [] = []
  delete p (row ∷ rows) =
      let rest = delete p rows in if visible tenant (owner row) && p row then rest else row ∷ rest

module _ {A : Type 0} where
  -- the statement's new table, or its error
  unfoldable pub store : Result (List A) → (List A → Db → Db) → Action (Unit {0})
  store (ok rows) put db = (ok tt, put rows db)
  store (err e) put db = (err e, db)

-- Opens all that an action is built from, the statements apart.
unfoldable pub actions : Unit {0}
unfolding pure throw lift gets require modify guard ◌>>=◌ try_catch with_tenant_transaction
actions = tt
