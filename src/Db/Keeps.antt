-- ===== src/Db/Keeps.antt =====
-- What an action leaves as it was: a view of the database, one rule for each way to build actions.
use ai_digital_office_os.Prelude.{
  String, Bool, true, false, ◌≡◌, refl, ◌∙◌, Option, none, some, List, if◌then◌else◌,
}
use ai_digital_office_os.Failure.{Failure, Result, ok, err}
use ai_digital_office_os.Schema.{Db}
use ai_digital_office_os.Db.{
  Action, pure, throw, lift, gets, require, guard, ◌>>=◌, try_catch, with_tenant_transaction, store,
  finish, continue, handle,
}

-- The view is the same after the action, whether it returns or throws.
pub record Keeps {ℓ} {A : Type ℓ} {V : Type 0} (view : Db → V) (m : Action A) : Type ℓ where
  pub at : (db : Db) → view (m db).1 ≡ view db

finish_keeps {ℓ} :
    {A : Type ℓ} {V : Type 0} (view : Db → V) (before : Db) (r : Result A) (after : Db)
    → view after ≡ view before
    → view (finish before (r, after)).1 ≡ view before
finish_keeps view before (ok a) after h = h
finish_keeps view before (err e) after h = refl

module _ {ℓ} {A : Type ℓ} {V : Type 0} {view : Db → V} where
  pub Keeps-pure : (a : A) → Keeps view (pure a)
  unfolding pure
  Keeps-pure a = record { at = λ db. refl }

  pub Keeps-throw : (e : Failure) → Keeps view (throw {A = A} e)
  unfolding throw
  Keeps-throw e = record { at = λ db. refl }

  pub Keeps-lift : (r : Result A) → Keeps view (lift r)
  unfolding lift
  Keeps-lift r = record { at = λ db. refl }

  pub Keeps-gets : (f : Db → A) → Keeps view (gets f)
  unfolding gets
  Keeps-gets f = record { at = λ db. refl }

  pub Keeps-require : (o : Option A) (e : Failure) → Keeps view (require o e)
  unfolding require
  Keeps-require none e = record { at = λ db. refl }
  Keeps-require (some a) e = record { at = λ db. refl }

  pub Keeps-if :
      (b : Bool) (m n : Action A) → Keeps view m → Keeps view n → Keeps view (if b then m else n)
  Keeps-if true m n hm hn = hm
  Keeps-if false m n hm hn = hn

  pub Keeps-transaction :
      (tenant : String) (fn : String → Action A)
      → Keeps view (fn tenant)
      → Keeps view (with_tenant_transaction tenant fn)
  unfolding with_tenant_transaction
  Keeps-transaction tenant fn h = record {
    at = λ db. finish_keeps view db (fn tenant db).0 (fn tenant db).1 (h.at db);
  }

module _ {V : Type 0} {view : Db → V} where
  pub Keeps-guard : (b : Bool) (e : Failure) → Keeps view (guard b e)
  unfolding guard
  Keeps-guard true e = record { at = λ db. refl }
  Keeps-guard false e = record { at = λ db. refl }

module _ {ℓ κ} {A : Type ℓ} {B : Type κ} {V : Type 0} {view : Db → V} where
  continue-Keeps :
      (r : Result A) (f : A → Action B)
      → ((a : A) → Keeps view (f a))
      → (db : Db) → view (continue r f db).1 ≡ view db
  continue-Keeps (ok a) f hf db = (hf a).at db
  continue-Keeps (err e) f hf db = refl

  pub Keeps-bind :
      (m : Action A) (f : A → Action B)
      → Keeps view m
      → ((a : A) → Keeps view (f a))
      → Keeps view (m >>= f)
  unfolding ◌>>=◌
  Keeps-bind m f hm hf = record { at = λ db. continue-Keeps (m db).0 f hf (m db).1 ∙ hm.at db }

  handle-Keeps :
      (r : Result A) (f : A → Action B) (h : Failure → Action B)
      → ((a : A) → Keeps view (f a))
      → ((e : Failure) → Keeps view (h e))
      → (db : Db) → view (handle r f h db).1 ≡ view db
  handle-Keeps (ok a) f h hf hh db = (hf a).at db
  handle-Keeps (err e) f h hf hh db = (hh e).at db

  pub Keeps-try_catch :
      (m : Action A) (f : A → Action B) (h : Failure → Action B)
      → Keeps view m
      → ((a : A) → Keeps view (f a))
      → ((e : Failure) → Keeps view (h e))
      → Keeps view (try_catch m f h)
  unfolding try_catch
  Keeps-try_catch m f h hm hf hh = record {
    at = λ db. handle-Keeps (m db).0 f h hf hh (m db).1 ∙ hm.at db;
  }

stored :
    {A : Type 0} {V : Type 0} (view : Db → V) (r : Result (List A)) (put : List A → Db → Db)
    (db : Db)
    → ((new : List A) → view (put new db) ≡ view db)
    → view (store r put db).1 ≡ view db
unfolding store
stored view (ok new) put db h = h new
stored view (err e) put db h = refl

-- A statement that writes a table outside the view.
pub Keeps-store :
    {A : Type 0} {V : Type 0} {view : Db → V} (rows : Db → Result (List A)) (put : List A → Db → Db)
    → ((new : List A) (db : Db) → view (put new db) ≡ view db)
    → Keeps view (λ db. store (rows db) put db)
Keeps-store {view} rows put h = record { at = λ db. stored view (rows db) put db (λ new. h new db) }

pub ruleset keeps_rules = (
  Keeps-pure, Keeps-throw, Keeps-lift, Keeps-gets, Keeps-require, Keeps-guard, Keeps-if, Keeps-bind,
  Keeps-try_catch, Keeps-transaction,
)
