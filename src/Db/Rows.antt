-- ===== src/Db/Rows.antt =====
-- What the statements do to the rows of a table.
use ai_digital_office_os.Prelude.{
  String, Bool, true, false, not, ◌&&◌, ◌≡◌, refl, Option, none, some, List, [], ◌∷◌, ◌++◌, arith,
  find, find_holds, filter, All, Bool-cases, ◌⊎◌, inl, inr,
}
use ai_digital_office_os.Failure.{ok, >>=-eq-ok}
use ai_digital_office_os.Db.{
  visible, writable, select, select_one, insert, update_row, update, delete,
}

-- the rows that are not the tenant's own: other tenants' and the templates
abbrev pub foreign : {A : Type 0} (owner : A → Option String) (tenant : String) → List A → List A
foreign owner tenant rows = filter (λ r. not (writable tenant (owner r))) rows

module _ {A : Type 0} (owner : A → Option String) (tenant : String) where
  foreign-concat :
      (rows : List A) (row : A)
      → writable tenant (owner row) ≡ true
      → foreign owner tenant (rows ++ row ∷ []) ≡ foreign owner tenant rows
  foreign-concat [] row h = rw h
  foreign-concat (r ∷ rows) row h = rw (foreign-concat rows row h)

  pub foreign-insert :
      (row : A) (rows rows' : List A)
      → insert owner tenant row rows ≡ ok rows'
      → foreign owner tenant rows' ≡ foreign owner tenant rows
  unfolding insert
  foreign-insert row rows rows' h = elim (Bool-cases (writable tenant (owner row))) [
    | inl own ↦
        let same : ok (rows ++ row ∷ []) ≡ ok rows' = rw own at h in
        let result : rows' ≡ rows ++ row ∷ [] = ground (arith, same) in
        rw result (foreign-concat rows row own)
    | inr other ↦ absurd (ground (arith, other, h))
  ]

  -- a row that the statement leaves, or changes without changing its owner
  update_row-foreign :
      (p : A → Bool) (f : A → A)
      → ((r : A) → owner (f r) ≡ owner r)
      → (row row' : A) → update_row owner tenant p f row ≡ ok row'
      → (row' ≡ row)
        ⊎ ((writable tenant (owner row) ≡ true) × (writable tenant (owner row') ≡ true))
  unfolding update_row
  update_row-foreign p f keeps row row' h = ground (arith, keeps row)

  foreign-cons :
      (row row' : A) (rows rows' : List A)
      → (row' ≡ row)
        ⊎ ((writable tenant (owner row) ≡ true) × (writable tenant (owner row') ≡ true))
      → foreign owner tenant rows' ≡ foreign owner tenant rows
      → foreign owner tenant (row' ∷ rows') ≡ foreign owner tenant (row ∷ rows)
  foreign-cons row row' rows rows' (inl same) h = rw (same, h)
  foreign-cons row row' rows rows' (inr (own, own')) h = rw (own, own') h

  pub foreign-update :
      (p : A → Bool) (f : A → A)
      → ((r : A) → owner (f r) ≡ owner r)
      → (rows rows' : List A) → update owner tenant p f rows ≡ ok rows'
      → foreign owner tenant rows' ≡ foreign owner tenant rows
  unfolding update
  foreign-update p f keeps [] rows' h = let result : rows' ≡ [] = ground (arith, h) in rw result
  foreign-update p f keeps (row ∷ rows) rows' h =
      let (r, hr, h₁) = >>=-eq-ok (update_row owner tenant p f row) _ h in
      let (rs, hrs, h₂) = >>=-eq-ok (update owner tenant p f rows) _ h₁ in
      let result : rows' ≡ r ∷ rs = ground (arith, h₂) in
      rw result (
        foreign-cons row r rows rs (update_row-foreign p f keeps row r hr)
          (foreign-update p f keeps rows rs hrs))

  pub foreign-delete :
      (p : A → Bool) (rows : List A)
      → ((r : A) → visible tenant (owner r) ≡ true → writable tenant (owner r) ≡ true)
      → foreign owner tenant (delete owner tenant p rows) ≡ foreign owner tenant rows
  unfolding delete
  foreign-delete p [] strict = refl
  foreign-delete p (row ∷ rows) strict = ground (arith, strict row, foreign-delete p rows strict)

pub writable-visible :
    (tenant : String) (o : Option String) → writable tenant o ≡ true → visible tenant o ≡ true
writable-visible tenant none h = cc
writable-visible tenant (some owner) h = h

module _ {A : Type 0} (owner : A → Option String) (tenant : String) where
  -- the row that a statement finds meets its condition
  pub select_one_holds :
      (p : A → Bool) (rows : List A) (row : A)
      → select_one owner tenant p rows ≡ some row
      → p row ≡ true
  unfolding select_one
  select_one_holds p rows row h =
      let both = find_holds (λ r. visible tenant (owner r) && p r) rows row h in
      ground (arith, both)

  pub select_one-insert :
      (p : A → Bool) (row : A) (rows rows' : List A)
      → insert owner tenant row rows ≡ ok rows'
      → select_one owner tenant p rows ≡ none
      → p row ≡ true
      → select_one owner tenant p rows' ≡ some row
  unfolding insert select_one
  select_one-insert p row rows rows' h e hp = elim (Bool-cases (writable tenant (owner row))) [
    | inl own ↦
        let same : ok (rows ++ row ∷ []) ≡ ok rows' = rw own at h in
        let result : rows' ≡ rows ++ row ∷ [] = ground (arith, same) in
        rw result (find-concat rows own e)
    | inr other ↦ absurd (ground (arith, other, h))
  ]
    where
      find-concat :
          (rows : List A)
          → writable tenant (owner row) ≡ true
          → find (λ r. visible tenant (owner r) && p r) rows ≡ none
          → find (λ r. visible tenant (owner r) && p r) (rows ++ row ∷ []) ≡ some row
      find-concat [] own e = ground (arith, writable-visible tenant (owner row), hp)
      find-concat (r ∷ rs) own e = ground (arith, find-concat rs own)

  pub update_row-hit :
      (p : A → Bool) (f : A → A) (row row' : A)
      → update_row owner tenant p f row ≡ ok row'
      → (visible tenant (owner row) && p row) ≡ true
      → (row' ≡ f row) × (writable tenant (owner (f row)) ≡ true)
  unfolding update_row
  update_row-hit p f row row' h q = ground arith

  pub update_row-miss :
      (p : A → Bool) (f : A → A) (row row' : A)
      → update_row owner tenant p f row ≡ ok row'
      → (visible tenant (owner row) && p row) ≡ false
      → row' ≡ row
  unfolding update_row
  update_row-miss p f row row' h q = ground arith

  -- the row that a statement found, after an update of the rows found
  pub select_one-update :
      (p : A → Bool) (f : A → A)
      → ((r : A) → p r ≡ true → p (f r) ≡ true)
      → (rows rows' : List A) (found : A) → update owner tenant p f rows ≡ ok rows'
      → select_one owner tenant p rows ≡ some found
      → select_one owner tenant p rows' ≡ some (f found)
  unfolding select_one update
  select_one-update p f keeps [] rows' found h e = cc
  select_one-update p f keeps (row ∷ rows) rows' found h e =
      let (r, hr, h₁) = >>=-eq-ok (update_row owner tenant p f row) _ h in
      let (rs, hrs, h₂) = >>=-eq-ok (update owner tenant p f rows) _ h₁ in
      let result : rows' ≡ r ∷ rs = ground (arith, h₂) in
      elim (Bool-cases (visible tenant (owner row) && p row)) [
        | inl hit ↦
            let (changed, own) = update_row-hit p f row r hr hit in
            let first : some row ≡ some found = rw hit at e in
            rw (result, changed)
              (ground (arith, writable-visible tenant (owner (f row)), own, keeps row, hit, first))
        | inr miss ↦
            let same = update_row-miss p f row r hr miss in
            let later : find (λ x. visible tenant (owner x) && p x) rows ≡ some found =
              rw miss at e in
            rw (result, same, miss) (select_one-update p f keeps rows rs found hrs later)
      ]

  -- an UPDATE passes when each row that it gives for one that the tenant sees is the tenant's
  pub update_passes :
      (p : A → Bool) (f : A → A)
      → ((r : A) → visible tenant (owner r) ≡ true → writable tenant (owner (f r)) ≡ true)
      → (rows : List A) → (new : List A) × (update owner tenant p f rows ≡ ok new)
  unfolding update update_row
  update_passes p f own [] = ([], refl)
  update_passes p f own (row ∷ rows) =
      let (rest, later) = update_passes p f own rows in
      elim (Bool-cases (visible tenant (owner row) && p row)) [
        | inl hit ↦
            let seen : visible tenant (owner row) ≡ true = ground (arith, hit) in
            (f row ∷ rest, rw hit (rw (own row seen) (rw later refl)))
        | inr miss ↦ (row ∷ rest, rw miss (rw later refl))
      ]

  -- the same, when the rows that it meets are the tenant's
  pub update_passes-All :
      (p : A → Bool) (f : A → A) (rows : List A)
      → All (λ r. p r ≡ true → writable tenant (owner (f r)) ≡ true) rows
      → (new : List A) × (update owner tenant p f rows ≡ ok new)
  unfolding update update_row
  update_passes-All p f [] own = ([], refl)
  update_passes-All p f (row ∷ rows) (mine, others) =
      let (rest, later) = update_passes-All p f rows others in
      elim (Bool-cases (visible tenant (owner row) && p row)) [
        | inl hit ↦ (f row ∷ rest, rw hit (rw (mine (ground (arith, hit))) (rw later refl)))
        | inr miss ↦ (row ∷ rest, rw miss (rw later refl))
      ]

  -- a row that an UPDATE found and changed to meet another condition is found under that
  pub select_one-update-some :
      (p q : A → Bool) (f : A → A) (rows rows' : List A) (found : A)
      → update owner tenant p f rows ≡ ok rows'
      → select_one owner tenant p rows ≡ some found
      → q (f found) ≡ true
      → (new : A) × (select_one owner tenant q rows' ≡ some new)
  unfolding select_one update
  select_one-update-some p q f [] rows' found h e m = cc
  select_one-update-some p q f (row ∷ rows) rows' found h e m =
      let (r, hr, h₁) = >>=-eq-ok (update_row owner tenant p f row) _ h in
      let (rs, hrs, h₂) = >>=-eq-ok (update owner tenant p f rows) _ h₁ in
      let result : rows' ≡ r ∷ rs = ground (arith, h₂) in
      elim (Bool-cases (visible tenant (owner row) && p row)) [
        | inl hit ↦
            let (changed, own) = update_row-hit p f row r hr hit in
            let first : some row ≡ some found = rw hit at e in
            let same : row ≡ found = ground (arith, first) in
            let seen = writable-visible tenant (owner (f row)) own in
            (f row, rw (result, changed) (ground (arith, seen, m, same)))
        | inr miss ↦
            let same = update_row-miss p f row r hr miss in
            let later : find (λ x. visible tenant (owner x) && p x) rows ≡ some found =
              rw miss at e in
            let (new, there) = select_one-update-some p q f rows rs found hrs later m in
            elim (Bool-cases (visible tenant (owner row) && q row)) [
              | inl met ↦ (row, rw (result, same, met) refl)
              | inr unmet ↦ (new, rw (result, same, unmet) there)
            ]
      ]

  -- an UPDATE of rows that the other condition does not meet, before or after
  pub select_one-update_other :
      (p q : A → Bool) (f : A → A)
      → ((r : A) → q r ≡ true → p r ≡ false)
      → ((r : A) → q r ≡ true → p (f r) ≡ false)
      → (rows rows' : List A) → update owner tenant q f rows ≡ ok rows'
      → select_one owner tenant p rows' ≡ select_one owner tenant p rows
  unfolding select_one update
  select_one-update_other p q f before after [] rows' h =
      let result : rows' ≡ [] = ground (arith, h) in rw result refl
  select_one-update_other p q f before after (row ∷ rows) rows' h =
      let (r, hr, h₁) = >>=-eq-ok (update_row owner tenant q f row) _ h in
      let (rs, hrs, h₂) = >>=-eq-ok (update owner tenant q f rows) _ h₁ in
      let result : rows' ≡ r ∷ rs = ground (arith, h₂) in
      let later = select_one-update_other p q f before after rows rs hrs in
      elim (Bool-cases (visible tenant (owner row) && q row)) [
        | inl hit ↦
            let (changed, own) = update_row-hit q f row r hr hit in
            let met : q row ≡ true = ground (arith, hit) in
            rw (result, changed) (ground (arith, before row met, after row met, later))
        | inr miss ↦
            let same = update_row-miss q f row r hr miss in
            rw (result, same) (ground (arith, later))
      ]

  -- a row that was there before the others
  pub select_one-append :
      (p : A → Bool) (rows more : List A) (found : A)
      → select_one owner tenant p rows ≡ some found
      → select_one owner tenant p (rows ++ more) ≡ some found
  unfolding select_one
  select_one-append p [] more found h = cc
  select_one-append p (row ∷ rows) more found h =
      ground (arith, h, select_one-append p rows more found)

  -- after a DELETE the tenant sees no row that its condition meets
  pub select-delete :
      (p : A → Bool) (rows : List A) → select owner tenant p (delete owner tenant p rows) ≡ []
  unfolding select delete
  select-delete p [] = refl
  select-delete p (row ∷ rows) = ground (arith, select-delete p rows)

  -- and a DELETE by another tenant adds none
  pub select-delete_stays :
      (other : String) (p : A → Bool) (rows : List A)
      → select owner tenant p rows ≡ []
      → select owner tenant p (delete owner other p rows) ≡ []
  unfolding select delete
  select-delete_stays other p [] h = refl
  select-delete_stays other p (row ∷ rows) h = ground (arith, h, select-delete_stays other p rows)

  -- a DELETE of rows that the other condition does not meet
  pub select_one-delete :
      (p q : A → Bool)
      → ((r : A) → p r ≡ true → q r ≡ false)
      → (rows : List A)
      → select_one owner tenant p (delete owner tenant q rows) ≡ select_one owner tenant p rows
  unfolding select_one delete
  select_one-delete p q apart [] = refl
  select_one-delete p q apart (row ∷ rows) =
      ground (arith, apart row, select_one-delete p q apart rows)
