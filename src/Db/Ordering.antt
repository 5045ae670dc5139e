-- ===== src/Db/Ordering.antt =====
-- ORDER BY created_at DESC, of any table with that column.
use ai_digital_office_os.Prelude.{
  ℕ, ◌≤◌, Bool, true, false, ◌≡◌, refl, List, [], ◌∷◌, arith, leb, All, filter, length, Bool-cases,
  inl, inr, if◌then◌else◌,
}

module _ {A : Type 0} (created_at : A → ℕ) where
  abbrev pub place : A → List A → List A
  place row [] = row ∷ []
  place row (first ∷ rest) =
      let later = place row rest in
      if leb (created_at first) (created_at row) then row ∷ first ∷ rest else first ∷ later

  -- the rows, newest first
  abbrev pub newest_first : List A → List A
  newest_first [] = []
  newest_first (row ∷ rows) = place row (newest_first rows)

  -- No row is followed by a newer one.
  abbrev pub IsNewestFirst : List A → Type 0
  IsNewestFirst [] = Unit
  IsNewestFirst (row ∷ rows) = All (λ r. created_at r ≤ created_at row) rows × IsNewestFirst rows

  -- how many rows pass the test
  abbrev pub count : (A → Bool) → List A → ℕ
  count p rows = length (filter p rows)

  module _ (P : A → Type 0) where
    All-place : (row : A) (rows : List A) → P row → All P rows → All P (place row rows)
    All-place row [] h hs = (h, tt)
    All-place row (first ∷ rest) h hs =
        elim (Bool-cases (leb (created_at first) (created_at row))) [
          | inl newer ↦ rw newer (h, hs)
          | inr older ↦ rw older (hs.0, All-place row rest h hs.1)
        ]

    pub All-newest_first : (rows : List A) → All P rows → All P (newest_first rows)
    All-newest_first [] h = tt
    All-newest_first (row ∷ rows) h =
        All-place row (newest_first rows) h.0 (All-newest_first rows h.1)

  All-le :
      (rows : List A) (m n : ℕ)
      → m ≤ n
      → All (λ r. created_at r ≤ m) rows
      → All (λ r. created_at r ≤ n) rows
  All-le [] m n h hs = tt
  All-le (row ∷ rows) m n h hs = (omega (arith, h, hs.0), All-le rows m n h hs.1)

  leb_le : (m n : ℕ) → leb m n ≡ true → m ≤ n
  leb_le m n h = ground (arith, h)

  leb_ge : (m n : ℕ) → leb m n ≡ false → n ≤ m
  leb_ge m n h = ground (arith, h)

  place-IsNewestFirst :
      (row : A) (rows : List A) → IsNewestFirst rows → IsNewestFirst (place row rows)
  place-IsNewestFirst row [] h = (tt, tt)
  place-IsNewestFirst row (first ∷ rest) h =
      elim (Bool-cases (leb (created_at first) (created_at row))) [
        | inl newer ↦
            let le = leb_le (created_at first) (created_at row) newer in
            rw newer ((le, All-le rest (created_at first) (created_at row) le h.0), h)
        | inr older ↦
            let ge = leb_ge (created_at first) (created_at row) older in
            rw older (
              All-place (λ r. created_at r ≤ created_at first) row rest ge h.0,
              place-IsNewestFirst row rest h.1,
            )
      ]

  pub newest_first-IsNewestFirst : (rows : List A) → IsNewestFirst (newest_first rows)
  newest_first-IsNewestFirst [] = tt
  newest_first-IsNewestFirst (row ∷ rows) =
      place-IsNewestFirst row (newest_first rows) (newest_first-IsNewestFirst rows)

  count-place :
      (p : A → Bool) (row : A) (rows : List A) → count p (place row rows) ≡ count p (row ∷ rows)
  count-place p row [] = refl
  count-place p row (first ∷ rest) =
      let later = count-place p row rest in
      elim (Bool-cases (leb (created_at first) (created_at row))) [
        | inl newer ↦ rw newer refl
        | inr older ↦ rw older (ground (arith, later))
      ]

  -- it is the same rows, each as often
  pub count-newest_first :
      (p : A → Bool) (rows : List A) → count p (newest_first rows) ≡ count p rows
  count-newest_first p [] = refl
  count-newest_first p (row ∷ rows) =
      let later = count-newest_first p rows in
      let first = count-place p row (newest_first rows) in ground (arith, later, first)
