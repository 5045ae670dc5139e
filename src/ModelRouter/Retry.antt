-- ===== src/ModelRouter/Retry.antt =====
-- services/model-router-gateway/src/retry.ts. The call is a function of the number of the attempt;
-- the delays waited are returned beside its result.
use ai_digital_office_os.Prelude.{
  ℕ, zero, suc, ◌+◌, ◌*◌, ◌-◌, ◌^◌, ◌<◌, ◌≤◌, ◌≡◌, refl, Bool, true, false, not, ◌||◌, ◌⊎◌, inl,
  inr, List, [], ◌∷◌, length, eqb, arith, if◌then◌else◌, Bool-cases,
}
use ai_digital_office_os.Failure.{Failure, other_error, Result, ok, err}

module _ {ℓ} {A : Type ℓ} (fn : ℕ → Result A) (is_retryable : Failure → Bool) (max_attempts : ℕ)
    (base_delay_ms : ℕ) where
  -- the loop, for the attempts left; past the last one `lastError` is thrown
  unfoldable pub attempts : ℕ → ℕ → Result A × List ℕ
  attempts zero attempt = (err other_error, [])
  attempts (suc left) attempt =
      let later = attempts left (attempt + 1) in
      elim (fn attempt) [
        | ok a ↦ (ok a, [])
        | err e ↦
            if eqb attempt max_attempts || not (is_retryable e)
            then (err e, [])
            else (later.0, (base_delay_ms * 2 ^ (attempt - 1)) ∷ later.1)
      ]

  unfoldable pub with_retry : Result A × List ℕ
  unfolding attempts
  with_retry = attempts max_attempts 1

  -- The attempts from `attempt` on, one for each delay and the last.
  pub record Tried (attempt : ℕ) (outcome : Result A × List ℕ) : Type ℓ where
    pub last : fn (attempt + length outcome.1) ≡ outcome.0
    pub bounded : attempt + length outcome.1 ≤ max_attempts
    pub failed :
        (i : ℕ)
        → i < length outcome.1
        → (e : Failure) × (fn (attempt + i) ≡ err e) × (is_retryable e ≡ true)
    pub settled :
        (e : Failure)
        → outcome.0 ≡ err e
        → (attempt + length outcome.1 ≡ max_attempts) ⊎ (is_retryable e ≡ false)

  Tried-stop :
      (attempt : ℕ) (r : Result A)
      → fn attempt ≡ r
      → attempt ≤ max_attempts
      → ((e : Failure) → r ≡ err e → (attempt ≡ max_attempts) ⊎ (is_retryable e ≡ false))
      → Tried attempt (r, [])
  Tried-stop attempt r h b s =
      let same : attempt + 0 ≡ attempt = omega arith in
      record {
        last = rw same h;
        bounded = omega arith;
        failed = λ i l. absurd (omega arith);
        settled = λ e he. rw same (s e he);
      }

  Tried-again :
      (attempt : ℕ) (e : Failure) (delay : ℕ) (r : Result A) (delays : List ℕ)
      → fn attempt ≡ err e
      → is_retryable e ≡ true
      → Tried (attempt + 1) (r, delays)
      → Tried attempt (r, delay ∷ delays)
  Tried-again attempt e delay r delays h y t =
      let shift : attempt + suc (length delays) ≡ attempt + 1 + length delays = omega arith in
      record {
        last = rw shift t.last;
        bounded = rw shift t.bounded;
        failed = failed_at;
        settled = λ x hx. rw shift (t.settled x hx);
      }
    where
      failed_at :
          (i : ℕ)
          → i < suc (length delays)
          → (x : Failure) × (fn (attempt + i) ≡ err x) × (is_retryable x ≡ true)
      failed_at zero l = let same : attempt + 0 ≡ attempt = omega arith in (e, rw same h, y)
      failed_at (suc i) l =
          let next : attempt + suc i ≡ attempt + 1 + i = omega arith in
          rw next (t.failed i (omega arith))

  attempts-Tried :
      (left attempt : ℕ)
      → attempt + left ≡ max_attempts + 1
      → 0 < left
      → Tried attempt (attempts left attempt)
  unfolding attempts
  attempts-Tried zero attempt h l = absurd (omega arith)
  attempts-Tried (suc left) attempt h l =
      go (fn attempt) refl (λ more. attempts-Tried left (attempt + 1) (omega arith) more)
    where
      on_error :
          (e : Failure)
          → fn attempt ≡ err e
          → (0 < left → Tried (attempt + 1) (attempts left (attempt + 1)))
          → Tried attempt (
              if eqb attempt max_attempts || not (is_retryable e) then (err e, []) else (
                (attempts left (attempt + 1)).0,
                (base_delay_ms * 2 ^ (attempt - 1)) ∷ (attempts left (attempt + 1)).1,
              ))
      on_error e q ih = elim (Bool-cases (eqb attempt max_attempts || not (is_retryable e))) [
        | inl stop ↦ rw stop (
            Tried-stop attempt (err e) q (omega arith)
              (λ x hx. let same : e ≡ x = ground (arith, hx) in rw (← same) (ground (arith, stop))))
        | inr again ↦ rw again (
            Tried-again attempt e (base_delay_ms * 2 ^ (attempt - 1))
              (attempts left (attempt + 1)).0 (attempts left (attempt + 1)).1 q
              (ground (arith, again)) (ih (ground (arith, again))))
      ]

      go :
          (r : Result A)
          → fn attempt ≡ r
          → (0 < left → Tried (attempt + 1) (attempts left (attempt + 1)))
          → Tried attempt (attempts (suc left) attempt)
      go (ok a) q ih = rw (q, attempts) (Tried-stop attempt (ok a) q (omega arith) (λ x hx. cc hx))
      go (err e) q ih = rw (q, attempts) (on_error e q ih)

module _ {ℓ} {A : Type ℓ} (fn : ℕ → Result A) (is_retryable : Failure → Bool) (max_attempts : ℕ)
    (base_delay_ms : ℕ) where
  -- With at least one attempt allowed, the result is that of the last attempt made, of which there
  -- is one more than there are delays, and at most max_attempts; every attempt before it failed
  -- with a retryable error; and if the last one failed, it was the last allowed or not retryable.
  pub with_retry-Tried :
      0 < max_attempts
      → Tried fn is_retryable max_attempts base_delay_ms 1
          (with_retry fn is_retryable max_attempts base_delay_ms)
  unfolding with_retry
  with_retry-Tried h =
      attempts-Tried fn is_retryable max_attempts base_delay_ms max_attempts 1 (omega arith) h
