-- ===== src/PolicyEngine/Evaluation.antt =====
-- evaluator.ts: which rule decides.
use mathlib.Core.List.{append_assoc, append-nil}
use ai_digital_office_os.Prelude.{
  ℕ, suc, ◌≤◌, ◌<◌, ◌≡◌, refl, ap, Option, none, some, List, [], ◌∷◌, ◌++◌, arith, All, All-append,
  ltb, Bool-cases, inl, inr,
}
use ai_digital_office_os.PolicyEngine.{
  PolicyRule, PolicyInput, default_rules, specificity, consider, best_of, decide, evaluate_policy,
}

-- 0 for a rule that does not apply, and else its specificity plus 1
abbrev pub rank_of : Option ℕ → ℕ
rank_of none = 0
rank_of (some k) = suc k

abbrev pub rank : PolicyInput → PolicyRule → ℕ
rank input rule = rank_of (specificity rule input)

-- `rule` is the first of the most specific rules of `rules` that apply.
pub record IsFirstBest (input : PolicyInput) (rules : List PolicyRule) (rule : PolicyRule)
    (score : ℕ) : Type 0 where
  pub before : List PolicyRule
  pub after : List PolicyRule
  pub split : rules ≡ before ++ rule ∷ after
  pub applies : specificity rule input ≡ some score
  pub beats : All (λ r. rank input r ≤ score) before
  pub tops : All (λ r. rank input r ≤ suc score) after

abbrev pub Best : PolicyInput → List PolicyRule → Option (PolicyRule × ℕ) → Type 0
Best input rules none = All (λ r. rank input r ≡ 0) rules
Best input rules (some (rule, score)) = IsFirstBest input rules rule score

module _ (input : PolicyInput) where
  rank-none : (r : PolicyRule) → specificity r input ≡ none → rank input r ≡ 0
  rank-none r e = ap rank_of e

  rank-some : (r : PolicyRule) (k : ℕ) → specificity r input ≡ some k → rank input r ≡ suc k
  rank-some r k e = ap rank_of e

  weaken-le :
      (m n : ℕ) (rs : List PolicyRule)
      → m ≤ n
      → All (λ r. rank input r ≤ m) rs
      → All (λ r. rank input r ≤ n) rs
  weaken-le m n [] l h = tt
  weaken-le m n (r ∷ rs) l h = (omega (arith, h.0), weaken-le m n rs l h.1)

  zero-le-All :
      (n : ℕ) (rs : List PolicyRule)
      → All (λ r. rank input r ≡ 0) rs
      → All (λ r. rank input r ≤ n) rs
  zero-le-All n [] h = tt
  zero-le-All n (r ∷ rs) h = (omega (arith, h.0), zero-le-All n rs h.1)

  -- the bound over the rules seen, from the rule held
  seen-le :
      (seen : List PolicyRule) (held : PolicyRule) (top k : ℕ)
      → top < k
      → IsFirstBest input seen held top
      → All (λ r. rank input r ≤ k) seen
  seen-le seen held top k l h = rw h.split (
      All-append _ h.before (held ∷ h.after) (weaken-le top k h.before (omega arith) h.beats)
        (omega (arith, rank-some held top h.applies), weaken-le (suc top) k h.after l h.tops))

  -- one round of the loop keeps the first of the best
  Best-consider :
      (seen : List PolicyRule) (best : Option (PolicyRule × ℕ)) (r : PolicyRule) (found : Option ℕ)
      → specificity r input ≡ found
      → Best input seen best
      → Best input (seen ++ r ∷ []) (consider best r found)
  unfolding consider
  Best-consider seen none r none e h = All-append _ seen (r ∷ []) h (rank-none r e, tt)
  Best-consider seen (some (held, top)) r none e h = record {
    before = h.before;
    after = h.after ++ r ∷ [];
    split = rw h.split (append_assoc h.before (held ∷ h.after) (r ∷ []));
    applies = h.applies;
    beats = h.beats;
    tops = All-append _ h.after (r ∷ []) h.tops (omega (arith, rank-none r e), tt);
  }
  Best-consider seen none r (some k) e h = record {
    before = seen;
    after = [];
    split = refl;
    applies = e;
    beats = zero-le-All k seen h;
    tops = tt;
  }
  Best-consider seen (some (held, top)) r (some k) e h = elim (Bool-cases (ltb top k)) [
    | inl more ↦ rw more (record {
      before = seen;
      after = [];
      split = refl;
      applies = e;
      beats = seen-le seen held top k (ground arith) h;
      tops = tt;
    })
    | inr less ↦ rw less (record {
      before = h.before;
      after = h.after ++ r ∷ [];
      split = rw h.split (append_assoc h.before (held ∷ h.after) (r ∷ []));
      applies = h.applies;
      beats = h.beats;
      tops = All-append _ h.after (r ∷ []) h.tops (ground (arith, rank-some r k e), tt);
    })
  ]

  Best-best_of :
      (seen : List PolicyRule) (best : Option (PolicyRule × ℕ)) (rules : List PolicyRule)
      → Best input seen best
      → Best input (seen ++ rules) (best_of input best rules)
  unfolding best_of
  Best-best_of seen best [] h = rw append-nil h
  Best-best_of seen best (r ∷ rs) h = rw (← append_assoc seen (r ∷ []) rs) (
      Best-best_of (seen ++ r ∷ []) (consider best r (specificity r input)) rs
        (Best-consider seen best r (specificity r input) refl h))

-- a default rule applies at every risk level
some_default_applies : (input : PolicyInput) → ¬ (All (λ r. rank input r ≡ 0) default_rules)
unfolding specificity
some_default_applies input h = ground (arith, h)

All-append_right : (P : PolicyRule → Type 0) (xs ys : List PolicyRule) → All P (xs ++ ys) → All P ys
All-append_right P [] ys h = h
All-append_right P (x ∷ xs) ys h = All-append_right P xs ys h.1

-- The outcome of an evaluation, for the value that the loop ends with.
decided :
    (input : PolicyInput) (tenant_rules : List PolicyRule) (best : Option (PolicyRule × ℕ))
    → Best input (tenant_rules ++ default_rules) best
    → (rule : PolicyRule) × (score : ℕ) × IsFirstBest input
        (tenant_rules ++ default_rules)
        rule
        score
      × (decide best ≡ record { decision = rule.decision; matched_rule = some rule })
unfolding decide
decided input rules none h =
    absurd (some_default_applies input (All-append_right _ rules default_rules h))
decided input rules (some (rule, score)) h = (rule, score, h, refl)

-- Every evaluation is decided by a rule, the tenant's rules standing before the default rules: one
-- that applies, that is more specific than every applicable rule before it, and at least as
-- specific as every applicable rule behind it. So the branch that fails closed is never taken.
pub evaluate_policy-IsFirstBest :
    (input : PolicyInput) (tenant_rules : List PolicyRule)
    → (rule : PolicyRule) × (score : ℕ) × IsFirstBest input
        (tenant_rules ++ default_rules)
        rule
        score
      × (evaluate_policy input tenant_rules
          ≡ record { decision = rule.decision; matched_rule = some rule })
unfolding evaluate_policy
evaluate_policy-IsFirstBest input rules =
    decided input rules (best_of input none (rules ++ default_rules))
      (Best-best_of input [] none (rules ++ default_rules) tt)
