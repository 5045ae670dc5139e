-- ===== src/PolicyEngine/Precedence.antt =====
-- evaluator.ts and rules.ts: which tenant rules prevail over the default rules.
use ai_digital_office_os.Prelude.{
  ℕ, ◌≤◌, ◌≡◌, refl, ap, ◌∙◌, Bool, true, false, not, ◌&&◌, Option, none, some, List, [], ◌∷◌, ◌++◌,
  arith, All, ◌==◌, eq_iff, find, Bool-cases, inl, inr,
}
use ai_digital_office_os.PolicyEngine.{
  require_approval, RiskPattern, any, exactly, same_risk, PolicyRule, PolicyInput, default_rules,
  specificity, consider, best_of, decide, evaluate_policy,
}

-- a rule that names the input's action type and its risk level
abbrev pub names_risk : RiskPattern → PolicyInput → Bool
names_risk any input = false
names_risk (exactly r) input = same_risk r input.risk_level

abbrev pub is_exact : PolicyInput → PolicyRule → Bool
is_exact input rule =
    not (rule.action_type == "*")
    && rule.action_type == input.action_type
    && names_risk rule.risk_level input

-- no rule held, or one of at most this score
abbrev AtMost : ℕ → Option (PolicyRule × ℕ) → Type 0
AtMost n none = Unit
AtMost n (some (held, top)) = top ≤ n

module _ (input : PolicyInput) where
  consider-exact :
      (best : Option (PolicyRule × ℕ)) (r : PolicyRule)
      → AtMost 2 best
      → is_exact input r ≡ true
      → consider best r (specificity r input) ≡ some (r, 3)
  unfolding consider specificity
  consider-exact none r h e = ground arith
  consider-exact (some b) r h e = ground arith

  consider-not_exact :
      (best : Option (PolicyRule × ℕ)) (r : PolicyRule)
      → AtMost 2 best
      → is_exact input r ≡ false
      → AtMost 2 (consider best r (specificity r input))
  unfolding consider specificity
  consider-not_exact none r h e = ground arith
  consider-not_exact (some b) r h e = ground arith

  consider-top : (w r : PolicyRule) → consider (some (w, 3)) r (specificity r input) ≡ some (w, 3)
  unfolding consider specificity
  consider-top w r = ground arith

  best_of-top :
      (w : PolicyRule) (rs : List PolicyRule) → best_of input (some (w, 3)) rs ≡ some (w, 3)
  unfolding best_of
  best_of-top w [] = refl
  best_of-top w (r ∷ rs) = rw (consider-top w r) (best_of-top w rs)

  best_of-find :
      (best : Option (PolicyRule × ℕ)) (rs tail : List PolicyRule) (w : PolicyRule)
      → AtMost 2 best
      → find (is_exact input) rs ≡ some w
      → best_of input best (rs ++ tail) ≡ some (w, 3)
  unfolding best_of
  best_of-find best [] tail w h e = cc
  best_of-find best (r ∷ rs) tail w h e = elim (Bool-cases (is_exact input r)) [
    | inl y ↦
        let same : some r ≡ some w = rw y at e in
        rw (consider-exact best r h y, best_of) (best_of-top r (rs ++ tail) ∙ cc same)
    | inr n ↦
        best_of-find (consider best r (specificity r input)) rs tail w
          (consider-not_exact best r h n) (rw n at e)
  ]

-- If a tenant rule names both the action type and the risk level of the input, the first such rule
-- decides: no default rule and no other tenant rule overrides it.
pub evaluate_policy-exact :
    (input : PolicyInput) (tenant_rules : List PolicyRule) (rule : PolicyRule)
    → find (is_exact input) tenant_rules ≡ some rule
    → evaluate_policy input tenant_rules
      ≡ record { decision = rule.decision; matched_rule = some rule }
unfolding evaluate_policy decide
evaluate_policy-exact input rules rule e =
    rw (best_of-find input none rules default_rules rule tt e)

abbrev pub IsBlanket : PolicyRule → Type 0
IsBlanket rule = (rule.action_type ≡ "*") × (rule.risk_level ≡ any)

blanket-AtMost :
    (input : PolicyInput) (best : Option (PolicyRule × ℕ)) (r : PolicyRule)
    → IsBlanket r
    → AtMost 0 best
    → AtMost 0 (consider best r (specificity r input))
unfolding consider specificity
blanket-AtMost input none r b h = ground (arith, eq_iff r.action_type "*")
blanket-AtMost input (some held) r b h = ground (arith, eq_iff r.action_type "*")

default_over_blanket :
    (input : PolicyInput) (best : Option (PolicyRule × ℕ))
    → AtMost 0 best
    → best_of input best default_rules ≡ best_of input none default_rules
unfolding best_of consider specificity
default_over_blanket input none h = refl
default_over_blanket input (some held) h = ground arith

blankets-best_of :
    (input : PolicyInput) (best : Option (PolicyRule × ℕ)) (rules : List PolicyRule)
    → AtMost 0 best
    → All IsBlanket rules
    → best_of input best (rules ++ default_rules) ≡ best_of input none default_rules
unfolding best_of
blankets-best_of input best [] h b = default_over_blanket input best h
blankets-best_of input best (r ∷ rs) h b =
    blankets-best_of input (consider best r (specificity r input)) rs
      (blanket-AtMost input best r b.0 h) b.1

-- Tenant rules whose action type and risk level are both "*" have no effect, whatever they decide:
-- a default rule for the input's risk level always prevails over them.
pub evaluate_policy-blanket :
    (input : PolicyInput) (tenant_rules : List PolicyRule)
    → All IsBlanket tenant_rules
    → evaluate_policy input tenant_rules ≡ evaluate_policy input []
unfolding evaluate_policy
evaluate_policy-blanket input rules b = ap decide (blankets-best_of input none rules tt b)

-- a rule that does not name AGENT_ACTIVATE
abbrev pub IsSilent : PolicyRule → Type 0
IsSilent rule = (rule.action_type == "AGENT_ACTIVATE") ≡ false

silent-AtMost :
    (input : PolicyInput) (best : Option (PolicyRule × ℕ)) (r : PolicyRule)
    → input.action_type ≡ "AGENT_ACTIVATE"
    → IsSilent r
    → AtMost 1 best
    → AtMost 1 (consider best r (specificity r input))
unfolding consider specificity
silent-AtMost input none r a b h = rw a (ground arith)
silent-AtMost input (some held) r a b h = rw a (ground arith)

abbrev activation_rule : PolicyRule
activation_rule = record {
  action_type = "AGENT_ACTIVATE";
  risk_level = any;
  decision = require_approval;
  note = some "activation always requires approval";
}

activation_default :
    (input : PolicyInput) (best : Option (PolicyRule × ℕ))
    → input.action_type ≡ "AGENT_ACTIVATE"
    → AtMost 1 best
    → best_of input best default_rules ≡ some (activation_rule, 2)
unfolding best_of consider specificity
activation_default input none a h = rw a (ground arith)
activation_default input (some held) a h = rw a (ground arith)

silent-best_of :
    (input : PolicyInput) (best : Option (PolicyRule × ℕ)) (rules : List PolicyRule)
    → input.action_type ≡ "AGENT_ACTIVATE"
    → AtMost 1 best
    → All IsSilent rules
    → best_of input best (rules ++ default_rules) ≡ some (activation_rule, 2)
unfolding best_of
silent-best_of input best [] a h b = activation_default input best a h
silent-best_of input best (r ∷ rs) a h b =
    silent-best_of input (consider best r (specificity r input)) rs a
      (silent-AtMost input best r a b.0 h) b.1

-- An agent's activation needs an approval at every risk level, unless a tenant rule names
-- AGENT_ACTIVATE itself: no tenant rule for every action changes that.
pub evaluate_policy-activation :
    (input : PolicyInput) (tenant_rules : List PolicyRule)
    → input.action_type ≡ "AGENT_ACTIVATE"
    → All IsSilent tenant_rules
    → (evaluate_policy input tenant_rules).decision ≡ require_approval
unfolding evaluate_policy
evaluate_policy-activation input rules a b =
    ap (λ (o : Option (PolicyRule × ℕ)). (decide o).decision)
      (silent-best_of input none rules a tt b)
    ∙ unfold decide in refl
