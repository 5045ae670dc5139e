-- ===== src/Lifecycle/Machine.antt =====
-- The state machine of a workflow: what holds in every state that it reaches.
use ai_digital_office_os.Prelude.{
  String, Bool, true, false, ◌≡◌, refl, Option, none, some, List, [], ◌∷◌, ◌++◌, arith, any, ◌==◌,
  eq_iff, eq_refl, sym, ap, ◌∙◌, Bool-cases, inl, inr,
}
use ai_digital_office_os.Schema.{WorkflowStatus, completed, WorkflowStep}
use ai_digital_office_os.WorkflowEngine.{step_id_of, next_step, is_completed}
use ai_digital_office_os.Lifecycle.{
  Lifecycle, at, Moves, Step, moves, completes_step, fails_step, finishes, Reaches, stays, then,
  pauses, resumes, retries, cancels_running, cancels_paused, cancels_failed, cancels_escalated,
  escalates_running, escalates_paused, escalates_failed,
}

-- No step is completed twice.
abbrev pub IsDistinct : List String → Type 0
IsDistinct [] = Unit
IsDistinct (id ∷ ids) = (any (λ other. other == id) ids ≡ false) × IsDistinct ids

-- A workflow is COMPLETED only when no step of its definition is left.
abbrev pub IsFinished : WorkflowStatus → Option (List WorkflowStep) → List String → Type 0
IsFinished completed (some steps) ids = next_step steps ids ≡ none
IsFinished completed none ids = ⊥
IsFinished _ _ _ = Unit

abbrev pub IsSound : Lifecycle → Type 0
IsSound (at status definition ids) = IsDistinct ids × IsFinished status definition ids

any-last {ℓ} :
    {A : Type ℓ} (p : A → Bool) (xs : List A) (x : A)
    → any p xs ≡ false
    → p x ≡ false
    → any p (xs ++ x ∷ []) ≡ false
any-last p [] x h e = ground (arith, e)
any-last p (y ∷ xs) x h e = ground (arith, any-last p xs x, h, e)

==-swap : (s t : String) → (s == t) ≡ false → (t == s) ≡ false
==-swap s t h = elim (Bool-cases (t == s)) [
  | inl same ↦
      let e : t ≡ s = (eq_iff t s).0 same in
      let equal : (s == t) ≡ true = rw e (eq_refl s) in ground (arith, h, equal)
  | inr differ ↦ differ
]

IsDistinct-last :
    (ids : List String) (id : String)
    → any (λ other. other == id) ids ≡ false
    → IsDistinct ids
    → IsDistinct (ids ++ id ∷ [])
IsDistinct-last [] id h d = (refl, tt)
IsDistinct-last (first ∷ ids) id h (fresh, d) =
    let apart : (first == id) ≡ false = ground (arith, h) in
    let later : any (λ other. other == id) ids ≡ false = ground (arith, h) in
    (
      any-last (λ other. other == first) ids id fresh (==-swap first id apart),
      IsDistinct-last ids id later d,
    )

next_step-fresh :
    (steps : List WorkflowStep) (ids : List String) (step : WorkflowStep)
    → next_step steps ids ≡ some step
    → is_completed ids step ≡ false
unfolding next_step
next_step-fresh [] ids step h = cc
next_step-fresh (s ∷ steps) ids step h = elim (Bool-cases (is_completed ids s)) [
  | inl before ↦ next_step-fresh steps ids step (rw before at h)
  | inr now ↦
      let same : some s ≡ some step = rw now at h in
      let is_step : s ≡ step = ground (arith, same) in rw is_step at now
]

Moves-IsFinished :
    {from to : WorkflowStatus} (definition : Option (List WorkflowStep)) (ids : List String)
    → Moves from to
    → IsFinished to definition ids
Moves-IsFinished definition ids pauses = tt
Moves-IsFinished definition ids resumes = tt
Moves-IsFinished definition ids retries = tt
Moves-IsFinished definition ids cancels_running = tt
Moves-IsFinished definition ids cancels_paused = tt
Moves-IsFinished definition ids cancels_failed = tt
Moves-IsFinished definition ids cancels_escalated = tt
Moves-IsFinished definition ids escalates_running = tt
Moves-IsFinished definition ids escalates_paused = tt
Moves-IsFinished definition ids escalates_failed = tt

Step-IsSound : {l m : Lifecycle} → Step l m → IsSound l → IsSound m
Step-IsSound (moves {definition} {ids} move) h = (h.0, Moves-IsFinished definition ids move)
Step-IsSound (completes_step {steps} {ids} {step} next) h =
    (IsDistinct-last ids (step_id_of step) (next_step-fresh steps ids step next) h.0, tt)
Step-IsSound (fails_step next) h = (h.0, tt)
Step-IsSound (finishes last) h = (h.0, last)

-- Every state that the machine reaches from a sound one is sound: no step is completed twice, and the
-- workflow is COMPLETED only when no step is left.
pub Reaches-IsSound : {l m : Lifecycle} → Reaches l m → IsSound l → IsSound m
Reaches-IsSound stays h = h
Reaches-IsSound (then step rest) h = Reaches-IsSound rest (Step-IsSound step h)

pub Reaches-append : {l m n : Lifecycle} → Reaches l m → Reaches m n → Reaches l n
Reaches-append stays more = more
Reaches-append (then step rest) more = then step (Reaches-append rest more)

abbrev pub definition_of : Lifecycle → Option (List WorkflowStep)
definition_of (at status definition ids) = definition

abbrev pub completed_of : Lifecycle → List String
completed_of (at status definition ids) = ids

++-nil : (ids : List String) → ids ++ [] ≡ ids
++-nil [] = refl
++-nil (id ∷ ids) = rw (++-nil ids) refl

++-assoc : (a b c : List String) → (a ++ b) ++ c ≡ a ++ (b ++ c)
++-assoc [] b c = refl
++-assoc (id ∷ a) b c = rw (++-assoc a b c) refl

Step-extends :
    {l m : Lifecycle}
    → Step l m
    → (definition_of m ≡ definition_of l)
      × ((more : List String) × (completed_of m ≡ completed_of l ++ more))
Step-extends (moves {ids} move) = (refl, ([], sym (++-nil ids)))
Step-extends (completes_step {step} next) = (refl, (step_id_of step ∷ [], refl))
Step-extends (fails_step {ids} next) = (refl, ([], sym (++-nil ids)))
Step-extends (finishes {ids} last) = (refl, ([], sym (++-nil ids)))

-- What the machine reaches has the same definition, and the steps completed before are still
-- completed, in their order.
pub Reaches-extends :
    {l m : Lifecycle}
    → Reaches l m
    → (definition_of m ≡ definition_of l)
      × ((more : List String) × (completed_of m ≡ completed_of l ++ more))
Reaches-extends (stays {l}) = (refl, ([], sym (++-nil (completed_of l))))
Reaches-extends (then {l} step rest) =
    let (same, (first, one)) = Step-extends step in
    let (same', (others, all)) = Reaches-extends rest in
    (
      same' ∙ same,
      (first ++ others, all ∙ (ap (λ x. x ++ others) one ∙ ++-assoc (completed_of l) first others)),
    )
