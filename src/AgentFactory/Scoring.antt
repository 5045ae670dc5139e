-- ===== src/AgentFactory/Scoring.antt =====
-- scoring.ts: the bounds of the completeness score, and what the quality gate's 60 points need.
use ai_digital_office_os.Prelude.{ℕ, ◌+◌, ◌≤◌, ◌<◌, ◌≡◌, ◌↔◌, true, false, arith, length, min}
use ai_digital_office_os.Json.{array_or_empty}
use ai_digital_office_os.Schema.{AgentRow}
use ai_digital_office_os.AgentFactory.{
  compute_evaluation_score, states_purpose, states_security, is_null,
}

points_le :
    (n a b c d : ℕ)
    → a ≤ 20
    → b ≤ 20
    → c ≤ 20
    → d ≤ 10
    → min (min n 30 + a + b + c + d) 100 ≡ min n 30 + a + b + c + d
points_le n a b c d ha hb hc hd = omega arith

-- The score is at most 100, and it is 100 exactly for an agent with at least three capabilities, a
-- purpose of at least ten characters, both schemas and a known security level.
pub compute_evaluation_score_full :
    (agent : AgentRow)
    → (compute_evaluation_score agent ≤ 100)
      × ((compute_evaluation_score agent ≡ 100) ↔ (
          (3 ≤ length (array_or_empty agent.capabilities))
          × (states_purpose agent.purpose ≡ true)
          × (is_null agent.input_schema ≡ false)
          × (is_null agent.output_schema ≡ false)
          × (states_security agent.security_level ≡ true)))
unfolding compute_evaluation_score
compute_evaluation_score_full agent = ground arith

-- An agent that lists no capability and states no purpose scores below the gate's 60 points, so it
-- needs a human to complete it, whatever its schemas and its security level are.
pub compute_evaluation_score-lt_gate :
    (agent : AgentRow)
    → length (array_or_empty agent.capabilities) ≡ 0
    → states_purpose agent.purpose ≡ false
    → compute_evaluation_score agent < 60
unfolding compute_evaluation_score
compute_evaluation_score-lt_gate agent h p = ground arith
