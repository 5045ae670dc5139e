-- ===== src/Lifecycle/Tests.antt =====
-- The workflow of the engine's tests, whose first step is completed, through the commands.
use ai_digital_office_os.Prelude.{String, ◌≡◌, refl, some, List, [], ◌∷◌, ◌++◌}
use ai_digital_office_os.Schema.{WorkflowRow, running}
use ai_digital_office_os.Db.{select}
use ai_digital_office_os.WorkflowEngine.History.{
  replay_state, order_by_sequence_no, insert_by_sequence_no, set_result,
}
use ai_digital_office_os.WorkflowEngine.Tests.{world, plan, office, wf_row, found_in, is_ready}
use ai_digital_office_os.WorkflowEngine.{workflow_of}
use ai_digital_office_os.Lifecycle.{
  Lifecycle, at, Reaches, Command, run_next, pause_it, resume_it, escalate_it, perform_all,
}
use ai_digital_office_os.Lifecycle.Machine.{IsDistinct, IsFinished, IsSound}
use ai_digital_office_os.Lifecycle.Implements.{Implements}
use ai_digital_office_os.Lifecycle.Refinement.{perform_all-Refines, perform_all-IsSound}

abbrev half_way : Lifecycle
half_way = at running (some plan) ("a" ∷ [])

stands : Implements "t" "w" half_way (office running)
unfolding replay_state select order_by_sequence_no insert_by_sequence_no set_result
stands = record {
  row = wf_row running;
  found = found_in running;
  gapless = is_ready.gapless;
  shows = refl;
}

abbrev day : List Command
day = pause_it ∷ run_next ∷ resume_it ∷ run_next ∷ run_next ∷ escalate_it "appr-1" ∷ []

perform_all-Refines_example :
    (m : Lifecycle) × Reaches half_way m
    × Implements "t" "w" m (perform_all world "t" "w" day (office running))
perform_all-Refines_example = perform_all-Refines world "t" "w" day half_way (office running) stands

sound : IsSound half_way
sound = ((refl, tt), tt)

perform_all-IsSound_example :
    let after = perform_all world "t" "w" day (office running) in
    let replayed' = replay_state "t" "w" after in
    (row : WorkflowRow) × (workflow_of "t" "w" after ≡ some row)
    × (replayed'.definition ≡ some plan)
    × ((more : List String) × (replayed'.completed_steps ≡ ("a" ∷ []) ++ more))
    × IsDistinct replayed'.completed_steps
    × IsFinished row.status replayed'.definition replayed'.completed_steps
perform_all-IsSound_example =
    perform_all-IsSound world "t" "w" day half_way (office running) stands sound
