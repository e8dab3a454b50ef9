-- ===== src/Core/Tests.antt =====
-- Runs of the graph of crates/korg-core.
use korg.Core.Registry.{spec}
use korg.Base.{ℕ, String, List, [], ◌∷◌, none, some, ◌≡◌, refl, blank, contains, is_whitespace}
use korg.Core.Vocab.{
  wi_statuses, wi_live_statuses, wi_terminal_statuses, wi_finished_statuses, wi_unfinished_statuses,
  proposal_statuses, proposal_live_statuses, proposal_terminal_statuses, program_statuses,
  program_live_statuses, program_terminal_statuses, schedule_statuses, schedule_live_statuses,
  schedule_terminal_statuses,
}
use korg.Core.Vocab.Partitions.{Splits, statuses-Splits}
use korg.Core.Graph.{
  Program, Edge, Graph, Result, ok, linked, node_kind, node_row, started, work_item,
}
use korg.Core.Programs.{
  update_proposal, update_program, promote_programs_over, check_soaking_entry, entry_check, lift,
  lifts, record_transition, require_kind, set_program, set_proposal, write_program, write_proposal,
}
use korg.Core.Programs.Queued.{QueuedIdle, idle, queued_idle}
use korg.Core.Programs.Entering.{Entering, update_program-Entering}
use korg.Core.Relate.{
  relate, write, covered, mismatched, missing, project_check, soak, soak_check, store, with_kinds,
  with_spec,
}
use korg.Core.Relate.Legal.{Legal, relate-Legal}
use korg.Core.Relate.Change.{related, none_yet, then_change, Changes-QueuedIdle}

statuses-Splits_example :
    Splits wi_statuses wi_live_statuses wi_terminal_statuses "parked"
    × Splits wi_statuses wi_finished_statuses wi_unfinished_statuses "parked"
    × Splits proposal_statuses proposal_live_statuses proposal_terminal_statuses "parked"
    × Splits program_statuses program_live_statuses program_terminal_statuses "parked"
    × Splits schedule_statuses schedule_live_statuses schedule_terminal_statuses "parked"
statuses-Splits_example = statuses-Splits "parked"

-- A program in the given status, a proposal in the given status, and a work item to soak.
abbrev graph : String → String → List Edge → Graph
graph program proposal edges = record {
  nodes =
      record { id = 1; kind = "program"; project = none }
      ∷ record { id = 2; kind = "sprint_proposal"; project = some "korg" }
      ∷ record { id = 3; kind = "workitem"; project = some "korg" }
      ∷ [];
  work_items =
      record {
        node_id = 3;
        wi_status = "open";
        check_after = some "2026-09-01";
        invalidated_if = some "the baseline is rewritten";
      }
      ∷ [];
  proposals = record { node_id = 2; status = proposal } ∷ [];
  programs = record { node_id = 1; title = "p"; aim = "a"; status = program } ∷ [];
  edges = edges;
  transitions = [];
  activity = [];
  next_node = 4;
  next_edge = 10;
}

abbrev edge : ℕ → ℕ → String → Edge
edge left right label = record {
  id = 7;
  left_id = left;
  right_id = right;
  label = label;
  origin = none;
  rank = none;
}

soaked :
    relate 1 3 "soaks" none none (graph "active" "done" [])
    ≡ ok (write 1 3 "soaks" none none (graph "active" "done" []))
unfolding relate with_spec spec with_kinds node_kind node_row mismatched project_check soak_check
    soak work_item missing blank is_whitespace covered write store
soaked = refl

relate-Legal_example : Legal (graph "active" "done" []) 1 3 "soaks"
relate-Legal_example =
    relate-Legal (graph "active" "done" []) 1 3 "soaks" none none
      (write 1 3 "soaks" none none (graph "active" "done" [])) soaked

-- A slice that has begun is attached to a queued program.
attached :
    relate 1 2 "includes" none none (graph "queued" "active" [])
    ≡ ok (write 1 2 "includes" none none (graph "queued" "active" []))
unfolding relate with_spec spec with_kinds node_kind node_row mismatched project_check soak_check
    write store
attached = refl

idle_at_first : QueuedIdle (graph "queued" "active" [])
unfolding queued_idle idle
idle_at_first = refl

Changes-QueuedIdle_example :
    QueuedIdle (write 1 2 "includes" none none (graph "queued" "active" [])).0
Changes-QueuedIdle_example =
    Changes-QueuedIdle (graph "queued" "active" [])
      (write 1 2 "includes" none none (graph "queued" "active" [])).0
      (then_change (none_yet _) (related 1 2 "includes" none none _ attached)) idle_at_first

-- The only slice is done, and a test is open.
abbrev over : Graph
over = graph "active" "done" (edge 1 2 "includes" ∷ edge 1 3 "soaks" ∷ [])

abbrev row : String → Program
row status = record { node_id = 1; title = "p"; aim = "a"; status = status }

abbrev soaking : Graph
soaking = record over {
  programs = row "soaking" ∷ [];
  transitions = record { node_id = 1; from_status = "active"; to_status = "soaking" } ∷ [];
}

entered : update_program 1 "soaking" over ≡ ok soaking
unfolding update_program contains require_kind node_kind node_row write_program entry_check
    check_soaking_entry record_transition set_program
entered = refl

update_program-Entering_example : Entering over 1 (update_program 1 "soaking" over)
unfolding node_kind node_row
update_program-Entering_example = update_program-Entering 1 (row "active") over refl refl (λ e. cc)

abbrev programs_of : Result Graph → List Program
programs_of (ok g) = g.programs
programs_of _ = []

-- A slice that is done is set to `done` once more: no slice has started, and the program leaves
-- `soaking` all the same.
reasserted : programs_of (update_proposal 2 "done" soaking) ≡ row "active" ∷ []
unfolding update_proposal contains require_kind node_kind node_row write_proposal
    promote_programs_over record_transition lift lifts linked started set_proposal
reasserted = refl
