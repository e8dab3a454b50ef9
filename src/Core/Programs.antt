-- ===== src/Core/Programs.antt =====
-- The status machine of programs in crates/korg-core/src/repo/programs.rs, and the status part of
-- `update_proposal` in proposals.rs. The other columns of a patch are not modelled.
pub mod Queued
pub mod Slices
pub mod Soaking
pub mod Entering
use Prim.Native.String.{count}
use korg.Base.{
  ℕ, zero, ◌+◌, String, List, [], ◌∷◌, ◌++◌, Option, none, some, Bool, true, false, not, ◌&&◌, ◌||◌,
  ◌==◌, any, all, map, contains, retain, find, ltb, nat_eq, if◌then◌else◌, is_some,
}
use korg.Core.Vocab.{
  program_liftable_statuses, program_initial_status, soaking_status, program_statuses,
  proposal_statuses, proposal_terminal_statuses, wi_unfinished_statuses, validate,
}
use korg.Core.Registry.{soaks_label}
use korg.Core.Graph.{
  Node, WorkItem, Proposal, Program, Decimal, Edge, Transition, Activity, Graph, Refusal, no_node,
  unknown_status, wrong_kind, unfinished_slices, nothing_to_soak, takes_no_project, long_aim,
  wrong_right, Result, ok, err, after, node_kind, started, linked, includes,
}

-- Whether a start of the proposal lifts the program.
unfoldable pub lifts : List Edge → List Proposal → ℕ → Program → Bool
lifts edges proposals proposal p =
    contains program_liftable_statuses p.status
    && (linked edges p.node_id proposal && started proposals proposal)

unfoldable pub lift : List Edge → List Proposal → ℕ → Program → Program
lift edges proposals proposal p =
    if lifts edges proposals proposal p then record p { status = "active" } else p

lifted_events : List Edge → List Proposal → ℕ → List Program → List Transition
lifted_events edges proposals proposal [] = []
lifted_events edges proposals proposal (p ∷ ps) =
    let rest = lifted_events edges proposals proposal ps in
    if lifts edges proposals proposal p
    then record { node_id = p.node_id; from_status = p.status; to_status = "active" } ∷ rest
    else rest

-- Every program that includes the proposal, if it has begun, and that rests on nothing being in
-- flight, becomes active.
unfoldable pub promote_programs_over : ℕ → Graph → Graph
unfolding lifted_events
promote_programs_over proposal g = record g {
  programs = map (lift g.edges g.proposals proposal) g.programs;
  transitions = lifted_events g.edges g.proposals proposal g.programs ++ g.transitions;
}

-- Appends a transition, unless the status did not move.
unfoldable pub record_transition : ℕ → String → String → Graph → Graph
record_transition id before after' g = if before == after' then g else record g {
  transitions = record { node_id = id; from_status = before; to_status = after' } ∷ g.transitions;
}

unfoldable pub set_proposal : ℕ → String → Proposal → Proposal
set_proposal id status p = if nat_eq p.node_id id then record p { status = status } else p

unfoldable pub set_program : ℕ → String → Program → Program
set_program id status p = if nat_eq p.node_id id then record p { status = status } else p

-- `require_kind`
unfoldable pub require_kind : String → ℕ → Option String → Option Refusal
require_kind expected id none = some (wrong_kind id)
require_kind expected id (some kind) = if kind == expected then none else some (wrong_kind id)

abbrev pub known : String → List String → Option Refusal
known status allowed = if contains allowed status then none else some (unknown_status status)

unfoldable pub write_proposal : ℕ → String → Option Proposal → Graph → Result Graph
write_proposal id status none g = err (no_node id)
write_proposal id status (some row) g = ok (
    promote_programs_over id (
      record_transition id row.status status
        (record g { proposals = map (set_proposal id status) g.proposals })))

-- `update_proposal` with a patch of the status alone.
unfoldable pub update_proposal : ℕ → String → Graph → Result Graph
update_proposal id status g = after (known status proposal_statuses) (
    after (require_kind "sprint_proposal" id (node_kind g id))
      (write_proposal id status (find (λ p. nat_eq p.node_id id) g.proposals) g))

pub terminal_slice : List Proposal → Edge → Bool
terminal_slice proposals e =
    all (λ p. not (nat_eq p.node_id e.right_id) || contains proposal_terminal_statuses p.status)
      proposals

pub unfinished_soak : List WorkItem → Edge → Bool
unfinished_soak items e =
    any (λ w. nat_eq w.node_id e.right_id && contains wi_unfinished_statuses w.wi_status) items

-- Every slice is terminal, and some soak is unfinished.
unfoldable pub check_soaking_entry : ℕ → Graph → Option Refusal
unfolding terminal_slice unfinished_soak
check_soaking_entry id g =
    if all (λ e. not (e.label == "includes" && nat_eq e.left_id id) || terminal_slice g.proposals e)
      g.edges
    then (if any
          (λ e. e.label == soaks_label && nat_eq e.left_id id && unfinished_soak g.work_items e)
          g.edges
        then none
        else some (nothing_to_soak id))
    else some (unfinished_slices id)

unfoldable pub entry_check : ℕ → String → String → Graph → Option Refusal
entry_check id before status g =
    if status == soaking_status && not (before == soaking_status)
    then check_soaking_entry id g
    else none

unfoldable pub write_program : ℕ → String → Option Program → Graph → Result Graph
write_program id status none g = err (no_node id)
write_program id status (some row) g = after (entry_check id row.status status g) (
    ok (
      record_transition id row.status status
        (record g { programs = map (set_program id status) g.programs })))

-- `update_program` with a patch of the status alone.
unfoldable pub update_program : ℕ → String → Graph → Result Graph
update_program id status g = after (known status program_statuses) (
    after (require_kind "program" id (node_kind g id))
      (write_program id status (find (λ p. nat_eq p.node_id id) g.programs) g))
