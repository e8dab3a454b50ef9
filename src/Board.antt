-- ===== src/Board.antt =====
-- crates/korg-core/src/repo/board.rs: `board_blockers`, which live proposals wait on what. The titles,
-- projects and numbers of the blockers that a row shows are left out.
pub mod Unresolved
pub mod Membership
pub mod Exact
mod Tests
use korg.Base.{
  ℕ, String, List, [], ◌∷◌, ◌++◌, Option, none, some, Bool, true, false, not, ◌&&◌, ◌||◌, ◌==◌, any,
  find, contains, nat_eq, ltb, if◌then◌else◌, unwrap_or,
}
use korg.Core.Vocab.{wi_finished_statuses, proposal_terminal_statuses, program_terminal_statuses}
use korg.Core.Graph.{WorkItem, Proposal, Program, Edge}

-- Of a row of `node`, what the pass reads.
pub record NodeState : Type 0 where
  pub id : ℕ
  pub kind : String
  pub archived : Bool

pub record Tables : Type 0 where
  pub nodes : List NodeState
  pub work_items : List WorkItem
  pub proposals : List Proposal
  pub programs : List Program
  pub edges : List Edge

-- Whether an id is among those of a list.
abbrev pub has_id : List ℕ → ℕ → Bool
has_id ids id = any (λ x. nat_eq x id) ids

-- A row of the first query.
pub record Dependency : Type 0 where
  pub via : String
  pub proposal : ℕ
  pub dependent : ℕ
  pub dependent_wi_number : Option ℕ
  pub blocker : ℕ

-- The dependencies of the live proposals themselves.
unfoldable pub direct : List ℕ → List Edge → List Dependency
direct live_ids [] = []
direct live_ids (r ∷ rs) = elim (r.label == "depends_on" && has_id live_ids r.left_id) [
  | true ↦
      record {
        via = "proposal";
        proposal = r.left_id;
        dependent = r.left_id;
        dependent_wi_number = none;
        blocker = r.right_id;
      }
      ∷ direct live_ids rs
  | false ↦ direct live_ids rs
]

-- Whether the node is a work item that is not finished and not archived.
unfoldable pub stuck : Tables → ℕ → Bool
stuck t id =
    any (λ w. nat_eq w.node_id id && not (contains wi_finished_statuses w.wi_status)) t.work_items
    && any (λ n. nat_eq n.id id && not n.archived) t.nodes

-- The dependencies of a work item that a proposal covers.
unfoldable pub waits : (proposal item : ℕ) → List Edge → List Dependency
waits proposal item [] = []
waits proposal item (r ∷ rs) = elim (r.label == "depends_on" && nat_eq r.left_id item) [
  | true ↦
      record {
        via = "covered";
        proposal = proposal;
        dependent = item;
        dependent_wi_number = some item;
        blocker = r.right_id;
      }
      ∷ waits proposal item rs
  | false ↦ waits proposal item rs
]

-- Those of all that the live proposals cover, of the given `covers` edges.
unfoldable pub inherited : Tables → List ℕ → List Edge → List Dependency
inherited t live_ids [] = []
inherited t live_ids (c ∷ cs) =
    elim (c.label == "covers" && has_id live_ids c.left_id && stuck t c.right_id) [
      | true ↦ waits c.left_id c.right_id t.edges ++ inherited t live_ids cs
      | false ↦ inherited t live_ids cs
    ]

unfoldable pub dependencies : Tables → List ℕ → List Dependency
dependencies t live_ids = direct live_ids t.edges ++ inherited t live_ids t.edges

abbrev item_status : Option WorkItem → Option String
item_status none = none
item_status (some w) = some w.wi_status

abbrev proposal_status : Option Proposal → Option String
proposal_status none = none
proposal_status (some p) = some p.status

abbrev program_status : Option Program → Option String
program_status none = none
program_status (some g) = some g.status

abbrev coalesce : Option String → Option String → Option String
coalesce none b = b
coalesce (some a) b = some a

-- `COALESCE(w.wi_status, sp.status::text, g.status)`
unfoldable pub lifecycle_status : Tables → ℕ → Option String
lifecycle_status t id = coalesce (item_status (find (λ w. nat_eq w.node_id id) t.work_items)) (
    coalesce (proposal_status (find (λ p. nat_eq p.node_id id) t.proposals))
      (program_status (find (λ g. nat_eq g.node_id id) t.programs)))

unfoldable pub unfinished_as : (kind status : String) → Bool
unfinished_as kind status =
    if kind == "workitem"
    then not (contains wi_finished_statuses status)
    else if kind == "sprint_proposal"
    then not (contains proposal_terminal_statuses status)
    else if kind == "program"
    then not (contains program_terminal_statuses status)
    else false

-- The kind and status of a node that blocks: one that is there, not archived, has a status and is not
-- finished.
unfoldable pub blocking : Tables → ℕ → Option (String × String)
blocking t id = elim (find (λ n. nat_eq n.id id) t.nodes) [
  | none ↦ none
  | some n ↦ if n.archived then none else elim (lifecycle_status t id) [
    | none ↦ none
    | some status ↦ if unfinished_as n.kind status then some (n.kind, status) else none
  ]
]

pub record BoardBlocker : Type 0 where
  pub proposal : ℕ
  pub via : String
  pub dependent : ℕ
  pub dependent_wi_number : Option ℕ
  pub blocker : ℕ
  pub blocker_kind : String
  pub blocker_status : String
  pub sequenced_by : Option ℕ

-- `owners`, a `HashMap` of rows in no order: the last one of the table stands.
unfoldable pub owner : List Edge → ℕ → Option ℕ
owner [] id = none
owner (e ∷ es) id = elim (owner es id) [
  | some p ↦ some p
  | none ↦ if e.label == "covers" && nat_eq e.right_id id then some e.left_id else none
]

-- `programs_of`, of the pairs of a program and its slice.
unfoldable pub programs_of : List (ℕ × ℕ) → ℕ → List ℕ
programs_of [] proposal = []
programs_of ((program, slice) ∷ es) proposal = elim (nat_eq slice proposal) [
  | true ↦ program ∷ programs_of es proposal
  | false ↦ programs_of es proposal
]

unfoldable pub sequenced : Tables → List (ℕ × ℕ) → (proposal blocker : ℕ) → Option ℕ
sequenced t slice_edges proposal blocker =
    let owning = unwrap_or (owner t.edges blocker) blocker in
    find (has_id (programs_of slice_edges owning)) (programs_of slice_edges proposal)

-- The loop over the dependencies.
unfoldable pub held_up : Tables → List (ℕ × ℕ) → List Dependency → List BoardBlocker
held_up t slice_edges [] = []
held_up t slice_edges (d ∷ ds) = elim (blocking t d.blocker) [
  | none ↦ held_up t slice_edges ds
  | some (kind, status) ↦
      record {
        proposal = d.proposal;
        via = d.via;
        dependent = d.dependent;
        dependent_wi_number = d.dependent_wi_number;
        blocker = d.blocker;
        blocker_kind = kind;
        blocker_status = status;
        sequenced_by = sequenced t slice_edges d.proposal d.blocker;
      }
      ∷ held_up t slice_edges ds
]

-- The key `(proposal, blocker, dependent, via)`; of the two texts of `via`, `covered` comes first.
unfoldable pub key_before : BoardBlocker → BoardBlocker → Bool
key_before a b =
    ltb a.proposal b.proposal
    || nat_eq a.proposal b.proposal
      && (ltb a.blocker b.blocker
          || nat_eq a.blocker b.blocker
            && (ltb a.dependent b.dependent
                || nat_eq a.dependent b.dependent && (a.via == "covered" && b.via == "proposal")))

unfoldable pub file : BoardBlocker → List BoardBlocker → List BoardBlocker
file b [] = b ∷ []
file b (x ∷ xs) = if key_before x b then x ∷ file b xs else b ∷ (x ∷ xs)

-- `sort_by_key`
unfoldable pub in_key_order : List BoardBlocker → List BoardBlocker
in_key_order [] = []
in_key_order (b ∷ bs) = file b (in_key_order bs)

unfoldable pub board_blockers :
    Tables → (live_ids : List ℕ) → (slice_edges : List (ℕ × ℕ)) → List BoardBlocker
board_blockers t live_ids slice_edges =
    in_key_order (held_up t slice_edges (dependencies t live_ids))
