-- ===== src/Core/Graph.antt =====
-- The tables that crates/korg-core/src/repo/relationships.rs and programs.rs read and write: rows in
-- lists, and the queries on them. An identifier is a natural number, and columns that no modelled
-- statement reads are left out.
use korg.Base.{ℕ, String, List, Option, none, some, Bool, ◌&&◌, ◌==◌, any, find, contains, nat_eq}
use korg.Core.Vocab.{proposal_started_statuses, proposal_live_statuses}
use korg.Core.Error.{RepoError, invalid_input, not_found}

pub record Node : Type 0 where
  pub id : ℕ
  pub kind : String
  pub project : Option String

pub record WorkItem : Type 0 where
  pub node_id : ℕ
  pub wi_status : String
  pub check_after : Option String
  pub invalidated_if : Option String

pub record Proposal : Type 0 where
  pub node_id : ℕ
  pub status : String

pub record Program : Type 0 where
  pub node_id : ℕ
  pub title : String
  pub aim : String
  pub status : String

-- `rust_decimal::Decimal`
pub record Decimal : Type 0 where
  pub negative : Bool
  pub mantissa : ℕ
  pub scale : ℕ

pub record Edge : Type 0 where
  pub id : ℕ
  pub left_id : ℕ
  pub right_id : ℕ
  pub label : String
  pub origin : Option String
  pub rank : Option Decimal

-- A row of `transition`.
pub record Transition : Type 0 where
  pub node_id : ℕ
  pub from_status : String
  pub to_status : String

-- A row of `activity`.
pub record Activity : Type 0 where
  pub node_id : ℕ
  pub action : String
  pub other : Option ℕ
  pub label : Option String

-- The newest edge and the newest rows of the two logs come first.
pub record Graph : Type 0 where
  pub nodes : List Node
  pub work_items : List WorkItem
  pub proposals : List Proposal
  pub programs : List Program
  pub edges : List Edge
  pub transitions : List Transition
  pub activity : List Activity
  pub next_node : ℕ
  pub next_edge : ℕ

pub data Refusal : Type 0 where
  self_edge : ℕ → Refusal
  unknown_label : String → Refusal
  no_node no_work_item : ℕ → Refusal
  wrong_left wrong_right : (expected found : String) → Refusal
  cross_project : (left right : String) → Refusal
  missing_soak_fields : List String → Refusal
  still_covered : ℕ → Refusal
  unknown_status : String → Refusal
  wrong_kind : ℕ → Refusal
  unfinished_slices nothing_to_soak : ℕ → Refusal
  takes_no_project : Refusal
  long_aim : Refusal

unfoldable pub refusal_class : Refusal → RepoError
refusal_class (no_node id) = not_found
refusal_class (no_work_item id) = not_found
refusal_class (wrong_kind id) = not_found
refusal_class _ = invalid_input

pub data Result (A : Type 0) : Type 0 where
  ok : A → Result A
  err : Refusal → Result A

-- The rest of an operation, after a check.
abbrev pub after : {A : Type 0} → Option Refusal → Result A → Result A
after (some why) r = err why
after none r = r

unfoldable pub node_row : Graph → ℕ → Option Node
node_row g id = find (λ n. nat_eq n.id id) g.nodes

abbrev kind_of : Option Node → Option String
kind_of none = none
kind_of (some n) = some n.kind

unfoldable pub node_kind : Graph → ℕ → Option String
node_kind g id = kind_of (node_row g id)

-- `none` for no node, `some none` for an unfiled one.
abbrev project_of : Option Node → Option (Option String)
project_of none = none
project_of (some n) = some n.project

unfoldable pub node_project : Graph → ℕ → Option (Option String)
node_project g id = project_of (node_row g id)

unfoldable pub work_item : Graph → ℕ → Option WorkItem
work_item g id = find (λ w. nat_eq w.node_id id) g.work_items

-- Whether the proposal is one of those begun, or one of those live.
unfoldable pub started : List Proposal → ℕ → Bool
started proposals id =
    any (λ p. nat_eq p.node_id id && contains proposal_started_statuses p.status) proposals

unfoldable pub live : List Proposal → ℕ → Bool
live proposals id =
    any (λ p. nat_eq p.node_id id && contains proposal_live_statuses p.status) proposals

-- Whether the program includes the proposal.
abbrev pub includes : ℕ → ℕ → Edge → Bool
includes program proposal e =
    e.label == "includes" && nat_eq e.left_id program && nat_eq e.right_id proposal

unfoldable pub linked : List Edge → ℕ → ℕ → Bool
linked edges program proposal = any (includes program proposal) edges
