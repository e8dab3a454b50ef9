-- ===== src/Core/Relate.antt =====
-- `relate` and `unrelate` of crates/korg-core/src/repo/relationships.rs.
pub mod Stored
pub mod Legal
pub mod Slices
pub mod Change
use korg.Base.{
  ℕ, ◌+◌, String, List, [], ◌∷◌, ◌++◌, Option, none, some, Bool, true, false, not, ◌&&◌, ◌||◌, ◌==◌,
  any, map, find, retain, contains, nat_eq, blank, if◌then◌else◌, is_some, unwrap_or,
}
use korg.Core.Registry.{LabelSpec, spec, soaks_label}
use korg.Core.Graph.{
  WorkItem, Decimal, Edge, Activity, Graph, Refusal, self_edge, unknown_label, no_node,
  no_work_item, wrong_left, wrong_right, cross_project, missing_soak_fields, still_covered, Result,
  ok, err, after, node_kind, node_project, work_item, live,
}
use korg.Core.Programs.{promote_programs_over}

-- The name of the activity for an edge that comes or goes.
unfoldable pub edge_action : String → Bool → String
edge_action label added =
    if label == "has_attachment"
    then (if added then "attached" else "detached")
    else if added
    then "related"
    else "unrelated"

-- A kind that the label does not ask for.
unfoldable pub mismatched : Option String → String → Option String
mismatched none kind = none
mismatched (some expected) kind = if kind == expected then none else some expected

with_item : Option WorkItem → ℕ → String → String → Refusal
with_item none right lp rp = no_work_item right
with_item (some w) right lp rp = cross_project lp rp

unfoldable pub projects :
    Graph → ℕ → Option (Option String) → Option (Option String) → Option Refusal
unfolding with_item
projects g right (some (some lp)) (some (some rp)) =
    if lp == rp then none else some (with_item (work_item g right) right lp rp)
projects g right _ _ = none

-- The soak fields that a work item leaves unsaid.
unfoldable pub missing : WorkItem → List String
missing w =
    (if is_some w.check_after then [] else "check_after" ∷ [])
    ++ (if blank (unwrap_or w.invalidated_if "") then "invalidated_if" ∷ [] else [])

unfoldable pub covered : Graph → ℕ → Bool
covered g right =
    any (λ e. e.label == "covers" && nat_eq e.right_id right && live g.proposals e.left_id) g.edges

unfoldable pub soak : Graph → ℕ → Option WorkItem → Option Refusal
soak g right none = some (no_work_item right)
soak g right (some w) = elim (missing w) [
  | f ∷ fs ↦ some (missing_soak_fields (f ∷ fs))
  | [] ↦ if covered g right then some (still_covered right) else none
]

abbrev pub same : ℕ → ℕ → String → Edge → Bool
same left right label e = nat_eq e.left_id left && nat_eq e.right_id right && e.label == label

unfoldable pub coalesce : Option Decimal → Option Decimal → Option Decimal
coalesce none old = old
coalesce (some r) old = some r

unfoldable pub rerank : (Edge → Bool) → Option Decimal → Edge → Edge
rerank p rank e = if p e then record e { rank = coalesce rank e.rank } else e

module _ (left right : ℕ) (label : String) where
  unfoldable pub project_check : LabelSpec → Graph → Option Refusal
  project_check sp g =
      if sp.same_project
      then projects g right (node_project g left) (node_project g right)
      else none

  unfoldable pub soak_check : Graph → Option Refusal
  soak_check g = if label == soaks_label then soak g right (work_item g right) else none

  module _ (origin : Option String) (rank : Option Decimal) where
    -- INSERT … ON CONFLICT … DO UPDATE: an edge that is there keeps its origin, and its rank if none
    -- is given.
    unfoldable pub upsert : Option Edge → Graph → Graph × ℕ
    upsert (some e) g = (
      record g {
        edges = map (rerank (same left right label) rank) g.edges;
        next_edge = g.next_edge + 1;
      },
      e.id,
    )
    upsert none g = (
      record g {
        edges =
            record {
              id = g.next_edge;
              left_id = left;
              right_id = right;
              label = label;
              origin = origin;
              rank = rank;
            }
            ∷ g.edges;
        next_edge = g.next_edge + 1;
        activity =
            record {
              node_id = left;
              action = edge_action label true;
              other = some right;
              label = some label;
            }
            ∷ g.activity;
      },
      g.next_edge,
    )

    -- A new slice that has begun starts its program.
    unfoldable pub write : Graph → Graph × ℕ
    write g =
        let r = upsert (find (same left right label) g.edges) g in
        if label == "includes" then (promote_programs_over right r.0, r.1) else r

    -- The mirror of an edge without direction stands for it.
    unfoldable pub store : LabelSpec → Option Edge → Graph → Graph × ℕ
    store sp (some e) g = if sp.directed then write g else (g, e.id)
    store sp none g = write g

    unfoldable pub with_kinds :
        LabelSpec → Graph → Option String → Option String → Result (Graph × ℕ)
    with_kinds sp g none rk = err (no_node left)
    with_kinds sp g (some lk) none = err (no_node right)
    with_kinds sp g (some lk) (some rk) = elim (mismatched sp.left_kind lk) [
      | some expected ↦ err (wrong_left expected lk)
      | none ↦ elim (mismatched sp.right_kind rk) [
        | some expected ↦ err (wrong_right expected rk)
        | none ↦
            after (project_check sp g)
              (after (soak_check g) (ok (store sp (find (same right left label) g.edges) g)))
      ]
    ]

    unfoldable pub with_spec : Graph → Option LabelSpec → Result (Graph × ℕ)
    with_spec g none = err (unknown_label label)
    with_spec g (some sp) = with_kinds sp g (node_kind g left) (node_kind g right)

    unfoldable pub relate : Graph → Result (Graph × ℕ)
    relate g = if nat_eq left right then err (self_edge left) else with_spec g (spec label)

unfoldable pub drop_edge : ℕ → Option Edge → Graph → Graph × Bool
drop_edge id none g = (g, false)
drop_edge id (some e) g = (
  record g {
    edges = retain (λ d. not (nat_eq d.id id)) g.edges;
    activity =
        record {
          node_id = e.left_id;
          action = edge_action e.label false;
          other = some e.right_id;
          label = some e.label;
        }
        ∷ g.activity;
  },
  true,
)

unfoldable pub unrelate : ℕ → Graph → Graph × Bool
unrelate id g = drop_edge id (find (λ e. nat_eq e.id id) g.edges) g
