-- ===== src/Core/Registry.antt =====
-- crates/korg-core/src/relationships.rs: the labels that an edge may have, and what they join.
use korg.Base.{String, List, [], ◌∷◌, Option, none, some, Bool, true, false, ◌==◌, find}

pub record LabelSpec : Type 0 where
  pub label : String
  pub directed : Bool
  pub left_kind : Option String
  pub right_kind : Option String
  pub same_project : Bool
  pub reads : String

abbrev pub soaks_label : String
soaks_label = "soaks"

abbrev entry : String → Bool → Option String → Option String → Bool → String → LabelSpec
entry label directed left right same reads = record {
  label = label;
  directed = directed;
  left_kind = left;
  right_kind = right;
  same_project = same;
  reads = reads;
}

abbrev pub registry : List LabelSpec
registry =
    entry "covers" true (some "sprint_proposal") (some "workitem") true "proposal covers work item"
    ∷ entry "finding" true (some "report") (some "workitem") false
        "report reported work item as a finding"
    ∷ entry "depends_on" true none none false "dependent depends on dependency"
    ∷ entry "related-to" false none none false "the two nodes are related (no direction)"
    ∷ entry "has_handoff" true none (some "handoff") false "node has handoff"
    ∷ entry "includes" true (some "program") (some "sprint_proposal") false
        "program includes proposal as a slice"
    ∷ entry "collides-with" false none none false
        "the two nodes collide (same contract / fold on landing; no direction)"
    ∷ entry "materializes" true (some "schedule") (some "workitem") false
        "schedule materialized work item"
    ∷ entry "has_attachment" true none (some "attachment") false "node has attachment"
    ∷ entry soaks_label true (some "program") (some "workitem") false
        "program soaks work item as an extended test"
    ∷ []

-- `none` for a label that is not registered.
unfoldable pub spec : String → Option LabelSpec
spec label = find (λ s. s.label == label) registry

meaningful : Option LabelSpec → Bool
meaningful none = true
meaningful (some s) = s.directed

unfoldable pub direction_is_meaningful : String → Bool
unfolding meaningful
direction_is_meaningful label = meaningful (spec label)
