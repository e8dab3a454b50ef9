-- ===== src/Board/Tests.antt =====
-- A board of crates/korg-core/src/repo/board.rs: a program with two slices, of which the second waits,
-- through an item that it covers, on an item that two proposals cover.
use korg.Base.{
  ℕ, String, List, [], ◌∷◌, Option, none, some, true, false, ◌&&◌, any, all, contains, map, ◌≡◌,
  refl,
}
use korg.Core.Graph.{WorkItem, Edge}
use korg.Board.{
  NodeState, Tables, BoardBlocker, board_blockers, in_key_order, file, held_up, blocking,
  lifecycle_status, unfinished_as, sequenced, programs_of, owner, dependencies, direct, inherited,
  waits, stuck,
}
use korg.Board.Unresolved.{unresolved}
use korg.Board.Membership.{of_blocker, waits_for}
use korg.Board.Exact.{sequenced_both, board_blockers-exact}

abbrev node : ℕ → String → NodeState
node id kind = record { id = id; kind = kind; archived = false }

abbrev item : ℕ → WorkItem
item id = record { node_id = id; wi_status = "open"; check_after = none; invalidated_if = none }

abbrev edge : ℕ → String → ℕ → ℕ → Edge
edge id label left right = record {
  id = id;
  left_id = left;
  right_id = right;
  label = label;
  origin = none;
  rank = none;
}

abbrev tables : List Edge → Tables
tables edges = record {
  nodes =
      node 1 "program"
      ∷ (node 2 "sprint_proposal"
          ∷ (node 3 "sprint_proposal"
              ∷ (node 4 "sprint_proposal" ∷ (node 5 "workitem" ∷ (node 6 "workitem" ∷ [])))));
  work_items = item 5 ∷ (item 6 ∷ []);
  proposals =
      record { node_id = 2; status = "active" }
      ∷ (record { node_id = 3; status = "proposed" }
          ∷ (record { node_id = 4; status = "done" } ∷ []));
  programs = [];
  edges = edges;
}

-- The proposals 2 and 4 cover the item 5, 3 covers 6, and 6 depends on 5.
abbrev rest : List Edge
rest = edge 3 "covers" 3 6 ∷ (edge 4 "depends_on" 6 5 ∷ [])

abbrev live_last : Tables
live_last = tables (edge 1 "covers" 4 5 ∷ (edge 2 "covers" 2 5 ∷ rest))

abbrev done_last : Tables
done_last = tables (edge 2 "covers" 2 5 ∷ (edge 1 "covers" 4 5 ∷ rest))

abbrev slices : List (ℕ × ℕ)
slices = (1, 2) ∷ ((1, 3) ∷ [])

abbrev named : List BoardBlocker → List (ℕ × Option ℕ)
named bs = map (λ b. (b.blocker, b.sequenced_by)) bs

-- Which program a row names, if any, depends on the order in which the database gives the owners.
any_owner :
    (named (board_blockers live_last (2 ∷ (3 ∷ [])) slices) ≡ (5, some 1) ∷ [])
    × (named (board_blockers done_last (2 ∷ (3 ∷ [])) slices) ≡ (5, none) ∷ [])
unfolding board_blockers in_key_order file held_up blocking lifecycle_status unfinished_as sequenced
    programs_of owner dependencies direct inherited waits stuck contains
any_owner = (refl, refl)

board_blockers-exact_example :
    (any
        (of_blocker (record { via = "covered"; proposal = 3; dependent = 6; blocker = 5 }))
        (board_blockers live_last (2 ∷ (3 ∷ [])) slices)
      ≡ (waits_for live_last
            (2 ∷ (3 ∷ []))
            (record { via = "covered"; proposal = 3; dependent = 6; blocker = 5 })
          && unresolved live_last 5))
    × (all (sequenced_both live_last slices) (board_blockers live_last (2 ∷ (3 ∷ [])) slices)
        ≡ true)
board_blockers-exact_example =
    board_blockers-exact live_last (2 ∷ (3 ∷ [])) slices
      (record { via = "covered"; proposal = 3; dependent = 6; blocker = 5 })
