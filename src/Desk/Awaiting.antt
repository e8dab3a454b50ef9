-- ===== src/Desk/Awaiting.antt =====
-- crates/korg-core/src/repo/awaiting.rs: the marker of the nodes that wait for Ken, and their lane.
pub mod Lane
use korg.Base.{
  ℕ, zero, suc, String, List, [], ◌∷◌, Option, none, some, Bool, true, false, not, ◌&&◌, ◌||◌, ◌==◌,
  contains, nat_eq, ltb, retain, if◌then◌else◌, is_some, unwrap_or,
}
use korg.Core.Vocab.{card_terminal_statuses, proposal_terminal_statuses, program_terminal_statuses}
use korg.Desk.Tables.{
  NodeRow, WorkItemRow, Desk, Denial, no_node, note_when_clearing, Answer, done, denied, alter,
  mapped,
}

abbrev pub status_of : Option WorkItemRow → Option String
status_of none = none
status_of (some w) = some w.wi_status

-- A node asked about again keeps the time of the first asking.
unfoldable pub first_asked : ℕ → Option ℕ → Option ℕ
first_asked now none = some now
first_asked now (some t) = some t

unfoldable pub set_awaiting : ℕ → ℕ → Bool → Option String → Desk → Answer Desk
set_awaiting now id awaiting note d =
    if not awaiting && is_some note then denied note_when_clearing else elim (d.nodes id) [
      | none ↦ denied (no_node id)
      | some _ ↦
          if awaiting
          then done (record d {
            nodes =
                alter id
                  (λ n. record n {
                    awaiting_since = first_asked now n.awaiting_since;
                    awaiting_note = note;
                  })
                  d.nodes;
          })
          else done (record d {
            nodes =
                alter id (λ n. record n { awaiting_since = none; awaiting_note = none }) d.nodes;
          })
    ]

abbrev holds : (String → Bool) → Option String → Bool
holds p none = false
holds p (some s) = p s

-- The states that only Ken sets.
unfoldable pub answered_by_ken : Desk → ℕ → NodeRow → Bool
answered_by_ken d id n =
    n.archived
    || holds (λ s. s == "closed") (status_of (d.work_items id))
    || holds (contains proposal_terminal_statuses) (d.proposals id)
    || holds (contains program_terminal_statuses) (d.programs id)
    || holds (contains card_terminal_statuses) (d.cards id)

unfoldable pub settle_awaiting : ℕ → Desk → Desk
settle_awaiting id d = record d {
  nodes =
      alter id
        (λ n.
          if is_some n.awaiting_since && answered_by_ken d id n
          then record n { awaiting_since = none; awaiting_note = none }
          else n)
        d.nodes;
}

-- The conditions of `list_awaiting`, with its defaults for a node of another kind.
unfoldable pub in_lane : Desk → ℕ → NodeRow → Bool
in_lane d id n =
    is_some n.awaiting_since
    && not n.archived
    && not (unwrap_or (status_of (d.work_items id)) "open" == "closed")
    && not (contains proposal_terminal_statuses (unwrap_or (d.proposals id) "proposed"))
    && not (contains program_terminal_statuses (unwrap_or (d.programs id) "active"))
    && not (contains card_terminal_statuses (unwrap_or (d.cards id) "Backlog"))

abbrev pub row_in_lane : Desk → ℕ → Bool
row_in_lane d id = elim (d.nodes id) [ none ↦ false | some n ↦ in_lane d id n ]

-- The ids below a number, the largest first.
unfoldable pub ids_below : ℕ → List ℕ
ids_below zero = []
ids_below (suc n) = n ∷ ids_below n

abbrev pub asked_at : Desk → ℕ → ℕ
asked_at d id = elim (d.nodes id) [ none ↦ 0 | some n ↦ unwrap_or n.awaiting_since 0 ]

-- `ORDER BY n.awaiting_since ASC, n.id ASC`
abbrev pub earlier : Desk → ℕ → ℕ → Bool
earlier d a b = ltb (asked_at d a) (asked_at d b) || nat_eq (asked_at d a) (asked_at d b) && ltb a b

unfoldable pub enter : Desk → ℕ → List ℕ → List ℕ
enter d id [] = id ∷ []
enter d id (x ∷ xs) = if earlier d id x then id ∷ (x ∷ xs) else x ∷ enter d id xs

unfoldable pub in_order : Desk → List ℕ → List ℕ
in_order d [] = []
in_order d (x ∷ xs) = enter d x (in_order d xs)

-- `list_awaiting`, by the ids of the rows.
unfoldable pub list_awaiting : Desk → List ℕ
list_awaiting d = in_order d (retain (row_in_lane d) (ids_below d.next_node))
