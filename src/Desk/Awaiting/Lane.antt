-- ===== src/Desk/Awaiting/Lane.antt =====
-- What the lane of crates/korg-core/src/repo/awaiting.rs holds.
use korg.Base.{
  ℕ, zero, suc, String, List, [], ◌∷◌, Option, none, some, Bool, false, not, ◌&&◌, ◌||◌, ◌<◌, ◌≡◌,
  refl, ◌∙◌, any, retain, nat_eq, ltb, contains, ◌==◌, is_some, unwrap_or, arith, Option-cases,
  Bool-cases, inl, inr,
}
use korg.Desk.Tables.{NodeRow, Desk}
use korg.Core.Vocab.{card_terminal_statuses, proposal_terminal_statuses, program_terminal_statuses}
use korg.Desk.Awaiting.{
  status_of, holds, answered_by_ken, settle_awaiting, in_lane, row_in_lane, ids_below, earlier,
  enter, in_order, list_awaiting,
}

-- Whether a node has the marker.
abbrev pub awaiting : Desk → ℕ → Bool
awaiting d id = elim (d.nodes id) [ none ↦ false | some n ↦ is_some n.awaiting_since ]

-- Whether the lane shows a node.
abbrev pub shows : List ℕ → ℕ → Bool
shows ids id = any (λ x. nat_eq id x) ids

shows-enter :
    (d : Desk) (x id : ℕ) (xs : List ℕ) → shows (enter d x xs) id ≡ (nat_eq id x || shows xs id)
unfolding enter
shows-enter d x id [] = refl
shows-enter d x id (y ∷ xs) = elim (Bool-cases (earlier d x y)) [
  | inl before ↦ rw (before, enter) refl
  | inr after ↦ rw (after, enter, shows-enter d x id xs) (ground arith)
]

shows-in_order : (d : Desk) (id : ℕ) (xs : List ℕ) → shows (in_order d xs) id ≡ shows xs id
unfolding in_order
shows-in_order d id [] = refl
shows-in_order d id (x ∷ xs) = rw (shows-enter d x id (in_order d xs), shows-in_order d id xs) refl

shows-retain_below :
    (p : ℕ → Bool) (id n : ℕ) → shows (retain p (ids_below n)) id ≡ (ltb id n && p id)
unfolding retain ids_below
shows-retain_below p id zero = ground arith
shows-retain_below p id (suc n) = ground (arith, shows-retain_below p id n)

holds-unwrap_or :
    (p : String → Bool) (o : Option String) (other : String)
    → p other ≡ false
    → p (unwrap_or o other) ≡ holds p o
holds-unwrap_or p none other h = h
holds-unwrap_or p (some s) other h = refl

none_of :
    (a b c d e f : Bool)
    → (a && not b && not c && not d && not e && not f) ≡ (a && not (b || c || d || e || f))
none_of a b c d e f = ground arith

answered_by_ken-lane :
    (d : Desk) (id : ℕ) (n : NodeRow)
    → in_lane d id n ≡ (is_some n.awaiting_since && not (answered_by_ken d id n))
unfolding in_lane answered_by_ken contains
answered_by_ken-lane d id n =
    rw
      (
        holds-unwrap_or (λ s. s == "closed") (status_of (d.work_items id)) "open" refl,
        holds-unwrap_or (contains proposal_terminal_statuses) (d.proposals id) "proposed" refl,
        holds-unwrap_or (contains program_terminal_statuses) (d.programs id) "active" refl,
        holds-unwrap_or (contains card_terminal_statuses) (d.cards id) "Backlog" refl,
      )
      (none_of (is_some n.awaiting_since) n.archived
        (holds (λ s. s == "closed") (status_of (d.work_items id)))
        (holds (contains proposal_terminal_statuses) (d.proposals id))
        (holds (contains program_terminal_statuses) (d.programs id))
        (holds (contains card_terminal_statuses) (d.cards id)))

awaiting-settled : (d : Desk) (id : ℕ) → row_in_lane d id ≡ awaiting (settle_awaiting id d) id
unfolding settle_awaiting
awaiting-settled d id = elim (Option-cases (d.nodes id)) [
  | inl absent ↦ ground arith
  | inr (n, found) ↦ ground (arith, answered_by_ken-lane d id n)
]

-- The lane shows exactly the nodes whose marker the write rule would keep: the filter of the lane and
-- the rule that clears a marker agree on every node there is.
pub list_awaiting-settled :
    (d : Desk) (id : ℕ)
    → id < d.next_node
    → shows (list_awaiting d) id ≡ awaiting (settle_awaiting id d) id
unfolding list_awaiting
list_awaiting-settled d id h =
    shows-in_order d id (retain (row_in_lane d) (ids_below d.next_node))
    ∙ shows-retain_below (row_in_lane d) id d.next_node
    ∙ ground arith
    ∙ awaiting-settled d id
