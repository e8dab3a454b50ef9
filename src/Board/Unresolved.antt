-- ===== src/Board/Unresolved.antt =====
-- Which nodes hold others up, for `board_blockers` of crates/korg-core/src/repo/board.rs.
use korg.Base.{
  ℕ, String, List, [], ◌∷◌, Option, none, some, Bool, true, false, not, ◌&&◌, ◌||◌, ◌==◌, any, find,
  contains, nat_eq, is_some, if◌then◌else◌, ◌≡◌, refl, ap, ◌∙◌, arith, eq_iff, Option-cases, inl,
  inr,
}
use korg.Core.Vocab.{wi_finished_statuses}
use korg.Board.{NodeState, Tables, stuck, lifecycle_status, unfinished_as, blocking}

-- Whether the node is a work item that is still to be done, and not archived.
abbrev pub to_do : Tables → ℕ → Bool
to_do t id =
    any (λ w. nat_eq w.node_id id && not (w.wi_status == "done" || w.wi_status == "closed"))
      t.work_items
    && any (λ n. nat_eq n.id id && not n.archived) t.nodes

-- Whether a node of a kind is not over with a status. One without a status holds nothing up.
abbrev pub not_over : String → Option String → Bool
not_over kind none = false
not_over kind (some s) =
    kind == "workitem" && not (s == "done" || s == "closed")
    || kind == "sprint_proposal" && not (s == "done" || s == "declined")
    || kind == "program" && not (s == "done")

abbrev pub node_not_over : Tables → ℕ → Option NodeState → Bool
node_not_over t id none = false
node_not_over t id (some n) = not n.archived && not_over n.kind (lifecycle_status t id)

-- Whether a node holds up others.
abbrev pub unresolved : Tables → ℕ → Bool
unresolved t id = node_not_over t id (find (λ n. nat_eq n.id id) t.nodes)

equal_texts : (a b : String) → (a == b) ≡ (b == a)
equal_texts a b = ground (arith, eq_iff a b, eq_iff b a)

one_kind : (k a b : String) → (a == b) ≡ false → (k == a) ≡ true → (k == b) ≡ false
one_kind k a b apart same = ap (λ x. x == b) ((eq_iff k a).0 same) ∙ apart

unfinished-not_over : (kind s : String) → unfinished_as kind s ≡ not_over kind (some s)
unfolding unfinished_as contains
unfinished-not_over kind s = ground (
  arith,
  equal_texts "done" s,
  equal_texts "closed" s,
  equal_texts "declined" s,
  one_kind kind "workitem" "sprint_proposal" refl,
  one_kind kind "workitem" "program" refl,
  one_kind kind "sprint_proposal" "program" refl,
)

blocking_row :
    (archived : Bool) (kind : String) (status : Option String)
    → is_some {A = String × String} (
        if archived then none else elim status [
          | none ↦ none
          | some s ↦ if unfinished_as kind s then some (kind, s) else none
        ])
      ≡ (not archived && not_over kind status)
blocking_row archived kind none = ground arith
blocking_row archived kind (some s) = ground (arith, unfinished-not_over kind s)

pub blocking-unresolved : (t : Tables) (id : ℕ) → is_some (blocking t id) ≡ unresolved t id
unfolding blocking
blocking-unresolved t id = elim (Option-cases (find (λ (n : NodeState). nat_eq n.id id) t.nodes)) [
  | inl gone ↦ rw (gone, blocking) refl
  | inr (n, found) ↦ rw (found, blocking) (blocking_row n.archived n.kind (lifecycle_status t id))
]

any-same : {A : Type 0} (p q : A → Bool) (xs : List A) → ((x : A) → p x ≡ q x) → any p xs ≡ any q xs
any-same p q [] each = refl
any-same p q (x ∷ xs) each = rw (each x, any-same p q xs each) refl

pub stuck-to_do : (t : Tables) (id : ℕ) → stuck t id ≡ to_do t id
unfolding stuck contains
stuck-to_do t id =
    ap (λ b. b && any (λ n. nat_eq n.id id && not n.archived) t.nodes)
      (any-same (λ w. nat_eq w.node_id id && not (contains wi_finished_statuses w.wi_status))
        (λ w. nat_eq w.node_id id && not (w.wi_status == "done" || w.wi_status == "closed"))
        t.work_items
        (λ w. ground (arith, equal_texts "done" w.wi_status, equal_texts "closed" w.wi_status)))
