-- ===== src/Board/Membership.antt =====
-- What is among the rows that `board_blockers` of crates/korg-core/src/repo/board.rs goes through.
use korg.Base.{
  ℕ, String, List, [], ◌∷◌, ◌++◌, Bool, true, ◌&&◌, ◌||◌, ◌==◌, any, nat_eq, is_some, ◌≡◌, refl, ap,
  ◌∙◌, arith, Option-cases, inl, inr,
}
use korg.Desk.Tables.{eq_of_nat_eq}
use korg.Core.Graph.{Edge}
use korg.Board.Unresolved.{stuck-to_do}
use korg.Board.{
  Tables, Dependency, BoardBlocker, has_id, direct, stuck, waits, inherited, dependencies, blocking,
  held_up, file, in_key_order,
}

-- A proposal that waits, through one of its nodes, on a blocker.
pub record Wait : Type 0 where
  pub via : String
  pub proposal : ℕ
  pub dependent : ℕ
  pub blocker : ℕ

abbrev pub of_dependency : Wait → Dependency → Bool
of_dependency k d =
    d.via == k.via
    && nat_eq d.proposal k.proposal
    && nat_eq d.dependent k.dependent
    && nat_eq d.blocker k.blocker

abbrev pub of_blocker : Wait → BoardBlocker → Bool
of_blocker k b =
    b.via == k.via
    && nat_eq b.proposal k.proposal
    && nat_eq b.dependent k.dependent
    && nat_eq b.blocker k.blocker

-- Whether there is an edge.
abbrev pub edge_is : String → ℕ → ℕ → Edge → Bool
edge_is label left right e = e.label == label && nat_eq e.left_id left && nat_eq e.right_id right

pub any-append :
    {A : Type 0} (p : A → Bool) (xs ys : List A) → any p (xs ++ ys) ≡ (any p xs || any p ys)
any-append p [] ys = refl
any-append p (x ∷ xs) ys = ground (arith, any-append p xs ys)

has_id_same : (ids : List ℕ) (a b : ℕ) → nat_eq a b ≡ true → has_id ids a ≡ has_id ids b
has_id_same ids a b same = ap (has_id ids) (eq_of_nat_eq a b same)

stuck_same : (t : Tables) (a b : ℕ) → nat_eq a b ≡ true → stuck t a ≡ stuck t b
stuck_same t a b same = ap (stuck t) (eq_of_nat_eq a b same)

blocking_same : (t : Tables) (a b : ℕ) → nat_eq a b ≡ true → blocking t a ≡ blocking t b
blocking_same t a b same = ap (blocking t) (eq_of_nat_eq a b same)

any-direct :
    (live_ids : List ℕ) (k : Wait) (rs : List Edge)
    → any (of_dependency k) (direct live_ids rs) ≡ (
        "proposal" == k.via
        && nat_eq k.proposal k.dependent
        && has_id live_ids k.proposal
        && any (edge_is "depends_on" k.proposal k.blocker) rs)
unfolding direct
any-direct live_ids k [] = ground arith
any-direct live_ids k (r ∷ rs) =
    ground (arith, any-direct live_ids k rs, has_id_same live_ids r.left_id k.proposal)

any-waits :
    (proposal item : ℕ) (k : Wait) (rs : List Edge)
    → any (of_dependency k) (waits proposal item rs) ≡ (
        "covered" == k.via
        && nat_eq proposal k.proposal
        && nat_eq item k.dependent
        && any (edge_is "depends_on" k.dependent k.blocker) rs)
unfolding waits
any-waits proposal item k [] = ground arith
any-waits proposal item k (r ∷ rs) = ground (arith, any-waits proposal item k rs)

any-inherited :
    (t : Tables) (live_ids : List ℕ) (k : Wait) (cs : List Edge)
    → any (of_dependency k) (inherited t live_ids cs) ≡ (
        "covered" == k.via
        && has_id live_ids k.proposal
        && stuck t k.dependent
        && any (edge_is "covers" k.proposal k.dependent) cs
        && any (edge_is "depends_on" k.dependent k.blocker) t.edges)
unfolding inherited
any-inherited t live_ids k [] = ground arith
any-inherited t live_ids k (c ∷ cs) = ground (
  arith,
  any-append (of_dependency k) (waits c.left_id c.right_id t.edges) (inherited t live_ids cs),
  any-waits c.left_id c.right_id k t.edges,
  any-inherited t live_ids k cs,
  has_id_same live_ids c.left_id k.proposal,
  stuck_same t c.right_id k.dependent,
)

-- Whether a proposal of those given waits on a node: for itself, or for an unfinished work item that
-- it covers.
abbrev pub waits_for : Tables → List ℕ → Wait → Bool
waits_for t live_ids k =
    has_id live_ids k.proposal
    && ("proposal" == k.via && nat_eq k.proposal k.dependent
        || "covered" == k.via
          && stuck t k.dependent
          && any (edge_is "covers" k.proposal k.dependent) t.edges)
    && any (edge_is "depends_on" k.dependent k.blocker) t.edges

edge_same :
    (a b c : ℕ) (es : List Edge)
    → nat_eq a b ≡ true
    → any (edge_is "depends_on" a c) es ≡ any (edge_is "depends_on" b c) es
edge_same a b c es same = ap (λ i. any (edge_is "depends_on" i c) es) (eq_of_nat_eq a b same)

pub any-dependencies :
    (t : Tables) (live_ids : List ℕ) (k : Wait)
    → any (of_dependency k) (dependencies t live_ids) ≡ waits_for t live_ids k
unfolding dependencies
any-dependencies t live_ids k =
    any-append (of_dependency k) (direct live_ids t.edges) (inherited t live_ids t.edges)
    ∙ ground (
      arith,
      any-direct live_ids k t.edges,
      any-inherited t live_ids k t.edges,
      stuck-to_do t k.dependent,
      edge_same k.proposal k.dependent k.blocker t.edges,
    )

pub any-held_up :
    (t : Tables) (slice_edges : List (ℕ × ℕ)) (k : Wait) (ds : List Dependency)
    → any (of_blocker k) (held_up t slice_edges ds)
      ≡ (any (of_dependency k) ds && is_some (blocking t k.blocker))
unfolding held_up
any-held_up t slice_edges k [] = refl
any-held_up t slice_edges k (d ∷ ds) = elim (Option-cases (blocking t d.blocker)) [
  | inl free ↦ ground (arith, any-held_up t slice_edges k ds, blocking_same t d.blocker k.blocker)
  | inr ((kind, status), held) ↦
      ground (arith, any-held_up t slice_edges k ds, blocking_same t d.blocker k.blocker)
]

any-file :
    (p : BoardBlocker → Bool) (b : BoardBlocker) (bs : List BoardBlocker)
    → any p (file b bs) ≡ (p b || any p bs)
unfolding file
any-file p b [] = refl
any-file p b (x ∷ xs) = ground (arith, any-file p b xs)

pub any-in_key_order :
    (p : BoardBlocker → Bool) (bs : List BoardBlocker) → any p (in_key_order bs) ≡ any p bs
unfolding in_key_order
any-in_key_order p [] = refl
any-in_key_order p (b ∷ bs) =
    any-file p b (in_key_order bs) ∙ ap (λ r. p b || r) (any-in_key_order p bs)
