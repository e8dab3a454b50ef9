-- ===== src/Board/Exact.antt =====
-- What `board_blockers` of crates/korg-core/src/repo/board.rs lists.
use korg.Base.{
  ℕ, String, List, [], ◌∷◌, none, some, Bool, true, ◌&&◌, ◌||◌, ◌==◌, any, all, find, nat_eq,
  is_some, unwrap_or, ◌≡◌, refl, ap, sym, ◌∙◌, arith, Option-cases, inl, inr, find-holds,
}
use korg.Desk.Tables.{some_inj}
use korg.Core.Graph.{Edge}
use korg.Board.{
  Tables, Dependency, BoardBlocker, has_id, dependencies, blocking, owner, programs_of, sequenced,
  held_up, file, in_key_order, board_blockers,
}
use korg.Board.Unresolved.{unresolved, blocking-unresolved}
use korg.Board.Membership.{
  Wait, of_blocker, waits_for, any-dependencies, any-held_up, any-in_key_order,
}

-- Whether a program has a slice.
abbrev pub sliced : List (ℕ × ℕ) → ℕ → ℕ → Bool
sliced slice_edges program slice =
    any (λ (e : ℕ × ℕ). nat_eq (e.0) program && nat_eq (e.1) slice) slice_edges

-- Whether a program has the node for a slice, or a proposal that covers the node.
abbrev pub draws : Tables → List (ℕ × ℕ) → ℕ → ℕ → Bool
draws t slice_edges program id =
    sliced slice_edges program id
    || any
        (λ e. e.label == "covers" && nat_eq e.right_id id && sliced slice_edges program e.left_id)
        t.edges

-- A program that a row names draws both of its ends.
abbrev pub sequenced_both : Tables → List (ℕ × ℕ) → BoardBlocker → Bool
sequenced_both t slice_edges b = elim b.sequenced_by [
  | none ↦ true
  | some program ↦ sliced slice_edges program b.proposal && draws t slice_edges program b.blocker
]

has_id-programs_of :
    (slice_edges : List (ℕ × ℕ)) (slice program : ℕ)
    → has_id (programs_of slice_edges slice) program ≡ sliced slice_edges program slice
unfolding programs_of
has_id-programs_of [] slice program = refl
has_id-programs_of ((g, s) ∷ es) slice program = ground (arith, has_id-programs_of es slice program)

-- What is found in a list is in it.
find-has_id : (p : ℕ → Bool) (ids : List ℕ) (id : ℕ) → find p ids ≡ some id → has_id ids id ≡ true
find-has_id p [] id h = cc
find-has_id p (x ∷ xs) id h = ground (arith, find-has_id p xs id, some_inj {a = x} {b = id})

later_owner :
    (e : Edge) (es : List Edge) (id p q : ℕ)
    → owner (e ∷ es) id ≡ some p
    → owner es id ≡ some q
    → owner es id ≡ some p
unfolding owner
later_owner e es id p q h later = ground (arith, h, later)

draws-owner :
    (slice_edges : List (ℕ × ℕ)) (es : List Edge) (program id p : ℕ)
    → owner es id ≡ some p
    → sliced slice_edges program p ≡ true
    → any
        (λ e. e.label == "covers" && nat_eq e.right_id id && sliced slice_edges program e.left_id)
        es
      ≡ true
unfolding owner
draws-owner slice_edges [] program id p h s = cc
draws-owner slice_edges (e ∷ es) program id p h s = elim (Option-cases (owner es id)) [
  | inl last ↦ ground (arith, some_inj {a = e.left_id} {b = p}, ap (sliced slice_edges program))
  | inr (q, later) ↦
      ground (arith, draws-owner slice_edges es program id p (later_owner e es id p q h later) s)
]

-- What is found is a program of both.
sliced-find :
    (slice_edges : List (ℕ × ℕ)) (owning proposal program : ℕ)
    → find (has_id (programs_of slice_edges owning)) (programs_of slice_edges proposal)
      ≡ some program
    → (sliced slice_edges program proposal ≡ true) × (sliced slice_edges program owning ≡ true)
sliced-find slice_edges owning proposal program h = (
  sym (has_id-programs_of slice_edges proposal program)
      ∙ find-has_id (has_id (programs_of slice_edges owning)) (programs_of slice_edges proposal)
          program h,
  sym (has_id-programs_of slice_edges owning program)
      ∙ find-holds (has_id (programs_of slice_edges owning)) (programs_of slice_edges proposal)
          program h,
)

sequenced-draws :
    (t : Tables) (slice_edges : List (ℕ × ℕ)) (proposal blocker program : ℕ)
    → sequenced t slice_edges proposal blocker ≡ some program
    → (sliced slice_edges program proposal && draws t slice_edges program blocker) ≡ true
unfolding sequenced
sequenced-draws t slice_edges proposal blocker program h =
    let both =
      sliced-find slice_edges (unwrap_or (owner t.edges blocker) blocker) proposal program h in
    elim (Option-cases (owner t.edges blocker)) [
      | inl none_covers ↦ ground (
        arith,
        both.0,
        both.1,
        ap (λ o. sliced slice_edges program (unwrap_or o blocker)) none_covers,
      )
      | inr (p, covers) ↦ ground (
        arith,
        both.0,
        both.1,
        ap (λ o. sliced slice_edges program (unwrap_or o blocker)) covers,
        draws-owner slice_edges t.edges program blocker p covers,
      )
    ]

sequenced_both-row :
    (t : Tables) (slice_edges : List (ℕ × ℕ)) (d : Dependency) (kind status : String)
    → sequenced_both t slice_edges (record {
      proposal = d.proposal;
      via = d.via;
      dependent = d.dependent;
      dependent_wi_number = d.dependent_wi_number;
      blocker = d.blocker;
      blocker_kind = kind;
      blocker_status = status;
      sequenced_by = sequenced t slice_edges d.proposal d.blocker;
    })
      ≡ true
sequenced_both-row t slice_edges d kind status =
    elim (Option-cases (sequenced t slice_edges d.proposal d.blocker)) [
      | inl unsequenced ↦ rw unsequenced refl
      | inr (program, found) ↦
          rw found (sequenced-draws t slice_edges d.proposal d.blocker program found)
    ]

held_up-sequenced :
    (t : Tables) (slice_edges : List (ℕ × ℕ)) (ds : List Dependency)
    → all (sequenced_both t slice_edges) (held_up t slice_edges ds) ≡ true
unfolding held_up
held_up-sequenced t slice_edges [] = refl
held_up-sequenced t slice_edges (d ∷ ds) = elim (Option-cases (blocking t d.blocker)) [
  | inl free ↦ rw (free, held_up) (held_up-sequenced t slice_edges ds)
  | inr ((kind, status), held) ↦
      rw (held, held_up)
        (ground (
          arith,
          sequenced_both-row t slice_edges d kind status,
          held_up-sequenced t slice_edges ds,
        ))
]

all-file :
    (p : BoardBlocker → Bool) (b : BoardBlocker) (bs : List BoardBlocker)
    → all p (file b bs) ≡ (p b && all p bs)
unfolding file
all-file p b [] = refl
all-file p b (x ∷ xs) = ground (arith, all-file p b xs)

all-in_key_order :
    (p : BoardBlocker → Bool) (bs : List BoardBlocker) → all p (in_key_order bs) ≡ all p bs
unfolding in_key_order
all-in_key_order p [] = refl
all-in_key_order p (b ∷ bs) =
    all-file p b (in_key_order bs) ∙ ap (λ r. p b && r) (all-in_key_order p bs)

-- The rows are exactly the waits of the proposals that are given on nodes that are not archived and
-- whose status is not one in which their kind is over, where a proposal waits for itself or for a
-- work item that it covers and that is still to be done. And a program that a row names has the
-- proposal for a slice, and the blocker or a proposal that covers it.
pub board_blockers-exact :
    (t : Tables) (live_ids : List ℕ) (slice_edges : List (ℕ × ℕ)) (k : Wait)
    → (any (of_blocker k) (board_blockers t live_ids slice_edges)
        ≡ (waits_for t live_ids k && unresolved t k.blocker))
      × (all (sequenced_both t slice_edges) (board_blockers t live_ids slice_edges) ≡ true)
unfolding board_blockers
board_blockers-exact t live_ids slice_edges k = (
  any-in_key_order (of_blocker k) (held_up t slice_edges (dependencies t live_ids))
      ∙ any-held_up t slice_edges k (dependencies t live_ids)
      ∙ ap (λ w. w && is_some (blocking t k.blocker)) (any-dependencies t live_ids k)
      ∙ ap (λ b. waits_for t live_ids k && b) (blocking-unresolved t k.blocker),
  all-in_key_order (sequenced_both t slice_edges) (held_up t slice_edges (dependencies t live_ids))
      ∙ held_up-sequenced t slice_edges (dependencies t live_ids),
)
