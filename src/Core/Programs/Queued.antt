-- ===== src/Core/Programs/Queued.antt =====
-- What `queued` says of a program in crates/korg-core: none of its slices has begun. That
-- `promote_programs_over` restores it after a slice has started.
use korg.Base.{
  ℕ, List, [], ◌∷◌, Bool, true, not, ◌&&◌, ◌||◌, ◌==◌, ◌≡◌, refl, inl, inr, arith, all, map,
  contains, nat_eq, eq_iff, Bool-cases,
}
use korg.Core.Vocab.{program_initial_status}
use korg.Core.Graph.{Proposal, Program, Edge, Graph, started, linked}
use korg.Core.Programs.{lifts, lift, promote_programs_over}

-- No edge to a slice that has begun.
unfoldable pub idle : List Edge → List Proposal → ℕ → Bool
idle edges proposals program =
    all
      (λ e.
        not (e.label == "includes" && nat_eq e.left_id program)
        || not (started proposals e.right_id))
      edges

unfoldable pub queued_idle : List Edge → List Proposal → Program → Bool
queued_idle edges proposals p =
    not (p.status == program_initial_status) || idle edges proposals p.node_id

-- Every queued program is idle.
abbrev pub QueuedIdle : Graph → Type 0
QueuedIdle g = all (queued_idle g.edges g.proposals) g.programs ≡ true

-- Idle, or about to be lifted.
unfoldable pub due : List Edge → List Proposal → ℕ → Program → Bool
due edges proposals proposal p =
    queued_idle edges proposals p || (linked edges p.node_id proposal && started proposals proposal)

lifts_queued :
    (edges : List Edge) (proposals : List Proposal) (proposal : ℕ) (p : Program)
    → p.status ≡ program_initial_status
    → lifts edges proposals proposal p
      ≡ (linked edges p.node_id proposal && started proposals proposal)
unfolding lifts contains
lifts_queued edges proposals proposal p e = rw e refl

lift-queued_idle :
    (edges : List Edge) (proposals : List Proposal) (proposal : ℕ) (p : Program)
    → due edges proposals proposal p ≡ true
    → queued_idle edges proposals (lift edges proposals proposal p) ≡ true
unfolding due queued_idle lift
lift-queued_idle edges proposals proposal p h =
    elim (Bool-cases (lifts edges proposals proposal p)) [
      | inl lifted ↦ rw (lifted, lift) refl
      | inr kept ↦
          rw (kept, lift)
            (elim (Bool-cases (p.status == program_initial_status)) [
              | inl queued ↦ ground (
                arith,
                lifts_queued edges proposals proposal p
                    ((eq_iff p.status program_initial_status).0 queued),
              )
              | inr other ↦ ground arith
            ])
    ]

pub map-lift-queued_idle :
    (edges : List Edge) (proposals : List Proposal) (proposal : ℕ) (ps : List Program)
    → all (due edges proposals proposal) ps ≡ true
    → all (queued_idle edges proposals) (map (lift edges proposals proposal) ps) ≡ true
map-lift-queued_idle edges proposals proposal [] h = refl
map-lift-queued_idle edges proposals proposal (p ∷ ps) h = ground (
  arith,
  lift-queued_idle edges proposals proposal p,
  map-lift-queued_idle edges proposals proposal ps,
)

pub all_implied :
    {A : Type 0} (p q : A → Bool) (xs : List A)
    → ((x : A) → p x ≡ true → q x ≡ true)
    → all p xs ≡ true
    → all q xs ≡ true
all_implied p q [] f h = refl
all_implied p q (x ∷ xs) f h = ground (arith, f x, all_implied p q xs f)

-- After the slice has been changed and the programs over it lifted, the queued ones are idle.
pub promote-QueuedIdle :
    (proposal : ℕ) (g : Graph)
    → all (due g.edges g.proposals proposal) g.programs ≡ true
    → QueuedIdle (promote_programs_over proposal g)
unfolding promote_programs_over
promote-QueuedIdle proposal g h = map-lift-queued_idle g.edges g.proposals proposal g.programs h
