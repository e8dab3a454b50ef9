-- ===== src/Core/Programs/Slices.antt =====
-- `update_proposal` and `update_program` of crates/korg-core keep what `queued` says of a program.
use korg.Base.{
  ℕ, String, List, [], ◌∷◌, Option, none, some, Bool, true, false, ◌&&◌, ◌||◌, ◌==◌, ◌≡◌, refl, ap,
  inl, inr, arith, all, map, nat_eq, Bool-cases, find,
}
use korg.Core.Vocab.{program_initial_status, proposal_statuses, program_statuses}
use korg.Core.Graph.{
  Proposal, Program, Edge, Graph, Refusal, Result, ok, after, node_kind, started, linked,
}
use korg.Core.Programs.{
  promote_programs_over, record_transition, set_proposal, set_program, require_kind, known,
  write_proposal, update_proposal, entry_check, write_program, update_program,
}
use korg.Core.Programs.Queued.{idle, queued_idle, QueuedIdle, due, all_implied, promote-QueuedIdle}

pub nat_eq_same : (a b : ℕ) → nat_eq a b ≡ true → a ≡ b
nat_eq_same a b h = ground arith

-- What passed a check is the rest of the operation.
pub after-ok :
    {A : Type 0} (check : Option Refusal) (rest : Result A) (a : A)
    → after check rest ≡ ok a
    → rest ≡ ok a
after-ok none rest a h = h
after-ok (some why) rest a h = cc

pub after-none :
    {A : Type 0} (check : Option Refusal) (rest : Result A) (a : A)
    → after check rest ≡ ok a
    → check ≡ none
after-none none rest a h = refl
after-none (some why) rest a h = cc

pub ok-injective : {A : Type 0} {a b : A} → ok a ≡ ok b → a ≡ b
ok-injective h = cc

pub all-map :
    {A : Type 0} (p : A → Bool) (f : A → A) (xs : List A)
    → ((x : A) → p x ≡ true → p (f x) ≡ true)
    → all p xs ≡ true
    → all p (map f xs) ≡ true
all-map p f [] g h = refl
all-map p f (x ∷ xs) g h = ground (arith, g x, all-map p f xs g)

module _ (id : ℕ) (status : String) where
  started-set_proposal :
      (ps : List Proposal) (r : ℕ)
      → nat_eq r id ≡ false
      → started (map (set_proposal id status) ps) r ≡ started ps r
  unfolding started set_proposal
  started-set_proposal [] r h = refl
  started-set_proposal (p ∷ ps) r h = ground (arith, started-set_proposal ps r)

  idle-set_proposal :
      (edges : List Edge) (ps : List Proposal) (program : ℕ)
      → idle edges ps program ≡ true
      → (idle edges (map (set_proposal id status) ps) program
          || (linked edges program id && started (map (set_proposal id status) ps) id))
        ≡ true
  unfolding idle linked
  idle-set_proposal [] ps program h = refl
  idle-set_proposal (e ∷ edges) ps program h = elim (Bool-cases (nat_eq e.right_id id)) [
    | inl here ↦
        let same = nat_eq_same e.right_id id here in
        ground (
          arith,
          idle-set_proposal edges ps program,
          ap (started (map (set_proposal id status) ps)) same,
        )
    | inr other ↦
        ground (arith, idle-set_proposal edges ps program, started-set_proposal ps e.right_id other)
  ]

  due-set_proposal :
      (edges : List Edge) (ps : List Proposal) (p : Program)
      → queued_idle edges ps p ≡ true
      → due edges (map (set_proposal id status) ps) id p ≡ true
  unfolding due queued_idle
  due-set_proposal edges ps p h = ground (arith, idle-set_proposal edges ps p.node_id)

  due-record_transition :
      (before : String) (g : Graph)
      → all
          (due
            (record_transition id before status g).edges
            (record_transition id before status g).proposals
            id)
          (record_transition id before status g).programs
        ≡ all (due g.edges g.proposals id) g.programs
  unfolding record_transition
  due-record_transition before g = elim (Bool-cases (before == status)) [
    | inl still ↦ rw (still, record_transition) refl
    | inr moved ↦ rw (moved, record_transition) refl
  ]

  write_proposal-QueuedIdle :
      (row : Option Proposal) (g g' : Graph)
      → QueuedIdle g
      → write_proposal id status row g ≡ ok g'
      → QueuedIdle g'
  unfolding write_proposal
  write_proposal-QueuedIdle none g g' q h = cc
  write_proposal-QueuedIdle (some row) g g' q h =
      let g1 : Graph = record g { proposals = map (set_proposal id status) g.proposals } in
      let same : promote_programs_over id (record_transition id row.status status g1) ≡ g' =
        ground arith in
      rw (← same) (
        promote-QueuedIdle id (record_transition id row.status status g1)
          (rw (due-record_transition row.status g1) (changed g q)))
    where
      changed :
          (g : Graph)
          → QueuedIdle g
          → all (due g.edges (map (set_proposal id status) g.proposals) id) g.programs ≡ true
      changed g q =
          all_implied (queued_idle g.edges g.proposals)
            (due g.edges (map (set_proposal id status) g.proposals) id) g.programs
            (due-set_proposal g.edges g.proposals) q

  -- A queued program has no slice that has begun, and a change of a proposal's status keeps it so.
  pub update_proposal-QueuedIdle :
      (g g' : Graph) → QueuedIdle g → update_proposal id status g ≡ ok g' → QueuedIdle g'
  unfolding update_proposal
  update_proposal-QueuedIdle g g' q h =
      write_proposal-QueuedIdle (find (λ p. nat_eq p.node_id id) g.proposals) g g' q (
        after-ok (require_kind "sprint_proposal" id (node_kind g id)) _ g'
          (after-ok (known status proposal_statuses) _ g' h))

  set_program-queued_idle :
      (edges : List Edge) (ps : List Proposal)
      → (status == program_initial_status) ≡ false
      → (p : Program) → queued_idle edges ps p ≡ true
      → queued_idle edges ps (set_program id status p) ≡ true
  unfolding queued_idle set_program
  set_program-queued_idle edges ps ne p h = ground arith

  write_program-QueuedIdle :
      (row : Option Program) (g g' : Graph)
      → (status == program_initial_status) ≡ false
      → QueuedIdle g
      → write_program id status row g ≡ ok g'
      → QueuedIdle g'
  unfolding write_program record_transition
  write_program-QueuedIdle none g g' ne q h = cc
  write_program-QueuedIdle (some row) g g' ne q h =
      let g1 : Graph = record g { programs = map (set_program id status) g.programs } in
      let same : record_transition id row.status status g1 ≡ g' =
        ok-injective (after-ok (entry_check id row.status status g) _ g' h) in
      rw (← same) (elim (Bool-cases (row.status == status)) [
        | inl still ↦ rw (still, record_transition) (changed g q)
        | inr moved ↦ rw (moved, record_transition) (changed g q)
      ])
    where
      changed :
          (g : Graph)
          → QueuedIdle g
          → all (queued_idle g.edges g.proposals) (map (set_program id status) g.programs) ≡ true
      changed g q =
          all-map (queued_idle g.edges g.proposals) (set_program id status) g.programs
            (set_program-queued_idle g.edges g.proposals ne) q

  -- So does a change of a program's status, unless somebody declares the program queued.
  pub update_program-QueuedIdle :
      (g g' : Graph)
      → (status == program_initial_status) ≡ false
      → QueuedIdle g
      → update_program id status g ≡ ok g'
      → QueuedIdle g'
  unfolding update_program
  update_program-QueuedIdle g g' ne q h =
      write_program-QueuedIdle (find (λ p. nat_eq p.node_id id) g.programs) g g' ne q (
        after-ok (require_kind "program" id (node_kind g id)) _ g'
          (after-ok (known status program_statuses) _ g' h))
