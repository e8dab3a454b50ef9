-- ===== src/Core/Programs/Soaking.antt =====
-- What `soaking` says of a program in crates/korg-core/src/repo/programs.rs, and that the entry check and
-- the write of `update_program` make it so.
use mathlib.Core.List.{Mem, mem-cons_self, mem-cons_of_mem}
use korg.Base.{
  refl, ℕ, String, List, [], ◌∷◌, none, some, true, not, ◌&&◌, ◌||◌, ◌==◌, ◌≡◌, inl, inr, ◌⊎◌,
  arith, any, all, find, map, nat_eq, eq_iff, All, Bool-cases, contains,
}
use korg.Core.Vocab.{soaking_status, proposal_terminal_statuses, wi_unfinished_statuses}
use korg.Core.Registry.{soaks_label}
use korg.Core.Graph.{WorkItem, Proposal, Program, Edge, Graph}
use korg.Core.Programs.{
  terminal_slice, unfinished_soak, check_soaking_entry, set_program, record_transition,
}

-- A slice of the program that has ended: the proposal at the right end of an `includes` edge.
abbrev pub Ended : ℕ → Edge → Proposal → Type 0
Ended id e p =
    e.label ≡ "includes"
    → e.left_id ≡ id
    → p.node_id ≡ e.right_id
    → (p.status ≡ "done") ⊎ (p.status ≡ "declined")

-- The status of a work item that is not finished.
abbrev pub Unfinished : String → Type 0
Unfinished status = (status ≡ "open") ⊎ ((status ≡ "resolved") ⊎ (status ≡ "parked"))

-- A work item at the right end of a `soaks` edge of the program, not finished.
pub record Test (g : Graph) (id : ℕ) : Type 0 where
  pub edge : Edge
  pub item : WorkItem
  pub drawn : Mem edge g.edges
  pub present : Mem item g.work_items
  pub label : edge.label ≡ "soaks"
  pub left : edge.left_id ≡ id
  pub right : item.node_id ≡ edge.right_id
  pub unfinished : Unfinished item.wi_status

-- A row of the program, at `soaking`.
abbrev pub Stands : ℕ → List Program → Type 0
Stands id ps = (p : Program) × Mem p ps × (p.node_id ≡ id) × (p.status ≡ "soaking")

-- What `soaking` says of a program.
pub record Soaks (g : Graph) (id : ℕ) : Type 0 where
  pub slices : All (λ e. All (Ended id e) g.proposals) g.edges
  pub test : Test g id
  pub stands : Stands id g.programs
  pub status : All (λ p. p.node_id ≡ id → p.status ≡ "soaking") g.programs

ended :
    (id : ℕ) (e : Edge) (p : Proposal)
    → (not (e.label == "includes" && nat_eq e.left_id id)
        || (not (nat_eq p.node_id e.right_id) || contains proposal_terminal_statuses p.status))
      ≡ true
    → Ended id e p
unfolding contains
ended id e p h label left right = elim (Bool-cases (p.status == "done")) [
  | inl done ↦ inl (ground (arith, eq_iff p.status "done"))
  | inr other ↦ inr (
      ground (
        arith,
        eq_iff e.label "includes",
        eq_iff p.status "done",
        eq_iff p.status "declined",
        eq_iff "done" p.status,
        eq_iff "declined" p.status,
      ))
]

all_ended :
    (id : ℕ) (e : Edge) (ps : List Proposal)
    → (not (e.label == "includes" && nat_eq e.left_id id) || terminal_slice ps e) ≡ true
    → All (Ended id e) ps
unfolding terminal_slice
all_ended id e [] h = tt
all_ended id e (p ∷ ps) h = (ended id e p (ground arith), all_ended id e ps (ground arith))

pub slices_ended :
    (id : ℕ) (ps : List Proposal) (es : List Edge)
    → all (λ e. not (e.label == "includes" && nat_eq e.left_id id) || terminal_slice ps e) es ≡ true
    → All (λ e. All (Ended id e) ps) es
slices_ended id ps [] h = tt
slices_ended id ps (e ∷ es) h =
    (all_ended id e ps (ground arith), slices_ended id ps es (ground arith))

unfinished : (status : String) → contains wi_unfinished_statuses status ≡ true → Unfinished status
unfolding contains
unfinished status h = elim (Bool-cases (status == "open")) [
  | inl open' ↦ inl (ground (arith, eq_iff status "open"))
  | inr not_open ↦ elim (Bool-cases (status == "resolved")) [
    | inl resolved ↦ inr (inl (ground (arith, eq_iff status "resolved")))
    | inr other ↦ inr (
        inr (
          ground (
            arith,
            eq_iff status "parked",
            eq_iff "open" status,
            eq_iff "resolved" status,
            eq_iff "parked" status,
            eq_iff status "open",
            eq_iff status "resolved",
          )))
  ]
]

soaked :
    (e : Edge) (ws : List WorkItem)
    → unfinished_soak ws e ≡ true
    → (w : WorkItem) × Mem w ws × (w.node_id ≡ e.right_id) × Unfinished w.wi_status
unfolding unfinished_soak
soaked e [] h = cc
soaked e (w ∷ ws) h =
    elim (Bool-cases (nat_eq w.node_id e.right_id && contains wi_unfinished_statuses w.wi_status)) [
      | inl here ↦ (w, mem-cons_self, ground arith, unfinished w.wi_status (ground arith))
      | inr later ↦
          let (item, m, right, u) = soaked e ws (ground arith) in
          (item, mem-cons_of_mem w m, right, u)
    ]

tested :
    (id : ℕ) (ws : List WorkItem) (es : List Edge)
    → any (λ e. e.label == soaks_label && nat_eq e.left_id id && unfinished_soak ws e) es ≡ true
    → (e : Edge) × (w : WorkItem) × Mem e es
      × Mem w ws
      × (e.label ≡ "soaks")
      × (e.left_id ≡ id)
      × (w.node_id ≡ e.right_id)
      × Unfinished w.wi_status
tested id ws [] h = cc
tested id ws (e ∷ es) h =
    elim (Bool-cases (e.label == soaks_label && nat_eq e.left_id id && unfinished_soak ws e)) [
      | inl here ↦
          let (w, m, right, u) = soaked e ws (ground arith) in
          (e, w, mem-cons_self, m, ground (arith, eq_iff e.label "soaks"), ground arith, right, u)
      | inr later ↦
          let (edge, w, drawn, m, label, left, right, u) = tested id ws es (ground arith) in
          (edge, w, mem-cons_of_mem e drawn, m, label, left, right, u)
    ]

written :
    (id : ℕ) (ps : List Program)
    → All (λ p. p.node_id ≡ id → p.status ≡ "soaking") (map (set_program id soaking_status) ps)
unfolding set_program
written id [] = tt
written id (p ∷ ps) = (λ e. ground arith, written id ps)

pub stands :
    (id : ℕ) (row : Program) (ps : List Program)
    → find (λ p. nat_eq p.node_id id) ps ≡ some row
    → Stands id (map (set_program id soaking_status) ps)
unfolding set_program
stands id row [] h = cc
stands id row (p ∷ ps) h = elim (Bool-cases (nat_eq p.node_id id)) [
  | inl here ↦
      (set_program id soaking_status p, mem-cons_self, ground arith, rw (here, set_program) refl)
  | inr later ↦
      let (q, m, own, status) = stands id row ps (ground arith) in
      (q, mem-cons_of_mem _ m, own, status)
]

pub check_soaking_entry-Soaks :
    (id : ℕ) (g : Graph)
    → Stands id (map (set_program id soaking_status) g.programs)
    → check_soaking_entry id g ≡ none
    → Soaks (record g { programs = map (set_program id soaking_status) g.programs }) id
unfolding check_soaking_entry
check_soaking_entry-Soaks id g there h =
    let (edge, item, drawn, present, label, left, right, u) =
      tested id g.work_items g.edges (ground arith) in
    record {
      slices = slices_ended id g.proposals g.edges (ground arith);
      test = record {
        edge = edge;
        item = item;
        drawn = drawn;
        present = present;
        label = label;
        left = left;
        right = right;
        unfinished = u;
      };
      stands = there;
      status = written id g.programs;
    }

pub record_transition-Soaks :
    (id row : ℕ) (before after' : String) (g : Graph)
    → Soaks g id
    → Soaks (record_transition row before after' g) id
unfolding record_transition
record_transition-Soaks id row before after' g k = elim (Bool-cases (before == after')) [
  | inl still ↦ rw (still, record_transition) k
  | inr moved ↦
      rw (moved, record_transition)
        (record {
          slices = k.slices;
          test = record {
            edge = k.test.edge;
            item = k.test.item;
            drawn = k.test.drawn;
            present = k.test.present;
            label = k.test.label;
            left = k.test.left;
            right = k.test.right;
            unfinished = k.test.unfinished;
          };
          stands = k.stands;
          status = k.status;
        })
]
