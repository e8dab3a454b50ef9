-- ===== src/Core/Programs/Entering.antt =====
-- What moving a program to `soaking` comes to in crates/korg-core/src/repo/programs.rs.
use mathlib.Core.List.{Mem, mem-cons, not-mem-nil}
use mathlib.Core.Logic.Or
use mathlib.Core.HLevel.{⊥_prop}
use korg.Base.{
  ℕ, String, List, [], ◌∷◌, none, some, Bool, true, false, not, ◌&&◌, ◌||◌, ◌==◌, ◌≡◌, ◌≢◌, refl,
  sym, ap, inl, inr, arith, any, all, find, map, nat_eq, eq_iff, All, Bool-cases, contains,
}
use korg.Core.Vocab.{soaking_status, proposal_terminal_statuses, wi_unfinished_statuses}
use korg.Core.Registry.{soaks_label}
use korg.Core.Graph.{
  Proposal, Program, Edge, Graph, Result, ok, err, unfinished_slices, nothing_to_soak, node_kind,
  after,
}
use korg.Core.Programs.{
  require_kind, terminal_slice, unfinished_soak, check_soaking_entry, entry_check, set_program,
  write_program, update_program,
}
use korg.Core.Programs.Soaking.{
  Ended, Unfinished, Test, Soaks, slices_ended, check_soaking_entry-Soaks, record_transition-Soaks,
  stands, Stands,
}

ended_row :
    (id : ℕ) (e : Edge) (p : Proposal)
    → Ended id e p
    → (not (e.label == "includes" && nat_eq e.left_id id)
        || (not (nat_eq p.node_id e.right_id) || contains proposal_terminal_statuses p.status))
      ≡ true
unfolding contains
ended_row id e p h =
    elim (Bool-cases
      (e.label == "includes" && nat_eq e.left_id id && nat_eq p.node_id e.right_id)) [
        | inr apart ↦ ground arith
        | inl slice ↦
            elim (h (ground (arith, eq_iff e.label "includes")) (ground arith) (ground arith)) [
              | inl done ↦ ground (arith, (eq_iff "done" p.status).1 (sym done))
              | inr declined ↦ ground (arith, (eq_iff "declined" p.status).1 (sym declined))
            ]
      ]

slice_terminal :
    (id : ℕ) (e : Edge) (ps : List Proposal)
    → All (Ended id e) ps
    → (not (e.label == "includes" && nat_eq e.left_id id) || terminal_slice ps e) ≡ true
unfolding terminal_slice
slice_terminal id e [] h = ground arith
slice_terminal id e (p ∷ ps) h = ground (arith, ended_row id e p h.0, slice_terminal id e ps h.1)

slices_terminal :
    (id : ℕ) (ps : List Proposal) (es : List Edge)
    → All (λ e. All (Ended id e) ps) es
    → all (λ e. not (e.label == "includes" && nat_eq e.left_id id) || terminal_slice ps e) es ≡ true
slices_terminal id ps [] h = refl
slices_terminal id ps (e ∷ es) h =
    ground (arith, slice_terminal id e ps h.0, slices_terminal id ps es h.1)

not-mem_of_any :
    {A : Type 0} (p : A → Bool) (x : A) (xs : List A) → any p xs ≡ false → p x ≡ true → Mem x xs → ⊥
not-mem_of_any p x [] n h m = not-mem-nil m
not-mem_of_any p x (y ∷ ys) n h m =
    Or.elim ⊥_prop (mem-cons.0 m) (λ e. absurd (clash y (ap p e) n))
      (λ later. not-mem_of_any p x ys (ground arith) h later)
  where
    clash : (y : _) → p x ≡ p y → (p y || any p ys) ≡ false → ⊥
    clash y e k = ground arith

unfinished_status :
    (status : String) → Unfinished status → contains wi_unfinished_statuses status ≡ true
unfolding contains
unfinished_status status (inl e) = ground (arith, (eq_iff "open" status).1 (sym e))
unfinished_status status (inr (inl e)) = ground (arith, (eq_iff "resolved" status).1 (sym e))
unfinished_status status (inr (inr e)) = ground (arith, (eq_iff "parked" status).1 (sym e))

not-Test :
    (id : ℕ) (g : Graph)
    → any
        (λ e. e.label == soaks_label && nat_eq e.left_id id && unfinished_soak g.work_items e)
        g.edges
      ≡ false
    → ¬ Test g id
not-Test id g n t = elim (Bool-cases (unfinished_soak g.work_items t.edge)) [
  | inl some' ↦
      not-mem_of_any
        (λ e. e.label == soaks_label && nat_eq e.left_id id && unfinished_soak g.work_items e)
        t.edge g.edges n (ground (arith, eq_iff t.edge.label "soaks", t.label, t.left)) t.drawn
  | inr none' ↦
      not-mem_of_any
        (λ w. nat_eq w.node_id t.edge.right_id && contains wi_unfinished_statuses w.wi_status)
        t.item g.work_items (unfold unfinished_soak in none')
        (ground (arith, t.right, unfinished_status t.item.wi_status t.unfinished)) t.present
]

-- What the move comes to: it is done, or it is refused, and why.
pub data Entering (g : Graph) (id : ℕ) : Result Graph → Type 0 where
  entered : {g' : Graph} → Soaks g' id → Entering g id (ok g')
  slices_left :
      ¬ All (λ e. All (Ended id e) g.proposals) g.edges → Entering g id (err (unfinished_slices id))
  no_soak :
      All (λ e. All (Ended id e) g.proposals) g.edges
      → ¬ Test g id
      → Entering g id (err (nothing_to_soak id))

settled :
    (id : ℕ) (g entered_graph : Graph)
    → (check_soaking_entry id g ≡ none → Soaks entered_graph id)
    → Entering g id (after (check_soaking_entry id g) (ok entered_graph))
unfolding check_soaking_entry
settled id g g' k =
    elim (Bool-cases (
      all (λ e. not (e.label == "includes" && nat_eq e.left_id id) || terminal_slice g.proposals e)
        g.edges)) [
          | inr left ↦
              rw (left, check_soaking_entry)
                (slices_left
                  (λ over. absurd (ground (arith, slices_terminal id g.proposals g.edges over))))
          | inl over ↦
              elim (Bool-cases (
                any
                  (λ e.
                    e.label == soaks_label && nat_eq e.left_id id && unfinished_soak g.work_items e)
                  g.edges)) [
                    | inr bare ↦
                        rw (over, bare, check_soaking_entry)
                          (no_soak (slices_ended id g.proposals g.edges over) (not-Test id g bare))
                    | inl test ↦
                        rw (over, test, check_soaking_entry)
                          (entered (k (rw (over, test, check_soaking_entry) refl)))
                  ]
        ]

write-Entering :
    (id : ℕ) (row : Program) (g : Graph)
    → Stands id (map (set_program id soaking_status) g.programs)
    → (row.status == soaking_status) ≡ false
    → Entering g id (write_program id soaking_status (some row) g)
unfolding write_program entry_check
write-Entering id row g there ne =
    rw (ne, entry_check)
      (settled id g _ (λ passed.
        record_transition-Soaks id id row.status soaking_status _
          (check_soaking_entry-Soaks id g there passed)))

-- A program that stands at another status is moved to `soaking`, or refused for what is missing.
-- Where it is moved, it stands at `soaking` afterwards, every proposal that it includes is done or
-- declined, and it soaks at least one work item that is open, resolved or parked. It is refused for
-- its slices only if one of those proposals is neither, and for having nothing to soak only if there
-- is no such work item.
pub update_program-Entering :
    (id : ℕ) (row : Program) (g : Graph)
    → node_kind g id ≡ some "program"
    → find (λ p. nat_eq p.node_id id) g.programs ≡ some row
    → row.status ≢ soaking_status
    → Entering g id (update_program id soaking_status g)
unfolding update_program require_kind contains
update_program-Entering id row g kind found ne =
    rw (kind, found)
      (write-Entering id row g (stands id row g.programs found)
        (ground (arith, eq_iff row.status soaking_status)))
