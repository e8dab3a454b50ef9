-- ===== src/Core/Relate/Slices.antt =====
-- `relate` and `unrelate` of crates/korg-core keep what `queued` says of a program.
use korg.Base.{
  ℕ, String, List, [], ◌∷◌, Option, none, some, Bool, true, false, not, ◌==◌, ◌≡◌, refl, inl, inr,
  arith, all, map, retain, nat_eq, Bool-cases, find,
}
use korg.Core.Registry.{LabelSpec}
use korg.Core.Graph.{Proposal, Program, Decimal, Edge, Graph, ok, linked}
use korg.Core.Programs.Queued.{idle, queued_idle, QueuedIdle, due, all_implied, promote-QueuedIdle}
use korg.Core.Relate.Stored.{relate-stored}
use korg.Core.Relate.{same, rerank, upsert, write, store, relate, drop_edge, unrelate}

nat_eq_refl : (a : ℕ) → nat_eq a a ≡ true
nat_eq_refl a = ground arith

module _ (left right : ℕ) (label : String) (origin : Option String) (rank : Option Decimal) where
  new_edge : ℕ → Edge
  new_edge id = record {
    id = id;
    left_id = left;
    right_id = right;
    label = label;
    origin = origin;
    rank = rank;
  }

  due-new_edge :
      (id : ℕ) (edges : List Edge) (ps : List Proposal) (p : Program)
      → queued_idle edges ps p ≡ true
      → due (new_edge id ∷ edges) ps right p ≡ true
  unfolding due queued_idle idle linked new_edge
  due-new_edge id edges ps p h = ground (arith, nat_eq_refl right)

  other-new_edge :
      (id : ℕ) (edges : List Edge) (ps : List Proposal)
      → (label == "includes") ≡ false
      → (p : Program) → queued_idle edges ps p ≡ true
      → queued_idle (new_edge id ∷ edges) ps p ≡ true
  unfolding queued_idle idle new_edge
  other-new_edge id edges ps other p h = ground arith

  idle-rerank :
      (f : Edge → Bool) (edges : List Edge) (ps : List Proposal) (program : ℕ)
      → idle (map (rerank f rank) edges) ps program ≡ idle edges ps program
  unfolding idle rerank
  idle-rerank f [] ps program = refl
  idle-rerank f (e ∷ edges) ps program = elim (Bool-cases (f e)) [
    | inl hit ↦ rw (hit, rerank) (rw (idle-rerank f edges ps program) refl)
    | inr miss ↦ rw (miss, rerank) (rw (idle-rerank f edges ps program) refl)
  ]

  queued_idle-rerank :
      (f : Edge → Bool) (edges : List Edge) (ps : List Proposal) (p : Program)
      → queued_idle edges ps p ≡ true
      → queued_idle (map (rerank f rank) edges) ps p ≡ true
  unfolding queued_idle
  queued_idle-rerank f edges ps p h = rw (idle-rerank f edges ps p.node_id) h

  due_of_queued_idle :
      (edges : List Edge) (ps : List Proposal) (p : Program)
      → queued_idle edges ps p ≡ true
      → due edges ps right p ≡ true
  unfolding due
  due_of_queued_idle edges ps p h = ground arith

  upsert-due :
      (o : Option Edge) (g : Graph)
      → QueuedIdle g
      → all (due (upsert left right label origin rank o g).0.edges g.proposals right) g.programs
        ≡ true
  unfolding upsert
  upsert-due (some e) g q =
      all_implied (queued_idle g.edges g.proposals) _ g.programs
        (λ p h.
          due_of_queued_idle (map (rerank (same left right label) rank) g.edges) g.proposals p
            (queued_idle-rerank (same left right label) g.edges g.proposals p h))
        q
  upsert-due none g q =
      all_implied (queued_idle g.edges g.proposals) _ g.programs
        (unfold new_edge in due-new_edge g.next_edge g.edges g.proposals) q

  upsert-QueuedIdle :
      (o : Option Edge) (g : Graph)
      → (label == "includes") ≡ false
      → QueuedIdle g
      → QueuedIdle (upsert left right label origin rank o g).0
  unfolding upsert
  upsert-QueuedIdle (some e) g other q =
      all_implied (queued_idle g.edges g.proposals) _ g.programs
        (queued_idle-rerank (same left right label) g.edges g.proposals) q
  upsert-QueuedIdle none g other q =
      all_implied (queued_idle g.edges g.proposals) _ g.programs
        (unfold new_edge in other-new_edge g.next_edge g.edges g.proposals other) q

  upsert-programs :
      (o : Option Edge) (g : Graph)
      → ((upsert left right label origin rank o g).0.programs ≡ g.programs)
        × ((upsert left right label origin rank o g).0.proposals ≡ g.proposals)
  unfolding upsert
  upsert-programs none g = (refl, refl)
  upsert-programs (some e) g = (refl, refl)

  write-QueuedIdle :
      (g : Graph) → QueuedIdle g → QueuedIdle (write left right label origin rank g).0
  unfolding write
  write-QueuedIdle g q =
      let o = find (same left right label) g.edges in
      let g1 = (upsert left right label origin rank o g).0 in
      elim (Bool-cases (label == "includes")) [
        | inl slice ↦
            rw (slice, write)
              (promote-QueuedIdle right g1
                (rw ((upsert-programs o g).0, (upsert-programs o g).1) (upsert-due o g q)))
        | inr other ↦ rw (other, write) (upsert-QueuedIdle o g other q)
      ]

  store-QueuedIdle :
      (sp : LabelSpec) (o : Option Edge) (g : Graph)
      → QueuedIdle g
      → QueuedIdle (store left right label origin rank sp o g).0
  unfolding store
  store-QueuedIdle sp none g q = write-QueuedIdle g q
  store-QueuedIdle sp (some e) g q = elim (Bool-cases sp.directed) [
    | inl directed ↦ rw (directed, store) (write-QueuedIdle g q)
    | inr mirrored ↦ rw (mirrored, store) q
  ]

  pub relate-QueuedIdle :
      (g : Graph) (r : Graph × ℕ)
      → QueuedIdle g
      → relate left right label origin rank g ≡ ok r
      → QueuedIdle r.0
  relate-QueuedIdle g r q h =
      let (sp, known, stored) = relate-stored left right label origin rank g r h in
      rw (← stored) (store-QueuedIdle sp (find (same right left label) g.edges) g q)

idle-retain :
    (f : Edge → Bool) (edges : List Edge) (ps : List Proposal) (program : ℕ)
    → idle edges ps program ≡ true
    → idle (retain f edges) ps program ≡ true
unfolding idle retain
idle-retain f [] ps program h = refl
idle-retain f (e ∷ edges) ps program h = ground (arith, idle-retain f edges ps program)

pub unrelate-QueuedIdle : (id : ℕ) (g : Graph) → QueuedIdle g → QueuedIdle (unrelate id g).0
unfolding unrelate drop_edge queued_idle
unrelate-QueuedIdle id g q = dropped (find (λ e. nat_eq e.id id) g.edges)
  where
    dropped : (o : Option Edge) → QueuedIdle (drop_edge id o g).0
    dropped none = q
    dropped (some e) =
        all_implied (queued_idle g.edges g.proposals) _ g.programs
          (λ p h.
            ground (arith, idle-retain (λ d. not (nat_eq d.id id)) g.edges g.proposals p.node_id))
          q
