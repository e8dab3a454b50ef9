-- ===== src/Desk/Flow/Arrivals.antt =====
-- That the log of transitions tells what happened, for flow.rs of crates/korg-core/src/repo, and that a new
-- work item keeps it.
use korg.Base.{
  ℕ, ◌≤◌, ◌<◌, String, List, ◌∷◌, Option, none, some, true, false, nat_eq, leb, ltb, all, ◌≡◌,
  subst, arith, sym, ◌∙◌, Bool-cases, inl, inr,
}
use korg.Desk.Tables.{eq_of_nat_eq, some_inj}
use korg.Desk.Flow.{FlowRow, Corpus, arrive, status_before}
use korg.Desk.Flow.History.{Happening, status_then, read_before}
use korg.Desk.Flow.Rows.{first_after_unnumbered, all_later, all_wider}

-- What is kept while things happen: rows of the log are of the past and of nodes there are, and what
-- is read off it before a time is what was.
pub record Honest (start : ℕ) (begun : ℕ → Option FlowRow) (hs : List Happening) (clock : ℕ)
    (c : Corpus) : Type 0 where
  pub logged : all (λ m. leb m.at clock) c.moves ≡ true
  pub numbered : all (λ m. ltb m.node_id c.next_node) c.moves ≡ true
  pub fresh : (id : ℕ) → ltb id c.next_node ≡ false → c.rows id ≡ none
  pub born : (id : ℕ) (w : FlowRow) → c.rows id ≡ some w → w.created ≤ clock
  pub told :
      (cut id : ℕ) → start < cut → read_before c cut id (c.rows id) ≡ status_then begun hs cut id

module _ {start : ℕ} {begun : ℕ → Option FlowRow} {hs : List Happening} {clock : ℕ} {c : Corpus}
    (kept : Honest start begun hs clock c) where
  arrive-born :
      (now : ℕ) (status : String) (id : ℕ) (w : FlowRow)
      → clock ≤ now
      → (arrive now status c).rows id ≡ some w
      → w.created ≤ now
  unfolding arrive
  arrive-born now status id w later row = elim (Bool-cases (nat_eq id c.next_node)) [
    | inl new ↦ ground (arith, some_inj {b = w})
    | inr old ↦ ground (arith, kept.born id w)
  ]

  arrive-told :
      (now : ℕ) (status : String) (cut id : ℕ)
      → start < cut
      → read_before (arrive now status c) cut id ((arrive now status c).rows id)
        ≡ status_then begun (record { at = now; id = c.next_node; status = status } ∷ hs) cut id
  unfolding arrive status_before
  arrive-told now status cut id past = elim (Bool-cases (nat_eq id c.next_node)) [
    | inl new ↦ ground (
      arith,
      kept.told cut id past,
      kept.fresh id,
      first_after_unnumbered cut id c.moves (
          subst (λ n. all (λ m. ltb m.node_id n) c.moves ≡ true)
            (sym (eq_of_nat_eq id c.next_node new)) kept.numbered),
    )
    | inr old ↦ rw old (kept.told cut id past ∙ ground arith)
  ]

  pub arrive-Honest :
      (now : ℕ) (status : String)
      → clock ≤ now
      → Honest start begun
          (record { at = now; id = c.next_node; status = status } ∷ hs)
          now
          (arrive now status c)
  unfolding arrive
  arrive-Honest now status later = record {
    logged = all_later c.moves clock now later kept.logged;
    numbered = all_wider c.moves c.next_node kept.numbered;
    fresh = λ id past. ground (arith, kept.fresh id);
    born = λ id w row. arrive-born now status id w later row;
    told = arrive-told now status;
  }
