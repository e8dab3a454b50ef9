-- ===== src/Desk/Flow/Honest.antt =====
-- That the log of transitions tells what happened, for flow.rs of crates/korg-core/src/repo.
use korg.Base.{
  ℕ, ◌≤◌, ◌<◌, String, List, [], ◌∷◌, Option, none, some, Bool, true, false, nat_eq, leb, ltb, all,
  ◌≡◌, refl, subst, arith, sym, ◌∙◌, Bool-cases, Option-cases, inl, inr,
}
use korg.Desk.Tables.{alter, eq_of_nat_eq, some_inj}
use korg.Desk.Flow.{FlowRow, Corpus, log_move, change, hide, first_after, status_before}
use korg.Desk.Flow.History.{
  Happening, initial, status_then, Lived, log_started, arrived, changed, hidden, read_before,
}
use korg.Desk.Flow.Rows.{
  all_later, nat_eq_flip, first_after-log_move_other, status-log_move_before, status-log_move_after,
}
use korg.Desk.Flow.Arrivals.{Honest, arrive-Honest}

module _ {start : ℕ} {begun : ℕ → Option FlowRow} {hs : List Happening} {clock : ℕ} {c : Corpus}
    (kept : Honest start begun hs clock c) where
  -- The corpus after a change of the work item of a row.
  abbrev after_change : ℕ → ℕ → String → FlowRow → Corpus
  after_change now id status w = record c {
    rows = alter id (λ r. record r { wi_status = status }) c.rows;
    moves = log_move now id w.wi_status status c.moves;
  }

  change-eq :
      (now id : ℕ) (status : String) {w : FlowRow}
      → c.rows id ≡ some w
      → change now id status c ≡ after_change now id status w
  unfolding change
  change-eq now id status row = rw (row, change) refl

  change-logged :
      (now id : ℕ) (status : String) (w : FlowRow)
      → clock ≤ now
      → all (λ m. leb m.at now) (after_change now id status w).moves ≡ true
  unfolding log_move
  change-logged now id status w later =
      ground (arith, all_later c.moves clock now later kept.logged)

  numbered_id : (id : ℕ) {w : FlowRow} → c.rows id ≡ some w → ltb id c.next_node ≡ true
  numbered_id id row = elim (Bool-cases (ltb id c.next_node)) [
    | inl old ↦ old
    | inr new ↦ ground (arith, kept.fresh id new)
  ]

  change-numbered :
      (now id : ℕ) (status : String) (w : FlowRow)
      → c.rows id ≡ some w
      → all (λ m. ltb m.node_id c.next_node) (after_change now id status w).moves ≡ true
  unfolding log_move
  change-numbered now id status w row = ground (arith, kept.numbered, numbered_id id row)

  change-born :
      (now id : ℕ) (status : String) (w : FlowRow)
      → clock ≤ now
      → (i : ℕ) (r : FlowRow) → (after_change now id status w).rows i ≡ some r
      → r.created ≤ now
  change-born now id status w later i r row = elim (Option-cases (c.rows i)) [
    | inl absent ↦ ground arith
    | inr (old, found) ↦ ground (arith, kept.born i old found, some_inj {b = r})
  ]

  change-told_other :
      (now id : ℕ) (status : String) (w : FlowRow) (cut i : ℕ)
      → start < cut
      → nat_eq i id ≡ false
      → read_before (after_change now id status w) cut i ((after_change now id status w).rows i)
        ≡ status_then begun (record { at = now; id = id; status = status } ∷ hs) cut i
  unfolding status_before
  change-told_other now id status w cut i past other = elim (Option-cases (c.rows i)) [
    | inl absent ↦ ground (arith, kept.told cut i past)
    | inr (r, found) ↦ ground (
      arith,
      kept.told cut i past,
      first_after-log_move_other cut i now id w.wi_status status c.moves (nat_eq_flip i id other),
    )
  ]

  change-told_self :
      (now id : ℕ) (status : String) (w : FlowRow) (cut : ℕ)
      → clock ≤ now
      → c.rows id ≡ some w
      → start < cut
      → read_before (after_change now id status w) cut id ((after_change now id status w).rows id)
        ≡ status_then begun (record { at = now; id = id; status = status } ∷ hs) cut id
  unfolding status_before
  change-told_self now id status w cut later row past = elim (Bool-cases (ltb now cut)) [
    | inl after ↦ ground (
      arith,
      kept.born id w row,
      status-log_move_after cut now id w.wi_status status c.moves
          (all_later c.moves clock now later kept.logged),
    )
    | inr before ↦ ground (
      arith,
      kept.told cut id past,
      status-log_move_before cut now id w.wi_status status c.moves
          (all_later c.moves clock now later kept.logged),
    )
  ]

  change-told :
      (now id : ℕ) (status : String) (w : FlowRow)
      → clock ≤ now
      → c.rows id ≡ some w
      → (cut i : ℕ) → start < cut
      → read_before (after_change now id status w) cut i ((after_change now id status w).rows i)
        ≡ status_then begun (record { at = now; id = id; status = status } ∷ hs) cut i
  change-told now id status w later row cut i past = elim (Bool-cases (nat_eq i id)) [
    | inl self ↦
        subst
          (λ j.
            read_before (after_change now id status w) cut j ((after_change now id status w).rows j)
            ≡ status_then begun (record { at = now; id = id; status = status } ∷ hs) cut j)
          (sym (eq_of_nat_eq i id self)) (change-told_self now id status w cut later row past)
    | inr other ↦ change-told_other now id status w cut i past other
  ]

  change-Honest :
      (now id : ℕ) (status : String) {w : FlowRow}
      → clock ≤ now
      → c.rows id ≡ some w
      → Honest start begun
          (record { at = now; id = id; status = status } ∷ hs)
          now
          (change now id status c)
  change-Honest now id status {w = w} later row =
      subst (Honest start begun (record { at = now; id = id; status = status } ∷ hs) now)
        (sym (change-eq now id status row))
        (record {
          logged = change-logged now id status w later;
          numbered = change-numbered now id status w row;
          fresh = λ i past. ground (arith, kept.fresh i);
          born = change-born now id status w later;
          told = change-told now id status w later row;
        })

  hide-told :
      (id : ℕ) (archived : Bool) (cut i : ℕ)
      → read_before (hide id archived c) cut i ((hide id archived c).rows i)
        ≡ read_before c cut i (c.rows i)
  unfolding hide status_before
  hide-told id archived cut i = elim (Option-cases (c.rows i)) [
    | inl absent ↦ ground arith
    | inr (r, found) ↦ ground arith
  ]

  hide-Honest : (id : ℕ) (archived : Bool) → Honest start begun hs clock (hide id archived c)
  unfolding hide
  hide-Honest id archived = record {
    logged = kept.logged;
    numbered = kept.numbered;
    fresh = λ i past. ground (arith, kept.fresh i);
    born = λ i w row. elim (Option-cases (c.rows i)) [
      | inl absent ↦ ground arith
      | inr (old, found) ↦ ground (arith, kept.born i old found, some_inj {b = w})
    ];
    told = λ cut i past. hide-told id archived cut i ∙ kept.told cut i past;
  }

begun-told :
    (begun : ℕ → Option FlowRow) (start first_node cut id : ℕ)
    → ((i : ℕ) (w : FlowRow) → begun i ≡ some w → w.created ≤ start)
    → start < cut
    → read_before (record { rows = begun; moves = []; next_node = first_node }) cut id (begun id)
      ≡ initial (begun id)
unfolding status_before first_after
begun-told begun start first_node cut id born past = elim (Option-cases (begun id)) [
  | inl absent ↦ ground arith
  | inr (w, found) ↦ ground (arith, born id w found)
]

-- Whatever happened, the log tells it.
pub Lived-Honest :
    {start first_node : ℕ} {begun : ℕ → Option FlowRow} {hs : List Happening} {clock : ℕ}
    {c : Corpus}
    → ((id : ℕ) → ltb id first_node ≡ false → begun id ≡ none)
    → ((id : ℕ) (w : FlowRow) → begun id ≡ some w → w.created ≤ start)
    → Lived start begun first_node hs clock c
    → Honest start begun hs clock c
Lived-Honest {start = start} {first_node = first_node} {begun = begun} fresh born log_started =
    record {
      logged = refl;
      numbered = refl;
      fresh = fresh;
      born = born;
      told = λ cut id past. begun-told begun start first_node cut id born past;
    }
Lived-Honest fresh born (arrived now status later past) =
    arrive-Honest (Lived-Honest fresh born past) now status later
Lived-Honest fresh born (changed now id status later row past) =
    change-Honest (Lived-Honest fresh born past) now id status later row
Lived-Honest fresh born (hidden id archived past) =
    hide-Honest (Lived-Honest fresh born past) id archived
