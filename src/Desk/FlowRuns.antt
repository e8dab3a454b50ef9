-- ===== src/Desk/FlowRuns.antt =====
-- A run of the series of crates/korg-core/src/repo/flow.rs, with days of ten.
use korg.Base.{
  ℕ, ◌*◌, ◌/◌, ◌≤◌, [], ◌∷◌, List, Option, none, some, false, ltb, map, ◌≡◌, refl, arith,
}
use korg.Desk.Tables.{put, some_inj}
use korg.Desk.Flow.{
  Zone, FlowRow, Corpus, arrive, log_move, change, count, first_after, status_before, of_wi,
  first_close, open_before, among, closed_on, flow_day, day_range, flow_dates, split_before,
  work_item_flow,
}
use korg.Desk.Flow.History.{Happening, Lived, log_started, arrived, changed}
use korg.Desk.Flow.Window.{readings, true_series}
use korg.Desk.Flow.Series.{work_item_flow-true_series}

abbrev tens : Zone
tens = record { date = λ t. t / 10; midnight = λ d. d * 10; interval = λ n. n * 10 }

abbrev at_first : ℕ → Option FlowRow
at_first = put 1 (record { created = 92; archived = false; wi_status = "open" }) (λ i. none)

abbrev at_start : Corpus
at_start = record { rows = at_first; moves = []; next_node = 2 }

-- The first item is closed, opened again, and closed.
abbrev at_last : Corpus
at_last =
    change 133 1 "closed" (change 121 1 "open" (change 112 1 "closed" (arrive 105 "open" at_start)))

abbrev happened : List Happening
happened =
    record { at = 133; id = 1; status = "closed" }
    ∷ (record { at = 121; id = 1; status = "open" }
        ∷ (record { at = 112; id = 1; status = "closed" }
            ∷ (record { at = 105; id = 2; status = "open" } ∷ [])))

at_last-Lived : Lived 100 at_first 2 happened 133 at_last
unfolding arrive change log_move
at_last-Lived = changed 133 1 "closed" (omega arith) refl (
    changed 121 1 "open" (omega arith) refl
      (changed 112 1 "closed" (omega arith) refl (arrived 105 "open" (omega arith) log_started)))

at_first-fresh : (id : ℕ) → ltb id 2 ≡ false → at_first id ≡ none
at_first-fresh id past = ground arith

at_first-born : (id : ℕ) (w : FlowRow) → at_first id ≡ some w → w.created ≤ 100
at_first-born id w row = ground (arith, some_inj {b = w})

-- An item that is opened again counts twice as closed: of two open items and no arrival, two close, and
-- one is open.
reopened :
    map {B = ℕ × ℕ}
      (λ r. (r.closed, r.backlog))
      ((work_item_flow tens 10 135 (some 3) at_last).days)
    ≡ (1, 1) ∷ ((0, 2) ∷ ((1, 1) ∷ []))
unfolding work_item_flow flow_dates day_range flow_day split_before among count of_wi open_before
    status_before first_after closed_on first_close arrive change log_move
reopened = refl

work_item_flow-true_series_example :
    readings (work_item_flow tens 10 135 (some 3) at_last)
    ≡ true_series tens at_first happened at_last 10 13 3
work_item_flow-true_series_example =
    work_item_flow-true_series tens 135 10 (some 3) (λ a b h. omega arith) at_first-fresh
      at_first-born (omega arith) (omega arith) at_last-Lived
