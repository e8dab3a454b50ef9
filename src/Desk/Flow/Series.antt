-- ===== src/Desk/Flow/Series.antt =====
-- The whole series of crates/korg-core/src/repo/flow.rs.
use korg.Base.{
  ℕ, suc, ◌+◌, ◌-◌, min, max, ◌≤◌, ◌<◌, List, Option, none, some, true, false, ltb, map, unwrap_or,
  ◌≡◌, refl, subst, arith, sym, Bool-cases, inl, inr,
}
use korg.Desk.Flow.{
  Zone, FlowRow, Corpus, flow_day, day_range, flow_dates, split_before, work_item_flow,
  flow_days_default,
}
use korg.Desk.Flow.History.{Happening, Lived}
use korg.Desk.Flow.Arrivals.{Honest}
use korg.Desk.Flow.Honest.{Lived-Honest}
use korg.Desk.Flow.Window.{
  readings, truth, open_at_end, true_series, length_days, flow_dates-within, flow_dates-clamped,
  reading-truth, backlog-open_at_end, split_before-fits, split_before-more,
}

min_below : (a b : ℕ) → a < b → min a b ≡ a
min_below a b h = omega arith

min_above : (a b : ℕ) → b ≤ a → min a b ≡ b
min_above a b h = omega arith

starts_later :
    (horizon today days : ℕ)
    → horizon ≤ today
    → days < today - horizon + 1
    → ltb horizon (suc today - days) ≡ true
starts_later horizon today days reached h = ground arith

last_day_before :
    (horizon today days : ℕ) → days < today - horizon + 1 → suc today - days - 1 ≡ today - days
last_day_before horizon today days h = omega arith

first_day : (horizon today : ℕ) → horizon ≤ today → suc today - (today - horizon + 1) ≡ horizon
first_day horizon today h = omega arith

not_later : (horizon : ℕ) → ltb horizon horizon ≡ false
not_later horizon = ground arith

all_days : (horizon today : ℕ) → horizon ≤ today → today - horizon + 1 ≡ suc today - horizon
all_days horizon today h = omega arith

module _ (z : Zone) (begun : ℕ → Option FlowRow) (hs : List Happening) (c : Corpus)
    (horizon today days : ℕ) where
  true_series-within :
      horizon ≤ today
      → days < today - horizon + 1
      → true_series z begun hs c horizon today days ≡ (
        map (truth z begun hs c) (day_range (suc today - days) days),
        some (open_at_end z begun hs c (today - days)),
      )
  unfolding true_series
  true_series-within reached within =
      rw
        (
          min_below days (today - horizon + 1) within,
          starts_later horizon today days reached within,
          last_day_before horizon today days within,
        )
        refl

  true_series-clamped :
      horizon ≤ today
      → today - horizon + 1 ≤ days
      → true_series z begun hs c horizon today days
        ≡ (map (truth z begun hs c) (day_range horizon (suc today - horizon)), none)
  unfolding true_series
  true_series-clamped reached over =
      rw
        (
          min_above days (today - horizon + 1) over,
          first_day horizon today reached,
          not_later horizon,
          all_days horizon today reached,
        )
        refl

module _ {start : ℕ} {begun : ℕ → Option FlowRow} {hs : List Happening} {clock : ℕ} {c : Corpus}
    (kept : Honest start begun hs clock c) (z : Zone) (now horizon days : ℕ)
    (later : (a b : ℕ) → a ≤ b → z.midnight a ≤ z.midnight b) (reached : horizon ≤ z.date now)
    (logs : start < z.midnight (suc horizon)) where
  logs_from : (day : ℕ) → horizon ≤ day → start < z.midnight (suc day)
  logs_from day h = omega (arith, later (suc horizon) (suc day) (omega arith), logs)

  -- Of a window within what the log answers for.
  within-true_series :
      1 ≤ days
      → days < z.date now - horizon + 1
      → readings (split_before days (map (flow_day z now c) (flow_dates horizon (z.date now) days)))
        ≡ true_series z begun hs c horizon (z.date now) days
  within-true_series some_days within =
      rw
        (
          flow_dates-within horizon (z.date now) days reached some_days within,
          true_series-within z begun hs c horizon (z.date now) days reached within,
          split_before-more days (flow_day z now c (z.date now - days))
              (map (flow_day z now c) (day_range (suc (z.date now) - days) days))
              (length_days (flow_day z now c) (suc (z.date now) - days) days),
          reading-truth kept z now later (suc (z.date now) - days) days
              (logs_from (suc (z.date now) - days) (omega arith)),
          backlog-open_at_end kept z now (z.date now - days)
              (logs_from (z.date now - days) (omega arith)),
        )
        refl

  clamped-true_series :
      z.date now - horizon + 1 ≤ days
      → readings (split_before days (map (flow_day z now c) (flow_dates horizon (z.date now) days)))
        ≡ true_series z begun hs c horizon (z.date now) days
  clamped-true_series over =
      rw
        (
          flow_dates-clamped horizon (z.date now) days reached over,
          true_series-clamped z begun hs c horizon (z.date now) days reached over,
          split_before-fits days
              (map (flow_day z now c) (day_range horizon (suc (z.date now) - horizon)))
              (subst (λ n. n ≤ days)
                (sym (length_days (flow_day z now c) horizon (suc (z.date now) - horizon)))
                (omega arith)),
          reading-truth kept z now later horizon (suc (z.date now) - horizon) logs,
        )
        refl

-- Whatever happened since the log of transitions was started, the series shows what was: the last
-- days that were asked for and that the log answers for, today the last, and for each the number of
-- the work items that were not closed at its end; and that of the day before them, unless the log
-- starts on the first. Items that are archived now are not counted.
pub work_item_flow-true_series :
    {start first_node : ℕ} {begun : ℕ → Option FlowRow} {hs : List Happening} {clock : ℕ}
    {c : Corpus} (z : Zone) (now horizon : ℕ) (days : Option ℕ)
    → ((a b : ℕ) → a ≤ b → z.midnight a ≤ z.midnight b)
    → ((id : ℕ) → ltb id first_node ≡ false → begun id ≡ none)
    → ((id : ℕ) (w : FlowRow) → begun id ≡ some w → w.created ≤ start)
    → horizon ≤ z.date now
    → start < z.midnight (suc horizon)
    → Lived start begun first_node hs clock c
    → readings (work_item_flow z horizon now days c)
      ≡ true_series z begun hs c horizon (z.date now) (max (unwrap_or days flow_days_default) 1)
unfolding work_item_flow
work_item_flow-true_series z now horizon days later fresh born reached logs lived =
    let window = max (unwrap_or days flow_days_default) 1 in
    elim (Bool-cases (ltb window (z.date now - horizon + 1))) [
      | inl within ↦
          within-true_series (Lived-Honest fresh born lived) z now horizon window later reached logs
            (omega arith) (ground arith)
      | inr over ↦
          clamped-true_series (Lived-Honest fresh born lived) z now horizon window later reached
            logs (ground arith)
    ]
