-- ===== src/Desk/Flow/Window.antt =====
-- The days of the series of crates/korg-core/src/repo/flow.rs, and what was open at their ends.
use korg.Base.{
  ℕ, zero, suc, ◌+◌, ◌-◌, min, max, ◌≤◌, ◌<◌, List, [], ◌∷◌, String, Option, none, some, Bool,
  false, not, ◌&&◌, ◌==◌, if◌then◌else◌, ltb, map, length, ◌≡◌, refl, ap, arith, ◌∙◌,
}
use korg.Desk.Flow.{
  Zone, FlowRow, Corpus, FlowDay, FlowSeries, count, of_wi, open_before, among, flow_day, day_range,
  flow_dates, split_before,
}
use korg.Desk.Flow.History.{Happening, status_then, read_before}
use korg.Desk.Flow.Arrivals.{Honest}

abbrev pub still_open : Option FlowRow → Option String → Bool
still_open none was = false
still_open (some w) none = false
still_open (some w) (some s) = not w.archived && not (s == "closed")

-- The number of the work items that were not closed at the end of a day, by what happened. A node that
-- is archived now is not counted.
unfoldable pub open_at_end : Zone → (ℕ → Option FlowRow) → List Happening → Corpus → ℕ → ℕ
open_at_end z begun hs c day =
    count (λ id. still_open (c.rows id) (status_then begun hs (z.midnight (suc day)) id))
      c.next_node

-- What the series says of a day, and what was.
abbrev pub reading : FlowDay → ℕ × ℕ
reading r = (r.day, r.backlog)

abbrev pub truth : Zone → (ℕ → Option FlowRow) → List Happening → Corpus → ℕ → ℕ × ℕ
truth z begun hs c day = (day, open_at_end z begun hs c day)

-- All that the series says of the backlog, and what it is to say: the days that the log can answer
-- for, up to today, and the day before them unless the log starts there.
abbrev pub readings : FlowSeries → List (ℕ × ℕ) × Option ℕ
readings s = (map reading s.days, s.backlog_before)

-- The number of days that the series can answer for.
abbrev pub days_served : (horizon today days : ℕ) → ℕ
days_served horizon today days = min days (today - horizon + 1)

unfoldable pub true_series :
    Zone
    → (ℕ → Option FlowRow)
    → List Happening
    → Corpus
    → (horizon today days : ℕ) → List (ℕ × ℕ) × Option ℕ
true_series z begun hs c horizon today days =
    let n = days_served horizon today days in
    let first = suc today - n in
    (
      map (truth z begun hs c) (day_range first n),
      if ltb horizon first then some (open_at_end z begun hs c (first - 1)) else none,
    )

count_cong : (p q : ℕ → Bool) (n : ℕ) → ((id : ℕ) → p id ≡ q id) → count p n ≡ count q n
unfolding count
count_cong p q zero same = refl
count_cong p q (suc n) same = rw (same n, count_cong p q n same) refl

of_wi-read_before :
    (c : Corpus) (cut id : ℕ) (row : Option FlowRow)
    → of_wi (open_before c cut id) row ≡ still_open row (read_before c cut id row)
unfolding of_wi open_before
of_wi-read_before c cut id none = refl
of_wi-read_before c cut id (some w) = ground arith

pub length_days : (f : ℕ → FlowDay) (day n : ℕ) → length (map f (day_range day n)) ≡ n
unfolding day_range
length_days f day zero = refl
length_days f day (suc n) = ap suc (length_days f (suc day) n)

not_before : (horizon today : ℕ) → horizon ≤ today → ltb today horizon ≡ false
not_before horizon today h = ground arith

first_within :
    (horizon today days : ℕ)
    → 1 ≤ days
    → days < today - horizon + 1
    → max (today - (min days (today - horizon + 1) - 1) - 1) horizon ≡ today - days
first_within horizon today days some_days h = omega arith

rows_within :
    (horizon today days : ℕ)
    → 1 ≤ days
    → days < today - horizon + 1
    → suc today - (today - days) ≡ suc days
rows_within horizon today days some_days h = omega arith

pub next_day :
    (horizon today days : ℕ) → days < today - horizon + 1 → suc (today - days) ≡ suc today - days
next_day horizon today days h = omega arith

first_clamped :
    (horizon today days : ℕ)
    → horizon ≤ today
    → today - horizon + 1 ≤ days
    → max (today - (min days (today - horizon + 1) - 1) - 1) horizon ≡ horizon
first_clamped horizon today days reached h = omega arith

module _ {start : ℕ} {begun : ℕ → Option FlowRow} {hs : List Happening} {clock : ℕ} {c : Corpus}
    (kept : Honest start begun hs clock c) (z : Zone) (now : ℕ) where
  pub backlog-open_at_end :
      (day : ℕ)
      → start < z.midnight (suc day)
      → (flow_day z now c day).backlog ≡ open_at_end z begun hs c day
  unfolding flow_day among open_at_end
  backlog-open_at_end day past = count_cong _ _ c.next_node (λ id.
      of_wi-read_before c (z.midnight (suc day)) id (c.rows id)
      ∙ ap (still_open (c.rows id)) (kept.told (z.midnight (suc day)) id past))

  reading_day :
      (day : ℕ)
      → start < z.midnight (suc day)
      → reading (flow_day z now c day) ≡ truth z begun hs c day
  unfolding flow_day
  reading_day day past = ap (λ n. (day, n)) (backlog-open_at_end day past)

  tomorrow :
      ((a b : ℕ) → a ≤ b → z.midnight a ≤ z.midnight b)
      → (day : ℕ) → start < z.midnight (suc day)
      → start < z.midnight (suc (suc day))
  tomorrow later day past = omega (arith, later (suc day) (suc (suc day)) (omega arith))

  pub reading-truth :
      ((a b : ℕ) → a ≤ b → z.midnight a ≤ z.midnight b)
      → (day n : ℕ) → start < z.midnight (suc day)
      → map reading (map (flow_day z now c) (day_range day n))
        ≡ map (truth z begun hs c) (day_range day n)
  unfolding day_range
  reading-truth later day zero past = refl
  reading-truth later day (suc n) past =
      rw (reading_day day past, reading-truth later (suc day) n (tomorrow later day past)) refl

-- The days that the query asks for, of a window within what the log answers for, and of a longer one.
pub flow_dates-within :
    (horizon today days : ℕ)
    → horizon ≤ today
    → 1 ≤ days
    → days < today - horizon + 1
    → flow_dates horizon today days ≡ (today - days) ∷ day_range (suc today - days) days
unfolding flow_dates day_range
flow_dates-within horizon today days reached some_days within =
    rw
      (
        not_before horizon today reached,
        first_within horizon today days some_days within,
        rows_within horizon today days some_days within,
        ap (λ d. day_range d days) (next_day horizon today days within),
      )
      refl

pub flow_dates-clamped :
    (horizon today days : ℕ)
    → horizon ≤ today
    → today - horizon + 1 ≤ days
    → flow_dates horizon today days ≡ day_range horizon (suc today - horizon)
unfolding flow_dates
flow_dates-clamped horizon today days reached over =
    rw (not_before horizon today reached, first_clamped horizon today days reached over) refl

pub split_before-fits :
    (days : ℕ) (rows : List FlowDay)
    → length rows ≤ days
    → split_before days rows ≡ record { days = rows; backlog_before = none }
unfolding split_before
split_before-fits days [] h = refl
split_before-fits days (row ∷ rows) h = rw (not_before (length (row ∷ rows)) days h) refl

pub split_before-more :
    (days : ℕ) (row : FlowDay) (rows : List FlowDay)
    → length rows ≡ days
    → split_before days (row ∷ rows) ≡ record { days = rows; backlog_before = some row.backlog }
unfolding split_before
split_before-more days row rows h = ground (arith, h)
