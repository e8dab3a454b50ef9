-- ===== src/Desk/Flow.antt =====
-- crates/korg-core/src/repo/flow.rs: `work_item_flow`, the series of what arrived, what closed, and
-- what was open at the end of a day. Times and days are numbers; a window below one day is 0 or 1.
pub mod History
pub mod Rows
pub mod Arrivals
pub mod Honest
pub mod Window
pub mod Series
use korg.Base.{
  ℕ, zero, suc, ◌+◌, ◌-◌, min, max, String, List, [], ◌∷◌, Option, none, some, Bool, true, false,
  not, ◌&&◌, ◌==◌, nat_eq, leb, ltb, if◌then◌else◌, unwrap_or, length, map,
}
use korg.Desk.Tables.{put, mapped, alter}

-- Of PostgreSQL, in a time zone: the day of a time, the time at which a day starts, and the length
-- of a number of days.
pub record Zone : Type 0 where
  pub date : ℕ → ℕ
  pub midnight : ℕ → ℕ
  pub interval : ℕ → ℕ

-- Of a work item and its node, the columns that the series reads.
pub record FlowRow : Type 0 where
  pub created : ℕ
  pub archived : Bool
  pub wi_status : String

-- A row of `transition`.
pub record Move : Type 0 where
  pub node_id : ℕ
  pub from_status : String
  pub to_status : String
  pub at : ℕ

-- The last row of `transition` comes first.
pub record Corpus : Type 0 where
  pub rows : ℕ → Option FlowRow
  pub moves : List Move
  pub next_node : ℕ

-- The writes of `create_work_item` and `update_work_item` to these columns.
unfoldable pub arrive : ℕ → String → Corpus → Corpus
arrive now status c = record c {
  rows = put c.next_node (record { created = now; archived = false; wi_status = status }) c.rows;
  next_node = suc c.next_node;
}

unfoldable pub log_move : ℕ → ℕ → (from to : String) → List Move → List Move
log_move now id from to moves =
    if from == to
    then moves
    else record { node_id = id; from_status = from; to_status = to; at = now } ∷ moves

unfoldable pub change : ℕ → ℕ → String → Corpus → Corpus
change now id status c = elim (c.rows id) [
  | none ↦ c
  | some w ↦ record c {
    rows = alter id (λ r. record r { wi_status = status }) c.rows;
    moves = log_move now id w.wi_status status c.moves;
  }
]

unfoldable pub hide : ℕ → Bool → Corpus → Corpus
hide id archived c = record c { rows = alter id (λ r. record r { archived = archived }) c.rows }

-- The number of the ids below a number that pass a test.
unfoldable pub count : (ℕ → Bool) → ℕ → ℕ
count p zero = 0
count p (suc n) = (if p n then 1 else 0) + count p n

-- `ORDER BY tr.at ASC, tr.id ASC`, with the row of the smaller id second.
abbrev pub earlier_of : Move → Option Move → Option Move
earlier_of m none = some m
earlier_of m (some older) = if leb older.at m.at then some older else some m

-- The first row of the node from a time on.
unfoldable pub first_after : ℕ → ℕ → List Move → Option Move
first_after cut id [] = none
first_after cut id (m ∷ ms) = elim (nat_eq m.node_id id && leb cut m.at) [
  | true ↦ earlier_of m (first_after cut id ms)
  | false ↦ first_after cut id ms
]

abbrev pub left_status : Option Move → Option String
left_status none = none
left_status (some m) = some m.from_status

-- The status of a work item before a time: what the first row from then on left, or what it has now.
unfoldable pub status_before : Corpus → ℕ → ℕ → FlowRow → String
status_before c cut id w = unwrap_or (left_status (first_after cut id c.moves)) w.wi_status

-- A test of the common table `wi`, the work items whose node is not archived.
unfoldable pub of_wi : (FlowRow → Bool) → Option FlowRow → Bool
of_wi p none = false
of_wi p (some w) = not w.archived && p w

-- The first of the rows by which the node closes and whose time passes a test, of `closes`.
unfoldable pub first_close : (ℕ → Bool) → ℕ → List Move → Option ℕ
first_close p id [] = none
first_close p id (m ∷ ms) = elim (nat_eq m.node_id id && m.to_status == "closed" && p m.at) [
  | true ↦ some (elim (first_close p id ms) [ none ↦ m.at | some t ↦ min t m.at ])
  | false ↦ first_close p id ms
]

-- `max(t.at)`
unfoldable pub last_close_at : ℕ → List Move → Option ℕ
last_close_at id [] = none
last_close_at id (m ∷ ms) = elim (nat_eq m.node_id id && m.to_status == "closed") [
  | true ↦ some (max m.at (unwrap_or (last_close_at id ms) 0))
  | false ↦ last_close_at id ms
]

pub record FlowDay : Type 0 where
  pub day : ℕ
  pub added : ℕ
  pub closed : ℕ
  pub backlog : ℕ
  pub added_durable : ℕ
  pub closed_durable : ℕ

pub record FlowSeries : Type 0 where
  pub days : List FlowDay
  pub backlog_before : Option ℕ

abbrev pub flow_days_default : ℕ
flow_days_default = 10

abbrev pub flow_durable_after_days : ℕ
flow_durable_after_days = 7

-- Whether a time lies more than the durable number of days after another.
unfoldable pub durable : Zone → (created until : ℕ) → Bool
durable z created until = ltb (created + z.interval flow_durable_after_days) until

abbrev pub closes_by : (ℕ → Bool) → Option ℕ → Bool
closes_by p none = false
closes_by p (some t) = p t

unfoldable pub lived_until : Corpus → ℕ → ℕ → FlowRow → ℕ
lived_until c now id w =
    if w.wi_status == "closed" then unwrap_or (last_close_at id c.moves) now else now

unfoldable pub open_before : Corpus → ℕ → ℕ → FlowRow → Bool
open_before c cut id w = ltb w.created cut && not (status_before c cut id w == "closed")

-- The number of the work items that pass a test, of their ids and rows.
unfoldable pub among : Corpus → (ℕ → FlowRow → Bool) → ℕ
among c p = count (λ id. of_wi (p id) (c.rows id)) c.next_node

unfoldable pub closed_on : Zone → Corpus → ℕ → ℕ → Option ℕ
closed_on z c day id = first_close (λ t. nat_eq (z.date t) day) id c.moves

unfoldable pub flow_day : Zone → ℕ → Corpus → ℕ → FlowDay
flow_day z now c day = record {
  day = day;
  added = among c (λ id w. nat_eq (z.date w.created) day);
  closed = among c (λ id w. closes_by (λ t. true) (closed_on z c day id));
  backlog = among c (open_before c (z.midnight (suc day)));
  added_durable =
      among c
        (λ id w. nat_eq (z.date w.created) day && durable z w.created (lived_until c now id w));
  closed_durable = among c (λ id w. closes_by (durable z w.created) (closed_on z c day id));
}

-- `generate_series`, of a first day and a number of days.
unfoldable pub day_range : ℕ → ℕ → List ℕ
day_range day zero = []
day_range day (suc n) = day ∷ day_range (suc day) n

-- The days of the query, one in front of the window. Before the horizon there are none.
unfoldable pub flow_dates : (horizon today days : ℕ) → List ℕ
flow_dates horizon today days =
    if ltb today horizon
    then []
    else let start_day = today - (min days (today - horizon + 1) - 1) in
      let first = max (start_day - 1) horizon in day_range first (suc today - first)

-- `rows.remove(0)`, when there are more rows than days.
unfoldable pub split_before : ℕ → List FlowDay → FlowSeries
split_before days [] = record { days = []; backlog_before = none }
split_before days (row ∷ rows) =
    if ltb days (length (row ∷ rows))
    then record { days = rows; backlog_before = some row.backlog }
    else record { days = row ∷ rows; backlog_before = none }

unfoldable pub work_item_flow : Zone → (horizon now : ℕ) → Option ℕ → Corpus → FlowSeries
work_item_flow z horizon now days c =
    let window = max (unwrap_or days flow_days_default) 1 in
    split_before window (map (flow_day z now c) (flow_dates horizon (z.date now) window))
