-- ===== src/Desk/Schedules.antt =====
-- crates/korg-core/src/repo/schedules.rs: when a schedule is due, and the work item that it becomes.
pub mod Edit
pub mod Once
pub mod Kept
pub mod Surface
use Prim.Native.String.{◌++◌}
use korg.Base.{
  decimal, ℕ, suc, ◌+◌, String, List, [], ◌∷◌, Option, none, some, Bool, true, false, not, ◌&&◌,
  ◌==◌, contains, nat_eq, leb, if◌then◌else◌, unwrap_or,
}
use korg.Core.Vocab.{wi_unfinished_statuses, wi_finished_statuses}
use korg.Desk.Tables.{
  NodeRow, WorkItemRow, ScheduleRow, EdgeRow, Desk, Denial, no_schedule, outstanding_item,
  not_active, not_due, row_gone, Answer, done, denied, ◌>>=◌, ◌>>◌, ok_or, put, alter, mapped,
}
use korg.Desk.Postgres.{Interval, days, months, Stamp, Postgres, replace}
use korg.Desk.Log.{touch_node, record_activity}

unfoldable pub cadence_interval : String → Option Interval
cadence_interval cadence =
    if cadence == "once"
    then some (days 0)
    else if cadence == "weekly"
    then some (days 7)
    else if cadence == "fortnightly"
    then some (days 14)
    else if cadence == "monthly"
    then some (months 1)
    else if cadence == "quarterly"
    then some (months 3)
    else if cadence == "yearly"
    then some (months 12)
    else none

-- Whether a work item of the table is not finished.
abbrev pub unfinished : Option WorkItemRow → Bool
unfinished none = false
unfinished (some w) = contains wi_unfinished_statuses w.wi_status

-- Whether the newest work item of the schedule is not finished.
unfoldable pub outstanding : Desk → ScheduleRow → Bool
outstanding d s = elim s.last_wi_id [ none ↦ false | some w ↦ unfinished (d.work_items w) ]

module _ (db : Postgres) where
  unfoldable pub due_at : ScheduleRow → Option ℕ
  due_at s = elim (cadence_interval s.cadence) [
    | none ↦ none
    | some i ↦ some (db.plus s.anchor_at i)
  ]

  unfoldable pub is_due : ℕ → Desk → ScheduleRow → Bool
  is_due now d s =
      s.status == "active"
      && not (outstanding d s)
      && elim (due_at s) [ none ↦ false | some t ↦ leb t now ]

  unfoldable pub materialize_gate : ℕ → Desk → ℕ → Bool → ScheduleRow → Option Denial
  materialize_gate now d id force s =
      if outstanding d s
      then some (outstanding_item id)
      else if not (s.status == "active")
      then some (not_active s.status)
      else if not (is_due now d s) && not force
      then some (not_due id)
      else none

  unfoldable pub substituted : ℕ → String → String
  substituted now text =
      let t = db.to_char now in
      replace
        (replace (replace (replace (replace text "{YEAR}" t.year) "{MONTH}" t.month) "{DAY}" t.day)
          "{DATE}" t.date)
        "{QUARTER}" t.quarter

  abbrev rendered : ℕ → Option String → Option String
  rendered now none = none
  rendered now (some text) = some (substituted now text)

  -- The work item: its type and size are those of the row that the caller saw before the
  -- transaction, its text that of the row the transaction has locked.
  unfoldable pub new_item : ℕ → ℕ → (seen locked : ScheduleRow) → WorkItemRow
  new_item now id seen locked = record {
    area_id = none;
    wi_type = seen.wi_type;
    wi_status = "open";
    wi_tshirt = seen.wi_tshirt;
    sprint = none;
    title = substituted now locked.title;
    content =
        unwrap_or (rendered now locked.template) (
          "Materialized from schedule " ++ (decimal id ++ ". See the schedule for the procedure."));
    details = none;
    check_after = none;
    invalidated_if = none;
    parent_node_id = none;
  }

  abbrev new_node : ℕ → ℕ → Option ℕ → NodeRow
  new_node now id project = record {
    kind = "workitem";
    project_id = project;
    category = none;
    tags = ("schedule-" ++ decimal id) ∷ [];
    archived = false;
    awaiting_since = none;
    awaiting_note = none;
    updated = now;
  }

  unfoldable pub fired : ℕ → ℕ → ScheduleRow → ScheduleRow
  fired now item s = record s {
    last_wi_id = some item;
    anchor_at = if s.anchor_mode == "created" then now else s.anchor_at;
    status = if s.cadence == "once" then "done" else s.status;
  }

  -- The writes of the transaction, for a schedule of the given project.
  unfoldable pub write_item : ℕ → ℕ → (seen locked : ScheduleRow) → Option ℕ → Desk → Desk
  write_item now id seen locked project d =
      let item = d.next_node in
      record_activity item "created" (
        touch_node now id (record d {
          nodes = put item (new_node now id project) d.nodes;
          work_items = put item (new_item now id seen locked) d.work_items;
          schedules = alter id (fired now item) d.schedules;
          edges =
              record {
                left_id = id;
                right_id = item;
                label = "materializes";
                origin = "materialize_schedule";
                created = now;
              }
              ∷ d.edges;
          next_node = suc item;
        }))

  -- The transaction, of a caller that saw some row of the schedule before it.
  unfoldable pub fire : ℕ → ℕ → Bool → ScheduleRow → Desk → Answer (Desk × ℕ)
  fire now id force seen d = do
    locked ← ok_or (d.schedules id) (row_gone id)
    materialize_gate now d id force locked >> do
      node ← ok_or (d.nodes id) (row_gone id)
      done (write_item now id seen locked node.project_id d, d.next_node)

  -- With nobody else in between: the check before the transaction, then the transaction.
  unfoldable pub materialize_schedule : (before now : ℕ) → ℕ → Bool → Desk → Answer (Desk × ℕ)
  materialize_schedule before now id force d = do
    seen ← ok_or (d.schedules id) (no_schedule id)
    materialize_gate before d id force seen >> fire now id force seen d

abbrev names : Option ℕ → ℕ → Bool
names none id = false
names (some w) id = nat_eq w id

unfoldable pub advanced : ℕ → ℕ → ScheduleRow → ScheduleRow
advanced now item s =
    if names s.last_wi_id item && s.anchor_mode == "completed" && s.status == "active"
    then record s { anchor_at = now }
    else s

unfoldable pub advance_completed_anchor : ℕ → ℕ → String → Desk → Desk
advance_completed_anchor now item status d =
    if contains wi_finished_statuses status
    then record d { schedules = λ id. mapped (advanced now item) (d.schedules id) }
    else d
