-- ===== src/Listing/Reads.antt =====
-- `list_work_items_lean` of crates/korg-core/src/repo/work_items.rs with the page bounds of page.rs, and
-- `list_schedules` of schedules.rs.
use korg.Base.{
  ℕ, String, List, Option, none, some, Bool, not, ◌&&◌, ◌||◌, ◌==◌, retain, drop, take, nat_eq, ltb,
  min, max, unwrap_or,
}
use korg.Core.Vocab.{wi_statuses, wi_live_statuses, schedule_statuses, schedule_live_statuses}
use korg.Listing.{
  Listed, status_predicate, shows_status, shows_archived, hides_archived, in_project, tally, hidden,
  ordered,
}

abbrev pub list_limit_default : ℕ
list_limit_default = 200

abbrev pub list_limit_max : ℕ
list_limit_max = 500

pub record PageQuery : Type 0 where
  pub limit : Option ℕ
  pub offset : Option ℕ

-- A bound below zero is zero here; the code clamps both alike.
unfoldable pub resolve : PageQuery → ℕ × ℕ
resolve q =
    (min (max (unwrap_or q.limit list_limit_default) 1) list_limit_max, unwrap_or q.offset 0)

pub record WorkItemOmitted : Type 0 where
  pub closed : ℕ
  pub archived : ℕ

pub record WorkItemList : Type 0 where
  pub items : List Listed
  pub total : ℕ
  pub limit : ℕ
  pub offset : ℕ
  pub omitted : WorkItemOmitted

-- `ORDER BY w.wi_number ASC`
unfoldable pub number_before : Listed → Listed → Bool
number_before a b = ltb a.wi_number b.wi_number

unfoldable pub wi_counts :
    Option String → Option Bool → Option (List String) → List Listed → ℕ × WorkItemOmitted
wi_counts project archived shown rows = (
  tally
      (λ r.
        in_project project r.project
        && (shows_archived archived r.archived && shows_status shown r.status))
      rows,
  record {
    closed = hidden shown "closed" (
        tally
          (λ r.
            in_project project r.project
            && (shows_archived archived r.archived && r.status == "closed"))
          rows);
    archived = tally (λ r. in_project project r.project && hides_archived archived r.archived) rows;
  },
)

-- The page and the counts, for the statuses to show.
unfoldable pub lean_page :
    Option String
    → Option (List String)
    → Option Bool
    → (limit offset : ℕ) → List Listed
    → WorkItemList
lean_page project shown archived limit offset rows =
    let counts = wi_counts project archived shown rows in
    record {
      items = take limit (
          drop offset (
            ordered number_before (
              retain
                (λ r.
                  in_project project r.project
                  && (shows_status shown r.status && shows_archived archived r.archived))
                rows)));
      total = counts.0;
      limit = limit;
      offset = offset;
      omitted = counts.1;
    }

unfoldable pub list_work_items_lean :
    Option String
    → Option String
    → Option Bool
    → (limit offset : ℕ) → List Listed
    → Option WorkItemList
list_work_items_lean project status archived limit offset rows =
    elim (status_predicate wi_statuses wi_live_statuses status) [
      | none ↦ none
      | some shown ↦ some (lean_page project shown archived limit offset rows)
    ]

pub record ScheduleOmitted : Type 0 where
  pub done : ℕ
  pub archived : ℕ
  pub not_due : ℕ

pub record ScheduleList : Type 0 where
  pub items : List Listed
  pub omitted : ScheduleOmitted

-- `ORDER BY due_at ASC, s.node_id ASC`
unfoldable pub due_before : Listed → Listed → Bool
due_before a b = ltb a.due_at b.due_at || nat_eq a.due_at b.due_at && ltb a.node_id b.node_id

-- The counts of `done` and `archived` are of every project.
unfoldable pub schedule_omitted :
    Option String
    → (due_only : Bool) → Option Bool
    → Option (List String)
    → List Listed
    → ScheduleOmitted
schedule_omitted project due_only archived shown rows = record {
  done =
      hidden shown "done"
        (tally (λ r. shows_archived archived r.archived && r.status == "done") rows);
  archived = tally (λ r. hides_archived archived r.archived) rows;
  not_due =
      tally
        (λ r.
          shows_archived archived r.archived
          && shows_status shown r.status
          && in_project project r.project
          && due_only
          && not r.is_due)
        rows;
}

unfoldable pub list_schedules :
    Option String
    → Option String
    → (due_only : Bool) → Option Bool
    → List Listed
    → Option ScheduleList
list_schedules status project due_only archived rows =
    elim (status_predicate schedule_statuses schedule_live_statuses status) [
      | none ↦ none
      | some shown ↦ some (record {
        items = ordered due_before (
            retain
              (λ r.
                shows_status shown r.status
                && shows_archived archived r.archived
                && in_project project r.project
                && (not due_only || r.is_due))
              rows);
        omitted = schedule_omitted project due_only archived shown rows;
      })
    ]
