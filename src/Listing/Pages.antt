-- ===== src/Listing/Pages.antt =====
-- That `list_work_items_lean` and `list_schedules` of crates/korg-core/src/repo leave no row
-- unaccounted for.
use korg.Base.{
  ℕ, ◌+◌, ◌-◌, String, List, Option, none, Bool, true, false, not, ◌&&◌, ◌||◌, ◌==◌, contains,
  length, retain, all, nat_eq, min, ◌≡◌, refl, ap, ◌∙◌, arith, all_of_contains,
}
use korg.Core.Vocab.{wi_statuses, wi_live_statuses, schedule_statuses, schedule_live_statuses}
use korg.Desk.Tables.{eq_of_nat_eq}
use korg.Listing.{Listed, shows_status, shows_archived, hides_archived, in_project, tally, ordered}
use korg.Listing.Reads.{
  WorkItemOmitted, wi_counts, lean_page, number_before, ScheduleOmitted, schedule_omitted,
  due_before,
}
use korg.Listing.Tally.{
  length-page, tally_same, one_if, length-listed, tally-four, tally_none, hides, hidden-tally, both,
  both-holds, every_four,
}
use korg.Listing.Accounts.{shown_by, archived_by}

abbrev item_once : (every both_kinds filed archived : Bool) → String → Bool
item_once every both_kinds filed archived s =
    let shown = shown_by wi_live_statuses every in
    let asked = archived_by both_kinds in
    nat_eq
      (one_if (filed && (shows_archived asked archived && shows_status shown s))
        + (one_if
              (hides shown "closed" && (filed && (shows_archived asked archived && s == "closed")))
            + (one_if false + one_if (filed && hides_archived asked archived))))
      (one_if filed)

item_once-holds :
    (every both_kinds filed archived : Bool) (s : String)
    → contains wi_statuses s ≡ true
    → item_once every both_kinds filed archived s ≡ true
unfolding contains
item_once-holds every both_kinds filed archived s known =
    all_of_contains (item_once every both_kinds filed archived) wi_statuses s
      (every_four (λ a b c d. all (item_once a b c d) wi_statuses) every both_kinds filed archived
        refl)
      known

abbrev pub items_accounted : ℕ × WorkItemOmitted → ℕ
items_accounted counts = counts.0 + ((counts.1).closed + (counts.1).archived)

and_swap : (a b c : Bool) → (a && (b && c)) ≡ (a && (c && b))
and_swap a b c = ground arith

-- A page of work items has the rows that its total leaves past the offset, up to the limit.
pub lean_page-length :
    (project : Option String) (shown : Option (List String)) (archived : Option Bool)
    (limit offset : ℕ) (rows : List Listed)
    → length ((lean_page project shown archived limit offset rows).items)
      ≡ min limit ((lean_page project shown archived limit offset rows).total - offset)
unfolding lean_page wi_counts
lean_page-length project shown archived limit offset rows =
    let asked = λ (r : Listed).
      in_project project r.project
      && (shows_status shown r.status && shows_archived archived r.archived) in
    length-page limit offset (ordered number_before (retain asked rows))
    ∙ ap (λ n. min limit (n - offset))
        (length-listed number_before asked rows
          ∙ tally_same asked _ rows (λ r.
            and_swap (in_project project r.project) (shows_status shown r.status)
              (shows_archived archived r.archived)))

abbrev schedule_once : (every both_kinds archived due_only is_due : Bool) → String → Bool
schedule_once every both_kinds archived due_only is_due s =
    let shown = shown_by schedule_live_statuses every in
    let asked = archived_by both_kinds in
    nat_eq
      (one_if (
          shows_status shown s && shows_archived asked archived && true && (not due_only || is_due))
        + (one_if (hides shown "done" && (shows_archived asked archived && s == "done"))
            + (one_if (
                  shows_archived asked archived
                  && shows_status shown s
                  && true
                  && due_only
                  && not is_due)
                + one_if (hides_archived asked archived))))
      1

schedule_once-holds :
    (every both_kinds archived due_only is_due : Bool) (s : String)
    → contains schedule_statuses s ≡ true
    → schedule_once every both_kinds archived due_only is_due s ≡ true
unfolding contains
schedule_once-holds every both_kinds archived due_only is_due s known =
    all_of_contains (schedule_once every both_kinds archived due_only is_due) schedule_statuses s
      (both-holds (λ e. all (schedule_once every both_kinds archived due_only e) schedule_statuses)
        is_due
        (every_four (λ a b c d. both (λ e. all (schedule_once a b c d e) schedule_statuses)) every
          both_kinds archived due_only refl))
      known

abbrev pub schedules_accounted : List Listed → ScheduleOmitted → ℕ
schedules_accounted items omitted =
    length items + (omitted.done + (omitted.not_due + omitted.archived))

module _ (every both_kinds : Bool) (rows : List Listed) where
  pub items-tally :
      (project : Option String)
      → all (λ r. contains wi_statuses r.status) rows ≡ true
      → items_accounted
          (wi_counts project (archived_by both_kinds) (shown_by wi_live_statuses every) rows)
        ≡ tally (λ r. in_project project r.project) rows
  unfolding wi_counts
  items-tally project known =
      let shown = shown_by wi_live_statuses every in
      let asked = archived_by both_kinds in
      let items = λ (r : Listed).
        in_project project r.project
        && (shows_archived asked r.archived && shows_status shown r.status) in
      let closed = λ (r : Listed).
        in_project project r.project && (shows_archived asked r.archived && r.status == "closed") in
      let archived =
        λ (r : Listed). in_project project r.project && hides_archived asked r.archived in
      let whole =
        tally-four (λ r. contains wi_statuses r.status) items
          (λ r. hides shown "closed" && closed r) (λ r. false) archived
          (λ r. in_project project r.project) rows
          (λ x known. eq_of_nat_eq _ _ (
            item_once-holds every both_kinds (in_project project x.project) x.archived x.status
              known))
          known in
      rw (hidden-tally shown "closed" closed rows) (omega (arith, whole, tally_none rows))

  pub schedules-tally :
      (due_only : Bool)
      → all (λ r. contains schedule_statuses r.status) rows ≡ true
      → schedules_accounted
          (ordered due_before (
            retain
              (λ r.
                shows_status (shown_by schedule_live_statuses every) r.status
                && shows_archived (archived_by both_kinds) r.archived
                && in_project none r.project
                && (not due_only || r.is_due))
              rows))
          (schedule_omitted none due_only
            (archived_by both_kinds)
            (shown_by schedule_live_statuses every)
            rows)
        ≡ tally (λ r. true) rows
  unfolding schedule_omitted
  schedules-tally due_only known =
      let shown = shown_by schedule_live_statuses every in
      let asked = archived_by both_kinds in
      let items = λ (r : Listed).
        shows_status shown r.status
        && shows_archived asked r.archived
        && true
        && (not due_only || r.is_due) in
      let done = λ (r : Listed). shows_archived asked r.archived && r.status == "done" in
      let later = λ (r : Listed).
        shows_archived asked r.archived
        && shows_status shown r.status
        && true
        && due_only
        && not r.is_due in
      let archived = λ (r : Listed). hides_archived asked r.archived in
      rw (length-listed due_before items rows, hidden-tally shown "done" done rows)
        (tally-four (λ r. contains schedule_statuses r.status) items
          (λ r. hides shown "done" && done r) later archived (λ r. true) rows
          (λ x known.
            eq_of_nat_eq _ _
              (schedule_once-holds every both_kinds x.archived due_only x.is_due x.status known))
          known)
