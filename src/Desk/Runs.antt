-- ===== src/Desk/Runs.antt =====
-- Runs of the desk of crates/korg-core: the lane, schedules and work items.
use korg.Base.{
  ℕ, ◌+◌, ◌*◌, String, [], ◌∷◌, Option, none, some, true, false, leb, ◌≡◌, refl, arith, ◌⊎◌,
  contains, retain, blank, is_whitespace,
}
use korg.Desk.Tables.{
  NodeRow, WorkItemRow, ScheduleRow, Desk, done, denied, outstanding_item, archived_project, put,
  project_by_name, area_project, not_due, area_in_use,
}
use korg.Desk.Postgres.{days, months, Postgres, replace, replaced, starts_with}
use korg.Desk.Log.{touch_node, record_activity, record_edit, fingerprint}
use korg.Desk.Select.{resolve_project_patch, project_id_for_name, resolve_area_patch}
use korg.Desk.Awaiting.{list_awaiting, settle_awaiting, in_lane, ids_below, in_order, enter}
use korg.Desk.Awaiting.Lane.{shows, awaiting, list_awaiting-settled}
use korg.Desk.Schedules.{
  cadence_interval, outstanding, due_at, is_due, materialize_gate, substituted, new_item,
  write_item, fire,
}
use korg.Desk.Schedules.Once.{fire_once}
use korg.Desk.Schedules.Surface.{Surface}
use korg.Desk.Steps.{here, then_step, fired_once, WriteSteps-one_open}
use korg.Desk.Keeps.{filed_under}
use korg.Desk.WorkItems.{
  WorkItemPatch, node_id_for_wi, parent_node, fits, new_area, log_status, advance_for, write_rows,
  finish_update, write_work_item, update_work_item,
}
use korg.Desk.WorkItems.Written.{updated}
use korg.Desk.WorkItems.Areas.{AreasFit}
use korg.Desk.AreaEdits.{
  area_row_id, clash, check_name, write_name, update_area, filed, drop_area, delete_area,
  rename_area,
}
use korg.Desk.Filing.{untouched, then_write, then_area, area_updated, Writes-AreasFit}
use korg.Desk.WorkItems.Targets.{active, Write-target}
use korg.Desk.WorkItems.Restart.{update_work_item-restarts}

abbrev db : Postgres
db = record {
  plus = λ t i. elim i [ days n ↦ t + n | months n ↦ t + 30 * n ];
  to_char = λ t. record {
    year = "2026";
    month = "October";
    day = "08";
    date = "2026-10-08";
    quarter = "Q4";
  };
  digest = λ n w c s. "";
}

abbrev node : String → Option ℕ → NodeRow
node kind project = record {
  kind = kind;
  project_id = project;
  category = none;
  tags = [];
  archived = false;
  awaiting_since = none;
  awaiting_note = none;
  updated = 0;
}

abbrev item : String → Option ℕ → WorkItemRow
item status area = record {
  area_id = area;
  wi_type = "task";
  wi_status = status;
  wi_tshirt = "M";
  sprint = none;
  title = "t";
  content = "c";
  details = none;
  check_after = none;
  invalidated_if = none;
  parent_node_id = none;
}

abbrev drill : ScheduleRow
drill = record {
  title = "drill {QUARTER}";
  template = none;
  notes = none;
  cadence = "quarterly";
  anchor_mode = "completed";
  status = "active";
  wi_type = "maintenance";
  wi_tshirt = "S";
  anchor_at = 100;
  last_wi_id = some 10;
}

-- A schedule, the work item it has produced, in the given status, and a work item that waits for Ken.
abbrev desk : String → Desk
desk status = record {
  nodes = put 10 (node "workitem" (some 1)) (
      put 20 (node "schedule" (some 1))
        (put 25 (record (node "workitem" (some 1)) { awaiting_since = some 40 }) (λ i. none)));
  projects =
      record { id = 1; name = "korg"; status = "active" }
      ∷ record { id = 2; name = "old"; status = "archived" }
      ∷ record { id = 3; name = "klams"; status = "active" }
      ∷ [];
  areas = record { id = 7; project_id = 1; name = "api" } ∷ [];
  work_items = put 10 (item status (some 7)) (put 25 (item "resolved" none) (λ i. none));
  proposals = λ i. none;
  programs = λ i. none;
  cards = λ i. none;
  schedules = put 20 drill (λ i. none);
  edges =
      record {
        left_id = 20;
        right_id = 10;
        label = "materializes";
        origin = "materialize_schedule";
        created = 50;
      }
      ∷ [];
  transitions = [];
  events = [];
  next_node = 30;
}

abbrev no_change : WorkItemPatch
no_change = record {
  title = none;
  content = none;
  details = none;
  wi_type = none;
  wi_status = none;
  wi_tshirt = none;
  sprint = none;
  check_after = none;
  invalidated_if = none;
  project_id = none;
  project = none;
  area_id = none;
  area = none;
  parent = none;
  archived = none;
  category = none;
  tags = none;
}

in_the_lane : list_awaiting (desk "open") ≡ 25 ∷ []
unfolding list_awaiting in_order enter ids_below in_lane contains retain
in_the_lane = refl

list_awaiting-settled_example :
    shows (list_awaiting (desk "open")) 25 ≡ awaiting (settle_awaiting 25 (desk "open")) 25
list_awaiting-settled_example = list_awaiting-settled (desk "open") 25 (omega arith)

-- The quarter has passed, and the last drill is done.
abbrev after_firing : Desk
after_firing = write_item db 500 20 drill drill (some 1) (desk "done")

fires : fire db 500 20 false drill (desk "done") ≡ done (after_firing, 30)
unfolding fire materialize_gate is_due due_at cadence_interval outstanding contains
fires = refl

named : substituted db 500 "drill {QUARTER} of {YEAR}" ≡ "drill Q4 of 2026"
unfolding substituted replace replaced starts_with
named = refl

too_early : fire db 180 20 false drill (desk "done") ≡ denied (not_due 20)
unfolding fire materialize_gate is_due due_at cadence_interval outstanding contains
too_early = refl

forced :
    fire db 180 20 true drill (desk "done")
    ≡ done (write_item db 180 20 drill drill (some 1) (desk "done"), 30)
unfolding fire materialize_gate is_due due_at cadence_interval outstanding contains
forced = refl

fire_once_example : fire db 501 20 true drill after_firing ≡ denied (outstanding_item 20)
fire_once_example =
    fire_once db 500 20 false drill (desk "done") after_firing 30 501 true drill fires

desk-Surface : Surface (desk "done")
desk-Surface = record {
  known_schedules = λ s h. ground arith;
  known_ends = λ s i h. ground arith;
  one = λ s i h u. ground arith;
}

WriteSteps-one_open_example : ◌≡◌ {A = ℕ} 30 30
unfolding write_item record_activity touch_node new_item contains
WriteSteps-one_open_example =
    WriteSteps-one_open db (desk "done") after_firing 20 30 30 desk-Surface
      (then_step here (fired_once 500 20 30 false drill fires)) refl refl refl refl

abbrev to_klams : WorkItemPatch
to_klams = record no_change { project = some (some "klams") }

abbrev to_old : WorkItemPatch
to_old = record no_change { project = some (some "old") }

abbrev moved : Desk
moved =
    finish_update db 600 10 none (desk "open")
      (write_rows 10 to_klams (some (some 3)) (some none) none (desk "open"))

moves : update_work_item db 600 10 to_klams (desk "open") ≡ done moved
unfolding update_work_item node_id_for_wi parent_node resolve_project_patch project_id_for_name
    project_by_name resolve_area_patch new_area fits area_project write_work_item log_status
moves = refl

refused : update_work_item db 600 10 to_old (desk "open") ≡ denied (archived_project "old")
unfolding update_work_item node_id_for_wi parent_node resolve_project_patch project_id_for_name
    project_by_name resolve_area_patch new_area fits area_project write_work_item log_status
refused = refl

desk-AreasFit : AreasFit (desk "open")
unfolding fits area_project
desk-AreasFit = record { each = λ i. ground arith }

abbrev with_web : Desk
with_web = rename_area 7 "web" moved

renames : update_area "korg" "api" (some "web") moved ≡ done with_web
unfolding update_area check_name blank is_whitespace write_name clash area_row_id rename_area
    finish_update record_edit fingerprint touch_node record_activity advance_for settle_awaiting
    write_rows
renames = refl

-- An area with work items is kept.
in_use : delete_area "korg" "api" (desk "open") ≡ denied (area_in_use "api")
unfolding delete_area drop_area filed area_row_id ids_below
in_use = refl

Writes-AreasFit_example : AreasFit with_web
Writes-AreasFit_example =
    Writes-AreasFit db (desk "open") with_web
      (then_area (then_write untouched (updated 600 10 to_klams moves))
        (area_updated "korg" "api" (some "web") renames))
      desk-AreasFit

in_klams : filed_under (moved.nodes 10) ≡ some (some 3)
unfolding finish_update write_rows record_edit fingerprint touch_node advance_for settle_awaiting
    record_activity
in_klams = refl

Write-target_example :
    (filed_under ((desk "open").nodes 10) ≡ some (some 3)) ⊎ (active (desk "open") 3 ≡ true)
Write-target_example =
    Write-target db (desk "open") moved 10 3 (updated 600 10 to_klams moves) in_klams

abbrev finished : WorkItemPatch
finished = record no_change { wi_status = some "done" }

abbrev after_drill : Desk
after_drill =
    finish_update db 700 10 (some "done") (desk "open")
      (log_status 10 (some "done") "open" (write_rows 10 finished none none none (desk "open")))

finishes : update_work_item db 700 10 finished (desk "open") ≡ done after_drill
unfolding update_work_item node_id_for_wi parent_node resolve_project_patch project_id_for_name
    project_by_name resolve_area_patch new_area fits area_project write_work_item contains
finishes = refl

update_work_item-restarts_example :
    (s' : ScheduleRow) × (after_drill.schedules 20 ≡ some s')
    × (is_due db 790 after_drill s' ≡ leb (db.plus 700 (months 3)) 790)
update_work_item-restarts_example =
    update_work_item-restarts db 700 10 20 790 finished (desk "open") after_drill "done" drill
      (months 3) finishes refl (unfold contains in refl) refl refl refl refl
      (unfold cadence_interval in refl)
