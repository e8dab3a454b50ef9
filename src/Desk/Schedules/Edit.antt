-- ===== src/Desk/Schedules/Edit.antt =====
-- crates/korg-core/src/repo/schedules.rs: how a schedule is created and edited, and the statuses that
-- a listing asks for.
use korg.Base.{
  ℕ, suc, String, List, [], ◌∷◌, Option, none, some, Bool, false, ◌==◌, blank, if◌then◌else◌,
  unwrap_or,
}
use korg.Core.Vocab.{
  schedule_cadences, schedule_anchors, schedule_statuses, schedule_live_statuses, wi_types,
  wi_tshirts,
}
use korg.Desk.Tables.{
  NodeRow, ScheduleRow, Desk, Denial, no_schedule, blank_field, unknown_placeholder, Answer, done,
  ◌>>=◌, ◌>>◌, first_denial, put, alter, patched,
}
use korg.Desk.Template.{Scan, accepted, out_of_fuel, unknown_substitution, check_substitutions}
use korg.Desk.Postgres.{Postgres}
use korg.Desk.Log.{
  touch_node, record_activity, fingerprint, record_edit, in_vocabulary, in_vocabulary_patch,
}
use korg.Desk.Select.{resolve_project}
use korg.Desk.Awaiting.{settle_awaiting}

pub record NewSchedule : Type 0 where
  pub title : String
  pub template : Option String
  pub notes : Option String
  pub cadence : String
  pub anchor_mode : String
  pub anchor_at : Option ℕ
  pub wi_type : String
  pub wi_tshirt : String
  pub project_id : Option ℕ
  pub project : Option String
  pub category : Option String
  pub tags : List String

pub record SchedulePatch : Type 0 where
  pub title : Option String
  pub template : Option (Option String)
  pub notes : Option (Option String)
  pub cadence : Option String
  pub anchor_mode : Option String
  pub anchor_at : Option ℕ
  pub status : Option String
  pub wi_type : Option String
  pub wi_tshirt : Option String
  pub archived : Option Bool
  pub tags : Option (List String)

-- The loop does not run out of fuel.
abbrev known_placeholders : String → Scan → Option Denial
known_placeholders what (unknown_substitution name) = some (unknown_placeholder name what)
known_placeholders what accepted = none
known_placeholders what out_of_fuel = none

abbrev pub check_template : String → Option String → Option Denial
check_template what none = none
check_template what (some text) = known_placeholders what (check_substitutions text)

abbrev pub require_non_empty : String → Option String → Option Denial
require_non_empty what none = none
require_non_empty what (some text) = if blank text then some (blank_field what) else none

unfoldable pub insert_schedule : ℕ → NewSchedule → Option ℕ → Desk → Desk
insert_schedule now new project d =
    let id = d.next_node in
    record_activity id "created" (record d {
      nodes =
          put id
            (record {
              kind = "schedule";
              project_id = project;
              category = new.category;
              tags = new.tags;
              archived = false;
              awaiting_since = none;
              awaiting_note = none;
              updated = now;
            })
            d.nodes;
      schedules =
          put id
            (record {
              title = new.title;
              template = new.template;
              notes = new.notes;
              cadence = new.cadence;
              anchor_mode = new.anchor_mode;
              status = "active";
              wi_type = new.wi_type;
              wi_tshirt = new.wi_tshirt;
              anchor_at = unwrap_or new.anchor_at now;
              last_wi_id = none;
            })
            d.schedules;
      next_node = suc id;
    })

unfoldable pub check_new : NewSchedule → Option Denial
check_new new = first_denial (
    require_non_empty "title" (some new.title)
    ∷ in_vocabulary schedule_cadences new.cadence
    ∷ in_vocabulary schedule_anchors new.anchor_mode
    ∷ in_vocabulary wi_types new.wi_type
    ∷ in_vocabulary wi_tshirts new.wi_tshirt
    ∷ check_template "title" (some new.title)
    ∷ check_template "template" new.template
    ∷ [])

unfoldable pub create_schedule : ℕ → NewSchedule → Desk → Answer Desk
create_schedule now new d = check_new new >> do
  project ← resolve_project d new.project_id new.project
  done (insert_schedule now new project d)

abbrev flat : Option (Option String) → Option String
flat none = none
flat (some o) = o

unfoldable pub patch_schedule : SchedulePatch → ScheduleRow → ScheduleRow
patch_schedule p s = record s {
  title = patched p.title s.title;
  template = patched p.template s.template;
  notes = patched p.notes s.notes;
  cadence = patched p.cadence s.cadence;
  anchor_mode = patched p.anchor_mode s.anchor_mode;
  anchor_at = patched p.anchor_at s.anchor_at;
  status = patched p.status s.status;
  wi_type = patched p.wi_type s.wi_type;
  wi_tshirt = patched p.wi_tshirt s.wi_tshirt;
}

abbrev require_schedule : ℕ → Option NodeRow → Option Denial
require_schedule id none = some (no_schedule id)
require_schedule id (some n) = if n.kind == "schedule" then none else some (no_schedule id)

unfoldable pub write_schedule : Postgres → ℕ → ℕ → SchedulePatch → Desk → Desk
write_schedule db now id p d = record_edit db id (fingerprint db id d) (
    touch_node now id (
      settle_awaiting id (record d {
        schedules = alter id (patch_schedule p) d.schedules;
        nodes =
            alter id
              (λ n. record n {
                archived = patched p.archived n.archived;
                tags = patched p.tags n.tags;
              })
              d.nodes;
      })))

unfoldable pub check_patch : ℕ → SchedulePatch → Desk → Option Denial
check_patch id p d = first_denial (
    require_non_empty "title" p.title
    ∷ check_template "title" p.title
    ∷ check_template "template" (flat p.template)
    ∷ in_vocabulary_patch schedule_cadences p.cadence
    ∷ in_vocabulary_patch schedule_anchors p.anchor_mode
    ∷ in_vocabulary_patch schedule_statuses p.status
    ∷ in_vocabulary_patch wi_types p.wi_type
    ∷ in_vocabulary_patch wi_tshirts p.wi_tshirt
    ∷ require_schedule id (d.nodes id)
    ∷ [])

unfoldable pub update_schedule : Postgres → ℕ → ℕ → SchedulePatch → Desk → Answer Desk
update_schedule db now id p d = check_patch id p d >> done (write_schedule db now id p d)

-- The statuses that a listing keeps, `none` for all of them.
unfoldable pub schedule_status_predicate : Option String → Answer (Option (List String))
schedule_status_predicate none = done (some schedule_live_statuses)
schedule_status_predicate (some status) =
    if status == "all"
    then done none
    else in_vocabulary schedule_statuses status >> done (some (status ∷ []))
