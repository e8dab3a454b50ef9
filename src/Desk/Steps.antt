-- ===== src/Desk/Steps.antt =====
-- The writes of crates/korg-core/src/repo/schedules.rs, work_items.rs and awaiting.rs as one step
-- relation, and what every series of them keeps of the work that schedules produce.
use korg.Base.{
  ℕ, String, Option, none, some, Bool, true, false, not, ◌&&◌, contains, nat_eq, ◌≡◌, sym, ap,
  subst, ◌∙◌, arith, Bool-cases, inl, inr,
}
use korg.Core.Vocab.{wi_unfinished_statuses, wi_statuses, wi_types, wi_tshirts}
use korg.Desk.Tables.{
  some_inj, nat_eq_below, WorkItemRow, ScheduleRow, Desk, done, >>=-eq-done, >>-eq-done, alter_self,
  patched, eq_of_nat_eq,
}
use korg.Desk.Postgres.{Postgres}
use korg.Desk.Log.{in_vocabulary, record_activity}
use korg.Desk.Select.{resolve_project, resolve_area}
use korg.Desk.Awaiting.{set_awaiting}
use korg.Desk.Schedules.{unfinished, fire}
use korg.Desk.Schedules.Edit.{
  NewSchedule, SchedulePatch, check_new, insert_schedule, create_schedule, update_schedule,
}
use korg.Desk.Schedules.Kept.{update_schedule-Keeps, set_awaiting-Keeps}
use korg.Desk.Schedules.Surface.{produced, Surface, Keeps-Surface, fire-Surface}
use korg.Desk.WorkItems.{
  NewWorkItem, WorkItemPatch, check_area, insert_work_item, create_work_item, patch_item,
  write_rows, update_work_item,
}
use korg.Desk.WorkItems.Written.{update_work_item-Written}
use korg.Desk.WorkItems.Areas.{Written-Keeps}

-- Whether a patch makes a finished work item unfinished again.
abbrev pub reopens : Option String → Option WorkItemRow → Bool
reopens none item = false
reopens (some status) none = false
reopens (some status) (some w) =
    contains wi_unfinished_statuses status && not (contains wi_unfinished_statuses w.wi_status)

-- Callers that race for one schedule are transactions one after the other, each with a row that it saw
-- at any time before. Nobody reopens a finished work item.
pub data WriteStep (db : Postgres) (d d' : Desk) : Type 0 where
  fired_once :
      (now id item : ℕ) (force : Bool) (seen : ScheduleRow)
      → fire db now id force seen d ≡ done (d', item)
      → WriteStep db d d'
  schedule_created :
      (now : ℕ) (new : NewSchedule) → create_schedule now new d ≡ done d' → WriteStep db d d'
  schedule_updated :
      (now id : ℕ) (p : SchedulePatch) → update_schedule db now id p d ≡ done d' → WriteStep db d d'
  item_created :
      (now : ℕ) (new : NewWorkItem) → create_work_item now new d ≡ done d' → WriteStep db d d'
  item_updated :
      (now wi_number : ℕ) (p : WorkItemPatch)
      → reopens p.wi_status (d.work_items wi_number) ≡ false
      → update_work_item db now wi_number p d ≡ done d'
      → WriteStep db d d'
  marked :
      (now id : ℕ) (asks : Bool) (text : Option String)
      → set_awaiting now id asks text d ≡ done d'
      → WriteStep db d d'

pub data WriteSteps (db : Postgres) (d : Desk) : Desk → Type 0 where
  here : WriteSteps db d d
  then_step : {d' d'' : Desk} → WriteSteps db d d' → WriteStep db d' d'' → WriteSteps db d d''

insert_schedule-Surface :
    (now : ℕ) (new : NewSchedule) (project : Option ℕ) (d : Desk)
    → Surface d
    → Surface (insert_schedule now new project d)
unfolding insert_schedule record_activity
insert_schedule-Surface now new project d v = record {
  known_schedules = λ s h. elim (Bool-cases (nat_eq s d.next_node)) [
    | inl at ↦ omega (arith, eq_of_nat_eq s d.next_node at)
    | inr past ↦ omega (arith, v.known_schedules s (rw past at h))
  ];
  known_ends = λ s i h. omega (arith, v.known_ends s i h);
  one = λ s i h u. rw (nat_eq_below s d.next_node (v.known_ends s i h).0) (v.one s i h u);
}

insert_work_item-Surface :
    (now : ℕ) (new : NewWorkItem) (project area : Option ℕ) (d : Desk)
    → Surface d
    → Surface (insert_work_item now new project area d)
unfolding insert_work_item record_activity
insert_work_item-Surface now new project area d v = record {
  known_schedules = λ s h. omega (arith, v.known_schedules s h);
  known_ends = λ s i h. omega (arith, v.known_ends s i h);
  one = λ s i h u. v.one s i h (rw (nat_eq_below i d.next_node (v.known_ends s i h).1) at u);
}

-- A patch that does not reopen leaves a finished work item finished.
unfinished-patched :
    (p : WorkItemPatch) (w : WorkItemRow)
    → reopens p.wi_status (some w) ≡ false
    → contains wi_unfinished_statuses (patched p.wi_status w.wi_status) ≡ true
    → contains wi_unfinished_statuses w.wi_status ≡ true
unfinished-patched p w steady h = reopened p.wi_status steady h
  where
    reopened :
        (o : Option String)
        → reopens o (some w) ≡ false
        → contains wi_unfinished_statuses (patched o w.wi_status) ≡ true
        → contains wi_unfinished_statuses w.wi_status ≡ true
    reopened none steady h = h
    reopened (some status) steady h = ground arith

write_rows-Surface :
    (id : ℕ) (p : WorkItemPatch) (project area parent : Option (Option ℕ)) (d : Desk)
    (w : WorkItemRow)
    → d.work_items id ≡ some w
    → reopens p.wi_status (d.work_items id) ≡ false
    → Surface d
    → Surface (write_rows id p project area parent d)
unfolding write_rows patch_item
write_rows-Surface id p project area parent d w found steady v = record {
  known_schedules = v.known_schedules;
  known_ends = v.known_ends;
  one = λ s i h u. v.one s i h (elim (Bool-cases (nat_eq i id)) [
    | inr past ↦ rw past at u
    | inl at ↦
        ap (λ (k : ℕ). unfinished (d.work_items k)) (eq_of_nat_eq i id at)
        ∙ ap unfinished found
        ∙ unfinished-patched p w (ap (reopens p.wi_status) (sym found) ∙ steady)
            (ap unfinished (sym (alter_self id i _ d.work_items at found)) ∙ u)
  ]);
}

WriteStep-Surface : (db : Postgres) (d d' : Desk) → WriteStep db d d' → Surface d → Surface d'
unfolding create_schedule create_work_item
WriteStep-Surface db d d' (fired_once now id item force seen h) v =
    fire-Surface db now id force seen d v d' item h
WriteStep-Surface db d d' (schedule_created now new h) v =
    let (_, h1) = >>-eq-done (check_new new) _ h in
    let (project, _, e) = >>=-eq-done (resolve_project d new.project_id new.project) _ h1 in
    subst Surface (cc) (insert_schedule-Surface now new project d v)
WriteStep-Surface db d d' (schedule_updated now id p h) v =
    Keeps-Surface d d' (update_schedule-Keeps db now id p d d' h) v
WriteStep-Surface db d d' (item_created now new h) v =
    let (_, h1) = >>-eq-done (in_vocabulary wi_statuses new.wi_status) _ h in
    let (_, h2) = >>-eq-done (in_vocabulary wi_types new.wi_type) _ h1 in
    let (_, h3) = >>-eq-done (in_vocabulary wi_tshirts new.wi_tshirt) _ h2 in
    let (project, _, h4) = >>=-eq-done (resolve_project d new.project_id new.project) _ h3 in
    let (area, _, h5) = >>=-eq-done (resolve_area d project new.area_id new.area) _ h4 in
    let (_, e) = >>-eq-done (check_area d project area) _ h5 in
    subst Surface (cc) (insert_work_item-Surface now new project area d v)
WriteStep-Surface db d d' (item_updated now wi p steady h) v =
    let r = update_work_item-Written db now wi p d d' h in
    Keeps-Surface (write_rows wi p r.project r.area r.parent d) d'
      (Written-Keeps db now wi p d d' r)
      (write_rows-Surface wi p r.project r.area r.parent d r.item r.found_item steady v)
WriteStep-Surface db d d' (marked now id asks text h) v =
    Keeps-Surface d d' (set_awaiting-Keeps now id asks text d d' h) v

WriteSteps-Surface : (db : Postgres) (d d' : Desk) → WriteSteps db d d' → Surface d → Surface d'
WriteSteps-Surface db d _ here v = v
WriteSteps-Surface db d d'' (then_step {d' = d'} ss s) v =
    WriteStep-Surface db d' d'' s (WriteSteps-Surface db d d' ss v)

-- Through any series of writes, with any number of callers racing for a schedule and forcing it, no
-- schedule has produced two work items that are unfinished, as long as nobody reopens one.
pub WriteSteps-one_open :
    (db : Postgres) (d d' : Desk) (s i j : ℕ)
    → Surface d
    → WriteSteps db d d'
    → produced d'.edges s i ≡ true
    → produced d'.edges s j ≡ true
    → unfinished (d'.work_items i) ≡ true
    → unfinished (d'.work_items j) ≡ true
    → i ≡ j
WriteSteps-one_open db d d' s i j v ss a b c e =
    let w = WriteSteps-Surface db d d' ss v in some_inj (sym (w.one s i a c) ∙ w.one s j b e)
