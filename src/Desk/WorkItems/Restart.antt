-- ===== src/Desk/WorkItems/Restart.antt =====
-- Finishing the work item of a schedule, by crates/korg-core/src/repo/work_items.rs, restarts the
-- schedule's clock.
use korg.Base.{
  ℕ, String, Option, none, some, Bool, true, false, not, ◌==◌, contains, all_of_contains, ◌∷◌, leb,
  if◌then◌else◌, ◌≡◌, refl, ap, ◌∙◌, arith, eq_iff,
}
use korg.Core.Vocab.{wi_finished_statuses, wi_unfinished_statuses}
use korg.Desk.Tables.{WorkItemRow, ScheduleRow, Desk, done, alter_self, mapped, patched}
use korg.Desk.Postgres.{Postgres, Interval}
use korg.Desk.Log.{record_activity, record_status, record_edit, touch_node, fingerprint}
use korg.Desk.Awaiting.{settle_awaiting}
use korg.Desk.Schedules.{
  cadence_interval, unfinished, outstanding, due_at, is_due, advanced, advance_completed_anchor,
}
use korg.Desk.WorkItems.{
  WorkItemPatch, patch_item, log_status, advance_for, write_rows, finish_update, update_work_item,
}
use korg.Desk.WorkItems.Written.{update_work_item-Written}
use korg.Desk.WorkItems.Areas.{Written-Keeps}

record_edit-schedules :
    (db : Postgres) (id : ℕ) (before : Option String) (d : Desk)
    → (record_edit db id before d).schedules ≡ d.schedules
unfolding record_edit record_activity
record_edit-schedules db id before d = if_same _
  where
    if_same : (b : Bool) → (if b then record_activity id "edited" d else d).schedules ≡ d.schedules
    if_same true = refl
    if_same false = refl

advance_for-schedules :
    (now wi : ℕ) (status : String) (d : Desk) (id : ℕ)
    → contains wi_finished_statuses status ≡ true
    → (advance_for now wi (some status) d).schedules id ≡ mapped (advanced now wi) (d.schedules id)
unfolding advance_for advance_completed_anchor
advance_for-schedules now wi status d id finished =
    ap
      (λ b.
        (if b
            then record d { schedules = λ i. mapped (advanced now wi) (d.schedules i) }
            else d).schedules
          id)
      finished

finish_update-schedules :
    (db : Postgres) (now wi : ℕ) (status : String) (was d : Desk) (id : ℕ)
    → contains wi_finished_statuses status ≡ true
    → (finish_update db now wi (some status) was d).schedules id
      ≡ mapped (advanced now wi) (d.schedules id)
unfolding finish_update touch_node settle_awaiting
finish_update-schedules db now wi status was d id finished =
    ap (λ (t : ℕ → Option ScheduleRow). t id)
      (record_edit-schedules db wi (fingerprint db wi was) _)
    ∙ advance_for-schedules now wi status (settle_awaiting wi d) id finished

log_status-schedules :
    (wi : ℕ) (status : Option String) (before : String) (d : Desk)
    → (log_status wi status before d).schedules ≡ d.schedules
unfolding log_status record_status
log_status-schedules wi none before d = refl
log_status-schedules wi (some status) before d = if_same (before == status)
  where
    if_same :
        (b : Bool)
        → (if b then d else record d {
          transitions =
              record { node_id = wi; from_status = before; to_status = status } ∷ d.transitions;
        }).schedules
          ≡ d.schedules
    if_same true = refl
    if_same false = refl

finished-not_unfinished :
    (status : String)
    → contains wi_finished_statuses status ≡ true
    → contains wi_unfinished_statuses status ≡ false
finished-not_unfinished status h =
    let apart : not (contains wi_unfinished_statuses status) ≡ true =
      all_of_contains (λ s. not (contains wi_unfinished_statuses s)) wi_finished_statuses status
        (unfold contains in refl) h in
    ground arith

-- The schedule, and the desk after the update.
module _ (db : Postgres) (now wi : ℕ) (p : WorkItemPatch) (d d' : Desk) (status : String)
    (h : update_work_item db now wi p d ≡ done d') (sets : p.wi_status ≡ some status)
    (finished : contains wi_finished_statuses status ≡ true) where
  updated-schedules : (id : ℕ) → d'.schedules id ≡ mapped (advanced now wi) (d.schedules id)
  unfolding write_rows
  updated-schedules id =
      let r = update_work_item-Written db now wi p d d' h in
      let rows = write_rows wi p r.project r.area r.parent d in
      let logged = log_status wi p.wi_status r.item.wi_status rows in
      ap (λ (t : Desk). t.schedules id) r.result
      ∙ ap (λ o. (finish_update db now wi o d logged).schedules id) sets
      ∙ finish_update-schedules db now wi status d logged id finished
      ∙ ap (λ (t : ℕ → Option ScheduleRow). mapped (advanced now wi) (t id))
          (log_status-schedules wi p.wi_status r.item.wi_status rows)

  updated-finished : unfinished (d'.work_items wi) ≡ false
  unfolding write_rows patch_item
  updated-finished =
      let r = update_work_item-Written db now wi p d d' h in
      ap (λ (t : ℕ → Option WorkItemRow). unfinished (t wi))
        (Written-Keeps db now wi p d d' r).items_same
      ∙ ap unfinished (alter_self wi wi _ d.work_items (ground arith) r.found_item)
      ∙ ap (λ o. contains wi_unfinished_statuses (patched o r.item.wi_status)) sets
      ∙ finished-not_unfinished status finished

advanced_self :
    (now wi : ℕ) (s : ScheduleRow)
    → s.last_wi_id ≡ some wi
    → s.anchor_mode ≡ "completed"
    → s.status ≡ "active"
    → advanced now wi s ≡ record s { anchor_at = now }
unfolding advanced
advanced_self now wi s points mode is_active =
    ground (arith, eq_iff s.anchor_mode "completed", eq_iff s.status "active")

is_due-restarted :
    (db : Postgres) (now wi t : ℕ) (d' : Desk) (s : ScheduleRow) (i : Interval)
    → s.last_wi_id ≡ some wi
    → s.status ≡ "active"
    → cadence_interval s.cadence ≡ some i
    → unfinished (d'.work_items wi) ≡ false
    → is_due db t d' (record s { anchor_at = now }) ≡ leb (db.plus now i) t
unfolding is_due outstanding due_at
is_due-restarted db now wi t d' s i points is_active every over =
    rw (points, is_active, every, over) refl

-- Finishing the newest work item of an active schedule that counts from its completion restarts the
-- clock: the schedule is due again exactly from its interval after that on.
pub update_work_item-restarts :
    (db : Postgres) (now wi id t : ℕ) (p : WorkItemPatch) (d d' : Desk) (status : String)
    (s : ScheduleRow) (i : Interval)
    → update_work_item db now wi p d ≡ done d'
    → p.wi_status ≡ some status
    → contains wi_finished_statuses status ≡ true
    → d.schedules id ≡ some s
    → s.last_wi_id ≡ some wi
    → s.anchor_mode ≡ "completed"
    → s.status ≡ "active"
    → cadence_interval s.cadence ≡ some i
    → (s' : ScheduleRow) × (d'.schedules id ≡ some s') × (is_due db t d' s' ≡ leb (db.plus now i) t)
update_work_item-restarts db now wi id t p d d' status s i h sets finished found points mode
      is_active every =
    (
      record s { anchor_at = now },
      updated-schedules db now wi p d d' status h sets finished id
          ∙ ap (mapped (advanced now wi)) found
          ∙ ap some (advanced_self now wi s points mode is_active),
      is_due-restarted db now wi t d' s i points is_active every
          (updated-finished db now wi p d d' status h sets finished),
    )
