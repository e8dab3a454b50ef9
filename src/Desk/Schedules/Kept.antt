-- ===== src/Desk/Schedules/Kept.antt =====
-- The writes of crates/korg-core/src/repo/schedules.rs and awaiting.rs that leave alone which work item
-- a schedule points at.
use korg.Base.{
  ℕ, String, Option, none, some, Bool, true, false, is_some, ◌≡◌, refl, subst, arith, Option-cases,
  inl, inr,
}
use korg.Desk.Tables.{done_inj, NodeRow, ScheduleRow, Desk, done, >>-eq-done, alter, patched}
use korg.Desk.Postgres.{Postgres}
use korg.Desk.Log.{touch_node, fingerprint}
use korg.Desk.Awaiting.{first_asked, set_awaiting, settle_awaiting}
use korg.Desk.Schedules.Edit.{
  SchedulePatch, patch_schedule, check_patch, write_schedule, update_schedule,
}
use korg.Desk.Keeps.{
  Keeps, Keeps-trans, newest, filed_under-alter, nodes-Keeps, touch_node-Keeps,
  settle_awaiting-Keeps, record_edit-Keeps,
}

newest-patched :
    (id i : ℕ) (p : SchedulePatch) (t : ℕ → Option ScheduleRow)
    → newest (alter id (patch_schedule p) t i) ≡ newest (t i)
unfolding patch_schedule
newest-patched id i p t = elim (Option-cases (t i)) [
  | inl absent ↦ ground arith
  | inr (s, found) ↦ ground arith
]

is_some-alter :
    (id i : ℕ) (f : ScheduleRow → ScheduleRow) (t : ℕ → Option ScheduleRow)
    → is_some (alter id f t i) ≡ is_some (t i)
is_some-alter id i f t = elim (Option-cases (t i)) [
  | inl absent ↦ ground arith
  | inr (s, found) ↦ ground arith
]

write_schedule-Keeps :
    (db : Postgres) (now id : ℕ) (p : SchedulePatch) (d : Desk)
    → Keeps d (write_schedule db now id p d)
unfolding write_schedule
write_schedule-Keeps db now id p d =
    let f : NodeRow → NodeRow =
      λ n. record n { archived = patched p.archived n.archived; tags = patched p.tags n.tags } in
    let rows = record d {
      schedules = alter id (patch_schedule p) d.schedules;
      nodes = alter id f d.nodes;
    } in
    let patched_rows : Keeps d rows = record {
      areas_same = refl;
      items_same = refl;
      edges_same = refl;
      next_same = refl;
      projects_same = λ i. filed_under-alter id f d.nodes i (λ n. refl);
      newest_same = λ i. newest-patched id i p d.schedules;
      kept_same = λ i. is_some-alter id i (patch_schedule p) d.schedules;
    } in
    let settled = settle_awaiting id rows in
    Keeps-trans patched_rows (
      Keeps-trans (settle_awaiting-Keeps rows id) (
        Keeps-trans (touch_node-Keeps settled id now)
          (record_edit-Keeps (touch_node now id settled) id db (fingerprint db id d))))

pub update_schedule-Keeps :
    (db : Postgres) (now id : ℕ) (p : SchedulePatch) (d d' : Desk)
    → update_schedule db now id p d ≡ done d'
    → Keeps d d'
unfolding update_schedule
update_schedule-Keeps db now id p d d' h =
    let (_, e) = >>-eq-done (check_patch id p d) (done (write_schedule db now id p d)) h in
    subst (Keeps d) (done_inj e) (write_schedule-Keeps db now id p d)

-- The marker set or cleared on a node that is there.
marked-Keeps :
    (now id : ℕ) (asks : Bool) (text : Option String) (d d' : Desk) (n : NodeRow)
    → d.nodes id ≡ some n
    → set_awaiting now id asks text d ≡ done d'
    → Keeps d d'
unfolding set_awaiting
marked-Keeps now id true text d d' n found h =
    let f : NodeRow → NodeRow =
      λ n. record n { awaiting_since = first_asked now n.awaiting_since; awaiting_note = text } in
    subst (Keeps d) (done_inj (rw found at h)) (nodes-Keeps d id f (λ n. refl))
marked-Keeps now id false (some text) d d' n found h = cc
marked-Keeps now id false none d d' n found h =
    let f : NodeRow → NodeRow = λ n. record n { awaiting_since = none; awaiting_note = none } in
    subst (Keeps d) (done_inj (rw found at h)) (nodes-Keeps d id f (λ n. refl))

pub set_awaiting-Keeps :
    (now id : ℕ) (asks : Bool) (text : Option String) (d d' : Desk)
    → set_awaiting now id asks text d ≡ done d'
    → Keeps d d'
unfolding set_awaiting
set_awaiting-Keeps now id asks text d d' h = elim (Option-cases (d.nodes id)) [
  | inr (n, found) ↦ marked-Keeps now id asks text d d' n found h
  | inl absent ↦ absurd (ground arith)
]
