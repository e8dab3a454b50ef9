-- ===== src/Desk/WorkItems/Areas.antt =====
-- A work item's area in crates/korg-core/src/repo/work_items.rs is one of its project.
use korg.Base.{
  ℕ, String, List, Option, none, some, Bool, true, false, ◌&&◌, nat_eq, is_some, find, ◌≡◌, refl,
  sym, ap, subst, ◌∙◌, arith, Bool-cases, Option-cases, inl, inr,
}
use korg.Desk.Tables.{
  NodeRow, WorkItemRow, AreaRow, Desk, done, >>=-eq-done, >>-eq-done, alter_self, alter_other,
  patched, area_project, project_of,
}
use korg.Desk.Postgres.{Postgres}
use korg.Core.Vocab.{wi_statuses, wi_types, wi_tshirts}
use korg.Desk.Select.{resolve_project, resolve_area}
use korg.Desk.Log.{in_vocabulary, record_activity, fingerprint, touch_node}
use korg.Desk.Awaiting.{settle_awaiting}
use korg.Desk.Keeps.{
  Keeps, Keeps-trans, Keeps-self, filed_under, touch_node-Keeps, settle_awaiting-Keeps,
  record_status-Keeps, record_edit-Keeps, advance-Keeps,
}
use korg.Desk.WorkItems.Written.{Write, created, updated, Written, update_work_item-Written}
use korg.Desk.WorkItems.{
  NewWorkItem, WorkItemPatch, same_id, check_area, insert_work_item, create_work_item, patch_item,
  fits, new_area, log_status, advance_for, write_rows, finish_update, update_work_item,
}

-- Whether the area of a row is one of the project of its node.
abbrev pub row_fits : Desk → Option (Option ℕ) → Option ℕ → Bool
row_fits d project none = true
row_fits d none (some area) = false
row_fits d (some project) (some area) = fits d project area

abbrev pub fits_at : Desk → Option WorkItemRow → Option (Option ℕ) → Bool
fits_at d none project = true
fits_at d (some w) project = row_fits d project w.area_id

abbrev pub item_fits : Desk → ℕ → Bool
item_fits d i = fits_at d (d.work_items i) (filed_under (d.nodes i))

-- Every work item that has an area has a project, and the area is one of that project.
pub record AreasFit (d : Desk) : Type 0 where
  pub each : (i : ℕ) → item_fits d i ≡ true

fits_of_areas :
    (d d' : Desk) (project : Option ℕ) (area : ℕ)
    → d'.areas ≡ d.areas
    → fits d' project area ≡ fits d project area
unfolding fits area_project
fits_of_areas d d' project area h =
    ap
      (λ (xs : List AreaRow).
        is_some project && same_id (project_of (find (λ a. nat_eq a.id area) xs)) project)
      h

fits_at_of_areas :
    (d d' : Desk) (item : Option WorkItemRow) (project : Option (Option ℕ))
    → d'.areas ≡ d.areas
    → fits_at d' item project ≡ fits_at d item project
fits_at_of_areas d d' none project h = refl
fits_at_of_areas d d' (some w) project h = row_of_areas w.area_id project
  where
    row_of_areas :
        (area : Option ℕ) (project : Option (Option ℕ))
        → row_fits d' project area ≡ row_fits d project area
    row_of_areas none project = refl
    row_of_areas (some area) none = refl
    row_of_areas (some area) (some project) = fits_of_areas d d' project area h

Keeps-item_fits : (d d' : Desk) → Keeps d d' → (i : ℕ) → item_fits d' i ≡ item_fits d i
Keeps-item_fits d d' k i =
    ap (λ (t : ℕ → Option WorkItemRow). fits_at d' (t i) (filed_under (d'.nodes i))) k.items_same
    ∙ ap (fits_at d' (d.work_items i)) (k.projects_same i)
    ∙ fits_at_of_areas d d' (d.work_items i) (filed_under (d.nodes i)) k.areas_same

Keeps-AreasFit : (d d' : Desk) → Keeps d d' → AreasFit d → AreasFit d'
Keeps-AreasFit d d' k a = record { each = λ i. Keeps-item_fits d d' k i ∙ a.each i }

advance_for-Keeps :
    (now id : ℕ) (status : Option String) (d : Desk) → Keeps d (advance_for now id status d)
unfolding advance_for
advance_for-Keeps now id none d = Keeps-self d
advance_for-Keeps now id (some status) d = advance-Keeps d id now status

finish_update-Keeps :
    (db : Postgres) (now id : ℕ) (status : Option String) (was d : Desk)
    → Keeps d (finish_update db now id status was d)
unfolding finish_update
finish_update-Keeps db now id status was d =
    let settled = settle_awaiting id d in
    let moved = advance_for now id status settled in
    Keeps-trans (settle_awaiting-Keeps d id) (
      Keeps-trans (advance_for-Keeps now id status settled) (
        Keeps-trans (touch_node-Keeps moved id now)
          (record_edit-Keeps (touch_node now id moved) id db (fingerprint db id was))))

log_status-Keeps :
    (id : ℕ) (status : Option String) (before : String) (d : Desk)
    → Keeps d (log_status id status before d)
unfolding log_status
log_status-Keeps id none before d = Keeps-self d
log_status-Keeps id (some status) before d = record_status-Keeps d id before status

-- The area that is kept, set or cleared fits the project that the work item will have.
new_area-fits :
    (d : Desk) (old : Option ℕ) (project chosen : Option (Option ℕ)) (current : Option ℕ)
    (area : Option (Option ℕ))
    → row_fits d (some old) current ≡ true
    → new_area d (patched project old) (is_some project) chosen current ≡ done area
    → row_fits d (some (patched project old)) (patched area current) ≡ true
unfolding new_area
new_area-fits d old project (some (some a)) current area ok h = ground arith
new_area-fits d old project (some none) current area ok h = ground arith
new_area-fits d old none none current area ok h = ground arith
new_area-fits d old (some p) none none area ok h = ground arith
new_area-fits d old (some p) none (some a) area ok h = ground arith

-- The rows written, at the work item itself and at any other.
write_rows-AreasFit :
    (d : Desk) (id : ℕ) (p : WorkItemPatch) (project parent : Option (Option ℕ))
    (area : Option (Option ℕ)) (node : NodeRow) (item : WorkItemRow)
    → d.nodes id ≡ some node
    → d.work_items id ≡ some item
    → row_fits d (some (patched project node.project_id)) (patched area item.area_id) ≡ true
    → AreasFit d
    → AreasFit (write_rows id p project area parent d)
unfolding write_rows patch_item
write_rows-AreasFit d id p project parent area node item n w ok a = record {
  each = λ i.
      let wrote = write_rows id p project area parent d in
      fits_at_of_areas d wrote (wrote.work_items i) (filed_under (wrote.nodes i)) refl
      ∙ (elim (Bool-cases (nat_eq i id)) [
        | inl at ↦ rw (alter_self id i _ d.work_items at w, alter_self id i _ d.nodes at n) ok
        | inr past ↦
            rw (alter_other id i _ d.work_items past, alter_other id i _ d.nodes past) (a.each i)
      ]);
}

-- What follows the rows of an update changes none of them that matters here.
pub Written-Keeps :
    (db : Postgres) (now wi_number : ℕ) (p : WorkItemPatch) (d d' : Desk)
    (r : Written db now wi_number p d d')
    → Keeps (write_rows wi_number p r.project r.area r.parent d) d'
Written-Keeps db now wi_number p d d' r =
    let rows = write_rows wi_number p r.project r.area r.parent d in
    let logged = log_status wi_number p.wi_status r.item.wi_status rows in
    subst (Keeps rows) (sym r.result) (
      Keeps-trans (log_status-Keeps wi_number p.wi_status r.item.wi_status rows)
        (finish_update-Keeps db now wi_number p.wi_status d logged))

update_work_item-AreasFit :
    (db : Postgres) (now wi_number : ℕ) (p : WorkItemPatch) (d d' : Desk)
    → AreasFit d
    → update_work_item db now wi_number p d ≡ done d'
    → AreasFit d'
update_work_item-AreasFit db now wi_number p d d' a h =
    let r = update_work_item-Written db now wi_number p d d' h in
    let held : row_fits d (some r.node.project_id) r.item.area_id ≡ true =
      ap (λ (n : Option NodeRow). row_fits d (filed_under n) r.item.area_id) (sym r.found_node)
      ∙ ap (λ (t : Option WorkItemRow). fits_at d t (filed_under (d.nodes wi_number)))
          (sym r.found_item)
      ∙ a.each wi_number in
    Keeps-AreasFit (write_rows wi_number p r.project r.area r.parent d) d'
      (Written-Keeps db now wi_number p d d' r)
      (write_rows-AreasFit d wi_number p r.project r.parent r.area r.node r.item r.found_node
        r.found_item
        (new_area-fits d r.node.project_id r.project r.chosen r.item.area_id r.area held r.area_is)
        a)

check_area-fits :
    (d : Desk) (project area : Option ℕ)
    → check_area d project area ≡ none
    → row_fits d (some project) area ≡ true
unfolding check_area fits
check_area-fits d project none h = refl
check_area-fits d none (some area) h = elim (Option-cases (area_project d area)) [
  | inl absent ↦ absurd (ground arith)
  | inr (q, found) ↦ absurd (ground arith)
]
check_area-fits d (some project) (some area) h = elim (Option-cases (area_project d area)) [
  | inl absent ↦ absurd (ground arith)
  | inr (q, found) ↦ ground arith
]

insert_work_item-AreasFit :
    (now : ℕ) (new : NewWorkItem) (project area : Option ℕ) (d : Desk)
    → row_fits d (some project) area ≡ true
    → AreasFit d
    → AreasFit (insert_work_item now new project area d)
unfolding insert_work_item record_activity
insert_work_item-AreasFit now new project area d ok a = record {
  each = λ i.
      let wrote = insert_work_item now new project area d in
      fits_at_of_areas d wrote (wrote.work_items i) (filed_under (wrote.nodes i)) refl
      ∙ (elim (Bool-cases (nat_eq i d.next_node)) [
        | inl at ↦ rw at ok
        | inr past ↦ rw past (a.each i)
      ]);
}

create_work_item-AreasFit :
    (now : ℕ) (new : NewWorkItem) (d d' : Desk)
    → AreasFit d
    → create_work_item now new d ≡ done d'
    → AreasFit d'
unfolding create_work_item
create_work_item-AreasFit now new d d' a h =
    let (_, h1) = >>-eq-done (in_vocabulary wi_statuses new.wi_status) _ h in
    let (_, h2) = >>-eq-done (in_vocabulary wi_types new.wi_type) _ h1 in
    let (_, h3) = >>-eq-done (in_vocabulary wi_tshirts new.wi_tshirt) _ h2 in
    let (project, r, h4) = >>=-eq-done (resolve_project d new.project_id new.project) _ h3 in
    let (area, e, h5) = >>=-eq-done (resolve_area d project new.area_id new.area) _ h4 in
    let (ok, h6) = >>-eq-done (check_area d project area) _ h5 in
    subst AreasFit (cc)
      (insert_work_item-AreasFit now new project area d (check_area-fits d project area ok) a)

pub Write-AreasFit : (db : Postgres) (d d' : Desk) → Write db d d' → AreasFit d → AreasFit d'
Write-AreasFit db d d' (created now new h) a = create_work_item-AreasFit now new d d' a h
Write-AreasFit db d d' (updated now wi_number p h) a =
    update_work_item-AreasFit db now wi_number p d d' a h
