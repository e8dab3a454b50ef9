-- ===== src/Desk/AreaEdits/Fits.antt =====
-- What the edits of areas in crates/korg-core/src/repo/areas.rs leave of the areas that are used.
use korg.Base.{
  ℕ, String, List, [], ◌∷◌, Option, none, some, Bool, true, false, not, ◌&&◌, ◌==◌, map, find,
  retain, nat_eq, is_some, ◌≡◌, refl, ap, subst, ◌∙◌, arith, Bool-cases, Option-cases, inl, inr,
}
use korg.Desk.Tables.{
  done_inj, eq_of_nat_eq, AreaRow, WorkItemRow, Desk, done, area_project, project_of,
  project_by_name, ok_or, >>=-eq-done, >>-eq-done, no_project_named, no_area_named, mapped,
}
use korg.Desk.Keeps.{filed_under}
use korg.Desk.WorkItems.{fits}
use korg.Desk.WorkItems.Areas.{row_fits, fits_at, AreasFit}
use korg.Desk.AreaEdits.{
  area_row_id, clash, renamed, rename_area, check_name, write_name, update_area, filed, cleared,
  unfiled, remove_area, drop_area, delete_area, upsert_area, create_area,
}

-- The areas that there were keep their projects.
abbrev Grown : Desk → Desk → Type 0
Grown d d' = (a : ℕ) → is_some (area_project d a) ≡ true → area_project d' a ≡ area_project d a

fits-Grown :
    (d d' : Desk) (project : Option ℕ) (area : ℕ)
    → Grown d d'
    → fits d project area ≡ true
    → fits d' project area ≡ true
unfolding fits
fits-Grown d d' none area g h = h
fits-Grown d d' (some p) area g h = elim (Option-cases (area_project d area)) [
  | inl absent ↦ ground (arith, h)
  | inr (q, found) ↦ ground (arith, h, g area)
]

row_fits-Grown :
    (d d' : Desk) (project : Option (Option ℕ)) (area : Option ℕ)
    → Grown d d'
    → row_fits d project area ≡ true
    → row_fits d' project area ≡ true
row_fits-Grown d d' project none g h = refl
row_fits-Grown d d' none (some area) g h = h
row_fits-Grown d d' (some project) (some area) g h = fits-Grown d d' project area g h

fits_at-Grown :
    (d d' : Desk) (item : Option WorkItemRow) (project : Option (Option ℕ))
    → Grown d d'
    → fits_at d item project ≡ true
    → fits_at d' item project ≡ true
fits_at-Grown d d' none project g h = refl
fits_at-Grown d d' (some w) project g h = row_fits-Grown d d' project w.area_id g h

find-renamed :
    (id a : ℕ) (name : String) (rows : List AreaRow)
    → project_of (find (λ r. nat_eq r.id a) (map (renamed id name) rows))
      ≡ project_of (find (λ r. nat_eq r.id a) rows)
find-renamed id a name [] = refl
find-renamed id a name (r ∷ rows) = ground (arith, find-renamed id a name rows)

rename_area-AreasFit :
    (id : ℕ) (name : String) (d : Desk) → AreasFit d → AreasFit (rename_area id name d)
unfolding rename_area area_project
rename_area-AreasFit id name d a = record {
  each = λ i.
      fits_at-Grown d (rename_area id name d) (d.work_items i) (filed_under (d.nodes i))
        (λ x h. find-renamed id x name d.areas) (a.each i);
}

find-retain_other :
    (id a : ℕ) (rows : List AreaRow)
    → nat_eq a id ≡ false
    → project_of (find (λ r. nat_eq r.id a) (retain (λ r. not (nat_eq r.id id)) rows))
      ≡ project_of (find (λ r. nat_eq r.id a) rows)
unfolding retain
find-retain_other id a [] other = refl
find-retain_other id a (r ∷ rows) other = ground (arith, find-retain_other id a rows)

fits-remove_area :
    (id : ℕ) (d : Desk) (project : Option ℕ) (area : ℕ)
    → nat_eq area id ≡ false
    → fits (remove_area id d) project area ≡ fits d project area
unfolding remove_area fits area_project
fits-remove_area id d project area other = rw (find-retain_other id area d.areas other) refl

row_fits-cleared :
    (id : ℕ) (d : Desk) (project : Option (Option ℕ)) (area : Option ℕ)
    → row_fits d project area ≡ true
    → row_fits (remove_area id d) project (cleared id area) ≡ true
row_fits-cleared id d project none h = refl
row_fits-cleared id d none (some area) h = ground (arith, h)
row_fits-cleared id d (some project) (some area) h = elim (Bool-cases (nat_eq area id)) [
  | inl gone ↦ rw gone refl
  | inr other ↦ rw other (fits-remove_area id d project area other ∙ h)
]

fits_at-unfiled :
    (id : ℕ) (d : Desk) (item : Option WorkItemRow) (project : Option (Option ℕ))
    → fits_at d item project ≡ true
    → fits_at (remove_area id d) (mapped (unfiled id) item) project ≡ true
fits_at-unfiled id d none project h = refl
fits_at-unfiled id d (some w) project h = row_fits-cleared id d project w.area_id h

remove_area-AreasFit : (id : ℕ) (d : Desk) → AreasFit d → AreasFit (remove_area id d)
unfolding remove_area
remove_area-AreasFit id d a = record {
  each = λ i. fits_at-unfiled id d (d.work_items i) (filed_under (d.nodes i)) (a.each i);
}

find-new :
    (fresh pid x : ℕ) (name : String) (rows : List AreaRow)
    → nat_eq fresh x ≡ false
    → project_of
        (find (λ r. nat_eq r.id x) (record { id = fresh; project_id = pid; name = name } ∷ rows))
      ≡ project_of (find (λ r. nat_eq r.id x) rows)
find-new fresh pid x name rows old = ground (arith, old)

fresh-Grown :
    (fresh pid : ℕ) (name : String) (d : Desk)
    → area_project d fresh ≡ none
    → Grown d (record d { areas = record { id = fresh; project_id = pid; name = name } ∷ d.areas })
unfolding area_project
fresh-Grown fresh pid name d unused x h = elim (Bool-cases (nat_eq fresh x)) [
  | inl new ↦ absurd (
      ground (
        arith,
        h,
        unused,
        ap (λ i. project_of (find (λ r. nat_eq r.id i) d.areas)) (eq_of_nat_eq fresh x new),
      ))
  | inr old ↦ find-new fresh pid x name d.areas old
]

upsert_area-AreasFit :
    (fresh pid : ℕ) (name : String) (o : Option AreaRow) (d : Desk)
    → area_project d fresh ≡ none
    → AreasFit d
    → AreasFit (upsert_area fresh pid name o d).0
unfolding upsert_area
upsert_area-AreasFit fresh pid name (some r) d unused a = a
upsert_area-AreasFit fresh pid name none d unused a = record {
  each = λ i.
      fits_at-Grown d _ (d.work_items i) (filed_under (d.nodes i))
        (fresh-Grown fresh pid name d unused) (a.each i);
}

write_name-AreasFit :
    (project : String) (id : ℕ) (new_name : Option String) (d d' : Desk)
    → AreasFit d
    → write_name project id new_name d ≡ done d'
    → AreasFit d'
unfolding write_name
write_name-AreasFit project id none d d' a h = subst AreasFit (done_inj h) a
write_name-AreasFit project id (some name) d d' a h = elim (Bool-cases (clash d project name id)) [
  | inl taken ↦ absurd (ground arith)
  | inr free ↦
      subst AreasFit (done_inj {a = rename_area id name d} (ground arith))
        (rename_area-AreasFit id name d a)
]

pub update_area-AreasFit :
    (project name : String) (new_name : Option String) (d d' : Desk)
    → AreasFit d
    → update_area project name new_name d ≡ done d'
    → AreasFit d'
unfolding update_area
update_area-AreasFit project name new_name d d' a h =
    let (_, h1) = >>-eq-done (check_name new_name) _ h in
    let (id, found, h2) =
      >>=-eq-done (ok_or (area_row_id d project name) (no_area_named project name)) _ h1 in
    write_name-AreasFit project id new_name d d' a h2

drop_area-AreasFit :
    (name : String) (o : Option ℕ) (d : Desk) (r : Desk × Bool)
    → AreasFit d
    → drop_area name o d ≡ done r
    → AreasFit r.0
unfolding drop_area
drop_area-AreasFit name none d r a h = rw (← done_inj h) a
drop_area-AreasFit name (some id) d r a h = elim (Bool-cases (filed d id)) [
  | inl used ↦ absurd (ground arith)
  | inr unused ↦
      rw (← done_inj {a = (remove_area id d, true)} {b = r} (ground arith))
        (remove_area-AreasFit id d a)
]

pub delete_area-AreasFit :
    (project name : String) (d : Desk) (r : Desk × Bool)
    → AreasFit d
    → delete_area project name d ≡ done r
    → AreasFit r.0
unfolding delete_area
delete_area-AreasFit project name d r a h =
    drop_area-AreasFit name (area_row_id d project name) d r a h

pub create_area-AreasFit :
    (fresh : ℕ) (project name : String) (d : Desk) (r : Desk × ℕ)
    → area_project d fresh ≡ none
    → AreasFit d
    → create_area fresh project name d ≡ done r
    → AreasFit r.0
unfolding create_area
create_area-AreasFit fresh project name d r unused a h =
    let (p, found, h1) =
      >>=-eq-done (ok_or (project_by_name d project) (no_project_named project)) _ h in
    rw (← done_inj h1) (
      upsert_area-AreasFit fresh p.id name
        (find (λ x. nat_eq x.project_id p.id && x.name == name) d.areas) d unused a)
