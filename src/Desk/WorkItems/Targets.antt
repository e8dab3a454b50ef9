-- ===== src/Desk/WorkItems/Targets.antt =====
-- Where the writes of crates/korg-core/src/repo/work_items.rs file a work item: the project that
-- selectors.rs resolves takes work.
use korg.Base.{
  ℕ, String, List, [], ◌∷◌, Option, none, some, Bool, true, false, ◌&&◌, ◌==◌, nat_eq, find,
  find-holds, any, ◌≡◌, sym, ap, subst, ◌∙◌, ◌⊎◌, arith, Option-cases, inl, inr, Bool-cases,
}
use korg.Core.Vocab.{project_status_active, wi_statuses, wi_types, wi_tshirts}
use korg.Desk.Tables.{
  some_inj, NodeRow, ProjectRow, Desk, done, >>=-eq-done, >>-eq-done, project_by_id,
  project_by_name, alter_self, alter_other, eq_of_nat_eq, patched,
}
use korg.Desk.Postgres.{Postgres}
use korg.Desk.Log.{in_vocabulary, record_activity}
use korg.Desk.Select.{
  takes_work, project_id_for_name, require_project, resolve_project, resolve_project_patch,
  resolve_area,
}
use korg.Desk.Keeps.{filed_under}
use korg.Desk.WorkItems.{
  NewWorkItem, WorkItemPatch, check_area, insert_work_item, create_work_item, write_rows,
  update_work_item,
}
use korg.Desk.WorkItems.Written.{Write, created, updated, update_work_item-Written}
use korg.Desk.WorkItems.Areas.{Written-Keeps}

-- Whether a project of the table has the id, and takes work.
abbrev pub active : Desk → ℕ → Bool
active d id = any (λ p. nat_eq p.id id && p.status == project_status_active) d.projects

first_found :
    (q : ProjectRow → Bool) (p : ProjectRow) (ps : List ProjectRow) (row : ProjectRow)
    → q p ≡ true
    → find q (p ∷ ps) ≡ some row
    → p ≡ row
first_found q p ps row here h =
    some_inj (ap (λ b. elim b [ true ↦ some p | false ↦ find q ps ]) (sym here) ∙ h)

find-active :
    (q : ProjectRow → Bool) (ps : List ProjectRow) (row : ProjectRow)
    → find q ps ≡ some row
    → takes_work row ≡ none
    → any (λ p. nat_eq p.id row.id && p.status == project_status_active) ps ≡ true
find-active q [] row h t = cc
find-active q (p ∷ ps) row h t = elim (Bool-cases (q p)) [
  | inl here ↦
      let e : p ≡ row = first_found q p ps row here h in
      ground (arith, ap (λ (x : ProjectRow). x.id) e, ap (λ (x : ProjectRow). x.status) e)
  | inr there ↦ let rest = find-active q ps row (ground arith) t in ground (arith, rest)
]

project_id_for_name-active :
    (d : Desk) (name : String) (id : ℕ) → project_id_for_name d name ≡ done id → active d id ≡ true
unfolding project_id_for_name project_by_name
project_id_for_name-active d name id h = elim (Option-cases (project_by_name d name)) [
  | inl absent ↦ absurd (ground arith)
  | inr (row, found) ↦
      let (t, e) =
        >>-eq-done (takes_work row) (done row.id) (rw (found, project_id_for_name) at h) in
      let same : row.id ≡ id = cc in
      subst (λ k. active d k ≡ true) same (find-active _ d.projects row found t)
]

require_project-active : (d : Desk) (id : ℕ) → require_project d id ≡ none → active d id ≡ true
unfolding require_project project_by_id
require_project-active d id h = elim (Option-cases (project_by_id d id)) [
  | inl absent ↦ absurd (ground arith)
  | inr (row, found) ↦
      let t : takes_work row ≡ none = rw (found, require_project) at h in
      let same = eq_of_nat_eq row.id id (find-holds (λ p. nat_eq p.id id) d.projects row found) in
      subst (λ k. active d k ≡ true) same (find-active _ d.projects row found t)
]

resolve_project_patch-active :
    (d : Desk) (id : Option (Option ℕ)) (name : Option (Option String)) (q : ℕ)
    → resolve_project_patch d id name ≡ done (some (some q))
    → active d q ≡ true
unfolding resolve_project_patch
resolve_project_patch-active d (some id) (some name) q h = cc
resolve_project_patch-active d (some (some id)) none q h =
    let (r, e) = >>-eq-done (require_project d id) _ h in
    let same : id ≡ q = cc in subst (λ k. active d k ≡ true) same (require_project-active d id r)
resolve_project_patch-active d (some none) none q h = cc
resolve_project_patch-active d none (some (some name)) q h =
    let (id, r, e) = >>=-eq-done (project_id_for_name d name) _ h in
    let same : id ≡ q = cc in
    subst (λ k. active d k ≡ true) same (project_id_for_name-active d name id r)
resolve_project_patch-active d none (some none) q h = cc
resolve_project_patch-active d none none q h = cc

resolve_project-active :
    (d : Desk) (id : Option ℕ) (name : Option String) (q : ℕ)
    → resolve_project d id name ≡ done (some q)
    → active d q ≡ true
unfolding resolve_project
resolve_project-active d (some id) (some name) q h = cc
resolve_project-active d (some id) none q h =
    let (r, e) = >>-eq-done (require_project d id) _ h in
    let same : id ≡ q = cc in subst (λ k. active d k ≡ true) same (require_project-active d id r)
resolve_project-active d none (some name) q h =
    let (id, r, e) = >>=-eq-done (project_id_for_name d name) _ h in
    let same : id ≡ q = cc in
    subst (λ k. active d k ≡ true) same (project_id_for_name-active d name id r)
resolve_project-active d none none q h = cc

-- The project that a patch leaves a node in.
patched-active :
    (d : Desk) (project : Option (Option ℕ)) (old : Option ℕ) (q : ℕ)
    → ((r : ℕ) → project ≡ some (some r) → active d r ≡ true)
    → patched project old ≡ some q
    → (old ≡ some q) ⊎ (active d q ≡ true)
patched-active d none old q ok h = inl h
patched-active d (some new) old q ok h = inr (ok q (ap some h))

rows_self :
    (wi i : ℕ) (p : WorkItemPatch) (project area parent : Option (Option ℕ)) (d : Desk)
    (node : NodeRow)
    → nat_eq i wi ≡ true
    → d.nodes wi ≡ some node
    → filed_under ((write_rows wi p project area parent d).nodes i)
      ≡ some (patched project node.project_id)
unfolding write_rows
rows_self wi i p project area parent d node at found =
    ap filed_under (alter_self wi i _ d.nodes at found)

rows_other :
    (wi i : ℕ) (p : WorkItemPatch) (project area parent : Option (Option ℕ)) (d : Desk)
    → nat_eq i wi ≡ false
    → filed_under ((write_rows wi p project area parent d).nodes i) ≡ filed_under (d.nodes i)
unfolding write_rows
rows_other wi i p project area parent d past = ap filed_under (alter_other wi i _ d.nodes past)

update-target :
    (db : Postgres) (now wi : ℕ) (p : WorkItemPatch) (d d' : Desk) (i q : ℕ)
    → update_work_item db now wi p d ≡ done d'
    → filed_under (d'.nodes i) ≡ some (some q)
    → (filed_under (d.nodes i) ≡ some (some q)) ⊎ (active d q ≡ true)
update-target db now wi p d d' i q h target =
    let r = update_work_item-Written db now wi p d d' h in
    let rows = write_rows wi p r.project r.area r.parent d in
    let kept = sym ((Written-Keeps db now wi p d d' r).projects_same i) ∙ target in
    elim (Bool-cases (nat_eq i wi)) [
      | inl at ↦
          let moved =
            some_inj
              (sym (rows_self wi i p r.project r.area r.parent d r.node at r.found_node) ∙ kept) in
          elim (patched-active d r.project r.node.project_id q
            (λ k e.
              resolve_project_patch-active d p.project_id p.project k (r.resolved ∙ ap done e))
            moved) [
              | inr yes_active ↦ inr yes_active
              | inl old ↦
                  inl (
                    ap filed_under (ap d.nodes (eq_of_nat_eq i wi at) ∙ r.found_node) ∙ ap some old)
            ]
      | inr past ↦ inl (sym (rows_other wi i p r.project r.area r.parent d past) ∙ kept)
    ]

inserted-target :
    (now : ℕ) (new : NewWorkItem) (project area : Option ℕ) (d : Desk) (i q : ℕ)
    → (project ≡ some q → active d q ≡ true)
    → filed_under ((insert_work_item now new project area d).nodes i) ≡ some (some q)
    → (filed_under (d.nodes i) ≡ some (some q)) ⊎ (active d q ≡ true)
unfolding insert_work_item record_activity
inserted-target now new project area d i q ok h = elim (Bool-cases (nat_eq i d.next_node)) [
  | inl at ↦ inr (ok (some_inj (rw at at h)))
  | inr past ↦ inl (rw past at h)
]

create-target :
    (now : ℕ) (new : NewWorkItem) (d d' : Desk) (i q : ℕ)
    → create_work_item now new d ≡ done d'
    → filed_under (d'.nodes i) ≡ some (some q)
    → (filed_under (d.nodes i) ≡ some (some q)) ⊎ (active d q ≡ true)
unfolding create_work_item
create-target now new d d' i q h target =
    let (_, h1) = >>-eq-done (in_vocabulary wi_statuses new.wi_status) _ h in
    let (_, h2) = >>-eq-done (in_vocabulary wi_types new.wi_type) _ h1 in
    let (_, h3) = >>-eq-done (in_vocabulary wi_tshirts new.wi_tshirt) _ h2 in
    let (project, r, h4) = >>=-eq-done (resolve_project d new.project_id new.project) _ h3 in
    let (area, e, h5) = >>=-eq-done (resolve_area d project new.area_id new.area) _ h4 in
    let (ok, h6) = >>-eq-done (check_area d project area) _ h5 in
    let wrote : insert_work_item now new project area d ≡ d' = cc in
    inserted-target now new project area d i q
      (λ e. resolve_project-active d new.project_id new.project q (r ∙ ap done e))
      (ap (λ (t : Desk). filed_under (t.nodes i)) wrote ∙ target)

-- Whatever node is in whatever project after a work item is created or updated, it was there before, or
-- the project takes work.
pub Write-target :
    (db : Postgres) (d d' : Desk) (i q : ℕ)
    → Write db d d'
    → filed_under (d'.nodes i) ≡ some (some q)
    → (filed_under (d.nodes i) ≡ some (some q)) ⊎ (active d q ≡ true)
Write-target db d d' i q (created now new h) target = create-target now new d d' i q h target
Write-target db d d' i q (updated now wi p h) target = update-target db now wi p d d' i q h target
