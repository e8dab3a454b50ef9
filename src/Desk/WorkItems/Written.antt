-- ===== src/Desk/WorkItems/Written.antt =====
-- What an update of crates/korg-core/src/repo/work_items.rs that succeeds has resolved and written.
use korg.Base.{ℕ, Option, some, is_some, ◌≡◌, sym, ap, ◌∙◌, arith}
use korg.Core.Vocab.{wi_statuses, wi_types, wi_tshirts}
use korg.Desk.Tables.{
  NodeRow, WorkItemRow, Desk, no_work_item, row_gone, done, >>=-eq-done, >>-eq-done, ok_or,
  ok_or-eq-done, patched,
}
use korg.Desk.Postgres.{Postgres}
use korg.Desk.Log.{in_vocabulary_patch}
use korg.Desk.Select.{resolve_project_patch, resolve_area_patch}
use korg.Desk.WorkItems.{
  NewWorkItem, create_work_item, WorkItemPatch, node_id_for_wi, parent_node, new_area, log_status,
  write_rows, finish_update, write_work_item, update_work_item,
}

-- A work item is created, or updated.
pub data Write (db : Postgres) (d d' : Desk) : Type 0 where
  created : (now : ℕ) (new : NewWorkItem) → create_work_item now new d ≡ done d' → Write db d d'
  updated :
      (now wi_number : ℕ) (p : WorkItemPatch)
      → update_work_item db now wi_number p d ≡ done d'
      → Write db d d'

module _ (db : Postgres) (now wi : ℕ) (p : WorkItemPatch) (d d' : Desk) where
  pub record Written : Type 0 where
    pub project : Option (Option ℕ)
    pub parent : Option (Option ℕ)
    pub chosen : Option (Option ℕ)
    pub area : Option (Option ℕ)
    pub node : NodeRow
    pub item : WorkItemRow
    pub found_node : d.nodes wi ≡ some node
    pub found_item : d.work_items wi ≡ some item
    pub resolved : resolve_project_patch d p.project_id p.project ≡ done project
    pub area_is :
        new_area d (patched project node.project_id) (is_some project) chosen item.area_id
        ≡ done area
    pub result :
        d'
        ≡ finish_update db now wi p.wi_status d
            (log_status wi p.wi_status item.wi_status (write_rows wi p project area parent d))

  node_id_self : (id : ℕ) → node_id_for_wi d wi ≡ some id → id ≡ wi
  unfolding node_id_for_wi
  node_id_self id h = ground arith

  write-Written :
      (project parent : Option (Option ℕ)) (node : NodeRow) (item : WorkItemRow)
      → d.nodes wi ≡ some node
      → d.work_items wi ≡ some item
      → resolve_project_patch d p.project_id p.project ≡ done project
      → write_work_item db now wi p project parent node item d ≡ done d'
      → Written
  unfolding write_work_item
  write-Written project parent node item n w r h =
      let effective = patched project node.project_id in
      let (chosen, c, h1) = >>=-eq-done (resolve_area_patch d effective p.area_id p.area) _ h in
      let (area, e, h2) =
        >>=-eq-done (new_area d effective (is_some project) chosen item.area_id) _ h1 in
      record {
        project = project;
        parent = parent;
        chosen = chosen;
        area = area;
        node = node;
        item = item;
        found_node = n;
        found_item = w;
        resolved = r;
        area_is = e;
        result = cc;
      }

  pub update_work_item-Written : update_work_item db now wi p d ≡ done d' → Written
  unfolding update_work_item
  update_work_item-Written h =
      let (id, i, h1) = >>=-eq-done (ok_or (node_id_for_wi d wi) (no_work_item wi)) _ h in
      let self = node_id_self id (ok_or-eq-done (node_id_for_wi d wi) (no_work_item wi) i) in
      let (_, h2) = >>-eq-done (in_vocabulary_patch wi_statuses p.wi_status) _ h1 in
      let (_, h3) = >>-eq-done (in_vocabulary_patch wi_types p.wi_type) _ h2 in
      let (_, h4) = >>-eq-done (in_vocabulary_patch wi_tshirts p.wi_tshirt) _ h3 in
      let (parent, pa, h5) = >>=-eq-done (parent_node d p.parent) _ h4 in
      let (project, r, h6) = >>=-eq-done (resolve_project_patch d p.project_id p.project) _ h5 in
      let (node, n, h7) = >>=-eq-done (ok_or (d.nodes id) (row_gone id)) _ h6 in
      let (item, w, h8) = >>=-eq-done (ok_or (d.work_items id) (row_gone id)) _ h7 in
      write-Written project parent node item
        (ap d.nodes (sym self) ∙ ok_or-eq-done (d.nodes id) (row_gone id) n)
        (ap d.work_items (sym self) ∙ ok_or-eq-done (d.work_items id) (row_gone id) w) r
        (ap (λ (k : ℕ). write_work_item db now k p project parent node item d) (sym self) ∙ h8)
