-- ===== src/Desk/Schedules/Once.antt =====
-- crates/korg-core/src/repo/schedules.rs: a schedule whose work is outstanding does not fire again.
use korg.Base.{ℕ, Option, none, some, Bool, true, contains, ◌≡◌, refl, arith}
use korg.Desk.Tables.{
  NodeRow, ScheduleRow, Desk, outstanding_item, done, denied, >>=-eq-done, >>-eq-done,
  ok_or-eq-done, row_gone, ok_or,
}
use korg.Desk.Postgres.{Postgres}
use korg.Desk.Log.{touch_node, record_activity}
use korg.Desk.Schedules.{outstanding, materialize_gate, new_item, fired, write_item, fire}

module _ (db : Postgres) (now id : ℕ) (force : Bool) (seen : ScheduleRow) (d : Desk) where
  -- What the transaction found, and wrote.
  pub record Fired (d' : Desk) (item : ℕ) : Type 0 where
    pub locked : ScheduleRow
    pub node : NodeRow
    pub found : d.schedules id ≡ some locked
    pub found_node : d.nodes id ≡ some node
    pub open_gate : materialize_gate db now d id force locked ≡ none
    pub written : d' ≡ write_item db now id seen locked node.project_id d
    pub item_is : item ≡ d.next_node

  pub fire-Fired :
      (d' : Desk) (item : ℕ) → fire db now id force seen d ≡ done (d', item) → Fired d' item
  unfolding fire
  fire-Fired d' item h =
      let (locked, e, h1) = >>=-eq-done (ok_or (d.schedules id) (row_gone id)) _ h in
      let (gate, h2) = >>-eq-done (materialize_gate db now d id force locked) _ h1 in
      let (node, f, h3) = >>=-eq-done (ok_or (d.nodes id) (row_gone id)) _ h2 in
      record {
        locked = locked;
        node = node;
        found = ok_or-eq-done (d.schedules id) (row_gone id) e;
        found_node = ok_or-eq-done (d.nodes id) (row_gone id) f;
        open_gate = gate;
        written = cc;
        item_is = cc;
      }

  written-schedule :
      (locked : ScheduleRow) (project : Option ℕ)
      → d.schedules id ≡ some locked
      → (write_item db now id seen locked project d).schedules id
        ≡ some (fired db now d.next_node locked)
  unfolding write_item record_activity touch_node
  written-schedule locked project found = ground arith

  written-outstanding :
      (locked : ScheduleRow) (project : Option ℕ)
      → outstanding (write_item db now id seen locked project d) (fired db now d.next_node locked)
        ≡ true
  unfolding write_item record_activity touch_node fired outstanding new_item contains
  written-outstanding locked project = ground arith

  pub gate-outstanding :
      (at : ℕ) (d' : Desk) (again : Bool) (s : ScheduleRow)
      → outstanding d' s ≡ true
      → materialize_gate db at d' id again s ≡ some (outstanding_item id)
  unfolding materialize_gate
  gate-outstanding at d' again s h = rw (h, materialize_gate) refl

  fire-outstanding :
      (at : ℕ) (again : Bool) (other s : ScheduleRow) (d' : Desk)
      → d'.schedules id ≡ some s
      → outstanding d' s ≡ true
      → fire db at id again other d' ≡ denied (outstanding_item id)
  unfolding fire
  fire-outstanding at again other s d' found h = rw (found, gate-outstanding at d' again s h) refl

  -- Once a schedule has fired, the next transaction for it is refused for its outstanding item: one
  -- whose caller was let through before, and one that forces it, included.
  pub fire_once :
      (d' : Desk) (item now' : ℕ) (force' : Bool) (seen' : ScheduleRow)
      → fire db now id force seen d ≡ done (d', item)
      → fire db now' id force' seen' d' ≡ denied (outstanding_item id)
  fire_once d' item now' force' seen' h =
      let f = fire-Fired d' item h in
      rw (f.written) (
        fire-outstanding now' force' seen' (fired db now d.next_node f.locked)
          (write_item db now id seen f.locked f.node.project_id d)
          (written-schedule f.locked f.node.project_id f.found)
          (written-outstanding f.locked f.node.project_id))
