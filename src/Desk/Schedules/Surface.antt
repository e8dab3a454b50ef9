-- ===== src/Desk/Schedules/Surface.antt =====
-- crates/korg-core/src/repo/schedules.rs: every unfinished work item that a schedule has produced is the
-- one it points at.
use korg.Base.{
  ℕ, ◌<◌, List, Option, none, some, Bool, true, false, ◌&&◌, ◌||◌, ◌==◌, any, nat_eq, is_some, ◌≡◌,
  refl, sym, ap, subst, ◌∙◌, ◌⊎◌, arith, Bool-cases, inl, inr,
}
use korg.Desk.Tables.{
  nat_eq_below, WorkItemRow, ScheduleRow, EdgeRow, Desk, outstanding_item, done, alter_self,
  alter_other, eq_of_nat_eq,
}
use korg.Desk.Postgres.{Postgres}
use korg.Desk.Log.{record_activity, touch_node}
use korg.Desk.Schedules.{unfinished, outstanding, materialize_gate, fired, write_item, fire}
use korg.Desk.Schedules.Once.{fire-Fired, gate-outstanding}
use korg.Desk.Keeps.{Keeps, newest}

-- Whether the schedule has produced the work item.
abbrev pub produced : List EdgeRow → ℕ → ℕ → Bool
produced edges s i =
    any (λ e. e.label == "materializes" && nat_eq e.left_id s && nat_eq e.right_id i) edges

pub record Surface (d : Desk) : Type 0 where
  pub known_schedules : (s : ℕ) → is_some (d.schedules s) ≡ true → s < d.next_node
  pub known_ends : (s i : ℕ) → produced d.edges s i ≡ true → (s < d.next_node) × (i < d.next_node)
  pub one :
      (s i : ℕ)
      → produced d.edges s i ≡ true
      → unfinished (d.work_items i) ≡ true
      → newest (d.schedules s) ≡ some i

pub Keeps-Surface : (d d' : Desk) → Keeps d d' → Surface d → Surface d'
Keeps-Surface d d' k v = record {
  known_schedules =
      λ s h. subst (λ n. s < n) (sym k.next_same) (v.known_schedules s (sym (k.kept_same s) ∙ h));
  known_ends = λ s i h.
      subst (λ n. (s < n) × (i < n)) (sym k.next_same)
        (v.known_ends s i (ap (λ es. produced es s i) (sym k.edges_same) ∙ h));
  one = λ s i h u.
      k.newest_same s
      ∙ v.one s i (ap (λ es. produced es s i) (sym k.edges_same) ∙ h)
          (ap (λ (t : ℕ → Option WorkItemRow). unfinished (t i)) (sym k.items_same) ∙ u);
}

outstanding-points :
    (d : Desk) (s : ScheduleRow) (i : ℕ)
    → s.last_wi_id ≡ some i
    → unfinished (d.work_items i) ≡ true
    → outstanding d s ≡ true
unfolding outstanding
outstanding-points d s i points h = rw (points, outstanding) h

-- An edge put before the others is one of them, or the new one.
edge_cases :
    (id item s i : ℕ) (old : Bool)
    → (nat_eq id s && nat_eq item i || old) ≡ true
    → (old ≡ true) ⊎ ((id ≡ s) × (item ≡ i))
edge_cases id item s i true h = inl refl
edge_cases id item s i false h = inr (ground arith, ground arith)

module _ (db : Postgres) (now id : ℕ) (force : Bool) (seen : ScheduleRow) (d : Desk)
    (v : Surface d) where
  -- A schedule whose gate is open has no unfinished work item.
  gate-finished :
      (locked : ScheduleRow) (i : ℕ)
      → d.schedules id ≡ some locked
      → materialize_gate db now d id force locked ≡ none
      → produced d.edges id i ≡ true
      → unfinished (d.work_items i) ≡ false
  gate-finished locked i found gate h = elim (Bool-cases (unfinished (d.work_items i))) [
    | inr no_longer ↦ no_longer
    | inl still ↦
        let points : locked.last_wi_id ≡ some i = ap newest (sym found) ∙ v.one id i h still in
        let shut : materialize_gate db now d id force locked ≡ some (outstanding_item id) =
          gate-outstanding db now id force seen d now d force locked
            (outstanding-points d locked i points still) in
        cc
  ]

  write_item-Surface :
      (locked : ScheduleRow) (project : Option ℕ)
      → d.schedules id ≡ some locked
      → materialize_gate db now d id force locked ≡ none
      → Surface (write_item db now id seen locked project d)
  unfolding write_item record_activity touch_node fired
  write_item-Surface locked project found gate = record {
    known_schedules = λ s h. elim (Bool-cases (nat_eq s id)) [
      | inl at ↦ omega (arith, v.known_schedules id (ap is_some found), eq_of_nat_eq s id at)
      | inr past ↦
          omega (
            arith,
            v.known_schedules s (ap is_some (sym (alter_other id s _ d.schedules past)) ∙ h),
          )
    ];
    known_ends = λ s i h. elim (edge_cases id d.next_node s i (produced d.edges s i) h) [
      | inl old ↦ omega (arith, v.known_ends s i old)
      | inr (same_s, same_i) ↦ omega (arith, v.known_schedules id (ap is_some found))
    ];
    one = λ s i h u. elim (edge_cases id d.next_node s i (produced d.edges s i) h) [
      | inr (same_s, same_i) ↦
          ap newest (alter_self id s _ d.schedules (ground arith) found) ∙ ap some same_i
      | inl old ↦
          let before : unfinished (d.work_items i) ≡ true =
            rw (nat_eq_below i d.next_node (v.known_ends s i old).1) at u in
          elim (Bool-cases (nat_eq s id)) [
            | inr past ↦ ap newest (alter_other id s _ d.schedules past) ∙ v.one s i old before
            | inl at ↦
                let after : unfinished (d.work_items i) ≡ false =
                  gate-finished locked i found gate
                    (ap (λ k. produced d.edges k i) (sym (eq_of_nat_eq s id at)) ∙ old) in
                cc
          ]
    ];
  }

  pub fire-Surface :
      (d' : Desk) (item : ℕ) → fire db now id force seen d ≡ done (d', item) → Surface d'
  fire-Surface d' item h =
      let f = fire-Fired db now id force seen d d' item h in
      subst Surface (sym f.written)
        (write_item-Surface f.locked f.node.project_id f.found f.open_gate)
