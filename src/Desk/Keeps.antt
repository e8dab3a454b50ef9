-- ===== src/Desk/Keeps.antt =====
-- The writes of crates/korg-core that change neither what a node belongs to nor what a schedule points
-- at: the logs, the marker, and the anchors.
use korg.Base.{
  ℕ, String, List, Option, none, some, Bool, true, false, ◌&&◌, contains, is_some, if◌then◌else◌,
  ◌≡◌, refl, ◌∙◌, arith, ◌==◌, ◌∷◌, Option-cases, inl, inr,
}
use korg.Core.Vocab.{wi_finished_statuses}
use korg.Core.Graph.{Transition}
use korg.Desk.Tables.{NodeRow, ScheduleRow, Event, Desk, alter, mapped}
use korg.Desk.Postgres.{Postgres}
use korg.Desk.Log.{record_activity, touch_node, record_status, record_edit}
use korg.Desk.Awaiting.{settle_awaiting, answered_by_ken}
use korg.Desk.Schedules.{advanced, advance_completed_anchor}

-- `none` for no node, `some none` for an unfiled one.
abbrev pub filed_under : Option NodeRow → Option (Option ℕ)
filed_under none = none
filed_under (some n) = some n.project_id

-- The newest work item of a schedule, of all of its columns.
abbrev pub newest : Option ScheduleRow → Option ℕ
newest none = none
newest (some s) = s.last_wi_id

pub record Keeps (d d' : Desk) : Type 0 where
  pub areas_same : d'.areas ≡ d.areas
  pub items_same : d'.work_items ≡ d.work_items
  pub edges_same : d'.edges ≡ d.edges
  pub next_same : d'.next_node ≡ d.next_node
  pub projects_same : (i : ℕ) → filed_under (d'.nodes i) ≡ filed_under (d.nodes i)
  pub newest_same : (i : ℕ) → newest (d'.schedules i) ≡ newest (d.schedules i)
  pub kept_same : (i : ℕ) → is_some (d'.schedules i) ≡ is_some (d.schedules i)

pub Keeps-trans : {d d' d'' : Desk} → Keeps d d' → Keeps d' d'' → Keeps d d''
Keeps-trans k l = record {
  areas_same = l.areas_same ∙ k.areas_same;
  items_same = l.items_same ∙ k.items_same;
  edges_same = l.edges_same ∙ k.edges_same;
  next_same = l.next_same ∙ k.next_same;
  projects_same = λ i. l.projects_same i ∙ k.projects_same i;
  newest_same = λ i. l.newest_same i ∙ k.newest_same i;
  kept_same = λ i. l.kept_same i ∙ k.kept_same i;
}

pub Keeps-self : (d : Desk) → Keeps d d
Keeps-self d = record {
  areas_same = refl;
  items_same = refl;
  edges_same = refl;
  next_same = refl;
  projects_same = λ i. refl;
  newest_same = λ i. refl;
  kept_same = λ i. refl;
}

if-Keeps : (b : Bool) {d d1 d2 : Desk} → Keeps d d1 → Keeps d d2 → Keeps d (if b then d1 else d2)
if-Keeps true k l = k
if-Keeps false k l = l

logs-Keeps :
    (d : Desk) (t : List Transition) (e : List Event)
    → Keeps d (record d { transitions = t; events = e })
logs-Keeps d t e = record {
  areas_same = refl;
  items_same = refl;
  edges_same = refl;
  next_same = refl;
  projects_same = λ i. refl;
  newest_same = λ i. refl;
  kept_same = λ i. refl;
}

pub is_some-mapped : {A : Type 0} (f : A → A) (o : Option A) → is_some (mapped f o) ≡ is_some o
is_some-mapped f none = refl
is_some-mapped f (some a) = refl

newest-advanced :
    (now item : ℕ) (o : Option ScheduleRow) → newest (mapped (advanced now item) o) ≡ newest o
unfolding advanced
newest-advanced now item none = refl
newest-advanced now item (some s) = ground arith

advanced-Keeps :
    (d : Desk) (now item : ℕ)
    → Keeps d (record d { schedules = λ id. mapped (advanced now item) (d.schedules id) })
advanced-Keeps d now item = record {
  areas_same = refl;
  items_same = refl;
  edges_same = refl;
  next_same = refl;
  projects_same = λ i. refl;
  newest_same = λ i. newest-advanced now item (d.schedules i);
  kept_same = λ i. is_some-mapped (advanced now item) (d.schedules i);
}

-- An update of one node that leaves its project alone.
pub filed_under-alter :
    (id : ℕ) (f : NodeRow → NodeRow) (t : ℕ → Option NodeRow) (i : ℕ)
    → ((n : NodeRow) → (f n).project_id ≡ n.project_id)
    → filed_under (alter id f t i) ≡ filed_under (t i)
filed_under-alter id f t i same = elim (Option-cases (t i)) [
  | inl absent ↦ ground arith
  | inr (n, found) ↦ ground (arith, same n)
]

pub nodes-Keeps :
    (d : Desk) (id : ℕ) (f : NodeRow → NodeRow)
    → ((n : NodeRow) → (f n).project_id ≡ n.project_id)
    → Keeps d (record d { nodes = alter id f d.nodes })
nodes-Keeps d id f same = record {
  areas_same = refl;
  items_same = refl;
  edges_same = refl;
  next_same = refl;
  projects_same = λ i. filed_under-alter id f d.nodes i same;
  newest_same = λ i. refl;
  kept_same = λ i. refl;
}

module _ (d : Desk) (id : ℕ) where
  pub record_activity-Keeps : (action : String) → Keeps d (record_activity id action d)
  unfolding record_activity
  record_activity-Keeps action =
      logs-Keeps d d.transitions (record { node_id = id; action = action } ∷ d.events)

  pub touch_node-Keeps : (now : ℕ) → Keeps d (touch_node now id d)
  unfolding touch_node
  touch_node-Keeps now = nodes-Keeps d id (λ n. record n { updated = now }) (λ n. refl)

  pub settle_awaiting-Keeps : Keeps d (settle_awaiting id d)
  unfolding settle_awaiting
  settle_awaiting-Keeps =
      nodes-Keeps d id
        (λ n.
          if is_some n.awaiting_since && answered_by_ken d id n
          then record n { awaiting_since = none; awaiting_note = none }
          else n)
        (λ n. ground arith)

  pub record_status-Keeps : (from to : String) → Keeps d (record_status id from to d)
  unfolding record_status
  record_status-Keeps from to = if-Keeps (from == to) (Keeps-self d) (
      logs-Keeps d (record { node_id = id; from_status = from; to_status = to } ∷ d.transitions)
        d.events)

  pub record_edit-Keeps :
      (db : Postgres) (before : Option String) → Keeps d (record_edit db id before d)
  unfolding record_edit
  record_edit-Keeps db before = if-Keeps _ (record_activity-Keeps "edited") (Keeps-self d)

  pub advance-Keeps :
      (now : ℕ) (status : String) → Keeps d (advance_completed_anchor now id status d)
  unfolding advance_completed_anchor
  advance-Keeps now status =
      if-Keeps (contains wi_finished_statuses status) (advanced-Keeps d now id) (Keeps-self d)
