-- ===== src/Desk/Log.antt =====
-- crates/korg-core/src/repo/activity.rs and common.rs: what every write of a node leaves behind, the
-- time of the node and the rows of the two logs.
use korg.Base.{
  ℕ, String, List, Option, none, some, Bool, true, false, not, ◌&&◌, ◌==◌, ◌∷◌, if◌then◌else◌,
  is_some, contains,
}
use korg.Desk.Tables.{NodeRow, Desk, Denial, unknown_value, alter, mapped}
use korg.Desk.Postgres.{Postgres}

unfoldable pub record_activity : ℕ → String → Desk → Desk
record_activity id action d = record d {
  events = record { node_id = id; action = action } ∷ d.events;
}

unfoldable pub touch_node : ℕ → ℕ → Desk → Desk
touch_node now id d = record d { nodes = alter id (λ n. record n { updated = now }) d.nodes }

unfoldable pub record_status : ℕ → String → String → Desk → Desk
record_status id from to d = if from == to then d else record d {
  transitions = record { node_id = id; from_status = from; to_status = to } ∷ d.transitions;
}

abbrev same_text : Option String → Option String → Bool
same_text none none = true
same_text (some a) (some b) = a == b
same_text _ _ = false

abbrev mapped_text : (NodeRow → String) → Option NodeRow → Option String
mapped_text f none = none
mapped_text f (some n) = some (f n)

-- An edit is what changes a row of the node, its own but for the time and the marker, and that of
-- its kind but for the status of a work item.
unfoldable pub fingerprint : Postgres → ℕ → Desk → Option String
fingerprint db id d =
    mapped_text
      (λ n.
        db.digest (record n { updated = 0; awaiting_since = none; awaiting_note = none })
          (mapped (λ w. record w { wi_status = "" }) (d.work_items id)) (d.cards id)
          (d.schedules id))
      (d.nodes id)

unfoldable pub record_edit : Postgres → ℕ → Option String → Desk → Desk
record_edit db id before d =
    let after = fingerprint db id d in
    if is_some after && not (same_text after before) then record_activity id "edited" d else d

-- `validate_status`, of a value and of one that a patch may hold.
abbrev pub in_vocabulary : List String → String → Option Denial
in_vocabulary allowed value = if contains allowed value then none else some (unknown_value value)

abbrev pub in_vocabulary_patch : List String → Option String → Option Denial
in_vocabulary_patch allowed none = none
in_vocabulary_patch allowed (some value) = in_vocabulary allowed value
