-- ===== src/Gate/Filter/Streamed.antt =====
-- `filter_sse` of crates/korg-gate/src/proxy.rs: what a streamed answer becomes, event by event.
use Prim.Native.String.{◌++◌}
use korg.Base.{
  String, List, [], ◌∷◌, Option, none, some, true, false, ◌||◌, ◌≡◌, refl, inl, inr, ◌⊎◌, arith,
  is_some, Bool-cases, Option-cases, blank,
}
use korg.Gate.Door.{Door}
use korg.Gate.Json.{Value, Serde, field}
use korg.Gate.Filter.{filter_json, printed}
use korg.Gate.Filter.Stream.{
  lines, others, data_lines, join, filter_message, filter_data, filter_fields, filter_event,
  filter_events,
}
use korg.Gate.Filter.Laws.{Filtered, filter_value-Filtered}

-- A message of the stream and the text that replaces it: that of the message itself where it has
-- no result, and otherwise that of its filtered list.
pub record Replaced (serde : Serde) (door : Door) (message payload : String) : Type 0 where
  pub before : Value
  pub after : Value
  pub read : serde.parse message ≡ some before
  pub written : payload ≡ serde.print after
  pub safe : ((field "result" before ≡ none) × (after ≡ before)) ⊎ Filtered door before after

-- The fields that replace the `data:` fields of an event, which carries no message where it has
-- none or blank ones.
pub data Carried (serde : Serde) (door : Door) : List String → String → Type 0 where
  no_data : Carried serde door [] "\n"
  no_message :
      {d : String} {ds : List String}
      → blank (join (d ∷ ds)) ≡ true
      → Carried serde door (d ∷ ds) "data: \n\n"
  with_message :
      {d : String} {ds : List String} {payload : String}
      → Replaced serde door (join (d ∷ ds)) payload
      → Carried serde door (d ∷ ds) ("data: " ++ (payload ++ "\n\n"))

-- The events of a stream and the text that replaces them, in their order: each event that is not
-- blank has its other lines and then what carries its message.
pub data Events (serde : Serde) (door : Door) : List String → String → Type 0 where
  ended : Events serde door [] ""
  skipped :
      {event : String} {events : List String} {out : String}
      → blank event ≡ true
      → Events serde door events out
      → Events serde door (event ∷ events) out
  kept :
      {event : String} {events : List String} {fields out : String}
      → blank event ≡ false
      → Carried serde door (data_lines (lines event)) fields
      → Events serde door events out
      → Events serde door (event ∷ events) ((others (lines event) ++ fields) ++ out)

printed-some :
    (serde : Serde) (o : Option Value) (payload : String)
    → printed serde o ≡ some payload
    → (w : Value) × (o ≡ some w) × (payload ≡ serde.print w)
printed-some serde none payload h = cc
printed-some serde (some w) payload h = (w, refl, ground arith)

module _ (serde : Serde) (door : Door) where
  message-Replaced :
      (message payload : String) (o : Option Value)
      → serde.parse message ≡ o
      → filter_message serde door message o ≡ some payload
      → Replaced serde door message payload
  unfolding filter_message filter_json
  message-Replaced message payload none e h = cc
  message-Replaced message payload (some v) e h =
      elim (Bool-cases (is_some (field "result" v) || is_some (field "error" v))) [
        | inl answer ↦
            let (w, f, p) =
              printed-some serde (filter_json serde message door) payload
                (rw (answer, filter_message) at h) in
            record {
              before = v;
              after = w;
              read = e;
              written = p;
              safe = elim (filter_value-Filtered door v w (rw (e, filter_json) at f)) [
                | inl (absent, failed, same) ↦ inl (absent, same)
                | inr filtered ↦ inr filtered
              ];
            }
        | inr other ↦ record {
          before = v;
          after = v;
          read = e;
          written = ground arith;
          safe = inl (
            elim (Option-cases (field "result" v)) [
              | inl absent ↦ absent
              | inr (r, found) ↦ absurd (ground arith)
            ],
            refl,
          );
        }
      ]

  filter_fields-Carried :
      (ds : List String) (fields : String)
      → filter_fields serde door ds ≡ some fields
      → Carried serde door ds fields
  unfolding filter_fields filter_data
  filter_fields-Carried [] fields h = let same : "\n" ≡ fields = ground arith in rw (← same) no_data
  filter_fields-Carried (d ∷ ds) fields h = elim (Bool-cases (blank (join (d ∷ ds)))) [
    | inl empty ↦ let same : "data: \n\n" ≡ fields = ground arith in rw (← same) (no_message empty)
    | inr full ↦ elim (Option-cases (filter_data serde door (join (d ∷ ds)))) [
      | inl failed ↦ absurd (ground arith)
      | inr (payload, passed) ↦
          let same : "data: " ++ (payload ++ "\n\n") ≡ fields = ground arith in
          rw (← same) (
            with_message
              (message-Replaced (join (d ∷ ds)) payload _ refl (unfold filter_data in passed)))
    ]
  ]

  pub filter_events-Events :
      (events : List String) (out : String)
      → filter_events serde door events ≡ some out
      → Events serde door events out
  unfolding filter_events filter_event
  filter_events-Events [] out h = let same : "" ≡ out = ground arith in rw (← same) ended
  filter_events-Events (event ∷ events) out h = elim (Bool-cases (blank event)) [
    | inl empty ↦ skipped empty (filter_events-Events events out (rw (empty, filter_events) at h))
    | inr full ↦ elim (Option-cases (filter_fields serde door (data_lines (lines event)))) [
      | inl failed ↦ absurd (ground arith)
      | inr (fields, passed) ↦ elim (Option-cases (filter_events serde door events)) [
        | inl failed ↦ absurd (ground arith)
        | inr (rest, later) ↦
            let same : (others (lines event) ++ fields) ++ rest ≡ out = ground arith in
            rw (← same) (
              kept full (filter_fields-Carried (data_lines (lines event)) fields passed)
                (filter_events-Events events rest later))
      ]
    ]
  ]
