-- ===== src/Gate/Filter/Whole.antt =====
-- `filter_sse` of crates/korg-gate/src/proxy.rs: when a streamed answer fails, and what it
-- comes to as a whole.
use korg.Base.{
  String, List, [], ◌∷◌, Option, none, some, true, false, ◌||◌, ◌≡◌, refl, inl, inr, ◌⊎◌, arith,
  is_some, Bool-cases, Option-cases, blank,
}
use korg.Gate.Door.{Door}
use korg.Gate.Json.{Value, Serde, field}
use korg.Gate.Filter.{filter_json, printed}
use korg.Gate.Filter.Stream.{
  split_events, lines, data_lines, join, filter_message, filter_data, filter_fields, filter_event,
  filter_events, filter_sse,
}
use korg.Gate.Filter.Laws.{listed, filter_value-refused}
use korg.Gate.Filter.Streamed.{Events, filter_events-Events}

-- A message that cannot be read, or that has a result without a list of tools.
abbrev pub Unusable : Serde → String → Type 0
Unusable serde message =
    (serde.parse message ≡ none)
    ⊎ ((v : Value) × (serde.parse message ≡ some v)
        × (is_some (field "result" v) ≡ true)
        × (listed v ≡ none))

-- One of the events carries such a message.
pub data Blocked (serde : Serde) : List String → Type 0 where
  here :
      {event d : String} {events ds : List String}
      → blank event ≡ false
      → data_lines (lines event) ≡ d ∷ ds
      → blank (join (d ∷ ds)) ≡ false
      → Unusable serde (join (d ∷ ds))
      → Blocked serde (event ∷ events)
  later :
      {event : String} {events : List String}
      → Blocked serde events
      → Blocked serde (event ∷ events)

-- What a streamed answer comes to.
pub data Streaming (serde : Serde) (door : Door) (text : String) : Option String → Type 0 where
  streamed :
      {out : String}
      → Events serde door (split_events text) out
      → Streaming serde door text (some out)
  stopped : Blocked serde (split_events text) → Streaming serde door text none

printed-none : (serde : Serde) (o : Option Value) → printed serde o ≡ none → o ≡ none
printed-none serde none h = refl
printed-none serde (some w) h = cc

module _ (serde : Serde) (door : Door) where
  message-Unusable :
      (message : String) (o : Option Value)
      → serde.parse message ≡ o
      → filter_message serde door message o ≡ none
      → Unusable serde message
  unfolding filter_message filter_json
  message-Unusable message none e h = inl e
  message-Unusable message (some v) e h =
      elim (Bool-cases (is_some (field "result" v) || is_some (field "error" v))) [
        | inl answer ↦
            let unprinted =
              printed-none serde (filter_json serde message door)
                (rw (answer, filter_message) at h) in
            let (listless, unlisted) =
              filter_value-refused door v (rw (e, filter_json) at unprinted) in
            inr (v, e, ground arith, listless)
        | inr other ↦ absurd (ground arith)
      ]

  filter_fields-none :
      (ds : List String)
      → filter_fields serde door ds ≡ none
      → (d : String) × (rest : List String) × (ds ≡ d ∷ rest)
        × (blank (join (d ∷ rest)) ≡ false)
        × Unusable serde (join (d ∷ rest))
  unfolding filter_fields filter_data
  filter_fields-none [] h = cc
  filter_fields-none (d ∷ ds) h = elim (Bool-cases (blank (join (d ∷ ds)))) [
    | inl empty ↦ absurd (ground arith)
    | inr full ↦ elim (Option-cases (filter_data serde door (join (d ∷ ds)))) [
      | inl failed ↦ (
        d,
        ds,
        refl,
        full,
        message-Unusable (join (d ∷ ds)) _ refl (unfold filter_data in failed),
      )
      | inr (payload, passed) ↦ absurd (ground arith)
    ]
  ]

  filter_events-none :
      (events : List String) → filter_events serde door events ≡ none → Blocked serde events
  unfolding filter_events filter_event
  filter_events-none [] h = cc
  filter_events-none (event ∷ events) h = elim (Bool-cases (blank event)) [
    | inl empty ↦ later (filter_events-none events (rw (empty, filter_events) at h))
    | inr full ↦ elim (Option-cases (filter_fields serde door (data_lines (lines event)))) [
      | inl failed ↦
          let (d, ds, given, message, unusable) = filter_fields-none _ failed in
          here full given message unusable
      | inr (fields, passed) ↦ elim (Option-cases (filter_events serde door events)) [
        | inl failed ↦ later (filter_events-none events failed)
        | inr (rest, good) ↦ absurd (ground arith)
      ]
    ]
  ]

  -- A streamed answer passes or fails as a whole. One that passes is replaced event by event, in
  -- order, and each message of it could be read, and becomes the text of its list without the tools
  -- that the door refuses, or, where it has no result, its own text. One that fails has an event
  -- with a message that cannot be read, or that has a result without a list of tools.
  pub filter_sse-Streaming :
      (text : String) → Streaming serde door text (filter_sse serde door text)
  unfolding filter_sse
  filter_sse-Streaming text = elim (Option-cases (filter_events serde door (split_events text))) [
    | inl none' ↦ rw (none') (stopped (filter_events-none (split_events text) none'))
    | inr (out, some') ↦
        rw (some') (streamed (filter_events-Events serde door (split_events text) out some'))
  ]
