-- ===== src/Gate/Filter/Stream.antt =====
-- `filter_sse` of crates/korg-gate/src/proxy.rs: a `tools/list` answer that comes as a stream of
-- server-sent events.
use Prim.Native.Char.{code}
use Prim.Native.String.{[], ◌∷◌, ◌++◌}
use korg.Base.{
  String, List, [], ◌∷◌, Option, none, some, true, false, ◌&&◌, ◌||◌, ◌>>=◌, is_some, unwrap_or,
  nat_eq, is_newline, blank, push_char, if◌then◌else◌,
}
use korg.Gate.Door.{Door}
use korg.Gate.Json.{Value, field, Serde}
use korg.Gate.Filter.{filter_json, printed}

-- `text.split("\n\n")`
unfoldable pub split_events : String → List String
split_events [] = "" ∷ []
split_events (c ∷ []) = (c ∷ "") ∷ []
split_events (c ∷ d ∷ s) = elim (is_newline c && is_newline d) [
  | true ↦ "" ∷ split_events s
  | false ↦ push_char c (split_events (d ∷ s))
]

-- `str::lines`: a line end is a newline with an optional carriage return before it.
unfoldable pub lines : String → List String
lines [] = []
lines (c ∷ []) = elim (is_newline c) [ true ↦ "" ∷ [] | false ↦ (c ∷ "") ∷ [] ]
lines (c ∷ d ∷ s) = elim (is_newline c) [
  | true ↦ "" ∷ lines (d ∷ s)
  | false ↦ elim (nat_eq (code c) 13 && is_newline d) [
    | true ↦ "" ∷ lines s
    | false ↦ push_char c (lines (d ∷ s))
  ]
]

unfoldable pub strip_prefix : String → String → Option String
strip_prefix [] s = some s
strip_prefix (c ∷ p) [] = none
strip_prefix (c ∷ p) (d ∷ s) = if nat_eq (code c) (code d) then strip_prefix p s else none

unfoldable pub join : List String → String
join [] = ""
join (l ∷ []) = l
join (l ∷ k ∷ ls) = l ++ ("\n" ++ join (k ∷ ls))

-- The lines of an event without its `data:` fields, each ended.
unfoldable pub others : List String → String
others [] = ""
others (l ∷ ls) = elim (strip_prefix "data:" l) [
  | none ↦ l ++ ("\n" ++ others ls)
  | some d ↦ others ls
]

-- The `data:` fields, without the one space that may stand before the value.
unfoldable pub data_lines : List String → List String
data_lines [] = []
data_lines (l ∷ ls) = elim (strip_prefix "data:" l) [
  | none ↦ data_lines ls
  | some d ↦ unwrap_or (strip_prefix " " d) d ∷ data_lines ls
]

module _ (serde : Serde) (door : Door) where
  -- The text that replaces a message: an answer is filtered, and anything else is printed again.
  unfoldable pub filter_message : String → Option Value → Option String
  filter_message joined none = none
  filter_message joined (some v) =
      if is_some (field "result" v) || is_some (field "error" v)
      then printed serde (filter_json serde joined door)
      else some (serde.print v)

  unfoldable pub filter_data : String → Option String
  unfolding filter_message
  filter_data joined = filter_message joined (serde.parse joined)

  unfoldable pub filter_fields : List String → Option String
  unfolding join
  filter_fields [] = some "\n"
  filter_fields (d ∷ ds) =
      let joined = join (d ∷ ds) in
      if blank joined
      then some "data: \n\n"
      else do message ← filter_data joined; some ("data: " ++ (message ++ "\n\n"))

  unfoldable pub filter_event : String → Option String
  unfolding lines others data_lines strip_prefix
  filter_event event = do
    fields ← filter_fields (data_lines (lines event))
    some (others (lines event) ++ fields)

  unfoldable pub filter_events : List String → Option String
  filter_events [] = some ""
  filter_events (event ∷ events) = elim (blank event) [
    | true ↦ filter_events events
    | false ↦ do this ← filter_event event; rest ← filter_events events; some (this ++ rest)
  ]

  -- Every message of the stream is filtered, or the whole answer fails.
  unfoldable pub filter_sse : String → Option String
  unfolding split_events filter_event filter_events filter_fields
  filter_sse text = filter_events (split_events text)
