-- ===== src/Gate/Filter.antt =====
-- `filter_json` of crates/korg-gate/src/proxy.rs: a `tools/list` answer keeps the tools that the
-- door allows.
pub mod Stream
pub mod Laws
pub mod Streamed
pub mod Whole
use korg.Base.{
  String, List, Option, none, some, Bool, true, false, Map, get, insert, retain, is_some,
  if◌then◌else◌, ◌>>=◌,
}
use korg.Gate.Door.{Door, allows}
use korg.Gate.Json.{Value, array, object, of_items, items, entries, build, str_field, Serde}

abbrev pub allows_name : Door → Option String → Bool
allows_name door none = false
allows_name door (some name) = allows door name

-- Whether a listed tool has a name that the door allows.
unfoldable pub listable : Door → Value → Bool
listable door tool = allows_name door (str_field "name" tool)

filter_tools : Door → Map Value → Map Value → Option Value → Option Value
filter_tools door message result (some (array tools)) = some (
    build (
      insert "result"
        (build (insert "tools" (array (of_items (retain (listable door) (items tools)))) result))
        message))
filter_tools door message result _ = none

filter_result : Door → Map Value → Option Value → Option Value
filter_result door message (some (object result)) =
    filter_tools door message (entries result) (get "tools" (entries result))
filter_result door message (some _) = none
filter_result door message none =
    if is_some (get "error" message) then some (build message) else none

-- One JSON-RPC message, parsed.
unfoldable pub filter_value : Door → Value → Option Value
unfolding filter_result filter_tools
filter_value door (object message) =
    filter_result door (entries message) (get "result" (entries message))
filter_value door _ = none

unfoldable pub filter_json : Serde → String → Door → Option Value
filter_json serde text door = do message ← serde.parse text; filter_value door message

-- `.map(|v| v.to_string())`
abbrev pub printed : Serde → Option Value → Option String
printed serde none = none
printed serde (some v) = some (serde.print v)
