-- ===== src/Gate/Rewrite.antt =====
-- What crates/korg-gate/src/proxy.rs changes in a checked `tools/call` before it is forwarded:
-- `stamp_origin` and `strip_klams_author`. A refusal's text is left out.
pub mod Laws
use korg.Base.{
  String, [], Option, none, some, Bool, true, false, not, ◌&&◌, ◌==◌, contains, Map, get, insert,
  remove, if◌then◌else◌, unwrap_or,
}
use korg.Gate.Allowlist.{
  origin_tools, duet_origin, klams_write_tools, klams_knowledge_kind, klams_author_field,
}
use korg.Gate.Json.{Value, null, string, object, entries, build, as_str, str_of}

pub data Rewritten : Type 0 where
  rewritten : Value → Rewritten
  not_an_object : Rewritten
  not_knowledge : Rewritten

-- The arguments of a call as an object: absent and `null` count as empty.
unfoldable pub arguments_of : Option Value → Option (Map Value)
arguments_of none = some []
arguments_of (some null) = some []
arguments_of (some (object ms)) = some (entries ms)
arguments_of (some _) = none

-- The `name` of a call's parameters, `""` where it is no text.
unfoldable pub called : Map Value → String
called params = unwrap_or (str_of (get "name" params)) ""

-- The message with new arguments in its parameters.
unfoldable pub with_arguments : Map Value → Map Value → Map Value → Value
with_arguments message params arguments =
    build (insert "params" (build (insert "arguments" (build arguments) params)) message)

abbrev pub is_knowledge : Option String → Bool
is_knowledge none = false
is_knowledge (some kind) = kind == klams_knowledge_kind

unfoldable pub stamp : Map Value → Map Value → Option (Map Value) → Rewritten
stamp message params none = not_an_object
stamp message params (some arguments) =
    rewritten (with_arguments message params (insert "origin" (string duet_origin) arguments))

unfoldable pub strip : Map Value → Map Value → Option (Map Value) → Rewritten
strip message params none = not_an_object
strip message params (some arguments) =
    if called params == "memory_add" && not (is_knowledge (str_of (get "kind" arguments)))
    then not_knowledge
    else rewritten (with_arguments message params (remove klams_author_field arguments))

module _ (message : Map Value) where
  unfoldable pub stamp_params : Option Value → Rewritten
  stamp_params (some (object ms)) =
      if contains origin_tools (called (entries ms))
      then stamp message (entries ms) (arguments_of (get "arguments" (entries ms)))
      else rewritten (build message)
  stamp_params _ = rewritten (build message)

  unfoldable pub strip_params : Option Value → Rewritten
  strip_params (some (object ms)) =
      if contains klams_write_tools (called (entries ms))
      then strip message (entries ms) (arguments_of (get "arguments" (entries ms)))
      else rewritten (build message)
  strip_params _ = rewritten (build message)

  -- Overwrite `origin` on a korg write that carries it.
  unfoldable pub stamp_origin : Rewritten
  stamp_origin = stamp_params (get "params" message)

  -- Strip `author_id` from a klams write, and refuse a `memory_add` of another kind.
  unfoldable pub strip_klams_author : Rewritten
  strip_klams_author = strip_params (get "params" message)
