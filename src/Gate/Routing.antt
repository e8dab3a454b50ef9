-- ===== src/Gate/Routing.antt =====
-- The routing headers of MCP 2026-07-28 in crates/korg-gate/src/proxy.rs, and the headers that are
-- carried upstream.
use korg.Base.{String, List, [], ◌∷◌, ◌++◌, Option, none, some, ◌==◌, get, if◌then◌else◌, unwrap_or}
use korg.Gate.Headers.{Headers}
use korg.Gate.Json.{Value, str_field}

abbrev pub session : String
session = "mcp-session-id"

abbrev pub mcp_method : String
mcp_method = "mcp-method"

abbrev pub mcp_name : String
mcp_name = "mcp-name"

-- What is carried upstream of the request's headers, and no other.
abbrev pub forward_request : List String
forward_request =
    "content-type" ∷ "accept" ∷ session ∷ "mcp-protocol-version" ∷ "last-event-id" ∷ []

-- A header as sent: the replacement character stands for a value that is no text.
abbrev pub sent : String → Headers → Option String
sent name headers = elim (get name headers) [ none ↦ none | some v ↦ some (unwrap_or v "�") ]

pub data Routed : Type 0 where
  mismatch : (header given expected : String) → Routed
  routing : List (String × String) → Routed

-- `Mcp-Name` is forwarded for `tools/call` alone.
route_name : Option String → String → String → List (String × String) → Routed
route_name none method name out = routing out
route_name (some given) method name out =
    if method == "tools/call"
    then (if given == name
        then routing (out ++ (mcp_name, name) ∷ [])
        else mismatch mcp_name given name)
    else routing out

route_method : Option String → Option String → String → String → Routed
route_method none given_name method name = route_name given_name method name []
route_method (some given) given_name method name =
    if given == method
    then route_name given_name method name ((mcp_method, method) ∷ [])
    else mismatch mcp_method given method

-- The tool that `params` names, `""` where there is none.
unfoldable pub tool_name : Option Value → String
tool_name none = ""
tool_name (some params) = unwrap_or (str_field "name" params) ""

-- For each routing header that the caller sent, the value that the body says, or the mismatch.
unfoldable pub routing_headers : Headers → String → Option Value → Routed
unfolding route_name route_method
routing_headers headers method params =
    route_method (sent mcp_method headers) (sent mcp_name headers) method (tool_name params)
