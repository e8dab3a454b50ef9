-- ===== src/Gate/Proxy.antt =====
-- The handlers of crates/korg-gate/src/proxy.rs. `plan_post` is `post_mcp` up to the call of the
-- upstream; what the upstream answers is a parameter. The texts of refusals, and the log, are left
-- out; the codes are not.
pub mod Admission
use Prim.Native.String.{len}
use text.Mathlib.Text.{starts_with}
use korg.Base.{
  ℕ, ◌*◌, String, List, [], ◌∷◌, ◌++◌, Option, none, some, Bool, true, false, not, ◌&&◌, ◌==◌, Map,
  get, insert, remove, leb, ltb, if◌then◌else◌, is_some, unwrap_or, contains, retain,
}
use korg.Gate.Allowlist.{method_allowed}
use korg.Gate.Door.{Door, korg_door, klams_door, same_door, allows}
use korg.Gate.State.{Store, Crypto}
use korg.Gate.Grants.{authenticate}
use korg.Gate.Config.{Config, agent_header, agent_name}
use korg.Gate.Headers.{Headers, bearer_token}
use korg.Gate.Routing.{
  forward_request, Routed, mismatch, routing, tool_name, routing_headers, session,
}
use korg.Gate.Json.{Value, null, object, entries, build, str_of, Serde}
use korg.Gate.Rewrite.{
  Rewritten, rewritten, not_an_object, not_knowledge, stamp_origin, strip_klams_author,
}
use korg.Gate.Filter.{filter_json, printed}
use korg.Gate.Filter.Stream.{filter_sse}

pub data Verb : Type 0 where
  post get_verb delete : Verb

-- What is sent to the door's upstream.
pub record Forwarded : Type 0 where
  pub door : Door
  pub verb : Verb
  pub carried : List (String × Option String)
  pub body : Option Value

pub data Body : Type 0 where
  broken : Body
  not_utf8 : Body
  utf8 : String → Body

pub record Upstream : Type 0 where
  pub status : ℕ
  pub headers : Headers
  pub body : Body

pub data Reply : Type 0 where
  unauthorized : Door → Reply
  rpc_error : (status : ℕ) (id : Value) (code : String) → Reply
  bad_gateway : Door → Reply
  streamed : (status : ℕ) (carried : List (String × Option String)) (body : Body) → Reply
  filtered : (status : ℕ) (carried : List (String × Option String)) (body : String) → Reply

-- A refused request is a JSON-RPC error on a 200, anything else a 400.
abbrev pub refuse : Option Value → String → Reply
refuse none code = rpc_error 400 null code
refuse (some id) code = rpc_error 200 id code

abbrev pub header_mismatch : String
header_mismatch = "-32020"

-- The answer, or what to forward, the request's id, and whether the answer's tools are filtered.
pub data Plan : Type 0 where
  answer : Reply → Plan
  forward : Forwarded → Option Value → Bool → Plan

abbrev carry : Headers → List String → List (String × Option String)
carry headers [] = []
carry headers (name ∷ names) = elim (get name headers) [
  | none ↦ carry headers names
  | some v ↦ (name, v) ∷ carry headers names
]

-- The headers that are carried back.
abbrev pub forward_response : List String
forward_response = "content-type" ∷ session ∷ "cache-control" ∷ []

abbrev carry_back : Headers → List (String × Option String)
carry_back headers = carry headers forward_response

abbrev stream_back : Upstream → Reply
stream_back up = streamed up.status (carry_back up.headers) up.body

abbrev routed : List (String × String) → List (String × Option String)
routed [] = []
routed ((name, v) ∷ rest) = (name, some v) ∷ routed rest

-- `send`: the request that goes upstream.
unfoldable pub outgoing : Door → Verb → Headers → List (String × String) → Option Value → Forwarded
outgoing door verb headers own body = record {
  door = door;
  verb = verb;
  carried = carry headers forward_request ++ (routed own ++ (agent_header, some agent_name) ∷ []);
  body = body;
}

rewrite : Door → Map Value → Rewritten
rewrite korg_door message = stamp_origin message
rewrite klams_door message = strip_klams_author message

finish : Door → Headers → List (String × String) → Option Value → Bool → Rewritten → Plan
finish door headers own id filter (rewritten body) =
    forward (outgoing door post headers own (some body)) id filter
finish door headers own id filter _ = answer (refuse id "-32602")

-- The routing headers, the rewriting of a `tools/call`, and the message to forward.
plan_routed : Door → Headers → Map Value → Option Value → String → Routed → Plan
plan_routed door headers message id method (mismatch _ _ _) =
    answer (rpc_error 400 (unwrap_or id null) header_mismatch)
plan_routed door headers message id method (routing out) =
    finish door headers out id (method == "tools/list" && is_some id)
      (if method == "tools/call" then rewrite door message else rewritten (build message))

plan_method : Door → Headers → Map Value → Option Value → Option String → Plan
plan_method door headers message id none = answer (refuse id "-32600")
plan_method door headers message id (some method) =
    if not (method_allowed method)
    then answer (refuse id "-32601")
    else if method == "tools/call" && not (allows door (tool_name (get "params" message)))
    then answer (refuse id "-32602")
    else plan_routed door headers message id method
        (routing_headers headers method (get "params" message))

plan_message : Door → Headers → Option Value → Plan
plan_message door headers none = answer (refuse none "-32700")
plan_message door headers (some (object ms)) =
    plan_method door headers (entries ms) (get "id" (entries ms))
      (str_of (get "method" (entries ms)))
plan_message door headers (some _) = answer (refuse none "-32600")

-- The one upper bound on a buffered answer.
abbrev pub max_filtered_body : ℕ
max_filtered_body = 8 * 1024 * 1024

abbrev is_sse : Headers → Bool
is_sse headers = elim (get "content-type" headers) [
  | none ↦ false
  | some v ↦ elim v [ none ↦ false | some t ↦ starts_with t "text/event-stream" ]
]

abbrev is_success : ℕ → Bool
is_success status = leb 200 status && ltb status 300

abbrev filter_reply : Upstream → Value → Option String → Reply
filter_reply up id none = rpc_error 200 id "-32603"
filter_reply up id (some body) = filtered up.status (carry_back up.headers) body

-- A bare 502, or a JSON-RPC error on it where there is an id to answer.
abbrev unreachable : Door → Option Value → Reply
unreachable door none = bad_gateway door
unreachable door (some id) = rpc_error 502 id "-32603"

right_door : Door → Option (String × Door) → Option String
right_door door none = none
right_door door (some (client, issued_for)) =
    if same_door issued_for door then some client else none

module _ (c : Crypto) (serde : Serde) where
  -- The client of a live access token that was issued for this door.
  unfoldable pub client_at : ℕ → Store → Door → Headers → Option String
  unfolding right_door
  client_at now s door headers = elim (bearer_token headers) [
    | none ↦ none
    | some token ↦ right_door door (authenticate c now token s)
  ]

  unfoldable pub plan_post : ℕ → Store → Door → Headers → String → Plan
  unfolding plan_message plan_method plan_routed finish rewrite
  plan_post now s door headers body = elim (client_at now s door headers) [
    | none ↦ answer (unauthorized door)
    | some client ↦ plan_message door headers (serde.parse body)
  ]

  -- `filtered_tools_list`: what the gate cannot filter is an error, never the unfiltered list.
  unfoldable pub filtered_tools_list : Upstream → Value → Door → Reply
  filtered_tools_list up id door = filter_reply up id (elim up.body [
    | broken ↦ none
    | not_utf8 ↦ none
    | utf8 body ↦
        if leb (len body) max_filtered_body
        then (if is_sse up.headers
            then filter_sse serde door body
            else printed serde (filter_json serde body door))
        else none
  ])

  -- What is sent, and the answer to the caller. The upstream answers `none` where it cannot be
  -- reached.
  unfoldable pub carry_out : (Forwarded → Option Upstream) → Door → Plan → Option Forwarded × Reply
  carry_out upstream door (answer reply) = (none, reply)
  carry_out upstream door (forward sent id filter) = (
    some sent,
    elim (upstream sent) [
      | none ↦ unreachable door id
      | some up ↦
          if filter && is_success up.status
          then filtered_tools_list up (unwrap_or id null) door
          else stream_back up
    ],
  )

  unfoldable pub post_mcp :
      (Forwarded → Option Upstream) → ℕ → Store → Door → Headers → String → Option Forwarded × Reply
  post_mcp upstream now s door headers body =
      carry_out upstream door (plan_post now s door headers body)

  -- `get_mcp` and `delete_mcp`.
  unfoldable pub pass_mcp :
      Verb → (Forwarded → Option Upstream) → ℕ → Store → Door → Headers → Option Forwarded × Reply
  pass_mcp verb upstream now s door headers = elim (client_at now s door headers) [
    | none ↦ (none, unauthorized door)
    | some client ↦
        let sent = outgoing door verb headers [] none in
        (some sent, elim (upstream sent) [ none ↦ bad_gateway door | some up ↦ stream_back up ])
  ]
