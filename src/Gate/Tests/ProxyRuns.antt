-- ===== src/Gate/Tests/ProxyRuns.antt =====
-- Runs of crates/korg-gate/src/proxy.rs: a comment by the korg door, a `tools/list` answer, and a klams
-- write.
use korg.Gate.State.{digest}
use korg.Gate.Grants.{authenticate}
use korg.Base.{
  String, [], ◌∷◌, ◌++◌, none, some, true, false, ◌≡◌, refl, inl, inr, arith, contains, get,
  if◌then◌else◌, ◌==◌, subst, Bool-cases, binary_search, insert, remove, retain, push_char, blank,
  is_whitespace,
}
use korg.Gate.Allowlist.{
  read_tools, write_tools, refused_tools, klams_read_tools, klams_write_tools, klams_refused_tools,
  origin_tools, duet_origin, tool_allowed, klams_tool_allowed, method_allowed,
}
use korg.Gate.Allowlist.Ruled.{
  tool_allowed-contains, klams_tool_allowed-contains, refused_tools-refused,
}
use korg.Gate.Door.{korg_door, allows}
use korg.Gate.Json.{
  Value, Members, string, number, array, object, member, end, nil, cons, entries, field, IsOrdered,
  Serde, str_field,
}
use korg.Gate.Headers.{Headers, bearer_token}
use korg.Gate.Routing.{tool_name, routing_headers}
use korg.Gate.Rewrite.{
  rewritten, stamp_origin, strip_klams_author, arguments_of, called, stamp, stamp_params, strip,
  strip_params, with_arguments,
}
use korg.Gate.Rewrite.Laws.{
  Keeps, Unsigned, argument, stamp_origin-rewritten, strip_klams_author-rewritten,
}
use korg.Gate.Filter.{filter_value, filter_json, listable}
use korg.Gate.Filter.Stream.{
  filter_sse, filter_data, filter_fields, filter_event, filter_events, split_events, lines, others,
  data_lines, strip_prefix, join,
}
use korg.Gate.Filter.Laws.{Filtering, filter_value-Filtering}
use korg.Gate.Filter.Whole.{Streaming, filter_sse-Streaming}
use korg.Gate.Proxy.{post, Forwarded, post_mcp, carry_out, client_at, outgoing, plan_post}
use korg.Gate.Proxy.Admission.{Authenticated, Passed, post_mcp-Passed}
use korg.Gate.Tests.Samples.{crypto, store}

tool_allowed-contains_example :
    tool_allowed "get_item" ≡ contains (read_tools ++ write_tools) "get_item"
tool_allowed-contains_example = tool_allowed-contains "get_item"

klams_tool_allowed-contains_example :
    klams_tool_allowed "memory_add" ≡ contains (klams_read_tools ++ klams_write_tools) "memory_add"
klams_tool_allowed-contains_example = klams_tool_allowed-contains "memory_add"

refused_tools-refused_example :
    (contains refused_tools "unrelate" ≡ true → tool_allowed "unrelate" ≡ false)
    × (contains klams_refused_tools "unrelate" ≡ true → klams_tool_allowed "unrelate" ≡ false)
refused_tools-refused_example = refused_tools-refused "unrelate"

-- `add_comment` with an origin of the caller's own.
abbrev params : String → Value
params origin = object (
    member "arguments" (object (member "body" (string "hi") (member "origin" (string origin) end)))
      (member "name" (string "add_comment") end))

abbrev call : String → Value
call origin = object (
    member "id" (number "1")
      (member "method" (string "tools/call") (member "params" (params origin) end)))

abbrev members : Value → Members
members (object ms) = ms
members _ = end

stamped : stamp_origin (entries (members (call "me"))) ≡ rewritten (call duet_origin)
unfolding stamp_origin stamp_params get contains called stamp arguments_of with_arguments insert
stamped = refl

stamp_origin-rewritten_example :
    Keeps (entries (members (call "me"))) (call duet_origin)
    × (contains origin_tools "add_comment" ≡ true
        → argument "origin" (call duet_origin) ≡ some (string duet_origin))
unfolding tool_name get str_field field
stamp_origin-rewritten_example =
    stamp_origin-rewritten (entries (members (call "me"))) (call duet_origin) stamped

-- A knowledge write that names an author, and the same without.
abbrev write : Members → Value
write arguments = object (
    member "method" (string "tools/call") (
      member "params"
        (object (member "arguments" (object arguments) (member "name" (string "memory_add") end)))
        end))

abbrev knowledge : Members
knowledge = member "kind" (string "knowledge") end

abbrev signed : Members
signed = member "author_id" (string "me") knowledge

stripped : strip_klams_author (entries (members (write signed))) ≡ rewritten (write knowledge)
unfolding strip_klams_author strip_params get contains called strip arguments_of with_arguments
    insert remove
stripped = refl

IsOrdered-params :
    (p : Value) → get "params" (entries (members (write signed))) ≡ some p → IsOrdered p
unfolding get
IsOrdered-params p e =
    let same : object (member "arguments" (object signed) (member "name" (string "memory_add") end))
        ≡ p =
      ground arith in
    subst IsOrdered same ((refl, (tt, tt)), (((refl, (tt, tt)), (tt, (tt, tt))), (tt, tt)))

strip_klams_author-rewritten_example :
    Keeps (entries (members (write signed))) (write knowledge)
    × (contains klams_write_tools "memory_add" ≡ true → Unsigned (write knowledge))
unfolding tool_name get str_field field
strip_klams_author-rewritten_example =
    strip_klams_author-rewritten (entries (members (write signed))) (write knowledge)
      (λ p e. IsOrdered-params p e) stripped

abbrev tool : String → Value
tool name = object (member "name" (string name) end)

abbrev listing : Value → Value
listing tools =
    object (member "id" (number "1") (member "result" (object (member "tools" tools end)) end))

abbrev three : Value
three =
    array (cons (tool "get_item") (cons (tool "update_proposal") (cons (tool "add_comment") nil)))

abbrev two : Value
two = array (cons (tool "get_item") (cons (tool "add_comment") nil))

filtered_list : filter_value korg_door (listing three) ≡ some (listing two)
unfolding filter_value get insert retain listable str_field field allows tool_allowed binary_search
filtered_list = refl

filter_value-Filtering_example :
    Filtering korg_door (listing three) (filter_value korg_door (listing three))
filter_value-Filtering_example = filter_value-Filtering korg_door (listing three)

-- Reads "call" and "list", and prints the second as "two".
abbrev serde : Serde
serde = record {
  parse = λ t.
      if t == "call" then some (call "me") else if t == "list" then some (listing three) else none;
  print = λ v. "two";
}

-- A priming event, then the list.
abbrev stream : String
stream = "id: 1\ndata:\n\nevent: message\ndata: list\n\n"

abbrev streamed : String
streamed = "id: 1\ndata: \n\nevent: message\ndata: two\n\n"

replaced : filter_sse serde korg_door stream ≡ some streamed
unfolding filter_sse filter_events filter_event filter_fields filter_data split_events lines others
    data_lines strip_prefix join field get filter_json filter_value push_char blank is_whitespace
replaced = refl

-- A notification that cannot be read fails the answer, although the list is good.
unreadable : filter_sse serde korg_door "data: junk\n\ndata: list\n\n" ≡ none
unfolding filter_sse filter_events filter_event filter_fields filter_data split_events lines others
    data_lines strip_prefix join field get filter_json filter_value push_char blank is_whitespace
unreadable = refl

filter_sse-Streaming_example : Streaming serde korg_door stream (filter_sse serde korg_door stream)
filter_sse-Streaming_example = filter_sse-Streaming serde korg_door stream

abbrev headers : Headers
headers = ("authorization", some "Bearer z") ∷ []

abbrev forwarded : Forwarded
forwarded = record {
  door = korg_door;
  verb = post;
  carried = ("x-homelab-agent", some "claude-duet") ∷ [];
  body = some (call duet_origin);
}

call-IsOrdered : IsOrdered (call "me")
call-IsOrdered = (
  (refl, (refl, (tt, tt))),
  (tt, (tt, (((refl, (tt, tt)), (((refl, (tt, tt)), (tt, (tt, tt))), (tt, tt))), tt))),
)

tool-IsOrdered : (name : String) → IsOrdered (tool name)
tool-IsOrdered name = ((tt, tt), (tt, tt))

listing-IsOrdered : IsOrdered (listing three)
listing-IsOrdered = (
  (refl, (tt, tt)),
  (
    tt,
    (
      (
        (tt, tt),
        (
          (
            tool-IsOrdered "get_item",
            (tool-IsOrdered "update_proposal", (tool-IsOrdered "add_comment", tt)),
          ),
          tt,
        ),
      ),
      tt,
    ),
  ),
)

parse-IsOrdered : (t : String) (v : Value) → serde.parse t ≡ some v → IsOrdered v
parse-IsOrdered t v e = elim (Bool-cases (t == "call")) [
  | inl call' ↦ let same : call "me" ≡ v = ground arith in subst IsOrdered same call-IsOrdered
  | inr other ↦ elim (Bool-cases (t == "list")) [
    | inl list ↦
        let same : listing three ≡ v = ground arith in subst IsOrdered same listing-IsOrdered
    | inr unknown ↦ absurd (ground arith)
  ]
]

passed : (post_mcp crypto serde (λ f. none) 50 store korg_door headers "call").0 ≡ some forwarded
unfolding post_mcp carry_out plan_post client_at bearer_token get authenticate digest method_allowed
    contains allows tool_allowed binary_search tool_name str_field field routing_headers
    stamp_origin insert outgoing arguments_of called stamp stamp_params with_arguments
passed = refl

post_mcp-Passed_example :
    Authenticated crypto serde 50 store korg_door headers × Passed korg_door forwarded
post_mcp-Passed_example =
    post_mcp-Passed crypto serde (λ f. none) 50 store korg_door headers "call" forwarded
      parse-IsOrdered passed
