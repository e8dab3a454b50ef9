-- ===== src/Gate/Proxy/Admission.antt =====
-- What crates/korg-gate/src/proxy.rs lets through: every message that goes upstream has a live token
-- for its door, an allowed method and an allowed tool, and has been rewritten.
use korg.Base.{
  ℕ, String, List, Option, none, some, Bool, true, false, ◌==◌, ◌≡◌, refl, ◌∙◌, ap, inl, inr, arith,
  Map, get, Bool-cases, Option-cases, eq_iff, contains,
}
use korg.Gate.Allowlist.{method_allowed, origin_tools, duet_origin, klams_write_tools}
use korg.Gate.Door.{Door, korg_door, klams_door, same_door-eq, allows}
use korg.Gate.State.{Store, Crypto}
use korg.Gate.Grants.{authenticate}
use korg.Gate.Headers.{Headers, bearer_token}
use korg.Gate.Routing.{Routed, mismatch, routing, tool_name, routing_headers}
use korg.Gate.Json.{
  Value, string, object, entries, str_of, field, str_field, Serde, IsOrdered, get-IsOrdered,
}
use korg.Gate.Rewrite.{Rewritten, rewritten}
use korg.Gate.Rewrite.Laws.{
  Keeps, argument, Unsigned, plain-Keeps, stamp_origin-rewritten, strip_klams_author-rewritten,
}
use korg.Gate.Proxy.{
  Forwarded, Plan, answer, forward, finish, rewrite, plan_routed, plan_method, plan_message,
  right_door, client_at, plan_post, carry_out, post_mcp, outgoing, Upstream,
}

-- What holds of the body `v` of a message that passes `door`.
pub record Admitted (door : Door) (v : Value) : Type 0 where
  pub method : String
  pub named : str_field "method" v ≡ some method
  pub allowed : method_allowed method ≡ true
  pub tool : method ≡ "tools/call" → allows door (tool_name (field "params" v)) ≡ true
  pub stamped :
      method ≡ "tools/call"
      → door ≡ korg_door
      → contains origin_tools (tool_name (field "params" v)) ≡ true
      → argument "origin" v ≡ some (string duet_origin)
  pub unsigned :
      method ≡ "tools/call"
      → door ≡ klams_door
      → contains klams_write_tools (tool_name (field "params" v)) ≡ true
      → Unsigned v

-- What `rewrite` makes true of a call.
record Rewrites (door : Door) (message : Map Value) (v : Value) : Type 0 where
  kept : Keeps message v
  stamped :
      door ≡ korg_door
      → contains origin_tools (tool_name (field "params" v)) ≡ true
      → argument "origin" v ≡ some (string duet_origin)
  unsigned :
      door ≡ klams_door
      → contains klams_write_tools (tool_name (field "params" v)) ≡ true
      → Unsigned v

rewrite-Rewrites :
    (door : Door) (message : Map Value) (v : Value)
    → ((params : Value) → get "params" message ≡ some params → IsOrdered params)
    → rewrite door message ≡ rewritten v
    → Rewrites door message v
unfolding rewrite
rewrite-Rewrites korg_door message v w h =
    let (kept, stamped) = stamp_origin-rewritten message v h in
    record { kept = kept; stamped = λ d k. stamped (rw (← kept.tool) k); unsigned = λ d. cc }
rewrite-Rewrites klams_door message v w h =
    let (kept, unsigned) = strip_klams_author-rewritten message v w h in
    record { kept = kept; stamped = λ d. cc; unsigned = λ d k. unsigned (rw (← kept.tool) k) }

-- A request that goes upstream: to the door's own upstream, with an admitted body.
pub record Passed (door : Door) (f : Forwarded) : Type 0 where
  pub body : Value
  pub sent : f.body ≡ some body
  pub same_door : f.door ≡ door
  pub admitted : Admitted door body

finish-forward :
    (door : Door) (headers : Headers) (own : List (String × String)) (id i : Option Value)
    (filter b : Bool) (r : Rewritten) (f : Forwarded)
    → finish door headers own id filter r ≡ forward f i b
    → (v : Value) × (r ≡ rewritten v)
      × (f.body ≡ some v)
      × (f.door ≡ door)
      × (b ≡ filter)
      × (i ≡ id)
unfolding finish outgoing
finish-forward door headers own id i filter b (rewritten v) f h =
    (v, refl, ground arith, ground arith, ground arith, ground arith)
finish-forward door headers own id i filter b _ f h = cc

module _ (door : Door) (headers : Headers) (message : Map Value) (id i : Option Value) (b : Bool)
    (f : Forwarded)
    (w : (params : Value) → get "params" message ≡ some params → IsOrdered params) where
  call-Admitted :
      (method : String) (v : Value)
      → Rewrites door message v
      → str_of (get "method" message) ≡ some method
      → method_allowed method ≡ true
      → allows door (tool_name (get "params" message)) ≡ true
      → Admitted door v
  unfolding str_field
  call-Admitted method v r named allowed tool = record {
    method = method;
    named = ap str_of r.kept.method ∙ named;
    allowed = allowed;
    tool = λ _. rw r.kept.tool tool;
    stamped = λ _. r.stamped;
    unsigned = λ _. r.unsigned;
  }

  other-Admitted :
      (method : String) (v : Value)
      → Keeps message v
      → str_of (get "method" message) ≡ some method
      → method_allowed method ≡ true
      → (method == "tools/call") ≡ false
      → Admitted door v
  unfolding str_field
  other-Admitted method v kept named allowed other = record {
    method = method;
    named = ap str_of kept.method ∙ named;
    allowed = allowed;
    tool = λ e. absurd (not_call e);
    stamped = λ e. absurd (not_call e);
    unsigned = λ e. absurd (not_call e);
  }
    where
      not_call : method ≡ "tools/call" → ⊥
      not_call e = ground (arith, (eq_iff method "tools/call").1 e)

  routed-Passed :
      (method : String) (r : Routed)
      → str_of (get "method" message) ≡ some method
      → method_allowed method ≡ true
      → ((method == "tools/call") ≡ true → allows door (tool_name (get "params" message)) ≡ true)
      → plan_routed door headers message id method r ≡ forward f i b
      → Passed door f
  unfolding plan_routed
  routed-Passed method (mismatch _ _ _) named allowed guard h = cc
  routed-Passed method (routing own) named allowed guard h =
      elim (Bool-cases (method == "tools/call")) [
        | inl call ↦
            let (v, e, sent, at, _, _) =
              finish-forward door headers own id i _ b _ f (rw (call, plan_routed) at h) in
            record {
              body = v;
              sent = sent;
              same_door = at;
              admitted =
                  call-Admitted method v (rewrite-Rewrites door message v w e) named allowed
                    (guard call);
            }
        | inr other ↦
            let (v, e, sent, at, _, _) =
              finish-forward door headers own id i _ b _ f (rw (other, plan_routed) at h) in
            record {
              body = v;
              sent = sent;
              same_door = at;
              admitted = other-Admitted method v (plain-Keeps message v e) named allowed other;
            }
      ]

  method-Passed :
      (m : Option String)
      → str_of (get "method" message) ≡ m
      → plan_method door headers message id m ≡ forward f i b
      → Passed door f
  unfolding plan_method
  method-Passed none e h = cc
  method-Passed (some method) e h =
      routed-Passed method (routing_headers headers method (get "params" message)) e (ground arith)
        (λ call. ground arith) (ground arith)

message-Passed :
    (door : Door) (headers : Headers) (o i : Option Value) (b : Bool) (f : Forwarded)
    → ((v : Value) → o ≡ some v → IsOrdered v)
    → plan_message door headers o ≡ forward f i b
    → Passed door f
unfolding plan_message
message-Passed door headers none i b f w h = cc
message-Passed door headers (some (object ms)) i b f w h =
    method-Passed door headers (entries ms) (get "id" (entries ms)) i b f
      (λ params. get-IsOrdered "params" ms params (w (object ms) refl).1)
      (str_of (get "method" (entries ms))) refl h
message-Passed door headers (some _) i b f w h = cc

module _ (c : Crypto) (serde : Serde) where
  -- The token that a request came with.
  pub record Authenticated (now : ℕ) (s : Store) (door : Door) (headers : Headers) : Type 0 where
    pub token : String
    pub client : String
    pub carried : bearer_token headers ≡ some token
    pub granted : authenticate c now token s ≡ some (client, door)

  right_door-some :
      (door : Door) (o : Option (String × Door)) (client : String)
      → right_door door o ≡ some client
      → o ≡ some (client, door)
  unfolding right_door
  right_door-some door none client h = cc
  right_door-some door (some (k, d)) client h = ground (arith, same_door-eq d door)

  client_at-Authenticated :
      (now : ℕ) (s : Store) (door : Door) (headers : Headers) (client : String)
      → client_at c serde now s door headers ≡ some client
      → Authenticated now s door headers
  unfolding client_at
  client_at-Authenticated now s door headers client h = elim (Option-cases (bearer_token headers)) [
    | inl bare ↦ absurd (ground arith)
    | inr (token, e) ↦ record {
      token = token;
      client = client;
      carried = e;
      granted = right_door-some door _ client (rw (e, client_at) at h);
    }
  ]

  carry_out-sent :
      (upstream : Forwarded → Option Upstream) (door : Door) (plan : Plan) (f : Forwarded)
      → (carry_out c serde upstream door plan).0 ≡ some f
      → (id : Option Value) × (filter : Bool) × (plan ≡ forward f id filter)
  unfolding carry_out
  carry_out-sent upstream door (answer reply) f h = cc
  carry_out-sent upstream door (forward sent id filter) f h = (id, filter, ground arith)

  plan_post-Passed :
      (now : ℕ) (s : Store) (door : Door) (headers : Headers) (body : String) (f : Forwarded)
      (id : Option Value) (filter : Bool)
      → ((v : Value) → serde.parse body ≡ some v → IsOrdered v)
      → plan_post c serde now s door headers body ≡ forward f id filter
      → Authenticated now s door headers × Passed door f
  unfolding plan_post
  plan_post-Passed now s door headers body f id filter w h =
      elim (Option-cases (client_at c serde now s door headers)) [
        | inl stranger ↦ absurd (ground arith)
        | inr (client, e) ↦ (
          client_at-Authenticated now s door headers client e,
          message-Passed door headers (serde.parse body) id filter f w (rw (e, plan_post) at h),
        )
      ]

  -- Whatever is sent upstream for a POST came with a live token issued for that very door, goes to
  -- that door, and is admitted: its method is one of the six, its tool is allowed at the door, a
  -- korg write that records its origin carries the gate's, and a klams write names no author and
  -- adds knowledge alone. The parser fills its objects in the order of their keys.
  pub post_mcp-Passed :
      (upstream : Forwarded → Option Upstream) (now : ℕ) (s : Store) (door : Door)
      (headers : Headers) (body : String) (f : Forwarded)
      → ((text : String) (v : Value) → serde.parse text ≡ some v → IsOrdered v)
      → (post_mcp c serde upstream now s door headers body).0 ≡ some f
      → Authenticated now s door headers × Passed door f
  unfolding post_mcp
  post_mcp-Passed upstream now s door headers body f w h =
      let (id, filter, e) = carry_out-sent upstream door _ f h in
      plan_post-Passed now s door headers body f id filter (w body) e
