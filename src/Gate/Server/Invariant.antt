-- ===== src/Gate/Server/Invariant.antt =====
-- The invariant of the gate's state machine, kept by every handler of crates/korg-gate/src/oauth.rs
-- and by a restart.
use korg.Base.{String, Option, none, some, ◌≡◌, refl, inl, inr, Map, get, Bool-cases, ◌==◌}
use korg.Gate.Door.{Door}
use korg.Gate.State.{Store, Env, Crypto, Verdict, open_gate, locked, unlocked}
use korg.Gate.Lock.{check_lockout, sign_in_succeeded}
use korg.Gate.Json.{Value, object, entries, Serde}
use korg.Gate.Config.{Config, claude_callback}
use korg.Gate.Oauth.{Params, param, AuthRequest}
use korg.Gate.Oauth.Registration.{
  Uris, uris, not_strings, missing, redirect_uris, every_callback, public_client, grants_allowed,
  register_client, register_uris, register_value, register,
}
use korg.Gate.Oauth.Authorize.{Validation, valid, on_page, redirected, validate_auth, is_passphrase}
use korg.Gate.Oauth.Calls.{
  Stage, arrived, validated, let_in, signed_in, ended, after_validation, after_check, advance,
}
use korg.Gate.Oauth.Validated.{validate_auth-Trusted}
use korg.Gate.Oauth.TokenEndpoint.{
  Target, target, no_such_resource, requested, answered, by_code, by_refresh, by_grant, for_target,
  token,
}
use korg.Gate.Server.{
  Step, registration, form_call, token_request, restart, Underway, submitted, called, Reachable,
  start, then_step,
}
use korg.Gate.Server.Kept.{
  WellFormed, reopen-WellFormed, register-WellFormed, lockout-WellFormed, sign_in_failed-WellFormed,
}
use korg.Gate.Server.Tokens.{issue_code-WellFormed, exchange_code-WellFormed, refresh-WellFormed}

register_uris-WellFormed :
    (env : Env) (meta : Map Value) (u : Uris) (s : Store)
    → WellFormed s
    → WellFormed (register_uris env meta u s).0
unfolding register_uris register_client
register_uris-WellFormed env meta not_strings s w = w
register_uris-WellFormed env meta missing s w = w
register_uris-WellFormed env meta (uris us) s w = elim (Bool-cases (every_callback us)) [
  | inr other ↦ rw (other, register_uris) w
  | inl back ↦ elim (Bool-cases (public_client (get "token_endpoint_auth_method" meta))) [
    | inr private' ↦ rw (back, private', register_uris) w
    | inl public ↦ elim (Bool-cases (grants_allowed (get "grant_types" meta))) [
      | inr odd ↦ rw (back, public, odd, register_uris) w
      | inl known ↦ rw (back, public, known, register_uris) (register-WellFormed env _ us s w back)
    ]
  ]
]

register-keeps :
    (env : Env) (o : Option Value) (s : Store)
    → WellFormed s
    → WellFormed (register_value env o s).0
unfolding register_value
register-keeps env (some (object meta)) s w =
    register_uris-WellFormed env (entries meta) (redirect_uris (get "redirect_uris" (entries meta)))
      s w
register-keeps env (some _) s w = w
register-keeps env none s w = w

-- A request that has been accepted goes back to Claude's callback.
abbrev Returns : Stage → Type 0
Returns arrived = Unit
Returns (validated r) = r.redirect_uri ≡ claude_callback
Returns (let_in r) = r.redirect_uri ≡ claude_callback
Returns (signed_in r) = r.redirect_uri ≡ claude_callback
Returns (ended answer) = Unit

module _ (c : Crypto) (config : Config) (form : Params) where
  validation-Returns :
      (s : Store) (v : Validation) → validate_auth config form s ≡ v → Returns (after_validation v)
  unfolding after_validation
  validation-Returns s (valid r) e = (validate_auth-Trusted config form s r e).callback
  validation-Returns s (on_page status message) e = tt
  validation-Returns s (redirected u error st) e = tt

  check-Returns :
      (r : AuthRequest) (v : Verdict) → r.redirect_uri ≡ claude_callback → Returns (after_check r v)
  unfolding after_check
  check-Returns r (locked left) back = tt
  check-Returns r open_gate back = back

  advance-Returns :
      (env : Env) (s : Store) (stage : Stage)
      → Returns stage
      → Returns (advance c config form env stage s).1
  unfolding advance
  advance-Returns env s arrived back = validation-Returns s (validate_auth config form s) refl
  advance-Returns env s (validated r) back = check-Returns r (check_lockout env.instant s) back
  advance-Returns env s (let_in r) back = elim (Bool-cases (is_passphrase c config env form)) [
    | inl right ↦ rw (right, advance) back
    | inr wrong ↦ rw (wrong, advance) tt
  ]
  advance-Returns env s (signed_in r) back = tt
  advance-Returns env s (ended answer) back = tt

  Underway-Returns : (stage : Stage) → Underway c config form stage → Returns stage
  Underway-Returns _ submitted = tt
  Underway-Returns _ (called {stage} u env s) =
      advance-Returns env s stage (Underway-Returns stage u)

module _ (c : Crypto) (config : Config) (env : Env) (form : Params) (s : Store)
    (w : WellFormed s) where
  let_in-WellFormed : (r : AuthRequest) → WellFormed (advance c config form env (let_in r) s).0
  unfolding advance sign_in_succeeded
  let_in-WellFormed r = elim (Bool-cases (is_passphrase c config env form)) [
    | inl right ↦ rw (right, advance) (lockout-WellFormed s unlocked w)
    | inr wrong ↦ rw (wrong, advance) (sign_in_failed-WellFormed env.instant s w)
  ]

  form_call-WellFormed :
      (stage : Stage) → Returns stage → WellFormed (advance c config form env stage s).0
  unfolding advance
  form_call-WellFormed arrived back = w
  form_call-WellFormed (validated r) back = w
  form_call-WellFormed (let_in r) back = let_in-WellFormed r
  form_call-WellFormed (signed_in r) back =
      issue_code-WellFormed c env r.client_id r.redirect_uri r.code_challenge r.door s w back
  form_call-WellFormed (ended answer) back = w

  by_code-WellFormed :
      (resource : Option Door) (code uri client verifier : Option String)
      → WellFormed (by_code c env resource code uri client verifier s).0
  unfolding by_code answered
  by_code-WellFormed resource (some code) (some uri) (some client) (some verifier) =
      exchange_code-WellFormed c env code client uri verifier resource s w
  by_code-WellFormed resource none uri client verifier = w
  by_code-WellFormed resource (some code) none client verifier = w
  by_code-WellFormed resource (some code) (some uri) none verifier = w
  by_code-WellFormed resource (some code) (some uri) (some client) none = w

  by_refresh-WellFormed :
      (resource : Option Door) (refresh_token client : Option String)
      → WellFormed (by_refresh c env resource refresh_token client s).0
  unfolding by_refresh answered
  by_refresh-WellFormed resource none client = w
  by_refresh-WellFormed resource (some refresh_token) client =
      refresh-WellFormed c env refresh_token client resource s w

  by_grant-WellFormed :
      (resource : Option Door) (grant_type : Option String)
      → WellFormed (by_grant c env form resource grant_type s).0
  unfolding by_grant
  by_grant-WellFormed resource none = w
  by_grant-WellFormed resource (some g) = elim (Bool-cases (g == "authorization_code")) [
    | inl code ↦ rw (code, by_grant) (by_code-WellFormed resource _ _ _ _)
    | inr other ↦ elim (Bool-cases (g == "refresh_token")) [
      | inl again ↦ rw (other, again, by_grant) (by_refresh-WellFormed resource _ _)
      | inr unknown ↦ rw (other, unknown, by_grant) w
    ]
  ]

  for_target-WellFormed : (t : Target) → WellFormed (for_target c env form t s).0
  unfolding for_target
  for_target-WellFormed no_such_resource = w
  for_target-WellFormed (target resource) = by_grant-WellFormed resource (param form "grant_type")

module _ (c : Crypto) (serde : Serde) (config : Config) where
  Step-WellFormed : (s s' : Store) → Step c serde config s s' → WellFormed s → WellFormed s'
  unfolding register token
  Step-WellFormed s _ (registration env body _) w = register-keeps env (serde.parse body) s w
  Step-WellFormed s _ (form_call env form stage _ u) w =
      form_call-WellFormed c config env form s w stage (Underway-Returns c config form stage u)
  Step-WellFormed s _ (token_request env form _) w =
      for_target-WellFormed c config env form s w (requested config (param form "resource"))
  Step-WellFormed s _ (restart a b _) w = reopen-WellFormed a b s.disk w.written

  -- Whatever requests a gate has served, failed writes, restarts and sign-in forms with other
  -- requests between their calls of the store included: its tables and its state file hold each
  -- key once, at most 64 clients, no redirect URI but Claude's callback, and no refresh grant whose
  -- scope is another door's, and every pending code goes to the callback.
  pub Reachable-WellFormed : (s : Store) → Reachable c serde config s → WellFormed s
  Reachable-WellFormed s (start a b) = reopen-WellFormed a b none (λ p e. cc)
  Reachable-WellFormed s' (then_step {s} r step) =
      Step-WellFormed s s' step (Reachable-WellFormed s r)
