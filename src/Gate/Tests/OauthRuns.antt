-- ===== src/Gate/Tests/OauthRuns.antt =====
-- Runs of crates/korg-gate/src/oauth.rs: a registration, a sign-in and the token request after it.
use korg.Base.{
  ◌+◌, [], ◌∷◌, none, some, true, ◌≡◌, refl, ap, inl, arith, get, ltb, if◌then◌else◌, is_some,
  contains, retain,
}
use korg.Gate.Door.{klams_door}
use korg.Gate.State.{Store, reopen, pkce_s256, open_gate, seconds}
use korg.Gate.Json.{string, array, object, member, end, nil, cons, Serde}
use korg.Gate.Config.{claude_callback, resource_for, upstream_for, door_for_resource}
use korg.Gate.Lock.{check_lockout, with_lockout}
use korg.Gate.Grants.{minted, issue_code, authenticate}
use korg.Gate.Oauth.{Params, param, AuthRequest, Answer, redirect_with, token_reply}
use korg.Gate.Oauth.Registration.{register}
use korg.Gate.Clients.{find_client}
use korg.Gate.Oauth.Authorize.{
  with_client_id, with_client, with_redirect, with_uri, is_exactly, with_challenge, with_door,
  target_door, valid, validate_auth, is_passphrase, same_bytes, issue, authorize_submit,
}
use korg.Gate.Oauth.TokenEndpoint.{requested, token}
use korg.Gate.Oauth.Validated.{Trusted, door_for_resource-open, validate_auth-Trusted}
use korg.Gate.Oauth.SignIn.{Sent, authorize_submit-Sent}
use korg.Gate.Oauth.Calls.{arrived, ended, after_validation, after_check, advance, run}
use korg.Gate.Oauth.Calls.Answers.{Ending, run-Ending}
use korg.Gate.Oauth.Flow.{Redemption, submit-issue, sign_in_opens_door}
use korg.Gate.Server.{start, then_step, registration}
use korg.Gate.Server.Forms.{authorize_submit-Reachable}
use korg.Gate.Server.Kept.{WellFormed}
use korg.Gate.Server.Invariant.{Reachable-WellFormed}
use korg.Gate.Tests.Samples.{crypto, env, later, store, config}

abbrev form : Params
form =
    ("client_id", "c")
    ∷ ("code_challenge", "ab")
    ∷ ("code_challenge_method", "S256")
    ∷ ("passphrase", "correct horse battery staple")
    ∷ ("redirect_uri", claude_callback)
    ∷ ("resource", "https://gate.example/klams/mcp")
    ∷ ("response_type", "code")
    ∷ ("state", "s1")
    ∷ []

abbrev request : AuthRequest
request = record {
  client_id = "c";
  client_name = some "Claude";
  redirect_uri = claude_callback;
  code_challenge = "ab";
  state = some "s1";
  door = klams_door;
  resource = "https://gate.example/klams/mcp";
}

accepted : validate_auth config form store ≡ valid request
unfolding validate_auth with_client_id param get with_client find_client with_redirect with_uri
    contains is_exactly with_challenge with_door target_door door_for_resource retain
accepted = refl

validate_auth-Trusted_example : Trusted config form store request
validate_auth-Trusted_example = validate_auth-Trusted config form store request accepted

klams_resource : door_for_resource config "https://gate.example/klams/mcp" ≡ some klams_door
unfolding door_for_resource retain
klams_resource = refl

door_for_resource-open_example :
    (is_some (upstream_for config klams_door) ≡ true)
    × (resource_for config klams_door ≡ "https://gate.example/klams/mcp")
door_for_resource-open_example =
    door_for_resource-open config "https://gate.example/klams/mcp" klams_door klams_resource

unlocked_now : check_lockout 10 store ≡ open_gate
unfolding check_lockout
unlocked_now = refl

right_passphrase : is_passphrase crypto config env form ≡ true
unfolding is_passphrase same_bytes get
right_passphrase = refl

sent_back :
    (authorize_submit crypto config env form store).1
    ≡ redirect_with claude_callback (("code", "t1") ∷ []) (some "s1")
unfolding issue issue_code
sent_back =
    ap (λ r. r.1)
      (submit-issue crypto config env form store request accepted unlocked_now right_passphrase)

authorize_submit-Sent_example :
    Sent crypto config env form store claude_callback (("code", "t1") ∷ [])
authorize_submit-Sent_example =
    authorize_submit-Sent crypto config env form store claude_callback (("code", "t1") ∷ [])
      (some "s1") sent_back

abbrev shut : Store
shut = with_lockout store (record { failures = 6; until = some 50 })

-- Past the check the form goes on although a lockout has started.
run-Ending_example :
    (answer : Answer) × (run crypto config form
        ((env, store) ∷ (env, store) ∷ (env, shut) ∷ (later, shut) ∷ [])
        arrived
      ≡ ended answer)
    × Ending crypto config form env env env later store store shut shut answer
run-Ending_example = run-Ending crypto config form env env env later store store shut shut

code_under_lockout :
    run crypto config form ((env, store) ∷ (env, store) ∷ (env, shut) ∷ (later, shut) ∷ []) arrived
    ≡ ended (redirect_with claude_callback (("code", later.first_token) ∷ []) (some "s1"))
unfolding run advance after_validation validate_auth with_client_id param get with_client
    find_client with_redirect with_uri contains is_exactly with_challenge with_door target_door
    door_for_resource retain after_check check_lockout is_passphrase same_bytes issue_code
code_under_lockout = refl

abbrev redemption : Params
redemption =
    ("client_id", "c")
    ∷ ("code", "t1")
    ∷ ("code_verifier", "ax")
    ∷ ("grant_type", "authorization_code")
    ∷ ("redirect_uri", claude_callback)
    ∷ []

redeems : Redemption crypto config request "t1" redemption
unfolding param get pkce_s256 requested
redeems = record {
  verifier = "ax";
  resource = none;
  grant_type = refl;
  given = refl;
  redirect = refl;
  client = refl;
  verifies = refl;
  proof = refl;
  asked = refl;
  no_other_door = inl refl;
}

sign_in_opens_door_example :
    ((token crypto later config redemption (authorize_submit crypto config env form store).0).1
      ≡ token_reply
          (minted crypto later klams_door (authorize_submit crypto config env form store).0))
    × (authenticate crypto 50 "t3"
          (token crypto later config redemption (authorize_submit crypto config env form store).0).0
        ≡ (if ltb 50 (20 + seconds 3600) then some ("c", klams_door) else none))
sign_in_opens_door_example =
    sign_in_opens_door crypto config env form store request accepted unlocked_now right_passphrase
      later redemption redeems 50 (omega arith) refl

abbrev serde : Serde
serde = record {
  parse =
      λ t. some (object (member "redirect_uris" (array (cons (string claude_callback) nil)) end));
  print = λ v. "";
}

abbrev enrolled : Store
enrolled = (register serde env "{}" (reopen 60 600 none)).0

Reachable-WellFormed_example : WellFormed (authorize_submit crypto config later form enrolled).0
Reachable-WellFormed_example =
    Reachable-WellFormed crypto serde config (authorize_submit crypto config later form enrolled).0
      (authorize_submit-Reachable crypto serde config later form enrolled
        (then_step (start 60 600) (registration env "{}" _)))
