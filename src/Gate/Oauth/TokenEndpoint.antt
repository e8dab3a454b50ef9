-- ===== src/Gate/Oauth/TokenEndpoint.antt =====
-- `token` of crates/korg-gate/src/oauth.rs: the two grants.
use korg.Base.{String, Option, none, some, ◌==◌, if◌then◌else◌}
use korg.Gate.Door.{Door}
use korg.Gate.State.{
  Store, Env, Crypto, Tokens, GrantError, expired, unknown_refresh, wrong_resource, Outcome, done,
  refused, failed,
}
use korg.Gate.Grants.{exchange_code, refresh}
use korg.Gate.Config.{Config, door_for_resource}
use korg.Gate.Oauth.{Params, param, Answer, oauth_error, token_reply}

-- A request's resource: none given, an open door's, or a refusal.
pub data Target : Type 0 where
  target : Option Door → Target
  no_such_resource : Target

target_of : Option Door → Target
target_of none = no_such_resource
target_of (some door) = target (some door)

unfoldable pub requested : Config → Option String → Target
unfolding target_of
requested config none = target none
requested config (some resource) = target_of (door_for_resource config resource)

grant_error : GrantError → Answer
grant_error wrong_resource =
    oauth_error 400 "invalid_target" "the grant was not issued for that resource"
grant_error unknown_refresh = oauth_error 400 "invalid_grant" "grant is not live"
grant_error expired = oauth_error 400 "invalid_grant" "grant is not live"
grant_error _ = oauth_error 400 "invalid_grant" "grant does not match"

unfoldable pub grant_answer : Outcome GrantError Tokens → Answer
unfolding grant_error
grant_answer (done tokens) = token_reply tokens
grant_answer (refused why) = grant_error why
grant_answer failed = oauth_error 500 "server_error" ""

module _ (c : Crypto) (env : Env) where
  unfoldable pub answered : Store × Outcome GrantError Tokens → Store × Answer
  answered r = (r.0, grant_answer r.1)

  unfoldable pub by_code :
      Option Door
      → Option String
      → Option String
      → Option String
      → Option String
      → Store
      → Store × Answer
  by_code resource (some code) (some uri) (some client_id) (some verifier) s =
      answered (exchange_code c env code client_id uri verifier resource s)
  by_code resource _ _ _ _ s = (
    s,
    oauth_error 400 "invalid_request"
        "code, redirect_uri, client_id and code_verifier are required",
  )

  unfoldable pub by_refresh : Option Door → Option String → Option String → Store → Store × Answer
  by_refresh resource none client_id s =
      (s, oauth_error 400 "invalid_request" "refresh_token is required")
  by_refresh resource (some refresh_token) client_id s =
      answered (refresh c env refresh_token client_id resource s)

  unfoldable pub by_grant : Params → Option Door → Option String → Store → Store × Answer
  by_grant form resource none s =
      (s, oauth_error 400 "unsupported_grant_type" "authorization_code or refresh_token")
  by_grant form resource (some grant_type) s =
      if grant_type == "authorization_code"
      then by_code resource (param form "code") (param form "redirect_uri") (param form "client_id")
          (param form "code_verifier") s
      else if grant_type == "refresh_token"
      then by_refresh resource (param form "refresh_token") (param form "client_id") s
      else (s, oauth_error 400 "unsupported_grant_type" "authorization_code or refresh_token")

  unfoldable pub for_target : Params → Target → Store → Store × Answer
  for_target form no_such_resource s = (s, oauth_error 400 "invalid_target" "unknown resource")
  for_target form (target resource) s = by_grant form resource (param form "grant_type") s

  unfoldable pub token : Config → Params → Store → Store × Answer
  token config form s = for_target form (requested config (param form "resource")) s
