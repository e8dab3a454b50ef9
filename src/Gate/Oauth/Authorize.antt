-- ===== src/Gate/Oauth/Authorize.antt =====
-- The authorization endpoint of crates/korg-gate/src/oauth.rs: `validate_auth`, `door_by_scope`,
-- `authorize_page`, `authorize_submit`. The clock is read once for a request.
use korg.Base.{
  ℕ, ◌/◌, max, String, List, [], ◌∷◌, Option, none, some, Bool, true, false, not, ◌&&◌, ◌||◌, ◌==◌,
  contains, find, get, if◌then◌else◌, unwrap_or, split_whitespace, nat_eq,
}
use korg.Gate.Door
use korg.Gate.Door.{Door, korg_door}
use korg.Gate.State.{Client, Store, Env, Crypto, Verdict, open_gate, locked, seconds}
use korg.Gate.Clients.{find_client}
use korg.Gate.Lock.{check_lockout, sign_in_failed, sign_in_succeeded}
use korg.Gate.Grants.{issue_code}
use korg.Gate.Config.{Config, claude_callback, resource_for, doors, door_for_resource}
use korg.Gate.Oauth.{
  Params, param, AuthRequest, Answer, error_page, sign_in_page, redirect_with, too_many_attempts,
  wrong_passphrase,
}

-- `AuthRejection`, or the request.
pub data Validation : Type 0 where
  valid : AuthRequest → Validation
  -- The client or the redirect cannot be trusted.
  on_page : ℕ → String → Validation
  -- The redirect, the error, the state.
  redirected : String → String → Option String → Validation

-- `get(k).as_deref() == Some(t)`
unfoldable pub is_exactly : Option String → String → Bool
is_exactly none t = false
is_exactly (some s) t = s == t

-- The door for a request that named no resource: korg's, unless the scope asks for another open
-- door's and not korg's.
unfoldable pub door_by_scope : Config → Option String → Door
door_by_scope config scope =
    let asked = split_whitespace (unwrap_or scope "") in
    if contains asked (Door.scope korg_door)
    then korg_door
    else unwrap_or (find (λ d. contains asked (Door.scope d)) (doors config)) korg_door

module _ (config : Config) (p : Params) where
  unfoldable pub target_door : Option String → Option Door
  target_door (some resource) = door_for_resource config resource
  target_door none = some (door_by_scope config (param p "scope"))

  module _ (client_id : String) (client : Client) (uri : String) where
    abbrev back : String → Validation
    back error = redirected uri error (param p "state")

    unfoldable pub with_door : String → Option Door → Validation
    with_door challenge none = back "invalid_target"
    with_door challenge (some door) = valid (record {
      client_id = client_id;
      client_name = client.client_name;
      redirect_uri = uri;
      code_challenge = challenge;
      state = param p "state";
      door = door;
      resource = resource_for config door;
    })

    unfoldable pub with_challenge : Option String → Validation
    with_challenge none = back "invalid_request"
    with_challenge (some challenge) =
        if is_exactly (param p "code_challenge_method") "S256"
        then with_door challenge (target_door (param p "resource"))
        else back "invalid_request"

    unfoldable pub with_uri : Validation
    with_uri =
        if not (uri == claude_callback) || not (contains client.redirect_uris uri)
        then on_page 400 "That redirect URI is not allowed."
        else if is_exactly (param p "response_type") "code"
        then with_challenge (param p "code_challenge")
        else back "unsupported_response_type"

  unfoldable pub with_redirect : String → Client → Option String → Validation
  with_redirect client_id client none = on_page 400 "Missing redirect_uri."
  with_redirect client_id client (some uri) = with_uri client_id client uri

  unfoldable pub with_client : String → Option Client → Validation
  with_client client_id none =
      on_page 400 "Unknown client. Remove the connector in claude.ai and add it again."
  with_client client_id (some client) = with_redirect client_id client (param p "redirect_uri")

  unfoldable pub with_client_id : Store → Option String → Validation
  with_client_id s none = on_page 400 "Missing client_id."
  with_client_id s (some client_id) = with_client client_id (find_client s client_id)

  unfoldable pub validate_auth : Store → Validation
  validate_auth s = with_client_id s (param p "client_id")

unfoldable pub page_of : Validation → Answer
page_of (valid request) = sign_in_page request none 200
page_of (on_page status message) = error_page status message
page_of (redirected uri error state) = redirect_with uri (("error", error) ∷ []) state

unfoldable pub authorize_page : Config → Params → Store → Answer
authorize_page config params s = page_of (validate_auth config params s)

-- `ct_eq` on two digests.
unfoldable pub same_bytes : List ℕ → List ℕ → Bool
same_bytes [] [] = true
same_bytes (a ∷ as') (b ∷ bs) = nat_eq a b && same_bytes as' bs
same_bytes _ _ = false

module _ (c : Crypto) (config : Config) (env : Env) where
  unfoldable pub is_passphrase : Params → Bool
  is_passphrase form =
      same_bytes (c.sha256 (unwrap_or (get "passphrase" form) "")) (c.sha256 config.passphrase)

  unfoldable pub issue : AuthRequest → Store → Store × Answer
  issue request s =
      let r =
        issue_code c env request.client_id request.redirect_uri request.code_challenge request.door
          (sign_in_succeeded s) in
      (r.0, redirect_with request.redirect_uri (("code", r.1) ∷ []) request.state)

  unfoldable pub sign_in : Params → AuthRequest → Verdict → Store → Store × Answer
  sign_in form request (locked left) s =
      (s, sign_in_page request (some (too_many_attempts (max (left / seconds 1) 1))) 429)
  sign_in form request open_gate s =
      if is_passphrase form
      then issue request s
      else ((sign_in_failed env.instant s).0, sign_in_page request (some wrong_passphrase) 401)

  unfoldable pub submit : Params → Validation → Store → Store × Answer
  submit form (valid request) s = sign_in form request (check_lockout env.instant s) s
  submit form v s = (s, page_of v)

  -- The lockout is looked at before the passphrase. This is the form with no other request between
  -- its calls of the store; Calls takes them one at a time.
  unfoldable pub authorize_submit : Params → Store → Store × Answer
  authorize_submit form s = submit form (validate_auth config form s) s
