-- ===== src/Gate/Oauth/Registration.antt =====
-- `register` of crates/korg-gate/src/oauth.rs: RFC 7591 dynamic client registration.
use korg.Base.{
  ℕ, String, List, [], ◌∷◌, Option, none, some, Bool, true, false, not, ◌&&◌, ◌||◌, ◌==◌, all, Map,
  get, if◌then◌else◌, take_chars, ◌>>=◌,
}
use korg.Gate.State.{Client, Store, Env, RegisterError, full, Outcome, done, refused, failed}
use korg.Gate.Json.{Value, Items, string, array, object, nil, cons, entries, as_str, str_of, Serde}
use korg.Gate.Config.{claude_callback}
use korg.Gate.Clients
use korg.Gate.Oauth.{Answer, oauth_error, registered}

abbrev pub max_client_name : ℕ
max_client_name = 120

-- A value compared with a text.
is_text : Value → String → Bool
is_text (string s) t = s == t
is_text _ t = false

-- Every element as a text, or none.
texts : Items → Option (List String)
texts nil = some []
texts (cons v vs) = do s ← as_str v; rest ← texts vs; some (s ∷ rest)

pub data Uris : Type 0 where
  -- A list, with at least one member.
  uris : List String → Uris
  not_strings : Uris
  missing : Uris

uris_of : Option (List String) → Uris
uris_of none = not_strings
uris_of (some us) = uris us

pub redirect_uris : Option Value → Uris
redirect_uris (some (array (cons v vs))) = uris_of (texts (cons v vs))
redirect_uris _ = missing

pub public_client : Option Value → Bool
public_client none = true
public_client (some method) = is_text method "none"

is_grant : Value → Bool
is_grant g = is_text g "authorization_code" || is_text g "refresh_token"

all_grants : Items → Bool
all_grants nil = true
all_grants (cons g gs) = is_grant g && all_grants gs

-- Grant types that are no array are let pass.
pub grants_allowed : Option Value → Bool
grants_allowed (some (array grants)) = all_grants grants
grants_allowed _ = true

client_name : Option String → Option String
client_name none = none
client_name (some n) = some (take_chars max_client_name n)

answer_of : Outcome RegisterError (String × Client) → Answer
answer_of (done (id, client)) = registered id client
answer_of (refused full) = oauth_error 503 "temporarily_unavailable" "client table is full"
answer_of failed = oauth_error 500 "server_error" ""

unfoldable pub register_client : Env → Option String → List String → Store → Store × Answer
unfolding answer_of
register_client env name us s = let r = Clients.register env name us s in (r.0, answer_of r.1)

abbrev pub every_callback : List String → Bool
every_callback us = all (λ u. u == claude_callback) us

unfoldable pub register_uris : Env → Map Value → Uris → Store → Store × Answer
unfolding public_client grants_allowed all_grants is_grant is_text client_name
register_uris env meta not_strings s =
    (s, oauth_error 400 "invalid_redirect_uri" "redirect_uris must be strings")
register_uris env meta missing s =
    (s, oauth_error 400 "invalid_redirect_uri" "redirect_uris is required")
register_uris env meta (uris us) s =
    if not (every_callback us)
    then (
      s,
      oauth_error 400 "invalid_redirect_uri"
          "only the claude.ai connector callback may be registered",
    )
    else if not (public_client (get "token_endpoint_auth_method" meta))
    then (
      s,
      oauth_error 400 "invalid_client_metadata"
          "only public clients (token_endpoint_auth_method \"none\") are supported",
    )
    else if not (grants_allowed (get "grant_types" meta))
    then (
      s,
      oauth_error 400 "invalid_client_metadata"
          "grant_types may only be authorization_code and refresh_token",
    )
    else register_client env (client_name (str_of (get "client_name" meta))) us s

unfoldable pub register_value : Env → Option Value → Store → Store × Answer
unfolding redirect_uris uris_of texts
register_value env (some (object meta)) s =
    register_uris env (entries meta) (redirect_uris (get "redirect_uris" (entries meta))) s
register_value env _ s = (s, oauth_error 400 "invalid_client_metadata" "body must be a JSON object")

unfoldable pub register : Serde → Env → String → Store → Store × Answer
register serde env body s = register_value env (serde.parse body) s
