-- ===== src/Gate/Oauth.antt =====
-- crates/korg-gate/src/oauth.rs: the answers of the authorization server, and what its handlers
-- share. The HTML of a page is left out: a page is its status, its message and its request.
pub mod Metadata
pub mod Registration
pub mod Authorize
pub mod TokenEndpoint
pub mod Validated
pub mod SignIn
pub mod Flow
pub mod Calls
use korg.Base.{
  ℕ, String, List, [], ◌∷◌, Option, none, some, Bool, true, false, not, ◌==◌, Map, get, keep_if,
}
use korg.Gate.Door.{Door}
use korg.Gate.State.{Client, Tokens}

-- `Query` and `Form`.
abbrev pub Params : Type 0
Params = Map String

-- A parameter that is given and not empty.
unfoldable pub param : Params → String → Option String
param p k = keep_if (λ v. not (v == "")) (get k p)

-- The authorization request, validated.
pub record AuthRequest : Type 0 where
  pub client_id : String
  pub client_name : Option String
  pub redirect_uri : String
  pub code_challenge : String
  pub state : Option String
  pub door : Door
  pub resource : String

-- The error above the sign-in form: the seconds to wait, or a wrong passphrase.
pub data Notice : Type 0 where
  too_many_attempts : ℕ → Notice
  wrong_passphrase : Notice

pub data Answer : Type 0 where
  -- The status, the error, its description.
  oauth_error : ℕ → String → String → Answer
  -- 201, with the new id.
  registered : String → Client → Answer
  -- The status and the message.
  error_page : ℕ → String → Answer
  -- The request, the error shown if any, the status.
  sign_in_page : AuthRequest → Option Notice → ℕ → Answer
  -- The base, the pairs added to its query, and the state that follows them.
  redirect_with : String → List (String × String) → Option String → Answer
  -- 200, never cached.
  token_reply : Tokens → Answer
