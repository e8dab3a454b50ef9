-- ===== src/Gate/Oauth/Calls.antt =====
-- `authorize_submit` of crates/korg-gate/src/oauth.rs, one call of the store at a time: the mutex is
-- taken anew for each of them, so other requests run in between.
pub mod Alone
pub mod Answers
use korg.Base.{String, List, [], ◌∷◌, Option, none, some, if◌then◌else◌, max, ◌/◌}
use korg.Gate.State.{Store, Env, Crypto, Verdict, open_gate, locked, seconds}
use korg.Gate.Lock.{check_lockout, sign_in_failed, sign_in_succeeded}
use korg.Gate.Grants.{issue_code}
use korg.Gate.Config.{Config}
use korg.Gate.Oauth.{
  Params, AuthRequest, Answer, sign_in_page, redirect_with, too_many_attempts, wrong_passphrase,
}
use korg.Gate.Oauth.Authorize.{
  Validation, valid, on_page, redirected, validate_auth, page_of, is_passphrase,
}

-- Where a form is between two calls of the store.
pub data Stage : Type 0 where
  arrived : Stage
  validated : AuthRequest → Stage
  -- Past the lockout.
  let_in : AuthRequest → Stage
  signed_in : AuthRequest → Stage
  ended : Answer → Stage

unfoldable pub after_validation : Validation → Stage
after_validation (valid request) = validated request
after_validation v = ended (page_of v)

unfoldable pub after_check : AuthRequest → Verdict → Stage
after_check request (locked left) =
    ended (sign_in_page request (some (too_many_attempts (max (left / seconds 1) 1))) 429)
after_check request open_gate = let_in request

module _ (c : Crypto) (config : Config) (form : Params) where
  -- The next call of the form, on the store that it finds: `client`, `check_lockout`,
  -- `sign_in_failed` or `sign_in_succeeded`, `issue_code`.
  unfoldable pub advance : Env → Stage → Store → Store × Stage
  advance env arrived s = (s, after_validation (validate_auth config form s))
  advance env (validated request) s = (s, after_check request (check_lockout env.instant s))
  advance env (let_in request) s =
      if is_passphrase c config env form then (sign_in_succeeded s, signed_in request) else (
        (sign_in_failed env.instant s).0,
        ended (sign_in_page request (some wrong_passphrase) 401),
      )
  advance env (signed_in request) s =
      let r =
        issue_code c env request.client_id request.redirect_uri request.code_challenge request.door
          s in
      (r.0, ended (redirect_with request.redirect_uri (("code", r.1) ∷ []) request.state))
  advance env (ended answer) s = (s, ended answer)

  -- The stage after calls at the given moments, each with the store as the other requests have left
  -- it by then.
  unfoldable pub run : List (Env × Store) → Stage → Stage
  run [] stage = stage
  run ((env, s) ∷ later) stage = run later (advance env stage s).1
