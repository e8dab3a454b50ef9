-- ===== src/Gate/Oauth/Calls/Alone.antt =====
-- `authorize_submit` of crates/korg-gate/src/oauth.rs as the run of its calls of the store.
use korg.Base.{ℕ, zero, suc, ◌≡◌, refl, inl, inr, Bool-cases}
use korg.Gate.State.{Store, Env, Crypto, Verdict, open_gate, locked}
use korg.Gate.Lock.{check_lockout}
use korg.Gate.Config.{Config}
use korg.Gate.Oauth.{Params, AuthRequest}
use korg.Gate.Oauth.Authorize.{
  Validation, valid, on_page, redirected, validate_auth, is_passphrase, issue, sign_in, submit,
  authorize_submit,
}
use korg.Gate.Oauth.Calls.{Stage, arrived, ended, after_validation, after_check, advance}

module _ (c : Crypto) (config : Config) (env : Env) (form : Params) where
  -- That many calls with no other request between them.
  unfoldable pub alone : ℕ → Store × Stage → Store × Stage
  alone zero p = p
  alone (suc n) p = alone n (advance c config form env p.1 p.0)

  sign_in-alone :
      (request : AuthRequest) (v : Verdict) (s : Store)
      → alone 2 (s, after_check request v) ≡ (
        (sign_in c config env form request v s).0,
        ended (sign_in c config env form request v s).1,
      )
  unfolding alone after_check advance sign_in issue
  sign_in-alone request (locked left) s = refl
  sign_in-alone request open_gate s = elim (Bool-cases (is_passphrase c config env form)) [
    | inl right ↦ rw (right) refl
    | inr wrong ↦ rw (wrong) refl
  ]

  submit-alone :
      (v : Validation) (s : Store)
      → alone 3 (s, after_validation v)
        ≡ ((submit c config env form v s).0, ended (submit c config env form v s).1)
  unfolding alone after_validation advance submit
  submit-alone (valid request) s = sign_in-alone request (check_lockout env.instant s) s
  submit-alone (on_page status message) s = refl
  submit-alone (redirected uri error state) s = refl

  -- Four calls with no other request between them come to the form as a whole.
  pub authorize_submit-alone :
      (s : Store)
      → alone 4 (s, arrived)
        ≡ ((authorize_submit c config env form s).0, ended (authorize_submit c config env form s).1)
  unfolding alone advance authorize_submit
  authorize_submit-alone s = submit-alone (validate_auth config form s) s
