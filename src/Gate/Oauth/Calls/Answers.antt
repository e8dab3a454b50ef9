-- ===== src/Gate/Oauth/Calls/Answers.antt =====
-- How a form of crates/korg-gate/src/oauth.rs ends when other requests run between its calls of the
-- store.
use korg.Base.{
  ℕ, ◌+◌, ◌-◌, ◌%◌, ◌^◌, ltb, ◌/◌, max, String, [], ◌∷◌, Option, some, true, false, ◌≡◌, refl, ap,
  inl, inr, ◌∙◌, get, Bool-cases, get-insert, eq_refl,
}
use korg.Gate.State.{Store, Env, Crypto, Verdict, open_gate, locked, unlocked, digest, seconds}
use korg.Gate.Lock.{free_failures, check_lockout, sign_in_failed, sign_in_succeeded}
use korg.Gate.Grants.{code_ttl, issue_code}
use korg.Gate.Config.{Config, claude_callback}
use korg.Gate.Oauth.{
  Params, AuthRequest, Answer, error_page, sign_in_page, redirect_with, too_many_attempts,
  wrong_passphrase,
}
use korg.Gate.Oauth.Authorize.{
  Validation, valid, on_page, redirected, validate_auth, page_of, is_passphrase,
}
use korg.Gate.Oauth.Validated.{Trusted, validate_auth-Trusted}
use korg.Gate.Oauth.SignIn.{validate_auth-redirected}
use korg.Gate.Oauth.Calls.{
  let_in, arrived, signed_in, ended, after_validation, after_check, advance, run,
}

module _ (c : Crypto) (config : Config) (form : Params) (e1 e2 e3 e4 : Env)
    (s1 s2 s3 s4 : Store) where
  -- The answers of a form whose calls find the stores `s1` to `s4`, and what each of them takes.
  pub data Ending : Answer → Type 0 where
    paged :
        {status : ℕ} {message : String}
        → validate_auth config form s1 ≡ on_page status message
        → Ending (error_page status message)
    sent_back :
        {error : String} {state : Option String}
        → validate_auth config form s1 ≡ redirected claude_callback error state
        → Ending (redirect_with claude_callback (("error", error) ∷ []) state)
    shut_out :
        {request : AuthRequest} {left : ℕ}
        → Trusted config form s1 request
        → check_lockout e2.instant s2 ≡ locked left
        → Ending (sign_in_page request (some (too_many_attempts (max (left / seconds 1) 1))) 429)
    mistaken :
        {request : AuthRequest}
        → Trusted config form s1 request
        → check_lockout e2.instant s2 ≡ open_gate
        → is_passphrase c config e3 form ≡ false
        → (advance c config form e3 (let_in request) s3).0.inner.lockout.failures
          ≡ (s3.inner.lockout.failures + 1) % 2 ^ 32
        → Ending (sign_in_page request (some wrong_passphrase) 401)
    admitted :
        {request : AuthRequest}
        → Trusted config form s1 request
        → check_lockout e2.instant s2 ≡ open_gate
        → is_passphrase c config e3 form ≡ true
        → (advance c config form e3 (let_in request) s3).0.inner.lockout ≡ unlocked
        → get
            (digest c e4.first_token)
            (advance c config form e4 (signed_in request) s4).0.inner.codes
          ≡ some (record {
            client_id = request.client_id;
            redirect_uri = claude_callback;
            challenge = request.code_challenge;
            door = request.door;
            expires = e4.instant + code_ttl;
          })
        → Ending (redirect_with claude_callback (("code", e4.first_token) ∷ []) request.state)

  issued :
      (request : AuthRequest)
      → request.redirect_uri ≡ claude_callback
      → get
          (digest c e4.first_token)
          (advance c config form e4 (signed_in request) s4).0.inner.codes
        ≡ some (record {
          client_id = request.client_id;
          redirect_uri = claude_callback;
          challenge = request.code_challenge;
          door = request.door;
          expires = e4.instant + code_ttl;
        })
  unfolding advance issue_code
  issued request back = rw (get-insert, eq_refl, back) refl

  counted :
      (request : AuthRequest)
      → is_passphrase c config e3 form ≡ false
      → (advance c config form e3 (let_in request) s3).0.inner.lockout.failures
        ≡ (s3.inner.lockout.failures + 1) % 2 ^ 32
  unfolding advance sign_in_failed
  counted request wrong =
      elim (Bool-cases (ltb 0 ((s3.inner.lockout.failures + 1) % 2 ^ 32 - free_failures))) [
        | inl over ↦ rw (wrong, over) refl
        | inr free ↦ rw (wrong, free) refl
      ]

  checked :
      (request : AuthRequest) (v : Verdict)
      → Trusted config form s1 request
      → check_lockout e2.instant s2 ≡ v
      → (answer : Answer) × (run c config form ((e3, s3) ∷ (e4, s4) ∷ []) (after_check request v)
          ≡ ended answer)
        × Ending answer
  unfolding run advance after_check issue_code sign_in_succeeded
  checked request (locked left) trusted l = (_, refl, shut_out trusted l)
  checked request open_gate trusted l = elim (Bool-cases (is_passphrase c config e3 form)) [
    | inl right ↦ (
      redirect_with claude_callback (("code", e4.first_token) ∷ []) request.state,
      rw (right, run)
          (ap (λ u. ended (redirect_with u (("code", e4.first_token) ∷ []) request.state))
            trusted.callback),
      admitted trusted l right (rw (right, advance) refl) (issued request trusted.callback),
    )
    | inr wrong ↦ (_, rw (wrong, run) refl, mistaken trusted l wrong (counted request wrong))
  ]

  asked :
      (v : Validation)
      → validate_auth config form s1 ≡ v
      → (answer : Answer) × (run c config form
            ((e2, s2) ∷ (e3, s3) ∷ (e4, s4) ∷ [])
            (after_validation v)
          ≡ ended answer)
        × Ending answer
  unfolding run advance after_validation page_of
  asked (valid request) e =
      checked request (check_lockout e2.instant s2) (validate_auth-Trusted config form s1 request e)
        refl
  asked (on_page status message) e = (_, refl, paged e)
  asked (redirected uri error state) e =
      let back = validate_auth-redirected config form s1 uri error state e in
      (
        redirect_with claude_callback (("error", error) ∷ []) state,
        ap (λ u. ended (redirect_with u (("error", error) ∷ []) state)) back,
        sent_back (e ∙ ap (λ u. redirected u error state) back),
      )

  -- A form is answered after at most four calls of the store, whatever other requests do to the
  -- store in between, and what it is answered rests on what each call found: an error page, or an
  -- error sent to Claude's callback, only for a request that was refused at the first call; the form
  -- again, for a request that was trusted at the first call, because the lockout ran at the second
  -- or, where it did not, because the passphrase was wrong, and then the third call counts a failure;
  -- or, where the passphrase was right, a code sent to the callback, and then the third call clears
  -- the lockout, and after the fourth the code is pending in the store for that request's client,
  -- challenge and door for five minutes.
  pub run-Ending :
      (answer : Answer) × (run c config form
          ((e1, s1) ∷ (e2, s2) ∷ (e3, s3) ∷ (e4, s4) ∷ [])
          arrived
        ≡ ended answer)
      × Ending answer
  unfolding run advance
  run-Ending = asked (validate_auth config form s1) refl
