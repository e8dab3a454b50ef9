-- ===== src/Gate/Oauth/SignIn.antt =====
-- `authorize_submit` of crates/korg-gate/src/oauth.rs: where it sends the browser, and what a code
-- costs.
use korg.Base.{
  String, List, [], ◌∷◌, Option, none, some, true, ◌≡◌, refl, sym, ◌∙◌, inl, inr, ◌⊎◌, arith,
  eq_iff, Bool-cases,
}
use korg.Gate.Door.{Door}
use korg.Gate.State.{Client, Store, Env, Crypto, Verdict, open_gate, locked}
use korg.Gate.Clients.{find_client}
use korg.Gate.Lock.{check_lockout}
use korg.Gate.Grants.{issue_code}
use korg.Gate.Config.{Config, claude_callback}
use korg.Gate.Oauth.{Params, param, AuthRequest, redirect_with}
use korg.Gate.Oauth.Authorize.{
  Validation, valid, on_page, redirected, target_door, with_door, with_challenge, with_uri,
  with_redirect, with_client, with_client_id, validate_auth, page_of, is_passphrase, issue, sign_in,
  submit, authorize_submit,
}
use korg.Gate.Oauth.Validated.{Trusted, validate_auth-Trusted}

-- A refusal that goes back to the client goes to the callback, and carries an error alone.
module _ (config : Config) (p : Params) (s : Store) (u e : String) (st : Option String) where
  with_uri-redirected :
      (id : String) (client : Client) (uri : String) (o : Option String) (d : Option Door)
      → param p "code_challenge" ≡ o
      → target_door config p (param p "resource") ≡ d
      → with_uri config p id client uri ≡ redirected u e st
      → u ≡ claude_callback
  unfolding with_uri with_challenge with_door
  with_uri-redirected id client uri none d f g h =
      ground (arith, rw (f, with_uri) at h, eq_iff uri claude_callback)
  with_uri-redirected id client uri (some ch) none f g h =
      ground (arith, rw (f, with_uri) at h, eq_iff uri claude_callback)
  with_uri-redirected id client uri (some ch) (some door) f g h =
      ground (arith, rw (f, with_uri) at h, eq_iff uri claude_callback)

  with_redirect-redirected :
      (id : String) (client : Client) (o : Option String)
      → with_redirect config p id client o ≡ redirected u e st
      → u ≡ claude_callback
  unfolding with_redirect
  with_redirect-redirected id client none h = cc
  with_redirect-redirected id client (some uri) h =
      with_uri-redirected id client uri (param p "code_challenge")
        (target_door config p (param p "resource")) refl refl h

  with_client-redirected :
      (id : String) (o : Option Client)
      → with_client config p id o ≡ redirected u e st
      → u ≡ claude_callback
  unfolding with_client
  with_client-redirected id none h = cc
  with_client-redirected id (some client) h =
      with_redirect-redirected id client (param p "redirect_uri") h

  with_client_id-redirected :
      (o : Option String) → with_client_id config p s o ≡ redirected u e st → u ≡ claude_callback
  unfolding with_client_id
  with_client_id-redirected none h = cc
  with_client_id-redirected (some id) h = with_client-redirected id (find_client s id) h

  pub validate_auth-redirected : validate_auth config p s ≡ redirected u e st → u ≡ claude_callback
  unfolding validate_auth
  validate_auth-redirected h = with_client_id-redirected (param p "client_id") h

module _ (c : Crypto) (config : Config) (env : Env) (form : Params) (s : Store) where
  -- What a code stands for: a trusted request, an open gate, and the passphrase.
  pub record SignedIn (uri code : String) : Type 0 where
    pub request : AuthRequest
    pub trusted : Trusted config form s request
    pub unlocked : check_lockout env.instant s ≡ open_gate
    pub passphrase : is_passphrase c config env form ≡ true
    pub fresh : code ≡ env.first_token
    pub state_after : (authorize_submit c config env form s).0 ≡ (issue c config env request s).0

  pub record Sent (uri : String) (pairs : List (String × String)) : Type 0 where
    pub callback : uri ≡ claude_callback
    pub kind :
        ((authorize_submit c config env form s).0 ≡ s)
          × ((error : String) × (pairs ≡ ("error", error) ∷ []))
        ⊎ ((code : String) × (pairs ≡ ("code", code) ∷ []) × SignedIn uri code)

  sign_in-Sent :
      (r : AuthRequest) (v : Verdict) (uri : String) (pairs : List (String × String))
      (st : Option String)
      → validate_auth config form s ≡ valid r
      → check_lockout env.instant s ≡ v
      → (sign_in c config env form r v s).1 ≡ redirect_with uri pairs st
      → Sent uri pairs
  unfolding sign_in issue authorize_submit submit issue_code
  sign_in-Sent r (locked left) uri pairs st e l h = cc
  sign_in-Sent r open_gate uri pairs st e l h =
      elim (Bool-cases (is_passphrase c config env form)) [
        | inl right ↦
            let trusted = validate_auth-Trusted config form s r e in
            let g = rw (right, sign_in) at h in
            let same : r.redirect_uri ≡ uri = ground arith in
            record {
              callback = sym same ∙ trusted.callback;
              kind = inr (
                env.first_token,
                ground arith,
                record {
                  request = r;
                  trusted = trusted;
                  unlocked = l;
                  passphrase = right;
                  fresh = refl;
                  state_after = rw (e, submit) (rw (l, sign_in) (rw (right, sign_in) refl));
                },
              );
            }
        | inr wrong ↦ absurd (ground arith)
      ]

  submit-Sent :
      (v : Validation) (uri : String) (pairs : List (String × String)) (st : Option String)
      → validate_auth config form s ≡ v
      → (submit c config env form v s).1 ≡ redirect_with uri pairs st
      → Sent uri pairs
  unfolding submit page_of authorize_submit
  submit-Sent (valid r) uri pairs st e h =
      sign_in-Sent r (check_lockout env.instant s) uri pairs st e refl h
  submit-Sent (on_page status message) uri pairs st e h = cc
  submit-Sent (redirected u error st') uri pairs st e h =
      let same : u ≡ uri = ground arith in
      record {
        callback = sym same ∙ validate_auth-redirected config form s u error st' e;
        kind = inl (rw (e, submit) refl, (error, ground arith));
      }

  -- The sign-in form sends the browser nowhere but to Claude's callback: with an error that leaves
  -- the state as it was, or with a code, and then the request was trusted, no lockout ran, the
  -- passphrase was the owner's, and the code is the fresh token issued for that request.
  pub authorize_submit-Sent :
      (uri : String) (pairs : List (String × String)) (st : Option String)
      → (authorize_submit c config env form s).1 ≡ redirect_with uri pairs st
      → Sent uri pairs
  unfolding authorize_submit
  authorize_submit-Sent uri pairs st h =
      submit-Sent (validate_auth config form s) uri pairs st refl h
