-- ===== src/Gate/Oauth/Flow.antt =====
-- The whole sign-in of crates/korg-gate: the form of src/oauth.rs, the token endpoint, and the access
-- token at the door.
use korg.Base.{
  ℕ, ◌+◌, ◌<◌, String, Option, none, some, true, ◌≡◌, refl, ap, ◌∙◌, ◌⊎◌, get, ltb, if◌then◌else◌,
  eq_refl, get-insert,
}
use korg.Gate.Door.{Door}
use korg.Gate.State.{PendingCode, Store, Env, Crypto, open_gate, digest, pkce_s256}
use korg.Gate.Lock.{check_lockout, sign_in_succeeded}
use korg.Gate.Grants.{code_ttl, issue_code, minted, exchange_code, authenticate}
use korg.Gate.Grants.Codes.{Redeems, exchange_code_iff, exchange_code-authenticate}
use korg.Gate.Config.{Config}
use korg.Gate.Oauth.{Params, param, AuthRequest, token_reply}
use korg.Gate.Oauth.Authorize.{
  valid, validate_auth, is_passphrase, issue, sign_in, submit, authorize_submit,
}
use korg.Gate.Oauth.TokenEndpoint.{
  target, requested, grant_answer, answered, by_code, by_grant, for_target, token,
}

-- A token request for the code `code` of the request `r`.
pub record Redemption (c : Crypto) (config : Config) (r : AuthRequest) (code : String)
    (request : Params) : Type 0 where
  pub verifier : String
  pub resource : Option Door
  pub grant_type : param request "grant_type" ≡ some "authorization_code"
  pub given : param request "code" ≡ some code
  pub redirect : param request "redirect_uri" ≡ some r.redirect_uri
  pub client : param request "client_id" ≡ some r.client_id
  pub verifies : param request "code_verifier" ≡ some verifier
  pub proof : pkce_s256 c verifier ≡ r.code_challenge
  pub asked : requested config (param request "resource") ≡ target resource
  pub no_other_door : (resource ≡ none) ⊎ (resource ≡ some r.door)

pending : Env → AuthRequest → PendingCode
pending env r = record {
  client_id = r.client_id;
  redirect_uri = r.redirect_uri;
  challenge = r.code_challenge;
  door = r.door;
  expires = env.instant + code_ttl;
}

module _ (c : Crypto) (config : Config) (env : Env) (form : Params) (s : Store) (r : AuthRequest)
    (trusted : validate_auth config form s ≡ valid r)
    (unlocked : check_lockout env.instant s ≡ open_gate)
    (right : is_passphrase c config env form ≡ true) where
  pub submit-issue : authorize_submit c config env form s ≡ issue c config env r s
  unfolding authorize_submit submit sign_in
  submit-issue = rw (trusted, submit) (rw (unlocked, sign_in) (rw (right, sign_in) refl))

  issued :
      get (digest c env.first_token) (authorize_submit c config env form s).0.inner.codes
      ≡ some (pending env r)
  unfolding issue issue_code pending
  issued = rw submit-issue (rw (get-insert, eq_refl) refl)

  same_ttl : (authorize_submit c config env form s).0.access_ttl ≡ s.access_ttl
  unfolding issue issue_code sign_in_succeeded
  same_ttl = rw submit-issue refl

  module _ (later : Env) (request : Params)
      (redeems : Redemption c config r env.first_token request) where
    token-exchange_code :
        token c later config request (authorize_submit c config env form s).0
        ≡ answered c later (
            exchange_code c later env.first_token r.client_id r.redirect_uri redeems.verifier
              redeems.resource
              (authorize_submit c config env form s).0)
    unfolding token for_target by_grant by_code
    token-exchange_code =
        rw (redeems.asked, for_target)
          (rw (redeems.grant_type, by_grant)
            (rw (redeems.given, redeems.redirect, redeems.client, redeems.verifies, by_code) refl))

    -- The right passphrase on a trusted request, with no lockout running, leads to the door: the
    -- code that the browser carries back is exchanged within five minutes for tokens, by a request
    -- that repeats the client and the redirect URI and holds the verifier of the challenge, and the
    -- access token then opens the door that was asked for, for that client, until it runs out.
    pub sign_in_opens_door :
        (t : ℕ)
        → later.instant < env.instant + code_ttl
        → later.writes ≡ true
        → ((token c later config request (authorize_submit c config env form s).0).1
            ≡ token_reply (minted c later r.door (authorize_submit c config env form s).0))
          × (authenticate c t later.first_token
                (token c later config request (authorize_submit c config env form s).0).0
              ≡ (if ltb t (later.instant + s.access_ttl) then some (r.client_id, r.door) else none))
    unfolding pending grant_answer answered minted
    sign_in_opens_door t soon w =
        let signed = (authorize_submit c config env form s).0 in
        let good : Redeems c later (pending env r) r.client_id r.redirect_uri redeems.verifier
            redeems.resource =
          record {
            live = soon;
            same_client = refl;
            same_redirect = refl;
            proof = redeems.proof;
            no_other_door = redeems.no_other_door;
          } in
        let ok =
          (exchange_code_iff c later env.first_token r.client_id r.redirect_uri redeems.verifier
              redeems.resource signed (pending env r) issued).1
            (good, w) in
        let opens =
          exchange_code-authenticate c later env.first_token r.client_id r.redirect_uri
            redeems.verifier redeems.resource signed (pending env r) (minted c later r.door signed)
            t issued ok in
        rw token-exchange_code (ap grant_answer ok, opens ∙ rw same_ttl refl)
