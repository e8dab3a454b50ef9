-- ===== src/Gate/Grants/Codes.antt =====
-- `issue_code` and `exchange_code` of crates/korg-gate/src/store.rs: a code is good for one try, and
-- what a good try gives.
use korg.Base.{
  ℕ, ◌+◌, ◌<◌, String, Option, none, some, true, false, ◌≡◌, ◌↔◌, ◌⊎◌, inl, inr, refl, ap, ◌∙◌,
  arith, ltb, if◌then◌else◌, eq_iff, eq_refl, get, remove, get-remove, IsMap, Option-cases,
}
use korg.Gate.Door.{Door, same_door-eq, same_door_self}
use korg.Gate.State.{
  PendingCode, Store, Tokens, Env, Crypto, GrantError, unknown_code, done, refused, after_save,
  digest, pkce_s256,
}
use korg.Gate.Grants.Minted.{codes-grant, authenticate-grant}
use korg.Gate.Grants.{
  names_other_door, minted, check_code, grant, settle, exchange_code, authenticate,
}

module _ (c : Crypto) where
  codes-settle :
      (env : Env) (client : String) (door : Door) (r : Option GrantError) (s : Store)
      → (settle c env client door r s).0.inner.codes ≡ s.inner.codes
  unfolding settle
  codes-settle env client door none s = codes-grant c env client door s
  codes-settle env client door (some why) s = refl

  -- The code leaves the table whatever the outcome of the exchange.
  codes-exchange_code :
      (env : Env) (code client redirect verifier : String) (resource : Option Door) (s : Store)
      → IsMap s.inner.codes
      → get
          (digest c code)
          (exchange_code c env code client redirect verifier resource s).0.inner.codes
        ≡ none
  unfolding exchange_code
  codes-exchange_code env code client redirect verifier resource s w =
      elim (Option-cases (get (digest c code) s.inner.codes)) [
        | inl absent ↦ rw (absent, exchange_code) absent
        | inr (p, found) ↦
            rw (found, exchange_code)
              (rw codes-settle
                (rw (get-remove (digest c code) (digest c code) s.inner.codes w, eq_refl) refl))
      ]

  exchange_code_unknown :
      (env : Env) (code client redirect verifier : String) (resource : Option Door) (s : Store)
      → get (digest c code) s.inner.codes ≡ none
      → (exchange_code c env code client redirect verifier resource s).1 ≡ refused unknown_code
  unfolding exchange_code
  exchange_code_unknown env code client redirect verifier resource s absent =
      rw (absent, exchange_code)

  -- A code is good for one try: the second is refused as unknown, whatever the first came to, a
  -- failed check or a failed write included, and whatever either request carries.
  pub exchange_code_once :
      (env later : Env) (code client client' redirect redirect' verifier verifier' : String)
      (resource resource' : Option Door) (s : Store)
      → IsMap s.inner.codes
      → (exchange_code c later code client' redirect' verifier' resource'
          (exchange_code c env code client redirect verifier resource s).0).1
        ≡ refused unknown_code
  exchange_code_once env later code client client' redirect redirect' verifier verifier' resource
        resource' s w =
      exchange_code_unknown later code client' redirect' verifier' resource' _
        (codes-exchange_code env code client redirect verifier resource s w)

  -- What a request must show for the code `p`.
  pub record Redeems (env : Env) (p : PendingCode) (client redirect verifier : String)
      (resource : Option Door) : Type 0 where
    pub live : env.instant < p.expires
    pub same_client : p.client_id ≡ client
    pub same_redirect : p.redirect_uri ≡ redirect
    pub proof : pkce_s256 c verifier ≡ p.challenge
    pub no_other_door : (resource ≡ none) ⊎ (resource ≡ some p.door)

  names_other_door-false :
      (r : Option Door) (d : Door) → names_other_door r d ≡ false → (r ≡ none) ⊎ (r ≡ some d)
  unfolding names_other_door
  names_other_door-false none d h = inl refl
  names_other_door-false (some e) d h = inr (ap some (same_door-eq e d (ground arith)))

  false-names_other_door :
      (r : Option Door) (d : Door) → (r ≡ none) ⊎ (r ≡ some d) → names_other_door r d ≡ false
  unfolding names_other_door
  false-names_other_door r d (inl e) = rw (e, names_other_door)
  false-names_other_door r d (inr e) = rw (e, names_other_door) (rw same_door_self)

  check_code-none :
      (env : Env) (p : PendingCode) (client redirect verifier : String) (resource : Option Door)
      → check_code c env p client redirect verifier resource ≡ none
      → Redeems env p client redirect verifier resource
  unfolding check_code
  check_code-none env p client redirect verifier resource h = record {
    live = ground arith;
    same_client = (eq_iff _ _).0 (ground arith);
    same_redirect = (eq_iff _ _).0 (ground arith);
    proof = (eq_iff _ _).0 (ground arith);
    no_other_door = names_other_door-false resource p.door (ground arith);
  }

  none-check_code :
      (env : Env) (p : PendingCode) (client redirect verifier : String) (resource : Option Door)
      → Redeems env p client redirect verifier resource
      → check_code c env p client redirect verifier resource ≡ none
  unfolding check_code
  none-check_code env p client redirect verifier resource r = ground (
    arith,
    (eq_iff p.client_id client).1 r.same_client,
    (eq_iff p.redirect_uri redirect).1 r.same_redirect,
    (eq_iff (pkce_s256 c verifier) p.challenge).1 r.proof,
    false-names_other_door resource p.door r.no_other_door,
  )

  settle-done_iff :
      (env : Env) (p : PendingCode) (client redirect verifier : String) (resource : Option Door)
      (spent s : Store)
      → ((settle c env client p.door (check_code c env p client redirect verifier resource) spent).1
          ≡ done (minted c env p.door spent))
        ↔ (Redeems env p client redirect verifier resource × (env.writes ≡ true))
  unfolding settle grant after_save
  settle-done_iff env p client redirect verifier resource spent s = (
    λ h. (check_code-none env p client redirect verifier resource (ground arith), ground arith),
    λ (r, w). rw (none-check_code env p client redirect verifier resource r, w),
  )

  -- A code is exchanged for tokens exactly when it is live, the client, the redirect URI and the
  -- verifier are the ones it was issued for, the request names no other door, and the state file
  -- is written. The tokens carry the scope of the code's door.
  pub exchange_code_iff :
      (env : Env) (code client redirect verifier : String) (resource : Option Door) (s : Store)
      (p : PendingCode)
      → get (digest c code) s.inner.codes ≡ some p
      → ((exchange_code c env code client redirect verifier resource s).1
          ≡ done (minted c env p.door s))
        ↔ (Redeems env p client redirect verifier resource × (env.writes ≡ true))
  unfolding exchange_code minted
  exchange_code_iff env code client redirect verifier resource s p found =
      rw (found, exchange_code) (settle-done_iff env p client redirect verifier resource _ s)

  settle-done :
      (env : Env) (client : String) (door : Door) (r : Option GrantError) (s : Store) (tok : Tokens)
      → (settle c env client door r s).1 ≡ done tok
      → (settle c env client door r s ≡ grant c env client door s)
        × (r ≡ none)
        × (tok ≡ minted c env door s)
  unfolding settle grant after_save
  settle-done env client door none s tok h = (refl, refl, ground arith)
  settle-done env client door (some why) s tok h = cc

  -- The access token of an exchange opens the door of the code, for the client of the code, from
  -- the exchange until its time to live has passed, and nothing after that.
  pub exchange_code-authenticate :
      (env : Env) (code client redirect verifier : String) (resource : Option Door) (s : Store)
      (p : PendingCode) (tok : Tokens) (t : ℕ)
      → get (digest c code) s.inner.codes ≡ some p
      → (exchange_code c env code client redirect verifier resource s).1 ≡ done tok
      → authenticate c t tok.access_token
          (exchange_code c env code client redirect verifier resource s).0
        ≡ (if ltb t (env.instant + s.access_ttl) then some (p.client_id, p.door) else none)
  unfolding exchange_code minted
  exchange_code-authenticate env code client redirect verifier resource s p tok t found h =
      let spent : Store = record s {
        inner = record s.inner { codes = remove (digest c code) s.inner.codes };
      } in
      let settled =
        settle-done env client p.door (check_code c env p client redirect verifier resource) spent
          tok (rw (found, exchange_code) at h) in
      let same = (check_code-none env p client redirect verifier resource settled.1).same_client in
      rw (found, exchange_code)
        (rw (settled.0, settled.2) (authenticate-grant c env client p.door spent t ∙ rw same refl))
