-- ===== src/Gate/Grants/Rotation.antt =====
-- `refresh` of crates/korg-gate/src/store.rs: the old token dies in the step that mints its
-- replacement, a refused request spends nothing, and the replacement survives a restart.
use korg.Base.{
  ℕ, ◌+◌, ◌/◌, ◌<◌, String, Option, none, some, true, ◌≡◌, ◌≢◌, inl, inr, refl, ◌∙◌, arith, ltb,
  if◌then◌else◌, eq_refl, get, get-remove, IsMap, Option-cases, remove-IsMap,
}
use korg.Gate.Door.{Door, same_door_self}
use korg.Gate.State.{
  RefreshGrant, Store, Tokens, Env, Crypto, GrantError, expired, unknown_refresh, done, refused,
  after_save, digest, reopen, seconds,
}
use korg.Gate.Grants.Minted.{new_grant, authenticate-grant, get-grant, get-grant_ne, disk-grant}
use korg.Gate.Grants.{
  names_other_door, names_other_client, after_refusal, minted, grant, check_refresh, spend, rotate,
  refresh, authenticate,
}

module _ (c : Crypto) where
  rotate_unspent :
      (env : Env) (key : String) (g : RefreshGrant) (r : Option GrantError) (s : Store)
      (why : GrantError)
      → why ≢ expired
      → (rotate c env key g r s).1 ≡ refused why
      → (rotate c env key g r s).0 ≡ s
  unfolding rotate grant after_refusal after_save
  rotate_unspent env key g (some e) s why ne h = refl
  rotate_unspent env key g none s why ne h = absurd (ground arith)

  -- A refresh that is refused for any reason but expiry spends nothing: the state is as before.
  pub refresh_refused_spends_nothing :
      (env : Env) (token : String) (client : Option String) (resource : Option Door) (s : Store)
      (why : GrantError)
      → why ≢ expired
      → (refresh c env token client resource s).1 ≡ refused why
      → (refresh c env token client resource s).0 ≡ s
  unfolding refresh
  refresh_refused_spends_nothing env token client resource s why ne h =
      elim (Option-cases (get (digest c token) s.inner.persisted.refresh)) [
        | inl absent ↦ rw (absent, refresh)
        | inr (g, found) ↦
            rw (found, refresh)
              (rotate_unspent env (digest c token) g (check_refresh c g client resource) s why ne
                (rw (found, refresh) at h))
      ]

  refresh_unknown :
      (env : Env) (token : String) (client : Option String) (resource : Option Door) (s : Store)
      → get (digest c token) s.inner.persisted.refresh ≡ none
      → (refresh c env token client resource s).1 ≡ refused unknown_refresh
  unfolding refresh
  refresh_unknown env token client resource s absent = rw (absent, refresh)

  -- A live grant, asked for by its own client at its own door, is renewed.
  refresh_good :
      (env : Env) (token : String) (s : Store) (g : RefreshGrant)
      → get (digest c token) s.inner.persisted.refresh ≡ some g
      → env.unix < g.expires_at
      → env.writes ≡ true
      → (refresh c env token (some g.client_id) (some g.door) s).1 ≡ done (minted c env g.door s)
  unfolding refresh rotate grant check_refresh names_other_client names_other_door after_save minted
  refresh_good env token s g found live w =
      rw (found, refresh) (rw (eq_refl, same_door_self) (ground arith))

  rotate-done :
      (env : Env) (key : String) (g : RefreshGrant) (r : Option GrantError) (s : Store)
      (tok : Tokens)
      → (rotate c env key g r s).1 ≡ done tok
      → (rotate c env key g r s ≡ grant c env g.client_id g.door (spend c key s))
        × (r ≡ none)
        × (env.unix < g.expires_at)
        × (env.writes ≡ true)
        × (tok ≡ minted c env g.door s)
  unfolding rotate grant after_refusal after_save minted
  rotate-done env key g (some e) s tok h = cc
  rotate-done env key g none s tok h =
      (ground arith, refl, ground arith, ground arith, ground arith)

  module _ (env : Env) (token : String) (client : Option String) (resource : Option Door)
      (s : Store) (g : RefreshGrant) (tok : Tokens)
      (found : get (digest c token) s.inner.persisted.refresh ≡ some g)
      (h : (refresh c env token client resource s).1 ≡ done tok) where
    rotated :
        (refresh c env token client resource s
          ≡ grant c env g.client_id g.door (spend c (digest c token) s))
        × (env.unix < g.expires_at)
        × (env.writes ≡ true)
        × (tok ≡ minted c env g.door s)
    unfolding refresh
    rotated =
        let r =
          rotate-done env (digest c token) g (check_refresh c g client resource) s tok
            (rw (found, refresh) at h) in
        (rw (found, refresh) r.0, r.2, r.3, r.4)

    -- The old refresh token dies in the step that mints its replacement: no later request with it
    -- is served, unless the new token has the same digest.
    pub refresh_kills_old :
        (later : Env) (client' : Option String) (resource' : Option Door)
        → IsMap s.inner.persisted.refresh
        → digest c env.second_token ≢ digest c token
        → (refresh c later token client' resource' (refresh c env token client resource s).0).1
          ≡ refused unknown_refresh
    refresh_kills_old later client' resource' w ne =
        refresh_unknown later token client' resource' _ (
          rw (rotated.0) (
            get-grant_ne c env g.client_id g.door (spend c (digest c token) s) (digest c token) ne
              (remove-IsMap (digest c token) s.inner.persisted.refresh w)
            ∙ rw (get-remove (digest c token) (digest c token) _ w, eq_refl) refl))

    -- The new tokens act for the same client at the same door as the old one: the access token
    -- opens that door until its time to live has passed, and the refresh token is good at a gate
    -- that starts from the state file, until it runs out.
    pub refresh_keeps_door :
        (later : Env) (t access_ttl refresh_ttl : ℕ)
        → later.unix < env.unix + s.refresh_ttl / seconds 1
        → later.writes ≡ true
        → (authenticate c t tok.access_token (refresh c env token client resource s).0
            ≡ (if ltb t (env.instant + s.access_ttl) then some (g.client_id, g.door) else none))
          × ((refresh c later tok.refresh_token
                (some g.client_id)
                (some g.door)
                (reopen access_ttl refresh_ttl (refresh c env token client resource s).0.disk)).1
              ≡ done (minted c later g.door (reopen access_ttl refresh_ttl none)))
    unfolding minted reopen
    refresh_keeps_door later t a b live w =
        let after = grant c env g.client_id g.door (spend c (digest c token) s) in
        rw (rotated.3, rotated.0)
          (
            authenticate-grant c env g.client_id g.door (spend c (digest c token) s) t,
            refresh_good later env.second_token (reopen a b after.0.disk)
                (new_grant c env g.client_id g.door (spend c (digest c token) s))
                (rw (disk-grant c env g.client_id g.door (spend c (digest c token) s) rotated.2)
                  (get-grant c env g.client_id g.door (spend c (digest c token) s)))
                live w,
          )
