-- ===== src/Gate/Grants/Minted.antt =====
-- What `mint` and the save after it leave behind (crates/korg-gate/src/store.rs).
use korg.Base.{
  ℕ, ◌+◌, ◌/◌, String, none, some, true, ◌≡◌, refl, arith, ltb, if◌then◌else◌, eq_iff, eq_refl, get,
  get-insert, ◌≢◌, keep_if, get-retain, IsMap,
}
use korg.Gate.Door
use korg.Gate.Door.{Door}
use korg.Gate.State.{RefreshGrant, Store, Env, Crypto, save, inner-save, digest, seconds}
use korg.Gate.Clients.{live_refresh}
use korg.Gate.Grants.{mint, grant, authenticate}

module _ (c : Crypto) (env : Env) (client : String) (door : Door) (s : Store) where
  pub codes-grant : (grant c env client door s).0.inner.codes ≡ s.inner.codes
  unfolding grant mint
  codes-grant = rw inner-save

  pub authenticate-grant :
      (t : ℕ)
      → authenticate c t env.first_token (grant c env client door s).0
        ≡ (if ltb t (env.instant + s.access_ttl) then some (client, door) else none)
  unfolding grant mint authenticate
  authenticate-grant t = rw inner-save (rw (get-insert, eq_refl) refl)

  abbrev pub new_grant : RefreshGrant
  new_grant = record {
    client_id = client;
    scope = Door.scope door;
    expires_at = env.unix + s.refresh_ttl / seconds 1;
    door = door;
  }

  pub get-grant :
      get (digest c env.second_token) (grant c env client door s).0.inner.persisted.refresh
      ≡ some new_grant
  unfolding grant mint
  get-grant = rw inner-save (rw (get-insert, eq_refl) refl)

  pub disk-grant :
      env.writes ≡ true
      → (grant c env client door s).0.disk ≡ some (grant c env client door s).0.inner.persisted
  unfolding grant save
  disk-grant w = rw (w, save)

  -- Any other refresh token is kept while it is live, and dropped once it has run out.
  pub get-grant_ne :
      (key : String)
      → digest c env.second_token ≢ key
      → IsMap s.inner.persisted.refresh
      → get key (grant c env client door s).0.inner.persisted.refresh
        ≡ keep_if (λ g. ltb env.unix g.expires_at) (get key s.inner.persisted.refresh)
  unfolding grant mint live_refresh
  get-grant_ne key ne w = rw inner-save (
      rw get-insert (
        ground (
          arith,
          eq_iff (digest c env.second_token) key,
          get-retain (λ (g : RefreshGrant). ltb env.unix g.expires_at) key s.inner.persisted.refresh
              w,
        )))
