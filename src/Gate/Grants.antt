-- ===== src/Gate/Grants.antt =====
-- Codes and tokens in crates/korg-gate/src/store.rs: `issue_code`, `exchange_code`, `refresh`,
-- `mint`, `authenticate`. `expires_in` and `refresh_ttl` are whole seconds of a `Duration`.
pub mod Minted
pub mod Codes
pub mod Rotation
use korg.Base.{
  ℕ, ◌+◌, ◌/◌, String, Option, none, some, Bool, true, false, not, ltb, leb, if◌then◌else◌, ◌==◌,
  get, insert, remove, retain_values,
}
use korg.Gate.Door
use korg.Gate.Door.{Door, same_door}
use korg.Gate.State.{
  RefreshGrant, PendingCode, AccessGrant, Store, Tokens, Env, Crypto, GrantError, unknown_code,
  expired, client_mismatch, redirect_mismatch, pkce_mismatch, unknown_refresh, wrong_resource,
  Outcome, refused, failed, save, after_save, digest, pkce_s256, seconds,
}
use korg.Gate.Clients.{live_refresh, with_persisted}

abbrev pub code_ttl : ℕ
code_ttl = seconds 300

-- `Option::is_some_and(|d| d != door)`
unfoldable pub names_other_door : Option Door → Door → Bool
names_other_door none door = false
names_other_door (some d) door = not (same_door d door)

unfoldable pub names_other_client : Option String → String → Bool
names_other_client none id = false
names_other_client (some c) id = not (c == id)

unfoldable pub opens : ℕ → Option AccessGrant → Option (String × Door)
opens now none = none
opens now (some a) = if ltb now a.expires then some (a.client_id, a.door) else none

-- The answer to a grant that had run out: the save before it may fail.
unfoldable pub after_refusal : Bool → Outcome GrantError Tokens
after_refusal true = refused expired
after_refusal false = failed

module _ (c : Crypto) where
  unfoldable pub issue_code : Env → String → String → String → Door → Store → Store × String
  issue_code env client_id redirect_uri challenge door s =
      let live = retain_values (λ p. ltb env.instant p.expires) s.inner.codes in
      let pending : PendingCode = record {
        client_id = client_id;
        redirect_uri = redirect_uri;
        challenge = challenge;
        door = door;
        expires = env.instant + code_ttl;
      } in
      (
        record s {
          inner = record s.inner { codes = insert (digest c env.first_token) pending live };
        },
        env.first_token,
      )

  -- One access token and one refresh token, both for `door`.
  unfoldable pub mint : Env → String → Door → Store → Store
  mint env client_id door s =
      let access : AccessGrant = record {
        client_id = client_id;
        door = door;
        expires = env.instant + s.access_ttl;
      } in
      let grant : RefreshGrant = record {
        client_id = client_id;
        scope = Door.scope door;
        expires_at = env.unix + s.refresh_ttl / seconds 1;
        door = door;
      } in
      record s {
        inner = record s.inner {
          access =
              insert (digest c env.first_token) access
                (retain_values (λ a. ltb env.instant a.expires) s.inner.access);
          persisted = record s.inner.persisted {
            refresh =
                insert (digest c env.second_token) grant
                  (live_refresh env.unix s.inner.persisted.refresh);
          };
        };
      }

  unfoldable pub minted : Env → Door → Store → Tokens
  minted env door s = record {
    access_token = env.first_token;
    refresh_token = env.second_token;
    expires_in = s.access_ttl / seconds 1;
    scope = Door.scope door;
  }

  -- What `exchange_code` checks of a code it has already removed.
  unfoldable pub check_code :
      Env → PendingCode → String → String → String → Option Door → Option GrantError
  check_code env p client_id redirect_uri verifier resource =
      if leb p.expires env.instant
      then some expired
      else if not (p.client_id == client_id)
      then some client_mismatch
      else if not (p.redirect_uri == redirect_uri)
      then some redirect_mismatch
      else if not (pkce_s256 c verifier == p.challenge)
      then some pkce_mismatch
      else if names_other_door resource p.door
      then some wrong_resource
      else none

  -- Mint, save, answer.
  unfoldable pub grant : Env → String → Door → Store → Store × Outcome GrantError Tokens
  grant env client_id door s =
      (save env.writes (mint env client_id door s), after_save env.writes (minted env door s))

  -- The end of an exchange, by what the checks found.
  unfoldable pub settle :
      Env → String → Door → Option GrantError → Store → Store × Outcome GrantError Tokens
  settle env client_id door (some why) s = (s, refused why)
  settle env client_id door none s = grant env client_id door s

  -- The code is removed before anything is checked.
  unfoldable pub exchange_code :
      Env
      → String
      → String
      → String
      → String
      → Option Door
      → Store
      → Store × Outcome GrantError Tokens
  exchange_code env code client_id redirect_uri verifier resource s =
      elim (get (digest c code) s.inner.codes) [
        | none ↦ (s, refused unknown_code)
        | some pending ↦
            let spent : Store = record s {
              inner = record s.inner { codes = remove (digest c code) s.inner.codes };
            } in
            settle env client_id pending.door
              (check_code env pending client_id redirect_uri verifier resource) spent
      ]

  -- What `refresh` checks before it removes the token.
  unfoldable pub check_refresh : RefreshGrant → Option String → Option Door → Option GrantError
  check_refresh g client_id resource =
      if names_other_client client_id g.client_id
      then some client_mismatch
      else if names_other_door resource g.door
      then some wrong_resource
      else none

  abbrev pub spend : String → Store → Store
  spend key s =
      with_persisted s (record s.inner.persisted { refresh = remove key s.inner.persisted.refresh })

  unfoldable pub rotate :
      Env → String → RefreshGrant → Option GrantError → Store → Store × Outcome GrantError Tokens
  rotate env key g (some why) s = (s, refused why)
  rotate env key g none s =
      if leb g.expires_at env.unix
      then (save env.writes (spend key s), after_refusal env.writes)
      else grant env g.client_id g.door (spend key s)

  unfoldable pub refresh :
      Env → String → Option String → Option Door → Store → Store × Outcome GrantError Tokens
  refresh env refresh_token client_id resource s =
      let key = digest c refresh_token in
      elim (get key s.inner.persisted.refresh) [
        | none ↦ (s, refused unknown_refresh)
        | some g ↦ rotate env key g (check_refresh g client_id resource) s
      ]

  -- The client of a live access token, and the door that it opens.
  unfoldable pub authenticate : ℕ → String → Store → Option (String × Door)
  unfolding opens
  authenticate now access_token s = opens now (get (digest c access_token) s.inner.access)
