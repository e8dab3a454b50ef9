-- ===== src/Gate/Server/Tokens.antt =====
-- That the operations on codes and tokens of crates/korg-gate/src/store.rs keep the state well
-- formed.
use korg.Base.{
  String, Option, none, some, ◌≡◌, refl, inl, inr, get, insert-IsMap, remove-IsMap, retain-IsMap,
  insert-AllValues, remove-AllValues, retain-AllValues, Option-cases, leb, Bool-cases, ltb,
}
use korg.Gate.Door.{Door}
use korg.Gate.State.{RefreshGrant, Store, Env, Crypto, GrantError, digest}
use korg.Gate.Grants.{
  issue_code, mint, grant, settle, check_code, exchange_code, check_refresh, spend, rotate, refresh,
}
use korg.Gate.Config.{claude_callback}
use korg.Gate.Server.Kept.{
  OwnScope, ToCallback, WellFormed, save-WellFormed, with_persisted-WellFormed, pruned-Kept,
}

module _ (c : Crypto) (env : Env) where
  pub issue_code-WellFormed :
      (client uri challenge : String) (door : Door) (s : Store)
      → WellFormed s
      → uri ≡ claude_callback
      → WellFormed (issue_code c env client uri challenge door s).0
  unfolding issue_code
  issue_code-WellFormed client uri challenge door s w back = record {
    kept = w.kept;
    written = w.written;
    codes_once =
        insert-IsMap (digest c env.first_token) _ _
          (retain-IsMap (λ e. ltb env.instant e.1.expires) s.inner.codes w.codes_once);
    access_once = w.access_once;
    codes =
        insert-AllValues ToCallback (digest c env.first_token) _ _ back
          (retain-AllValues ToCallback (λ e. ltb env.instant e.1.expires) s.inner.codes w.codes);
  }

  mint-WellFormed :
      (client : String) (door : Door) (s : Store)
      → WellFormed s
      → WellFormed (mint c env client door s)
  unfolding mint
  mint-WellFormed client door s w = record {
    kept =
        let k = pruned-Kept env.unix s w.kept in
        record {
          clients_once = k.clients_once;
          refresh_once = insert-IsMap (digest c env.second_token) _ _ k.refresh_once;
          room = k.room;
          callbacks = k.callbacks;
          scopes = insert-AllValues OwnScope (digest c env.second_token) _ _ refl k.scopes;
        };
    written = w.written;
    codes_once = w.codes_once;
    access_once =
        insert-IsMap (digest c env.first_token) _ _
          (retain-IsMap (λ e. ltb env.instant e.1.expires) s.inner.access w.access_once);
    codes = w.codes;
  }

  grant-WellFormed :
      (client : String) (door : Door) (s : Store)
      → WellFormed s
      → WellFormed (grant c env client door s).0
  unfolding grant
  grant-WellFormed client door s w =
      save-WellFormed env.writes (mint c env client door s) (mint-WellFormed client door s w)

  settle-WellFormed :
      (client : String) (door : Door) (r : Option GrantError) (s : Store)
      → WellFormed s
      → WellFormed (settle c env client door r s).0
  unfolding settle
  settle-WellFormed client door none s w = grant-WellFormed client door s w
  settle-WellFormed client door (some why) s w = w

  pub exchange_code-WellFormed :
      (code client uri verifier : String) (resource : Option Door) (s : Store)
      → WellFormed s
      → WellFormed (exchange_code c env code client uri verifier resource s).0
  unfolding exchange_code
  exchange_code-WellFormed code client uri verifier resource s w =
      elim (Option-cases (get (digest c code) s.inner.codes)) [
        | inl absent ↦ rw (absent, exchange_code) w
        | inr (p, found) ↦
            rw (found, exchange_code)
              (settle-WellFormed client p.door (check_code c env p client uri verifier resource) _
                (record {
                  kept = w.kept;
                  written = w.written;
                  codes_once = remove-IsMap (digest c code) s.inner.codes w.codes_once;
                  access_once = w.access_once;
                  codes = remove-AllValues ToCallback (digest c code) s.inner.codes w.codes;
                }))
      ]

  spend-WellFormed : (key : String) (s : Store) → WellFormed s → WellFormed (spend c key s)
  spend-WellFormed key s w = with_persisted-WellFormed s _ w (record {
    clients_once = w.kept.clients_once;
    refresh_once = remove-IsMap key s.inner.persisted.refresh w.kept.refresh_once;
    room = w.kept.room;
    callbacks = w.kept.callbacks;
    scopes = remove-AllValues OwnScope key s.inner.persisted.refresh w.kept.scopes;
  })

  rotate-WellFormed :
      (key : String) (g : RefreshGrant) (r : Option GrantError) (s : Store)
      → WellFormed s
      → WellFormed (rotate c env key g r s).0
  unfolding rotate
  rotate-WellFormed key g (some why) s w = w
  rotate-WellFormed key g none s w = elim (Bool-cases (leb g.expires_at env.unix)) [
    | inl dead ↦
        rw (dead, rotate) (save-WellFormed env.writes (spend c key s) (spend-WellFormed key s w))
    | inr live ↦
        rw (live, rotate)
          (grant-WellFormed g.client_id g.door (spend c key s) (spend-WellFormed key s w))
  ]

  pub refresh-WellFormed :
      (refresh_token : String) (client : Option String) (resource : Option Door) (s : Store)
      → WellFormed s
      → WellFormed (refresh c env refresh_token client resource s).0
  unfolding refresh
  refresh-WellFormed refresh_token client resource s w =
      elim (Option-cases (get (digest c refresh_token) s.inner.persisted.refresh)) [
        | inl absent ↦ rw (absent, refresh) w
        | inr (g, found) ↦
            rw (found, refresh)
              (rotate-WellFormed (digest c refresh_token) g (check_refresh c g client resource) s w)
      ]
