-- ===== src/Gate/Server/Kept.antt =====
-- What holds of the state of crates/korg-gate at all times, and that each operation of
-- crates/korg-gate/src/store.rs keeps it.
use korg.Base.{
  ℕ, ◌+◌, ◌-◌, ◌%◌, ◌^◌, ◌≤◌, remove, String, List, Option, none, some, Bool, true, false, ◌≡◌,
  refl, arith, inl, inr, length, insert, IsMap, insert-IsMap, retain-IsMap, AllValues,
  insert-AllValues, remove-AllValues, retain-AllValues, length-insert-le, Map, Option-cases, leb,
  Bool-cases, ltb,
}
use korg.Gate.Door
use korg.Gate.Door.{Door}
use korg.Gate.State.{
  Client, RefreshGrant, Persisted, Lockout, PendingCode, Store, Env, save, reopen,
}
use korg.Gate.Clients.{
  max_clients, victim, make_room, live_refresh, with_persisted, pruned, admit, register,
}
use korg.Gate.Clients.Room.{length-make_room, make_room-IsMap}
use korg.Gate.Lock.{free_failures, with_lockout, sign_in_failed}
use korg.Gate.Config.{claude_callback}
use korg.Gate.Oauth.Registration.{every_callback}

abbrev pub CallsBack : Client → Type 0
CallsBack client = every_callback client.redirect_uris ≡ true

abbrev pub OwnScope : RefreshGrant → Type 0
OwnScope g = g.scope ≡ Door.scope g.door

abbrev pub ToCallback : PendingCode → Type 0
ToCallback code = code.redirect_uri ≡ claude_callback

-- Of the persisted part: each key once, at most 64 clients, each of them with no redirect URI but
-- Claude's callback, and each refresh grant with the scope of its own door.
pub record Kept (p : Persisted) : Type 0 where
  pub clients_once : IsMap p.clients
  pub refresh_once : IsMap p.refresh
  pub room : length p.clients ≤ max_clients
  pub callbacks : AllValues CallsBack p.clients
  pub scopes : AllValues OwnScope p.refresh

-- Of the whole: the same of the state file, and pending codes that go to the callback alone.
pub record WellFormed (s : Store) : Type 0 where
  pub kept : Kept s.inner.persisted
  pub written : (p : Persisted) → s.disk ≡ some p → Kept p
  pub codes_once : IsMap s.inner.codes
  pub access_once : IsMap s.inner.access
  pub codes : AllValues ToCallback s.inner.codes

pub save-WellFormed : (writes : Bool) (s : Store) → WellFormed s → WellFormed (save writes s)
unfolding save
save-WellFormed true s w = record {
  kept = w.kept;
  written = λ p e. let same : s.inner.persisted ≡ p = ground arith in rw (← same) w.kept;
  codes_once = w.codes_once;
  access_once = w.access_once;
  codes = w.codes;
}
save-WellFormed false s w = w

pub with_persisted-WellFormed :
    (s : Store) (p : Persisted) → WellFormed s → Kept p → WellFormed (with_persisted s p)
with_persisted-WellFormed s p w k = record {
  kept = k;
  written = w.written;
  codes_once = w.codes_once;
  access_once = w.access_once;
  codes = w.codes;
}

pub reopen-WellFormed :
    (a b : ℕ) (o : Option Persisted)
    → ((p : Persisted) → o ≡ some p → Kept p)
    → WellFormed (reopen a b o)
unfolding reopen
reopen-WellFormed a b none k = record {
  kept = record {
    clients_once = tt;
    refresh_once = tt;
    room = omega arith;
    callbacks = tt;
    scopes = tt;
  };
  written = λ p e. cc;
  codes_once = tt;
  access_once = tt;
  codes = tt;
}
reopen-WellFormed a b (some p) k = record {
  kept = k p refl;
  written = k;
  codes_once = tt;
  access_once = tt;
  codes = tt;
}

pub pruned-Kept : (unix : ℕ) (s : Store) → Kept s.inner.persisted → Kept (pruned unix s)
unfolding live_refresh
pruned-Kept unix s k = record {
  clients_once = k.clients_once;
  refresh_once =
      retain-IsMap (λ e. ltb unix e.1.expires_at) s.inner.persisted.refresh k.refresh_once;
  room = k.room;
  callbacks = k.callbacks;
  scopes =
      retain-AllValues OwnScope (λ e. ltb unix e.1.expires_at) s.inner.persisted.refresh k.scopes;
}

make_room-CallsBack :
    (p : Persisted) (m : Map Client)
    → AllValues CallsBack p.clients
    → make_room p ≡ some m
    → AllValues CallsBack m
unfolding make_room
make_room-CallsBack p m a h = elim (Bool-cases (leb max_clients (length p.clients))) [
  | inl crowded ↦ elim (Option-cases (victim p)) [
    | inl held ↦ absurd (ground arith)
    | inr ((id, client), e) ↦
        let same : remove id p.clients ≡ m = ground arith in
        rw (← same) (remove-AllValues CallsBack id p.clients a)
  ]
  | inr free ↦ let same : p.clients ≡ m = ground arith in rw (← same) a
]

admit-WellFormed :
    (env : Env) (client : Client) (r : Option (Map Client)) (s : Store)
    → WellFormed s
    → CallsBack client
    → make_room (pruned env.unix s) ≡ r
    → WellFormed (admit env client r s).0
unfolding admit
admit-WellFormed env client none s w back e =
    with_persisted-WellFormed s (pruned env.unix s) w (pruned-Kept env.unix s w.kept)
admit-WellFormed env client (some m) s w back e =
    let k = pruned-Kept env.unix s w.kept in
    save-WellFormed env.writes _ (
      with_persisted-WellFormed s
        (record {
          clients = insert env.first_token client m;
          refresh = live_refresh env.unix s.inner.persisted.refresh;
        })
        w
        (record {
          clients_once =
              insert-IsMap env.first_token client m
                (make_room-IsMap (pruned env.unix s) m k.clients_once e);
          refresh_once = k.refresh_once;
          room = omega (
            arith,
            length-insert-le env.first_token client m,
            length-make_room (pruned env.unix s) m k.room e,
          );
          callbacks =
              insert-AllValues CallsBack env.first_token client m back
                (make_room-CallsBack (pruned env.unix s) m k.callbacks e);
          scopes = k.scopes;
        }))

pub register-WellFormed :
    (env : Env) (name : Option String) (uris : List String) (s : Store)
    → WellFormed s
    → every_callback uris ≡ true
    → WellFormed (register env name uris s).0
unfolding register
register-WellFormed env name uris s w back =
    admit-WellFormed env _ (make_room (pruned env.unix s)) s w back refl

pub lockout-WellFormed : (s : Store) (l : Lockout) → WellFormed s → WellFormed (with_lockout s l)
lockout-WellFormed s l w = record {
  kept = w.kept;
  written = w.written;
  codes_once = w.codes_once;
  access_once = w.access_once;
  codes = w.codes;
}

pub sign_in_failed-WellFormed :
    (now : ℕ) (s : Store) → WellFormed s → WellFormed (sign_in_failed now s).0
unfolding sign_in_failed
sign_in_failed-WellFormed now s w =
    let failures = (s.inner.lockout.failures + 1) % 2 ^ 32 in
    elim (Bool-cases (ltb 0 (failures - free_failures))) [
      | inl over ↦ rw (over) (lockout-WellFormed s _ w)
      | inr free ↦ rw (free) (lockout-WellFormed s _ w)
    ]
