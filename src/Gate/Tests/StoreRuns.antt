-- ===== src/Gate/Tests/StoreRuns.antt =====
-- Runs of crates/korg-gate/src/store.rs.
use korg.Base.{
  ◌+◌, ◌*◌, ◌-◌, ◌^◌, ◌≤◌, min, [], ◌∷◌, none, some, true, ◌≡◌, ◌≢◌, refl, ◌↔◌, arith, all, get,
  remove, ltb, if◌then◌else◌,
}
use korg.Gate.Door.{korg_door, klams_door}
use korg.Gate.State.{
  Client, done, refused, unknown_code, wrong_resource, unknown_refresh, full, open_gate, locked,
  digest, after_save, pkce_s256, reopen, seconds,
}
use korg.Gate.Clients.{
  admit, make_room, max_clients, client_count, find_client, held, live_refresh, register,
}
use korg.Gate.Clients.Room.{register-le-max_clients, register_spares_held, register-full_iff}
use korg.Gate.Clients.Durable.{register_survives_restart}
use korg.Gate.Lock.{delay, check_lockout}
use korg.Gate.Lock.Growth.{delay_growth, fail_all, lockout_after}
use korg.Gate.Grants.{
  minted, exchange_code, refresh, authenticate, settle, check_code, names_other_door,
  names_other_client, grant, rotate, check_refresh,
}
use korg.Gate.Grants.Codes.{
  Redeems, exchange_code_once, exchange_code_iff, exchange_code-authenticate,
}
use korg.Gate.Grants.Rotation.{
  refresh_refused_spends_nothing, refresh_kills_old, refresh_keeps_door,
}
use korg.Gate.Config.{claude_callback}
use korg.Gate.Tests.Samples.{crypto, env, later, code_one, grant_one, store}

exchange_code_once_example :
    (exchange_code crypto later "x" "c" claude_callback "ax" none
      (exchange_code crypto env "x" "c" claude_callback "wrong" none store).0).1
    ≡ refused unknown_code
exchange_code_once_example =
    exchange_code_once crypto env later "x" "c" "c" claude_callback claude_callback "wrong" "ax"
      none none store (tt, tt)

found : get (digest crypto "x") store.inner.codes ≡ some code_one
unfolding digest get
found = refl

exchange_code_iff_example :
    ((exchange_code crypto env "x" "c" claude_callback "ax" (some klams_door) store).1
      ≡ done (minted crypto env klams_door store))
    ↔ (Redeems crypto env code_one "c" claude_callback "ax" (some klams_door) × (env.writes ≡ true))
exchange_code_iff_example =
    exchange_code_iff crypto env "x" "c" claude_callback "ax" (some klams_door) store code_one found

-- This exchange succeeds.
exchanged :
    (exchange_code crypto env "x" "c" claude_callback "ax" (some klams_door) store).1
    ≡ done (minted crypto env klams_door store)
unfolding exchange_code get digest settle check_code pkce_s256 names_other_door grant after_save
    remove minted
exchanged = refl

exchange_code-authenticate_example :
    authenticate crypto 50 "t1"
      (exchange_code crypto env "x" "c" claude_callback "ax" (some klams_door) store).0
    ≡ (if ltb 50 (10 + seconds 3600) then some ("c", klams_door) else none)
unfolding minted
exchange_code-authenticate_example =
    exchange_code-authenticate crypto env "x" "c" claude_callback "ax" (some klams_door) store
      code_one (minted crypto env klams_door store) 50 found exchanged

held_grant : get (digest crypto "y") store.inner.persisted.refresh ≡ some grant_one
unfolding digest get
held_grant = refl

refreshed :
    (refresh crypto env "y" (some "c") none store).1 ≡ done (minted crypto env klams_door store)
unfolding refresh get digest minted rotate check_refresh names_other_client names_other_door grant
    after_save
refreshed = refl

new_digest : digest crypto "t2" ≢ digest crypto "y"
unfolding digest
new_digest = λ e. cc

refresh_kills_old_example :
    (refresh crypto later "y" (some "c") none (refresh crypto env "y" (some "c") none store).0).1
    ≡ refused unknown_refresh
refresh_kills_old_example =
    refresh_kills_old crypto env "y" (some "c") none store grant_one
      (minted crypto env klams_door store) held_grant refreshed later (some "c") none (tt, tt)
      new_digest

refresh_keeps_door_example :
    (authenticate crypto 50 "t1" (refresh crypto env "y" (some "c") none store).0
      ≡ (if ltb 50 (10 + seconds 3600) then some ("c", klams_door) else none))
    × ((refresh crypto later "t2"
          (some "c")
          (some klams_door)
          (reopen 60 600 (refresh crypto env "y" (some "c") none store).0.disk)).1
        ≡ done (minted crypto later klams_door (reopen 60 600 none)))
unfolding minted
refresh_keeps_door_example =
    refresh_keeps_door crypto env "y" (some "c") none store grant_one
      (minted crypto env klams_door store) held_grant refreshed later 50 60 600 (omega arith) refl

wrong_door : (refresh crypto env "y" (some "c") (some korg_door) store).1 ≡ refused wrong_resource
unfolding refresh get digest rotate check_refresh names_other_client names_other_door
wrong_door = refl

refresh_refused_spends_nothing_example :
    (refresh crypto env "y" (some "c") (some korg_door) store).0 ≡ store
refresh_refused_spends_nothing_example =
    refresh_refused_spends_nothing crypto env "y" (some "c") (some korg_door) store wrong_resource
      (λ e. cc) wrong_door

few : client_count store ≤ max_clients
unfolding client_count
few = omega arith

register-le-max_clients_example :
    client_count (register env (some "Claude") (claude_callback ∷ []) store).0 ≤ max_clients
register-le-max_clients_example =
    register-le-max_clients env (some "Claude") (claude_callback ∷ []) store few

register_spares_held_example :
    find_client (register env (some "Claude") (claude_callback ∷ []) store).0 "c"
    ≡ find_client store "c"
register_spares_held_example =
    register_spares_held env (some "Claude") (claude_callback ∷ []) store "79" "c" grant_one
      (tt, tt) (tt, tt) (unfold get in refl) (omega arith) refl (λ e. cc)

register-full_iff_example : ((register env none (claude_callback ∷ []) store).1 ≡ refused full) ↔ (
    (max_clients ≤ client_count store)
    × (all
          (λ e. held (live_refresh 10 store.inner.persisted.refresh) e.0)
          store.inner.persisted.clients
        ≡ true))
register-full_iff_example = register-full_iff env none (claude_callback ∷ []) store

newcomer : Client
newcomer = record {
  client_name = some "Claude";
  redirect_uris = claude_callback ∷ [];
  issued_at = 10;
}

admitted : (register env (some "Claude") (claude_callback ∷ []) store).1 ≡ done ("t1", newcomer)
unfolding register newcomer admit make_room after_save
admitted = refl

register_survives_restart_example :
    (find_client
        (reopen 60 600 (register env (some "Claude") (claude_callback ∷ []) store).0.disk)
        "t1"
      ≡ some newcomer)
    × (newcomer.redirect_uris ≡ claude_callback ∷ [])
    × (newcomer.client_name ≡ some "Claude")
register_survives_restart_example =
    register_survives_restart env (some "Claude") (claude_callback ∷ []) store "t1" newcomer 60 600
      admitted

delay_growth_example :
    (delay 3 ≡ min (seconds 30 * 2 ^ (3 - 1)) (seconds 3600))
    × (delay (3 + 1) ≡ min (2 * delay 3) (seconds 3600))
    × (delay 1 ≡ seconds 30)
delay_growth_example = delay_growth 3 (omega arith)

lockout_after_example :
    check_lockout 8 (fail_all (7 ∷ 6 ∷ 5 ∷ 4 ∷ 3 ∷ 2 ∷ []) store)
    ≡ (if ltb 8 (7 + delay 1) then locked (7 + delay 1 - 8) else open_gate)
lockout_after_example = lockout_after 7 8 (6 ∷ 5 ∷ 4 ∷ 3 ∷ 2 ∷ []) store refl (omega arith)
