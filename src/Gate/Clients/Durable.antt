-- ===== src/Gate/Clients/Durable.antt =====
-- A client that was registered survives a restart of crates/korg-gate.
use korg.Base.{
  ℕ, String, List, Option, none, some, ◌≡◌, ap, eq_iff, eq_iff, ap, arith, Map, get-insert,
}
use korg.Gate.State.{Client, Store, Env, done, save, after_save, reopen}
use korg.Gate.Clients.{make_room, pruned, admit, register, find_client}

admit-durable :
    (env : Env) (client c : Client) (id : String) (r : Option (Map Client)) (s : Store) (a b : ℕ)
    → (admit env client r s).1 ≡ done (id, c)
    → (find_client (reopen a b (admit env client r s).0.disk) id ≡ some c) × (c ≡ client)
unfolding admit find_client reopen save after_save
admit-durable env client c id none s a b h = cc
admit-durable env client c id (some m) s a b h =
    ground (arith, get-insert env.first_token id client m, eq_iff env.first_token id)

-- A registration that is answered with an id has that client in the state file, with the
-- redirect URIs of the request: a gate that starts from the file finds it.
pub register_survives_restart :
    (env : Env) (name : Option String) (uris : List String) (s : Store) (id : String) (c : Client)
    (access_ttl refresh_ttl : ℕ)
    → (register env name uris s).1 ≡ done (id, c)
    → (find_client (reopen access_ttl refresh_ttl (register env name uris s).0.disk) id ≡ some c)
      × (c.redirect_uris ≡ uris)
      × (c.client_name ≡ name)
unfolding register
register_survives_restart env name uris s id c a b h =
    let (found, same) = admit-durable env _ c id (make_room (pruned env.unix s)) s a b h in
    (found, ap (λ (k : Client). k.redirect_uris) same, ap (λ (k : Client). k.client_name) same)
