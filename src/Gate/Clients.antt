-- ===== src/Gate/Clients.antt =====
-- Dynamic client registration in crates/korg-gate/src/store.rs: `register`, `client`,
-- `client_count`.
pub mod Room
pub mod Durable
use korg.Base.{
  ℕ, String, List, [], ◌∷◌, Option, none, some, Bool, not, any, length, ltb, leb, if◌then◌else◌,
  ◌==◌, Map, get, insert, remove, retain, retain_values,
}
use korg.Gate.State.{
  Client, RefreshGrant, Persisted, Store, Env, RegisterError, full, Outcome, refused, save,
  after_save,
}

abbrev pub max_clients : ℕ
max_clients = 64

-- Whether some refresh grant is held for the client.
unfoldable pub held : Map RefreshGrant → String → Bool
held refresh id = any (λ e. e.1.client_id == id) refresh

-- `Iterator::min_by_key` on the time of issue: the first of the least.
unfoldable pub oldest : Map Client → Option (String × Client)
oldest [] = none
oldest ((id, c) ∷ rest) = elim (oldest rest) [
  | none ↦ some (id, c)
  | some (id', c') ↦ if leb c.issued_at c'.issued_at then some (id, c) else some (id', c')
]

-- The oldest client that nobody holds a grant for.
unfoldable pub victim : Persisted → Option (String × Client)
victim p = oldest (retain (λ e. not (held p.refresh e.0)) p.clients)

-- The client table with room for one more, or `none` where every slot is held.
unfoldable pub make_room : Persisted → Option (Map Client)
make_room p =
    if leb max_clients (length p.clients)
    then elim (victim p) [ none ↦ none | some (id, _) ↦ some (remove id p.clients) ]
    else some p.clients

unfoldable pub live_refresh : ℕ → Map RefreshGrant → Map RefreshGrant
live_refresh unix = retain_values (λ g. ltb unix g.expires_at)

abbrev pub with_persisted : Store → Persisted → Store
with_persisted s p = record s { inner = record s.inner { persisted = p } }

-- The state with the refresh grants that have run out dropped.
abbrev pub pruned : ℕ → Store → Persisted
pruned unix s = record {
  clients = s.inner.persisted.clients;
  refresh = live_refresh unix s.inner.persisted.refresh;
}

-- The rest of `register`, once `make_room` has looked for a slot.
unfoldable pub admit :
    Env → Client → Option (Map Client) → Store → Store × Outcome RegisterError (String × Client)
admit env client none s = (with_persisted s (pruned env.unix s), refused full)
admit env client (some clients) s =
    let p : Persisted = record {
      clients = insert env.first_token client clients;
      refresh = live_refresh env.unix s.inner.persisted.refresh;
    } in
    (save env.writes (with_persisted s p), after_save env.writes (env.first_token, client))

unfoldable pub register :
    Env → Option String → List String → Store → Store × Outcome RegisterError (String × Client)
register env client_name redirect_uris s =
    let client : Client = record {
      client_name = client_name;
      redirect_uris = redirect_uris;
      issued_at = env.unix;
    } in
    admit env client (make_room (pruned env.unix s)) s

unfoldable pub find_client : Store → String → Option Client
find_client s client_id = get client_id s.inner.persisted.clients

unfoldable pub client_count : Store → ℕ
client_count s = length s.inner.persisted.clients
