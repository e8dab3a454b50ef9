-- ===== src/Gate/Clients/Room.antt =====
-- What `register` does to the client table of crates/korg-gate/src/store.rs.
use korg.Base.{
  ℕ, ◌≤◌, ◌<◌, String, List, [], ◌∷◌, Option, none, some, Bool, true, false, not, ◌≡◌, ◌≢◌, refl,
  ◌↔◌, inl, inr, all, length, ltb, ◌==◌, eq_iff, arith, Map, get, insert, retain, is_some,
  Bool-cases, Option-cases, length-insert-le, all-retain, length-remove, get-insert, get-remove,
  get-retain, any_of_get, IsMap, IsMap, remove-IsMap,
}
use korg.Gate.State.{
  Client, RefreshGrant, Persisted, Store, Env, full, refused, after_save, inner-save,
}
use korg.Gate.Clients.{
  max_clients, held, oldest, victim, make_room, pruned, admit, live_refresh, register, find_client,
  client_count,
}

-- What `oldest` returns passes any test that all entries pass, and is listed.
oldest-holds :
    (p : String × Client → Bool) (m : Map Client) (e : String × Client)
    → all p m ≡ true
    → oldest m ≡ some e
    → p e ≡ true
unfolding oldest
oldest-holds p [] e a h = cc
oldest-holds p ((id, c) ∷ m) e a h = elim (Option-cases (oldest m)) [
  | inl alone ↦ ground arith
  | inr (least, eq) ↦ ground (arith, oldest-holds p m least (ground arith) eq)
]

oldest-listed :
    (m : Map Client) (id : String) (c : Client)
    → oldest m ≡ some (id, c)
    → is_some (get id m) ≡ true
unfolding oldest get
oldest-listed [] id c h = cc
oldest-listed ((i, d) ∷ m) id c h = elim (Option-cases (oldest m)) [
  | inl alone ↦ ground (arith, eq_iff i id)
  | inr ((j, d'), eq) ↦ ground (arith, eq_iff i id, oldest-listed m j d' eq)
]

oldest-none : (m : Map Client) → oldest m ≡ none → m ≡ []
unfolding oldest
oldest-none [] h = refl
oldest-none ((i, d) ∷ m) h = ground arith

retain-listed :
    (p : String × Client → Bool) (m : Map Client) (id : String)
    → is_some (get id (retain p m)) ≡ true
    → is_some (get id m) ≡ true
unfolding get retain
retain-listed p [] id h = h
retain-listed p ((j, d) ∷ m) id h = elim (Bool-cases (p (j, d))) [
  | inl kept ↦ ground (arith, retain-listed p m id)
  | inr gone ↦ ground (arith, retain-listed p m id)
]

victim-unheld :
    (p : Persisted) (id : String) (c : Client) → victim p ≡ some (id, c) → held p.refresh id ≡ false
unfolding victim
victim-unheld p id c h =
    let free : String × Client → Bool = λ e. not (held p.refresh e.0) in
    ground (arith, oldest-holds free (retain free p.clients) (id, c) (all-retain free p.clients) h)

victim-listed :
    (p : Persisted) (id : String) (c : Client)
    → victim p ≡ some (id, c)
    → is_some (get id p.clients) ≡ true
unfolding victim
victim-listed p id c h = retain-listed _ p.clients id (oldest-listed _ id c h)

-- `make_room` leaves at least one slot.
pub length-make_room :
    (p : Persisted) (m : Map Client)
    → length p.clients ≤ max_clients
    → make_room p ≡ some m
    → length m < max_clients
unfolding make_room
length-make_room p m b h = elim (Option-cases (victim p)) [
  | inl crowded ↦ ground arith
  | inr ((id, c), e) ↦ ground (arith, length-remove id p.clients (victim-listed p id c e))
]

-- It removes no client that a grant is held for.
make_room-get :
    (p : Persisted) (m : Map Client) (id : String)
    → IsMap p.clients
    → make_room p ≡ some m
    → held p.refresh id ≡ true
    → get id m ≡ get id p.clients
unfolding make_room
make_room-get p m id w h k = elim (Option-cases (victim p)) [
  | inl crowded ↦ ground arith
  | inr ((v, c), e) ↦
      ground (arith, get-remove v id p.clients w, victim-unheld p v c e, eq_iff v id)
]

pub make_room-IsMap :
    (p : Persisted) (m : Map Client) → IsMap p.clients → make_room p ≡ some m → IsMap m
unfolding make_room
make_room-IsMap p m w h = elim (Option-cases (victim p)) [
  | inl crowded ↦ ground arith
  | inr ((v, c), e) ↦ ground (arith, remove-IsMap v p.clients w)
]

retain-not-nil :
    {A : Type 0} (f : A → Bool) (m : List A) → all f m ≡ true → retain (λ e. not (f e)) m ≡ []
unfolding retain
retain-not-nil f [] h = refl
retain-not-nil f (e ∷ m) h = ground (arith, retain-not-nil f m)

all_of_retain-not :
    {A : Type 0} (f : A → Bool) (m : List A) → retain (λ e. not (f e)) m ≡ [] → all f m ≡ true
unfolding retain
all_of_retain-not f [] h = refl
all_of_retain-not f (e ∷ m) h = ground (arith, all_of_retain-not f m)

victim-none_iff :
    (p : Persisted) → (victim p ≡ none) ↔ (all (λ e. held p.refresh e.0) p.clients ≡ true)
unfolding victim
victim-none_iff p = (
  λ h. all_of_retain-not _ p.clients (oldest-none _ h),
  λ h. rw (retain-not-nil (λ e. held p.refresh e.0) p.clients h) (unfold oldest in refl),
)

make_room-none_iff :
    (p : Persisted)
    → (make_room p ≡ none)
      ↔ ((max_clients ≤ length p.clients) × (all (λ e. held p.refresh e.0) p.clients ≡ true))
unfolding make_room
make_room-none_iff p =
    let (to, from) = victim-none_iff p in
    (λ h. (ground arith, to (ground arith)), λ h. ground (arith, from h.1))

abbrev clients_after : Env → Client → Store → Option (Map Client) → Map Client
clients_after env client s none = s.inner.persisted.clients
clients_after env client s (some m) = insert env.first_token client m

clients-admit :
    (env : Env) (client : Client) (r : Option (Map Client)) (s : Store)
    → (admit env client r s).0.inner.persisted.clients ≡ clients_after env client s r
unfolding admit
clients-admit env client none s = refl
clients-admit env client (some m) s = rw inner-save

refresh-admit :
    (env : Env) (client : Client) (r : Option (Map Client)) (s : Store)
    → (admit env client r s).0.inner.persisted.refresh
      ≡ live_refresh env.unix s.inner.persisted.refresh
unfolding admit
refresh-admit env client none s = refl
refresh-admit env client (some m) s = rw inner-save

admit-full :
    (env : Env) (client : Client) (r : Option (Map Client)) (s : Store)
    → (admit env client r s).1 ≡ refused full
    → r ≡ none
unfolding admit after_save
admit-full env client none s h = refl
admit-full env client (some m) s h = ground arith

held-live_refresh :
    (unix : ℕ) (m : Map RefreshGrant) (key id : String) (g : RefreshGrant)
    → IsMap m
    → get key m ≡ some g
    → unix < g.expires_at
    → g.client_id ≡ id
    → held (live_refresh unix m) id ≡ true
unfolding held live_refresh
held-live_refresh unix m key id g w found live owner =
    any_of_get (λ h. h.client_id == id) key g _
      (rw (get-retain (λ h. ltb unix h.expires_at) key m w, found) (ground arith))
      ((eq_iff g.client_id id).1 owner)

-- The client table never passes its bound.
pub register-le-max_clients :
    (env : Env) (name : Option String) (uris : List String) (s : Store)
    → client_count s ≤ max_clients
    → client_count (register env name uris s).0 ≤ max_clients
unfolding register client_count
register-le-max_clients env name uris s h = elim (Option-cases (make_room (pruned env.unix s))) [
  | inl crowded ↦ rw (clients-admit, crowded) h
  | inr (m, e) ↦
      rw (clients-admit, e)
        (omega
          (arith, length-insert-le env.first_token _ m, length-make_room (pruned env.unix s) m h e))
]

-- No registration evicts a client that somebody holds a live refresh grant for.
pub register_spares_held :
    (env : Env) (name : Option String) (uris : List String) (s : Store) (key id : String)
    (g : RefreshGrant)
    → IsMap s.inner.persisted.clients
    → IsMap s.inner.persisted.refresh
    → get key s.inner.persisted.refresh ≡ some g
    → env.unix < g.expires_at
    → g.client_id ≡ id
    → env.first_token ≢ id
    → find_client (register env name uris s).0 id ≡ find_client s id
unfolding register find_client
register_spares_held env name uris s key id g wc wr found live owner new =
    elim (Option-cases (make_room (pruned env.unix s))) [
      | inl crowded ↦ rw (clients-admit, crowded)
      | inr (m, e) ↦
          rw (clients-admit, e)
            (rw get-insert (
              ground (
                arith,
                eq_iff env.first_token id,
                make_room-get (pruned env.unix s) m id wc e (
                    held-live_refresh env.unix s.inner.persisted.refresh key id g wr found live
                      owner),
              )))
    ]

-- A registration is refused exactly when every slot is held by a client with a live grant.
pub register-full_iff :
    (env : Env) (name : Option String) (uris : List String) (s : Store)
    → ((register env name uris s).1 ≡ refused full) ↔ (
        (max_clients ≤ client_count s)
        × (all
              (λ e. held (live_refresh env.unix s.inner.persisted.refresh) e.0)
              s.inner.persisted.clients
            ≡ true))
unfolding register client_count admit after_save
register-full_iff env name uris s =
    let (to, from) = make_room-none_iff (pruned env.unix s) in
    (λ h. to (admit-full env _ (make_room (pruned env.unix s)) s h), λ h. rw (from h))
