-- ===== src/Gate/Oauth/Validated.antt =====
-- What `validate_auth` of crates/korg-gate/src/oauth.rs has established of a request that it accepts,
-- and where it sends one that it refuses.
use korg.Base.{
  String, Option, none, some, true, ◌==◌, ◌≡◌, refl, ap, sym, inl, inr, ◌⊎◌, arith, contains, find,
  find-holds, find-retain, unwrap_or, is_some, eq_iff, Bool-cases, split_whitespace,
}
use korg.Gate.Door
use korg.Gate.Door.{Door, korg_door, all_doors}
use korg.Gate.State.{Client, Store}
use korg.Gate.Clients.{find_client}
use korg.Gate.Config.{Config, claude_callback, resource_for, upstream_for, doors, door_for_resource}
use korg.Gate.Oauth.{Params, param, AuthRequest}
use korg.Gate.Oauth.Authorize.{
  valid, is_exactly, door_by_scope, target_door, with_door, with_challenge, with_uri, with_redirect,
  with_client, with_client_id, validate_auth,
}

is_exactly-some : (o : Option String) (t : String) → is_exactly o t ≡ true → o ≡ some t
unfolding is_exactly
is_exactly-some none t h = cc
is_exactly-some (some s) t h = ap some ((eq_iff s t).0 h)

-- The door that serves a resource is open, and the resource is its own.
pub door_for_resource-open :
    (config : Config) (res : String) (door : Door)
    → door_for_resource config res ≡ some door
    → (is_some (upstream_for config door) ≡ true) × (resource_for config door ≡ res)
unfolding door_for_resource doors
door_for_resource-open config res door h = (
  find-retain (λ d. is_some (upstream_for config d)) (λ d. resource_for config d == res) all_doors
      door h,
  (eq_iff _ _).0 (find-holds (λ d. resource_for config d == res) (doors config) door h),
)

unwrap_find-open :
    (config : Config) (o : Option Door)
    → ((d : Door) → o ≡ some d → is_some (upstream_for config d) ≡ true)
    → is_some (upstream_for config (unwrap_or o korg_door)) ≡ true
unfolding upstream_for
unwrap_find-open config none h = refl
unwrap_find-open config (some d) h = h d refl

door_by_scope-open :
    (config : Config) (scope : Option String)
    → is_some (upstream_for config (door_by_scope config scope)) ≡ true
unfolding door_by_scope doors upstream_for
door_by_scope-open config scope =
    let asked = split_whitespace (unwrap_or scope "") in
    elim (Bool-cases (contains asked (Door.scope korg_door))) [
      | inl own ↦ rw (own, door_by_scope) refl
      | inr other ↦
          rw (other, door_by_scope)
            (unwrap_find-open config (find (λ d. contains asked (Door.scope d)) (doors config)) (
              find-retain (λ d. is_some (upstream_for config d))
                (λ d. contains asked (Door.scope d)) all_doors))
    ]

-- What an accepted request has shown.
pub record Trusted (config : Config) (p : Params) (s : Store) (r : AuthRequest) : Type 0 where
  pub client : Client
  pub known : find_client s r.client_id ≡ some client
  pub callback : r.redirect_uri ≡ claude_callback
  pub own_uri : contains client.redirect_uris r.redirect_uri ≡ true
  pub response_type : param p "response_type" ≡ some "code"
  pub challenge : param p "code_challenge" ≡ some r.code_challenge
  pub method : param p "code_challenge_method" ≡ some "S256"
  pub state : r.state ≡ param p "state"
  pub open_door : is_some (upstream_for config r.door) ≡ true
  pub no_other_resource :
      (param p "resource" ≡ none) ⊎ (param p "resource" ≡ some (resource_for config r.door))

module _ (config : Config) (p : Params) (s : Store) where
  target_door-open :
      (o : Option String) (door : Door)
      → target_door config p o ≡ some door
      → (is_some (upstream_for config door) ≡ true)
        × ((o ≡ none) ⊎ (o ≡ some (resource_for config door)))
  unfolding target_door
  target_door-open none door h =
      let same : door_by_scope config (param p "scope") ≡ door = ground arith in
      (rw (← same) (door_by_scope-open config (param p "scope")), inl refl)
  target_door-open (some res) door h =
      let (open', same) = door_for_resource-open config res door h in
      (open', inr (ap some (sym same)))

  module _ (id : String) (client : Client) (uri : String) (r : AuthRequest)
      (known : find_client s id ≡ some client) where
    with_door-Trusted :
        (challenge : String) (o : Option Door)
        → uri ≡ claude_callback
        → contains client.redirect_uris uri ≡ true
        → param p "response_type" ≡ some "code"
        → param p "code_challenge" ≡ some challenge
        → param p "code_challenge_method" ≡ some "S256"
        → target_door config p (param p "resource") ≡ o
        → with_door config p id client uri challenge o ≡ valid r
        → Trusted config p s r
    unfolding with_door
    with_door-Trusted challenge none u own t ch m e h = cc
    with_door-Trusted challenge (some door) u own t ch m e h =
        let (open', res) = target_door-open (param p "resource") door e in
        let made : AuthRequest = record {
          client_id = id;
          client_name = client.client_name;
          redirect_uri = uri;
          code_challenge = challenge;
          state = param p "state";
          door = door;
          resource = resource_for config door;
        } in
        let same : made ≡ r = ground arith in
        rw (← same) (record {
          client = client;
          known = known;
          callback = u;
          own_uri = own;
          response_type = t;
          challenge = ch;
          method = m;
          state = refl;
          open_door = open';
          no_other_resource = res;
        })

    with_challenge-Trusted :
        (o : Option String)
        → uri ≡ claude_callback
        → contains client.redirect_uris uri ≡ true
        → param p "response_type" ≡ some "code"
        → param p "code_challenge" ≡ o
        → with_challenge config p id client uri o ≡ valid r
        → Trusted config p s r
    unfolding with_challenge
    with_challenge-Trusted none u own t e h = cc
    with_challenge-Trusted (some challenge) u own t e h =
        with_door-Trusted challenge (target_door config p (param p "resource")) u own t e
          (is_exactly-some (param p "code_challenge_method") "S256" (ground arith)) refl
          (ground arith)

    with_uri-Trusted : with_uri config p id client uri ≡ valid r → Trusted config p s r
    unfolding with_uri
    with_uri-Trusted h =
        with_challenge-Trusted (param p "code_challenge")
          ((eq_iff uri claude_callback).0 (ground arith)) (ground arith)
          (is_exactly-some (param p "response_type") "code" (ground arith)) refl (ground arith)

  with_redirect-Trusted :
      (id : String) (client : Client) (o : Option String) (r : AuthRequest)
      → find_client s id ≡ some client
      → with_redirect config p id client o ≡ valid r
      → Trusted config p s r
  unfolding with_redirect
  with_redirect-Trusted id client none r known h = cc
  with_redirect-Trusted id client (some uri) r known h = with_uri-Trusted id client uri r known h

  with_client-Trusted :
      (id : String) (o : Option Client) (r : AuthRequest)
      → find_client s id ≡ o
      → with_client config p id o ≡ valid r
      → Trusted config p s r
  unfolding with_client
  with_client-Trusted id none r e h = cc
  with_client-Trusted id (some client) r e h =
      with_redirect-Trusted id client (param p "redirect_uri") r e h

  with_client_id-Trusted :
      (o : Option String) (r : AuthRequest)
      → with_client_id config p s o ≡ valid r
      → Trusted config p s r
  unfolding with_client_id
  with_client_id-Trusted none r h = cc
  with_client_id-Trusted (some id) r h = with_client-Trusted id (find_client s id) r refl h

  -- An accepted request names a registered client with the redirect URI that it registered, which
  -- is Claude's callback, asks for a code with an S256 challenge, and is for an open door, the one
  -- whose resource it names if it names one.
  pub validate_auth-Trusted :
      (r : AuthRequest) → validate_auth config p s ≡ valid r → Trusted config p s r
  unfolding validate_auth
  validate_auth-Trusted r h = with_client_id-Trusted (param p "client_id") r h
