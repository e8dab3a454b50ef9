-- ===== src/Gate/Server.antt =====
-- The gate as one state machine: the handlers of crates/korg-gate/src/oauth.rs that change the
-- store, and a restart from the state file. The proxied requests only read the store.
pub mod Kept
pub mod Tokens
pub mod Invariant
pub mod Forms
use korg.Base.{ℕ, String, none}
use korg.Gate.State.{Store, Env, Crypto, reopen}
use korg.Gate.Json.{Serde}
use korg.Gate.Config.{Config}
use korg.Gate.Oauth.{Params}
use korg.Gate.Oauth.Registration.{register}
use korg.Gate.Oauth.Calls.{Stage, arrived, advance}
use korg.Gate.Oauth.TokenEndpoint.{token}

module _ (c : Crypto) (config : Config) where
  -- The stages that a form can come to, whatever the stores are that its calls find.
  pub data Underway (form : Params) : Stage → Type 0 where
    submitted : Underway form arrived
    called :
        {stage : Stage}
        → Underway form stage
        → (env : Env) (s : Store) → Underway form (advance c config form env stage s).1

module _ (c : Crypto) (serde : Serde) (config : Config) where
  -- A form takes a step for each of its calls of the store, with any steps of others in between;
  -- the other handlers call the store once.
  pub data Step : Store → Store → Type 0 where
    registration : (env : Env) (body : String) (s : Store) → Step s (register serde env body s).0
    form_call :
        (env : Env) (form : Params) (stage : Stage) (s : Store)
        → Underway c config form stage
        → Step s (advance c config form env stage s).0
    token_request : (env : Env) (form : Params) (s : Store) → Step s (token c env config form s).0
    restart :
        (access_ttl refresh_ttl : ℕ) (s : Store) → Step s (reopen access_ttl refresh_ttl s.disk)

  -- The states that a gate started without a state file can come to.
  pub data Reachable : Store → Type 0 where
    start : (access_ttl refresh_ttl : ℕ) → Reachable (reopen access_ttl refresh_ttl none)
    then_step : {s s' : Store} → Reachable s → Step s s' → Reachable s'
