-- ===== src/Gate/Server/Forms.antt =====
-- A whole form of crates/korg-gate/src/oauth.rs among the steps of the gate.
use korg.Base.{ℕ, zero, suc, ap, subst}
use korg.Gate.State.{Store, Env, Crypto}
use korg.Gate.Json.{Serde}
use korg.Gate.Config.{Config}
use korg.Gate.Oauth.{Params}
use korg.Gate.Oauth.Authorize.{authorize_submit}
use korg.Gate.Oauth.Calls.{Stage, arrived, advance}
use korg.Gate.Oauth.Calls.Alone.{alone, authorize_submit-alone}
use korg.Gate.Server.{Underway, submitted, called, form_call, Reachable, then_step}

module _ (c : Crypto) (serde : Serde) (config : Config) (env : Env) (form : Params) where
  alone-Reachable :
      (n : ℕ) (stage : Stage) (s : Store)
      → Reachable c serde config s
      → Underway c config form stage
      → Reachable c serde config (alone c config env form n (s, stage)).0
  unfolding alone
  alone-Reachable zero stage s r u = r
  alone-Reachable (suc n) stage s r u =
      alone-Reachable n (advance c config form env stage s).1 (advance c config form env stage s).0
        (then_step r (form_call env form stage s u)) (called u env s)

  -- What the form as a whole leaves is reachable: it is one of the ways its calls can run.
  pub authorize_submit-Reachable :
      (s : Store)
      → Reachable c serde config s
      → Reachable c serde config (authorize_submit c config env form s).0
  authorize_submit-Reachable s r =
      subst (Reachable c serde config)
        (ap (λ (p : Store × Stage). p.0) (authorize_submit-alone c config env form s))
        (alone-Reachable 4 arrived s r submitted)
