-- ===== src/Gate/Headers.antt =====
-- The request headers that crates/korg-gate/src/proxy.rs reads: the bearer token, and the routing
-- headers of MCP 2026-07-28. A header's value is `none` where its bytes are no visible ASCII.
use Prim.Native.Char.{code}
use Prim.Native.String.{[], ◌∷◌}
use korg.Base.{
  ℕ, String, Option, none, some, Bool, ◌&&◌, ◌||◌, ◌==◌, Map, get, if◌then◌else◌, nat_eq, lower,
  eq_ignore_case,
}

abbrev pub Headers : Type 0
Headers = Map (Option String)

abbrev is_space : ℕ → Bool
is_space n = nat_eq n 32

-- The white space that a visible-ASCII header value can hold.
abbrev is_blank : ℕ → Bool
is_blank n = nat_eq n 32 || nat_eq n 9

-- `split_once(' ')`
split_space : String → Option (String × String)
split_space [] = none
split_space (c ∷ s) = elim (split_space s) [
  | none ↦ if is_space (code c) then some ("", s) else none
  | some (a, b) ↦ if is_space (code c) then some ("", s) else some (c ∷ a, b)
]

trim_start : String → String
trim_start [] = ""
trim_start (c ∷ s) = if is_blank (code c) then trim_start s else c ∷ s

trim_end : String → String
trim_end [] = ""
trim_end (c ∷ s) = let rest = trim_end s in if rest == "" && is_blank (code c) then "" else c ∷ rest

bearer_of_text : Option (String × String) → Option String
bearer_of_text none = none
bearer_of_text (some (scheme, token)) =
    if eq_ignore_case scheme "bearer" then some (trim_start (trim_end token)) else none

bearer_of : Option (Option String) → Option String
bearer_of none = none
bearer_of (some none) = none
bearer_of (some (some v)) = bearer_of_text (split_space v)

-- The token of an `Authorization` header with the scheme `bearer`, in any case.
unfoldable pub bearer_token : Headers → Option String
unfolding bearer_of bearer_of_text split_space lower eq_ignore_case trim_start trim_end
bearer_token headers = bearer_of (get "authorization" headers)
