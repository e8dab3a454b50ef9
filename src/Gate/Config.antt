-- ===== src/Gate/Config.antt =====
-- crates/korg-gate/src/config.rs: the gate's settings and what follows from them. The public URL
-- is kept as its text beside the parts that the crate `url` reads off it.
use Prim.Native.String.{◌++◌, count}
use korg.Base.{
  ℕ, String, List, Option, none, some, Bool, false, not, ◌&&◌, ◌||◌, ◌==◌, ltb, find, if◌then◌else◌,
  retain, is_some,
}
use korg.Gate.Door
use korg.Gate.Door.{Door, korg_door, klams_door, all_doors}

abbrev pub claude_callback : String
claude_callback = "https://claude.ai/api/mcp/auth_callback"

abbrev pub agent_header : String
agent_header = "x-homelab-agent"

abbrev pub agent_name : String
agent_name = "claude-duet"

-- A parsed `Url`.
pub record Url : Type 0 where
  pub text : String
  pub scheme : String
  pub host : Option String
  pub path : String
  pub query : Option String
  pub fragment : Option String
  pub origin : String

pub record Config : Type 0 where
  pub public_url : Url
  pub upstream : Url
  pub klams_upstream : Option Url
  pub passphrase : String
  pub client_ip_header : String
  pub access_ttl : ℕ
  pub refresh_ttl : ℕ

pub data ConfigError : Type 0 where
  not_https not_mcp has_query_or_fragment short_passphrase : ConfigError

abbrev is_local : Option String → Bool
is_local none = false
is_local (some h) = h == "localhost" || h == "127.0.0.1" || h == "[::1]"

-- `none` where the settings are accepted.
unfoldable pub validate : Config → Option ConfigError
validate c =
    if not (c.public_url.scheme == "https") && not (is_local c.public_url.host)
    then some not_https
    else if not (c.public_url.path == "/mcp")
    then some not_mcp
    else if is_some c.public_url.query || is_some c.public_url.fragment
    then some has_query_or_fragment
    else if ltb (count c.passphrase) 20
    then some short_passphrase
    else none

unfoldable pub issuer : Config → String
issuer c = c.public_url.origin

unfoldable pub endpoint : Config → String → String
unfolding issuer
endpoint c path = issuer c ++ path

-- The connector URL, byte for byte.
unfoldable pub resource : Config → String
resource c = c.public_url.text

unfoldable pub resource_for : Config → Door → String
unfolding resource endpoint
resource_for c korg_door = resource c
resource_for c klams_door = endpoint c (Door.path klams_door)

-- The upstream that a door proxies to, if the door is open.
unfoldable pub upstream_for : Config → Door → Option Url
upstream_for c korg_door = some c.upstream
upstream_for c klams_door = c.klams_upstream

-- The doors that this gate serves, korg first.
unfoldable pub doors : Config → List Door
unfolding upstream_for
doors c = retain (λ d. is_some (upstream_for c d)) all_doors

-- The open door whose resource is exactly `res`.
unfoldable pub door_for_resource : Config → String → Option Door
unfolding resource_for doors
door_for_resource c res = find (λ d. resource_for c d == res) (doors c)
