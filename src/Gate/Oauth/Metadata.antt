-- ===== src/Gate/Oauth/Metadata.antt =====
-- The discovery documents of crates/korg-gate/src/oauth.rs.
use korg.Base.{String, List, [], ◌∷◌}
use korg.Gate.Door
use korg.Gate.Door.{Door, korg_door}
use korg.Gate.Config
use korg.Gate.Config.{Config, endpoint, resource_for}

pub record ProtectedResource : Type 0 where
  pub resource : String
  pub authorization_servers : List String
  pub bearer_methods_supported : List String
  pub scopes_supported : List String
  pub resource_name : String

unfoldable pub protected_resource : Config → Door → ProtectedResource
protected_resource config door = record {
  resource = resource_for config door;
  authorization_servers = Config.issuer config ∷ [];
  bearer_methods_supported = "header" ∷ [];
  scopes_supported = Door.scope door ∷ [];
  resource_name = Door.resource_name door;
}

pub record ServerMetadata : Type 0 where
  pub issuer : String
  pub authorization_endpoint : String
  pub token_endpoint : String
  pub registration_endpoint : String
  pub response_types_supported : List String
  pub grant_types_supported : List String
  pub code_challenge_methods_supported : List String
  pub token_endpoint_auth_methods_supported : List String
  pub scopes_supported : List String

unfoldable pub server_metadata : Config → ServerMetadata
server_metadata config = record {
  issuer = Config.issuer config;
  authorization_endpoint = endpoint config "/authorize";
  token_endpoint = endpoint config "/token";
  registration_endpoint = endpoint config "/register";
  response_types_supported = "code" ∷ [];
  grant_types_supported = "authorization_code" ∷ "refresh_token" ∷ [];
  code_challenge_methods_supported = "S256" ∷ [];
  token_endpoint_auth_methods_supported = "none" ∷ [];
  scopes_supported = Door.scope korg_door ∷ "offline_access" ∷ [];
}
