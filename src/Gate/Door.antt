-- ===== src/Gate/Door.antt =====
-- crates/korg-gate/src/door.rs: one upstream each, with its own resource, scope and allowlist.
use korg.Base.{String, List, [], ◌∷◌, Bool, true, false, ◌≡◌, refl}
use korg.Gate.Allowlist.{tool_allowed, klams_tool_allowed}
use Prim.Native.String.{◌++◌}

pub data Door : Type 0 where
  korg_door klams_door : Door

abbrev pub all_doors : List Door
all_doors = korg_door ∷ klams_door ∷ []

-- The derived `PartialEq`.
abbrev pub same_door : Door → Door → Bool
same_door korg_door korg_door = true
same_door korg_door klams_door = false
same_door klams_door korg_door = false
same_door klams_door klams_door = true

abbrev pub name : Door → String
name korg_door = "korg"
name klams_door = "klams"

-- Where the door is served on the gate's origin.
abbrev pub path : Door → String
path korg_door = "/mcp"
path klams_door = "/klams/mcp"

-- The one scope a token for this door carries.
abbrev pub scope : Door → String
scope korg_door = "korg:read"
scope klams_door = "klams:read"

unfoldable pub allows : Door → String → Bool
allows korg_door tool = tool_allowed tool
allows klams_door tool = klams_tool_allowed tool

abbrev pub exposes : Door → String
exposes korg_door = "korg's reads and the ruled write set"
exposes klams_door = "klams's reads and the ruled write set"

abbrev pub resource_name : Door → String
resource_name korg_door = "korg"
resource_name klams_door = "klams"

-- The path-inserted metadata URL of the door's resource.
abbrev pub metadata_path : Door → String
metadata_path d = "/.well-known/oauth-protected-resource" ++ path d

pub same_door-eq : (d e : Door) → same_door d e ≡ true → d ≡ e
same_door-eq korg_door korg_door h = refl
same_door-eq korg_door klams_door h = cc
same_door-eq klams_door korg_door h = cc
same_door-eq klams_door klams_door h = refl

pub same_door_self : (d : Door) → same_door d d ≡ true
same_door_self korg_door = refl
same_door_self klams_door = refl
