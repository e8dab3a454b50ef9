-- ===== src/Gate/Tests/Samples.antt =====
-- Concrete inputs for the gate of crates/korg-gate: a stand-in for its digests, and a state with one
-- client that holds a code, a refresh grant and an access grant.
use Prim.Native.Char.{code}
use Prim.Native.String.{[], ◌∷◌, ◌++◌}
use korg.Base.{ℕ, String, List, [], ◌∷◌, none, some, true, leb, if◌then◌else◌}
use korg.Gate.Door.{korg_door, klams_door}
use korg.Gate.State.{
  Client, RefreshGrant, PendingCode, AccessGrant, Store, Env, Crypto, unlocked, seconds,
}
use korg.Gate.Config.{Config, Url, claude_callback}

-- The codes of the characters, in place of a hash.
abbrev pub bytes : String → List ℕ
bytes [] = []
bytes (c ∷ s) = code c ∷ bytes s

abbrev pub letters : List ℕ → String
letters [] = ""
letters (b ∷ bs) = (if leb b 110 then "a" else "b") ++ letters bs

abbrev pub crypto : Crypto
crypto = record { sha256 = bytes; base64url = letters }

abbrev pub env : Env
env = record { instant = 10; unix = 10; first_token = "t1"; second_token = "t2"; writes = true }

abbrev pub later : Env
later = record { instant = 20; unix = 20; first_token = "t3"; second_token = "t4"; writes = true }

abbrev pub client : Client
client = record { client_name = some "Claude"; redirect_uris = claude_callback ∷ []; issued_at = 3 }

abbrev pub code_one : PendingCode
code_one = record {
  client_id = "c";
  redirect_uri = claude_callback;
  challenge = "ab";
  door = klams_door;
  expires = 100;
}

abbrev pub grant_one : RefreshGrant
grant_one = record { client_id = "c"; scope = "klams:read"; expires_at = 100; door = klams_door }

abbrev pub access_one : AccessGrant
access_one = record { client_id = "c"; door = korg_door; expires = 100 }

-- The digests of "x", "y" and "z" under the stand-in.
abbrev pub store : Store
store = record {
  disk = none;
  access_ttl = seconds 3600;
  refresh_ttl = seconds 86400;
  inner = record {
    persisted = record { clients = ("c", client) ∷ []; refresh = ("79", grant_one) ∷ [] };
    codes = ("78", code_one) ∷ [];
    access = ("7a", access_one) ∷ [];
    lockout = unlocked;
  };
}

abbrev pub url : String → String → Url
url text path = record {
  text = text;
  scheme = "https";
  host = some "gate.example";
  path = path;
  query = none;
  fragment = none;
  origin = "https://gate.example";
}

abbrev pub config : Config
config = record {
  public_url = url "https://gate.example/mcp" "/mcp";
  upstream = url "https://korg.example/mcp" "/mcp";
  klams_upstream = some (url "https://klams.example/mcp" "/mcp");
  passphrase = "correct horse battery staple";
  client_ip_header = "x-forwarded-for";
  access_ttl = seconds 3600;
  refresh_ttl = seconds 86400;
}
