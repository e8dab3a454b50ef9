-- ===== src/Gate/State.antt =====
-- The data of crates/korg-gate/src/store.rs, and what its operations read from outside.
use korg.Base.{
  ℕ, zero, suc, ◌-◌, ◌*◌, ◌/◌, ◌%◌, String, List, [], ◌∷◌, Option, none, some, ◌≡◌, refl, Bool,
  true, false, Map, ltb, if◌then◌else◌,
}
use Prim.Native.String.{◌++◌}
use korg.Gate.Door.{Door}

pub record Client : Type 0 where
  pub client_name : Option String
  pub redirect_uris : List String
  pub issued_at : ℕ

pub record RefreshGrant : Type 0 where
  pub client_id : String
  pub scope : String
  pub expires_at : ℕ
  pub door : Door

-- The state file: clients by id, refresh grants by the digest of their token.
pub record Persisted : Type 0 where
  pub clients : Map Client
  pub refresh : Map RefreshGrant

pub record PendingCode : Type 0 where
  pub client_id : String
  pub redirect_uri : String
  pub challenge : String
  pub door : Door
  pub expires : ℕ

pub record AccessGrant : Type 0 where
  pub client_id : String
  pub door : Door
  pub expires : ℕ

pub record Lockout : Type 0 where
  pub failures : ℕ
  pub until : Option ℕ

abbrev pub unlocked : Lockout
unlocked = record { failures = 0; until = none }

pub record Inner : Type 0 where
  pub persisted : Persisted
  pub codes : Map PendingCode
  pub access : Map AccessGrant
  pub lockout : Lockout

-- `disk` is the content of the state file, `none` where there is no file yet.
pub record Store : Type 0 where
  pub disk : Option Persisted
  pub access_ttl : ℕ
  pub refresh_ttl : ℕ
  pub inner : Inner

pub record Tokens : Type 0 where
  pub access_token : String
  pub refresh_token : String
  pub expires_in : ℕ
  pub scope : String

pub data RegisterError : Type 0 where
  full : RegisterError

pub data GrantError : Type 0 where
  unknown_code expired client_mismatch redirect_mismatch : GrantError
  pkce_mismatch unknown_refresh wrong_resource : GrantError

-- `Gate`: the lockout's verdict, with the time left.
pub data Verdict : Type 0 where
  open_gate : Verdict
  locked : ℕ → Verdict

-- `anyhow::Result<Result<A, E>>`: `failed` is the outer error, a state file not written.
pub data Outcome (E A : Type 0) : Type 0 where
  done : A → Outcome E A
  refused : E → Outcome E A
  failed : Outcome E A

-- The clock readings, the random tokens and the fate of the write, for one operation.
pub record Env : Type 0 where
  pub instant : ℕ
  pub unix : ℕ
  pub first_token : String
  pub second_token : String
  pub writes : Bool

-- The crates `sha2` and `base64`: the bytes of a digest, and their unpadded base64url text.
pub record Crypto : Type 0 where
  pub sha256 : String → List ℕ
  pub base64url : List ℕ → String

-- Nanoseconds.
abbrev pub seconds : ℕ → ℕ
seconds n = n * 1000000000

-- Replaces the state file whole (a temporary file, then a rename), or leaves it as it was.
unfoldable pub save : Bool → Store → Store
save true s = record s { disk = some s.inner.persisted }
save false s = s

pub inner-save : (writes : Bool) (s : Store) → (save writes s).inner ≡ s.inner
unfolding save
inner-save true s = refl
inner-save false s = refl

-- The end of an operation that saves: its answer, or the outer error.
unfoldable pub after_save : {E A : Type 0} → Bool → A → Outcome E A
after_save true a = done a
after_save false a = failed

-- `Store::open`: what was in the state file, and nothing else.
unfoldable pub reopen : ℕ → ℕ → Option Persisted → Store
reopen access_ttl refresh_ttl disk = record {
  disk = disk;
  access_ttl = access_ttl;
  refresh_ttl = refresh_ttl;
  inner = record {
    persisted = elim disk [ none ↦ record { clients = []; refresh = [] } | some p ↦ p ];
    codes = [];
    access = [];
    lockout = unlocked;
  };
}

nth : ℕ → List String → String
nth n [] = ""
nth zero (x ∷ xs) = x
nth (suc n) (x ∷ xs) = nth n xs

hex_digit : ℕ → String
hex_digit n =
    if ltb n 10
    then nth n ("0" ∷ "1" ∷ "2" ∷ "3" ∷ "4" ∷ "5" ∷ "6" ∷ "7" ∷ "8" ∷ "9" ∷ [])
    else nth (n - 10) ("a" ∷ "b" ∷ "c" ∷ "d" ∷ "e" ∷ "f" ∷ [])

hex : List ℕ → String
hex [] = ""
hex (b ∷ bs) = hex_digit (b / 16) ++ (hex_digit (b % 16) ++ hex bs)

module _ (c : Crypto) where
  -- Tokens are kept as their SHA-256 digests, in hex.
  unfoldable pub digest : String → String
  unfolding hex hex_digit nth
  digest token = hex (c.sha256 token)

  -- RFC 7636 S256.
  unfoldable pub pkce_s256 : String → String
  pkce_s256 verifier = c.base64url (c.sha256 verifier)
