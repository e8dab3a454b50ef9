-- ===== src/Desk/Template.antt =====
-- crates/korg-core/src/repo/schedules.rs: `check_substitutions`, which refuses a template that names
-- a placeholder outside the vocabulary. Indices into the text are kept as the text that follows them.
pub mod Accepted
pub mod Stops
use Prim.Native.Char.{Char, code}
use Prim.Native.String.{[], ◌∷◌, count}
use korg.Base.{
  ℕ, zero, suc, String, Option, none, some, Bool, true, false, not, ◌&&◌, ◌||◌, contains, nat_eq,
  leb, if◌then◌else◌,
}
use korg.Core.Vocab.{schedule_substitutions}

abbrev pub opening : ℕ
opening = 123

abbrev pub closing : ℕ
closing = 125

-- `str::find` for one character: the text before it, and the text after it.
unfoldable pub cut : ℕ → String → Option (String × String)
cut c [] = none
cut c (x ∷ s) = elim (nat_eq (code x) c) [
  | true ↦ some ([], s)
  | false ↦ elim (cut c s) [ none ↦ none | some (before, after) ↦ some (x ∷ before, after) ]
]

-- `b.is_ascii_uppercase() || b == b'_' || b.is_ascii_digit()`
unfoldable pub capital : ℕ → Bool
capital c = leb 65 c && leb c 90 || nat_eq c 95 || leb 48 c && leb c 57

unfoldable pub capitals : String → Bool
capitals [] = true
capitals (x ∷ s) = capital (code x) && capitals s

unfoldable pub placeholder_shaped : String → Bool
placeholder_shaped [] = false
placeholder_shaped (x ∷ s) = capitals (x ∷ s)

pub data Scan : Type 0 where
  accepted out_of_fuel : Scan
  unknown_substitution : String → Scan

-- Whether the loop stops at a name, and refuses it.
unfoldable pub refused_name : String → Bool
refused_name name = placeholder_shaped name && not (contains schedule_substitutions name)

-- The loop of `check_substitutions` over what is left of the text.
unfoldable pub scan : ℕ → String → Scan
scan zero s = out_of_fuel
scan (suc fuel) s = elim (cut opening s) [
  | none ↦ accepted
  | some (before, after) ↦ elim (cut closing after) [
    | none ↦ accepted
    | some (name, rest) ↦ elim (refused_name name) [
      | true ↦ unknown_substitution name
      | false ↦ scan fuel rest
    ]
  ]
]

-- Every round takes a brace off the text, so the length of the text is fuel enough.
unfoldable pub check_substitutions : String → Scan
check_substitutions template = scan (suc (count template)) template
