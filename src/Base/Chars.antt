-- ===== src/Base/Chars.antt =====
-- Characters and pieces of text, as the `str` of Rust cuts it.
use Prim.Native.Char.{Char, code}
use Prim.Native.Nat.{ℕ, ◌+◌, zero, suc, compare, Ordering}
use Prim.Native.String.{String, [], ◌∷◌}
use mathlib.Core.Bool.{Bool, true, false, ◌&&◌, ◌||◌}
use mathlib.Core.List.{List, [], ◌∷◌}
use korg.Base.Bools.{if◌then◌else◌, leb}

abbrev pub nat_eq : ℕ → ℕ → Bool
nat_eq a b = elim (compare a b) [ Ordering.eq ↦ true | _ ↦ false ]

abbrev pub is_newline : Char → Bool
is_newline c = nat_eq (code c) 10

unfoldable pub between : ℕ → ℕ → ℕ → Bool
between a b n = leb a n && leb n b

-- `char::is_whitespace`: the property `White_Space` of Unicode.
unfoldable pub is_whitespace : ℕ → Bool
unfolding between
is_whitespace n =
    between 9 13 n
    || nat_eq n 32
    || nat_eq n 133
    || nat_eq n 160
    || nat_eq n 5760
    || between 8192 8202 n
    || nat_eq n 8232
    || nat_eq n 8233
    || nat_eq n 8239
    || nat_eq n 8287
    || nat_eq n 12288

-- `s.trim().is_empty()`
unfoldable pub blank : String → Bool
blank [] = true
blank (c ∷ s) = is_whitespace (code c) && blank s

-- A character before the first piece.
unfoldable pub push_char : Char → List String → List String
push_char c [] = []
push_char c (piece ∷ rest) = (c ∷ piece) ∷ rest

-- The pieces between white space: the first one is under way, and may be empty.
unfoldable pub pieces : String → List String
pieces [] = "" ∷ []
pieces (c ∷ s) = elim (is_whitespace (code c)) [
  | true ↦ "" ∷ pieces s
  | false ↦ push_char c (pieces s)
]

unfoldable pub drop_blank : List String → List String
drop_blank [] = []
drop_blank ([] ∷ ps) = drop_blank ps
drop_blank ((c ∷ s) ∷ ps) = (c ∷ s) ∷ drop_blank ps

-- `split_whitespace`
unfoldable pub split_whitespace : String → List String
split_whitespace s = drop_blank (pieces s)

-- `s.chars().take(n)`
unfoldable pub take_chars : ℕ → String → String
take_chars zero s = ""
take_chars (suc n) [] = ""
take_chars (suc n) (c ∷ s) = c ∷ take_chars n s

-- `to_ascii_lowercase`, of a code.
unfoldable pub lower : ℕ → ℕ
lower n = if leb 65 n && leb n 90 then n + 32 else n

unfoldable pub eq_ignore_case : String → String → Bool
eq_ignore_case [] [] = true
eq_ignore_case (c ∷ s) (d ∷ t) = nat_eq (lower (code c)) (lower (code d)) && eq_ignore_case s t
eq_ignore_case _ _ = false
