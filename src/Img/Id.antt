-- ===== src/Img/Id.antt =====
-- crates/korg-img/src/lib.rs: the ids of images, which are node ids in hex. An id is an
-- `i64` that is greater than zero.
pub mod RoundTrip
use Prim.Native.Char.{Char, char, code}
use Prim.Native.String.{[], ◌∷◌}
use korg.Base.{
  ◌⊎◌, inl, inr, ℕ, zero, suc, ◌+◌, ◌-◌, ◌*◌, ◌/◌, ◌%◌, String, Option, none, some, true, false,
  ◌&&◌, leb, ltb, nat_eq, eq_ignore_case, if◌then◌else◌, ◌>>=◌,
}
use korg.Core.Error.{ImgError, bad_id}

pub record ImgId : Type 0 where
  pub node_id : ℕ

-- `i64::MAX`
abbrev pub max_id : ℕ
max_id = 9223372036854775807

-- Of a number that is not below zero; one that is below has the same answer as zero.
unfoldable pub from_node_id : ℕ → ImgError ⊎ ImgId
from_node_id n = if leb 1 n then inr (record { node_id = n }) else inl bad_id

unfoldable pub digit : ℕ → Char
digit zero = char 48 tt
digit (suc zero) = char 49 tt
digit (suc (suc zero)) = char 50 tt
digit (suc (suc (suc zero))) = char 51 tt
digit (suc (suc (suc (suc zero)))) = char 52 tt
digit (suc (suc (suc (suc (suc zero))))) = char 53 tt
digit (suc (suc (suc (suc (suc (suc zero)))))) = char 54 tt
digit (suc (suc (suc (suc (suc (suc (suc zero))))))) = char 55 tt
digit (suc (suc (suc (suc (suc (suc (suc (suc zero)))))))) = char 56 tt
digit (suc (suc (suc (suc (suc (suc (suc (suc (suc zero))))))))) = char 57 tt
digit (suc (suc (suc (suc (suc (suc (suc (suc (suc (suc zero)))))))))) = char 97 tt
digit (suc (suc (suc (suc (suc (suc (suc (suc (suc (suc (suc zero))))))))))) = char 98 tt
digit (suc (suc (suc (suc (suc (suc (suc (suc (suc (suc (suc (suc zero)))))))))))) = char 99 tt
digit (suc (suc (suc (suc (suc (suc (suc (suc (suc (suc (suc (suc (suc zero))))))))))))) =
    char 100 tt
digit (suc (suc (suc (suc (suc (suc (suc (suc (suc (suc (suc (suc (suc (suc zero)))))))))))))) =
    char 101 tt
digit n = char 102 tt

-- `{:x}`: the digits are put before what is written already, the last one first.
unfoldable pub hex_from : ℕ → ℕ → String → String
hex_from zero n s = digit n ∷ s
hex_from (suc fuel) n s = elim (ltb n 16) [
  | true ↦ digit n ∷ s
  | false ↦ hex_from fuel (n / 16) (digit (n % 16) ∷ s)
]

-- `Display`, `img-` and the digits; a number has no more digits than itself, and one.
unfoldable pub to_string : ImgId → String
to_string id =
    char 105 tt ∷ char 109 tt ∷ char 103 tt ∷ char 45 tt ∷ hex_from id.node_id id.node_id ""

-- `char::to_digit(16)`, of a code.
unfoldable pub digit_value : ℕ → Option ℕ
digit_value c =
    if leb 48 c && leb c 57
    then some (c - 48)
    else if leb 97 c && leb c 102
    then some (c - 87)
    else if leb 65 c && leb c 70
    then some (c - 55)
    else none

-- The digits after a number, `none` for another character or past the largest `i64`.
unfoldable pub digits_after : ℕ → String → Option ℕ
digits_after n [] = some n
digits_after n (c ∷ s) = elim (digit_value (code c)) [
  | none ↦ none
  | some d ↦ elim (leb (n * 16 + d) max_id) [ true ↦ digits_after (n * 16 + d) s | false ↦ none ]
]

-- `i64::from_str_radix(s, 16)`, with `none` for a number below zero too: no id is one.
unfoldable pub from_hex : String → Option ℕ
from_hex [] = none
from_hex (c ∷ []) = digits_after 0 (c ∷ [])
from_hex (c ∷ d ∷ s) =
    if nat_eq (code c) 43 then digits_after 0 (d ∷ s) else digits_after 0 (c ∷ d ∷ s)

-- What follows `img-`, in any case.
unfoldable pub after_prefix : String → Option String
after_prefix (a ∷ b ∷ c ∷ d ∷ s) =
    if eq_ignore_case (a ∷ b ∷ c ∷ d ∷ "") "img-" then some s else none
after_prefix _ = none

unfoldable pub id_of : Option ℕ → ImgError ⊎ ImgId
id_of none = inl bad_id
id_of (some n) = from_node_id n

unfoldable pub parse : String → ImgError ⊎ ImgId
parse raw = id_of (after_prefix raw >>= from_hex)
