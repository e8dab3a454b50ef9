-- ===== src/Img/Id/RoundTrip.antt =====
-- An image's id as it is printed, read again (crates/korg-img/src/lib.rs).
use Prim.Native.Char.{char, code}
use Prim.Native.String.{[], ◌∷◌}
use korg.Base.{
  ℕ, zero, suc, ◌+◌, ◌*◌, ◌/◌, ◌%◌, ◌≤◌, ◌<◌, String, some, false, ◌≡◌, refl, ap, sym, ◌∙◌, arith,
  inl, inr, leb, ltb, nat_eq, Bool-cases, eq_ignore_case, lower,
}
use korg.Img.Id.{
  max_id, from_node_id, digit, hex_from, to_string, digit_value, digits_after, from_hex,
  after_prefix, id_of, parse,
}

digit_value-digit : (n : ℕ) → n < 16 → digit_value (code (digit n)) ≡ some n
unfolding digit_value digit
digit_value-digit zero h = refl
digit_value-digit (suc zero) h = refl
digit_value-digit (suc (suc zero)) h = refl
digit_value-digit (suc (suc (suc zero))) h = refl
digit_value-digit (suc (suc (suc (suc zero)))) h = refl
digit_value-digit (suc (suc (suc (suc (suc zero))))) h = refl
digit_value-digit (suc (suc (suc (suc (suc (suc zero)))))) h = refl
digit_value-digit (suc (suc (suc (suc (suc (suc (suc zero))))))) h = refl
digit_value-digit (suc (suc (suc (suc (suc (suc (suc (suc zero)))))))) h = refl
digit_value-digit (suc (suc (suc (suc (suc (suc (suc (suc (suc zero))))))))) h = refl
digit_value-digit (suc (suc (suc (suc (suc (suc (suc (suc (suc (suc zero)))))))))) h = refl
digit_value-digit (suc (suc (suc (suc (suc (suc (suc (suc (suc (suc (suc zero))))))))))) h = refl
digit_value-digit (suc (suc (suc (suc (suc (suc (suc (suc (suc (suc (suc (suc zero)))))))))))) h =
    refl
digit_value-digit (suc (suc (suc (suc (suc (suc (suc (suc (suc (suc (suc (suc (suc zero)))))))))))))
      h =
    refl
digit_value-digit
      (suc (suc (suc (suc (suc (suc (suc (suc (suc (suc (suc (suc (suc (suc zero)))))))))))))) h =
    refl
digit_value-digit
      (suc (suc (suc (suc (suc (suc (suc (suc (suc (suc (suc (suc (suc (suc (suc zero)))))))))))))))
      h =
    refl
digit_value-digit
      (suc
        (suc (suc (suc (suc (suc (suc (suc (suc (suc (suc (suc (suc (suc (suc (suc n))))))))))))))))
      h =
    absurd (omega arith)

-- No digit is a sign.
digit_unsigned : (n : ℕ) → nat_eq (code (digit n)) 43 ≡ false
unfolding digit
digit_unsigned zero = refl
digit_unsigned (suc zero) = refl
digit_unsigned (suc (suc zero)) = refl
digit_unsigned (suc (suc (suc zero))) = refl
digit_unsigned (suc (suc (suc (suc zero)))) = refl
digit_unsigned (suc (suc (suc (suc (suc zero))))) = refl
digit_unsigned (suc (suc (suc (suc (suc (suc zero)))))) = refl
digit_unsigned (suc (suc (suc (suc (suc (suc (suc zero))))))) = refl
digit_unsigned (suc (suc (suc (suc (suc (suc (suc (suc zero)))))))) = refl
digit_unsigned (suc (suc (suc (suc (suc (suc (suc (suc (suc zero))))))))) = refl
digit_unsigned (suc (suc (suc (suc (suc (suc (suc (suc (suc (suc zero)))))))))) = refl
digit_unsigned (suc (suc (suc (suc (suc (suc (suc (suc (suc (suc (suc zero))))))))))) = refl
digit_unsigned (suc (suc (suc (suc (suc (suc (suc (suc (suc (suc (suc (suc zero)))))))))))) = refl
digit_unsigned (suc (suc (suc (suc (suc (suc (suc (suc (suc (suc (suc (suc (suc zero))))))))))))) =
    refl
digit_unsigned
      (suc (suc (suc (suc (suc (suc (suc (suc (suc (suc (suc (suc (suc (suc zero)))))))))))))) =
    refl
digit_unsigned
      (suc (suc (suc (suc (suc (suc (suc (suc (suc (suc (suc (suc (suc (suc (suc n))))))))))))))) =
    refl

digits_after-digit :
    (m n : ℕ) (s : String)
    → n < 16
    → m * 16 + n ≤ max_id
    → digits_after m (digit n ∷ s) ≡ digits_after (m * 16 + n) s
unfolding digits_after
digits_after-digit m n s h b =
    rw (digit_value-digit n h, digits_after)
      (elim (Bool-cases (leb (m * 16 + n) max_id)) [
        | inl fits ↦ rw (fits, digits_after) refl
        | inr over ↦ absurd (ground arith)
      ])

digits_after-hex_from :
    (fuel n : ℕ) (s : String)
    → n ≤ fuel
    → n ≤ max_id
    → digits_after 0 (hex_from fuel n s) ≡ digits_after n s
unfolding hex_from
digits_after-hex_from zero n s h b =
    digits_after-digit 0 n s (omega arith) (omega arith) ∙ ap (λ k. digits_after k s) (omega arith)
digits_after-hex_from (suc fuel) n s h b = elim (Bool-cases (ltb n 16)) [
  | inl small ↦
      rw (small, hex_from)
        (digits_after-digit 0 n s (ground arith) (omega arith)
          ∙ ap (λ k. digits_after k s) (omega arith))
  | inr large ↦
      rw (large, hex_from)
        (digits_after-hex_from fuel (n / 16) (digit (n % 16) ∷ s) (ground arith) (omega arith)
          ∙ digits_after-digit (n / 16) (n % 16) s (omega arith) (omega arith)
          ∙ ap (λ k. digits_after k s) (omega arith))
]

hex_from-digit :
    (fuel n : ℕ) (s : String) → (d : ℕ) × (t : String) × (hex_from fuel n s ≡ (digit d ∷ t))
unfolding hex_from
hex_from-digit zero n s = (n, s, refl)
hex_from-digit (suc fuel) n s = elim (Bool-cases (ltb n 16)) [
  | inl small ↦ (n, s, rw (small, hex_from) refl)
  | inr large ↦
      let (d, t, e) = hex_from-digit fuel (n / 16) (digit (n % 16) ∷ s) in
      (d, t, rw (large, hex_from) e)
]

from_hex-digit : (d : ℕ) (t : String) → from_hex (digit d ∷ t) ≡ digits_after 0 (digit d ∷ t)
unfolding from_hex
from_hex-digit d [] = refl
from_hex-digit d (c ∷ t) = rw (digit_unsigned d, from_hex) refl

from_hex-hex_from : (fuel n : ℕ) → n ≤ fuel → n ≤ max_id → from_hex (hex_from fuel n "") ≡ some n
from_hex-hex_from fuel n h b =
    let (d, t, e) = hex_from-digit fuel n "" in
    ap from_hex e
    ∙ from_hex-digit d t
    ∙ ap (digits_after 0) (sym e)
    ∙ digits_after-hex_from fuel n "" h b
    ∙ unfold digits_after in refl

after_prefix-to_string :
    (s : String) → after_prefix (char 105 tt ∷ char 109 tt ∷ char 103 tt ∷ char 45 tt ∷ s) ≡ some s
unfolding after_prefix eq_ignore_case lower
after_prefix-to_string s = refl

-- The text of an image's id is read as that id, for every node id of an `i64` from 1 on.
pub parse-to_string :
    (n : ℕ)
    → 1 ≤ n
    → n ≤ max_id
    → parse (to_string (record { node_id = n })) ≡ inr (record { node_id = n })
unfolding parse to_string from_node_id id_of
parse-to_string n positive fits =
    rw (after_prefix-to_string (hex_from n n ""), from_hex-hex_from n n (omega arith) fits)
      (ground arith)
