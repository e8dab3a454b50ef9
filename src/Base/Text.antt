-- ===== src/Base/Text.antt =====
-- The order of texts: that of `str`'s `Ord`, lexicographic on the code points.
use Prim.Native.Nat.{compare as compare_ℕ, Ordering}
use Prim.Native.Char.{Char, code}
use Prim.Native.String.{String, [], ◌∷◌, compare, then}
use Prim.Native.String.compare as clauses
use mathlib.Core.Path.{◌≡◌, refl}
use native.Mathlib.Omega.{arith}

infix 50 ◌≺◌
-- `s` comes before `t`
abbrev pub ◌≺◌ : String → String → Type 0
s ≺ t = compare s t ≡ Ordering.lt

cons-cons :
    (c d : Char) (s t : String)
    → compare (c ∷ s) (d ∷ t) ≡ then (compare_ℕ (code c) (code d)) (compare s t)
cons-cons c d s t = clauses.cons-cons c d s t

cons-nil : (c : Char) (s : String) → compare (c ∷ s) [] ≡ Ordering.gt
cons-nil c s = clauses.cons-nil c s

nil-cons : (d : Char) (t : String) → compare [] (d ∷ t) ≡ Ordering.lt
nil-cons d t = clauses.nil-cons d t

nil-nil : compare [] [] ≡ Ordering.eq
nil-nil = refl

not-≺-nil : (t : String) → ¬ (t ≺ [])
not-≺-nil [] h = cc nil-nil
not-≺-nil (d ∷ t) h = cc (cons-nil d t)

pub ≺_trans : (s t u : String) → s ≺ t → t ≺ u → s ≺ u
≺_trans s t [] h k = absurd (not-≺-nil t k)
≺_trans [] [] (e ∷ u) h k = nil-cons e u
≺_trans [] (d ∷ t) (e ∷ u) h k = nil-cons e u
≺_trans (c ∷ s) [] (e ∷ u) h k = cc (cons-nil c s)
≺_trans (c ∷ s) (d ∷ t) (e ∷ u) h k =
    ground (arith, ≺_trans s t u, cons-cons c d s t, cons-cons d e t u, cons-cons c e s u)

pub ≺_flip : (s t : String) → compare s t ≡ Ordering.gt → t ≺ s
≺_flip [] [] h = cc nil-nil
≺_flip [] (d ∷ t) h = cc (nil-cons d t)
≺_flip (c ∷ s) [] h = nil-cons c s
≺_flip (c ∷ s) (d ∷ t) h = ground (arith, ≺_flip s t, cons-cons c d s t, cons-cons d c t s)
