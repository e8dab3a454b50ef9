-- ===== src/Base/Search.antt =====
-- `<[&str]>::binary_search(..).is_ok()`, as the standard library runs it: the window keeps its
-- first `size - half` entries where the middle one is greater, and drops `half` otherwise.
use Prim.Native.Nat.{ℕ, zero, suc, ◌-◌, ◌/◌, ◌≤◌, ◌<◌, Ordering}
use Prim.Native.String.{String, compare}
use mathlib.Core.Path.{◌≡◌, refl, ◌∙◌}
use mathlib.Core.Logic.{◌≢◌, ◌⊎◌, inl, inr}
use mathlib.Core.Bool.{Bool, true, false, ◌&&◌, ◌||◌}
use mathlib.Core.List.{List, [], ◌∷◌}
use mathlib.Core.Option.{none, some}
use native.Mathlib.Omega.{arith}
use text.Mathlib.Text.{◌==◌}
use text.Mathlib.TextEquality.{eq_iff}
use text.Mathlib.TextPositions.{compare_refl}
use korg.Base.Bools.{ltb, Option-cases, Bool-cases}
use korg.Base.Lists.{length, take, drop, get_elem?, contains, all, All}
use korg.Base.Text.{◌≺◌, ≺_trans, ≺_flip}

halve : String → List String → List String
halve t w =
    let half = length w / 2 in
    elim (get_elem? w half) [
      | none ↦ w
      | some x ↦ elim (compare x t) [ Ordering.gt ↦ take (length w - half) w | _ ↦ drop half w ]
    ]

narrow : ℕ → String → List String → List String
narrow zero t w = w
narrow (suc fuel) t w = elim (ltb 1 (length w)) [ true ↦ narrow fuel t (halve t w) | false ↦ w ]

abbrev first_is : String → List String → Bool
first_is t [] = false
first_is t (x ∷ _) = x == t

unfoldable pub binary_search : List String → String → Bool
unfolding narrow halve
binary_search xs t = first_is t (narrow (length xs) t xs)

abbrev pub IsSorted : List String → Type 0
IsSorted [] = Unit {0}
IsSorted (x ∷ xs) = All (λ y. x ≺ y) xs × IsSorted xs

All-drop : (x : String) (n : ℕ) (w : List String) → All (λ y. x ≺ y) w → All (λ y. x ≺ y) (drop n w)
All-drop x zero w a = a
All-drop x (suc n) [] a = tt
All-drop x (suc n) (y ∷ w) a = All-drop x n w a.1

All-take : (x : String) (n : ℕ) (w : List String) → All (λ y. x ≺ y) w → All (λ y. x ≺ y) (take n w)
All-take x zero w a = tt
All-take x (suc n) [] a = tt
All-take x (suc n) (y ∷ w) a = (a.0, All-take x n w a.1)

drop-IsSorted : (n : ℕ) (w : List String) → IsSorted w → IsSorted (drop n w)
drop-IsSorted zero w s = s
drop-IsSorted (suc n) [] s = tt
drop-IsSorted (suc n) (y ∷ w) s = drop-IsSorted n w s.1

take-IsSorted : (n : ℕ) (w : List String) → IsSorted w → IsSorted (take n w)
take-IsSorted zero w s = tt
take-IsSorted (suc n) [] s = tt
take-IsSorted (suc n) (y ∷ w) s = (All-take y n w s.0, take-IsSorted n w s.1)

length-take-le : (n : ℕ) (w : List String) → length (take n w) ≤ n
length-take-le zero w = omega arith
length-take-le (suc n) [] = omega arith
length-take-le (suc n) (y ∷ w) = omega (arith, length-take-le n w)

length-drop : (n : ℕ) (w : List String) → length (drop n w) ≡ length w - n
length-drop zero w = omega arith
length-drop (suc n) [] = omega arith
length-drop (suc n) (y ∷ w) = omega (arith, length-drop n w)

contains-take-drop :
    (n : ℕ) (w : List String) (t : String)
    → contains w t ≡ (contains (take n w) t || contains (drop n w) t)
unfolding contains
contains-take-drop zero w t = refl
contains-take-drop (suc n) [] t = refl
contains-take-drop (suc n) (x ∷ w) t = ground (arith, contains-take-drop n w t)

contains-above :
    (w : List String) (x t : String) → All (λ y. x ≺ y) w → t ≺ x → contains w t ≡ false
unfolding contains
contains-above [] x t a h = refl
contains-above (y ∷ w) x t a h =
    ground (arith, contains-above w x t a.1, ≺_trans t x y h a.0, eq_iff y t, compare_refl t)

contains-drop :
    (w : List String) (i n : ℕ) (x t : String)
    → IsSorted w
    → get_elem? w i ≡ some x
    → t ≺ x
    → i ≤ n
    → contains (drop n w) t ≡ false
unfolding contains
contains-drop [] i n x t s e h le = cc
contains-drop (y ∷ w) zero zero x t s e h le =
    ground (arith, contains-above w x t, eq_iff y t, compare_refl t)
contains-drop (y ∷ w) zero (suc n) x t s e h le =
    contains-above (drop n w) x t (All-drop x n w (ground arith)) h
contains-drop (y ∷ w) (suc i) zero x t s e h le = absurd (omega arith)
contains-drop (y ∷ w) (suc i) (suc n) x t s e h le = contains-drop w i n x t s.1 e h (omega arith)

elem_above :
    (w : List String) (i : ℕ) (x y : String) → All (λ z. y ≺ z) w → get_elem? w i ≡ some x → y ≺ x
elem_above [] i x y a e = cc
elem_above (z ∷ w) zero x y a e = ground arith
elem_above (z ∷ w) (suc i) x y a e = elem_above w i x y a.1 e

contains-take :
    (w : List String) (i : ℕ) (x t : String)
    → IsSorted w
    → get_elem? w i ≡ some x
    → compare x t ≢ Ordering.gt
    → contains (take i w) t ≡ false
unfolding contains
contains-take [] i x t s e h = cc
contains-take (y ∷ w) zero x t s e h = refl
contains-take (y ∷ w) (suc i) x t s e h = ground (
  arith,
  contains-take w i x t s.1 e h,
  elem_above w i x y s.0 e,
  ≺_trans y x t,
  eq_iff y t,
  eq_iff x t,
  compare_refl t,
)

contains-take-le :
    (w : List String) (i n : ℕ) (x t : String)
    → IsSorted w
    → get_elem? w i ≡ some x
    → t ≺ x
    → i ≤ n
    → contains (take n w) t ≡ contains w t
contains-take-le w i n x t s e h le =
    ground (arith, contains-take-drop n w t, contains-drop w i n x t s e h le)

get_elem?-none : (w : List String) (i : ℕ) → get_elem? w i ≡ none → i < length w → ⊥
get_elem?-none [] i e h = omega arith
get_elem?-none (y ∷ w) zero e h = cc
get_elem?-none (y ∷ w) (suc i) e h = get_elem?-none w i e (omega arith)

gt-cases : (o : Ordering) → (o ≡ Ordering.gt) ⊎ (o ≢ Ordering.gt)
gt-cases Ordering.lt = inr (λ e. cc)
gt-cases Ordering.eq = inr (λ e. cc)
gt-cases Ordering.gt = inl refl

record Halves (t : String) (w v : List String) : Type 0 where
  sorted : IsSorted v
  same : contains v t ≡ contains w t
  shorter : length v < length w

module _ (t : String) (w : List String) (s : IsSorted w) (h : 1 < length w) where
  low_half :
      (x : String)
      → get_elem? w (length w / 2) ≡ some x
      → t ≺ x
      → Halves t w (take (length w - length w / 2) w)
  low_half x e b = record {
    sorted = take-IsSorted (length w - length w / 2) w s;
    same = contains-take-le w (length w / 2) (length w - length w / 2) x t s e b (omega arith);
    shorter = omega (arith, length-take-le (length w - length w / 2) w);
  }

  high_half :
      (x : String)
      → get_elem? w (length w / 2) ≡ some x
      → compare x t ≢ Ordering.gt
      → Halves t w (drop (length w / 2) w)
  high_half x e b = record {
    sorted = drop-IsSorted (length w / 2) w s;
    same =
        ground
          (arith, contains-take-drop (length w / 2) w t, contains-take w (length w / 2) x t s e b);
    shorter = omega (arith, length-drop (length w / 2) w);
  }

  halve_found : (x : String) → get_elem? w (length w / 2) ≡ some x → Halves t w (halve t w)
  halve_found x e = elim (gt-cases (compare x t)) [
    | inl g ↦
        let low : halve t w ≡ take (length w - length w / 2) w = unfold halve in ground arith in
        rw low (low_half x e (≺_flip x t g))
    | inr b ↦
        let high : halve t w ≡ drop (length w / 2) w = unfold halve in ground arith in
        rw high (high_half x e b)
  ]

  halve-Halves : Halves t w (halve t w)
  halve-Halves = elim (Option-cases (get_elem? w (length w / 2))) [
    | inl missing ↦ absurd (get_elem?-none w (length w / 2) missing (omega arith))
    | inr (x, e) ↦ halve_found x e
  ]

narrow-contains :
    (fuel : ℕ) (t : String) (w : List String)
    → IsSorted w
    → (contains (narrow fuel t w) t ≡ contains w t)
      × (length w ≤ suc fuel → length (narrow fuel t w) ≤ 1)
unfolding narrow
narrow-contains zero t w s = (refl, λ h. h)
narrow-contains (suc fuel) t w s = elim (Bool-cases (ltb 1 (length w))) [
  | inl more ↦
      let halves = halve-Halves t w s (ground arith) in
      let rest = narrow-contains fuel t (halve t w) halves.sorted in
      rw (more, narrow) (rest.0 ∙ halves.same, λ h. rest.1 (omega (arith, halves.shorter)))
  | inr done ↦ rw (done, narrow) (refl, λ h. ground arith)
]

first_is-contains : (t : String) (w : List String) → length w ≤ 1 → first_is t w ≡ contains w t
unfolding contains
first_is-contains t [] h = refl
first_is-contains t (x ∷ []) h = ground arith
first_is-contains t (x ∷ y ∷ w) h = absurd (omega arith)

-- On a sorted list the binary search answers whether the text is in the list.
pub binary_search-contains :
    (xs : List String) (t : String) → IsSorted xs → binary_search xs t ≡ contains xs t
unfolding binary_search
binary_search-contains xs t s =
    let found = narrow-contains (length xs) t xs s in
    first_is-contains t (narrow (length xs) t xs) (found.1 (omega arith)) ∙ found.0

abbrev before : String → String → Bool
before s t = elim (compare s t) [ Ordering.lt ↦ true | _ ↦ false ]

abbrev pub sorted_test : List String → Bool
sorted_test [] = true
sorted_test (x ∷ xs) = all (before x) xs && sorted_test xs

All-before : (x : String) (xs : List String) → all (before x) xs ≡ true → All (λ y. x ≺ y) xs
All-before x [] h = tt
All-before x (y ∷ ys) h = (ground arith, All-before x ys (ground arith))

pub IsSorted-of_test : (xs : List String) → sorted_test xs ≡ true → IsSorted xs
IsSorted-of_test [] h = tt
IsSorted-of_test (x ∷ xs) h = (All-before x xs (ground arith), IsSorted-of_test xs (ground arith))
