-- ===== src/Base/Maps.antt =====
-- `BTreeMap<String, _>` and `HashMap<String, _>`: the entries in the order of their keys, each key
-- once. The code never observes a `HashMap`'s own order.
use Prim.Native.Nat.{◌+◌, ◌≤◌, Ordering}
use Prim.Native.String.{String, compare}
use mathlib.Core.Path.{◌≡◌, refl, subst}
use mathlib.Core.Logic.{inl, inr}
use mathlib.Core.Bool.{Bool, true}
use mathlib.Core.List.{List, [], ◌∷◌}
use mathlib.Core.Option.{Option, none, some}
use native.Mathlib.Omega.{arith}
use text.Mathlib.Text.{◌==◌}
use text.Mathlib.TextEquality.{eq_iff}
use text.Mathlib.TextPositions.{compare_refl}
use korg.Base.Bools.{if◌then◌else◌, is_some, Bool-cases}
use korg.Base.Lists.{length, any, retain, All}
use korg.Base.Text.{◌≺◌, ≺_trans, ≺_flip}

abbrev pub Map {ℓ} : Type ℓ → Type ℓ
Map V = List (String × V)

module _ {ℓ} {V : Type ℓ} where
  unfoldable pub get : String → Map V → Option V
  get k [] = none
  get k ((j, v) ∷ m) = if j == k then some v else get k m

  unfoldable pub insert : String → V → Map V → Map V
  insert k v [] = (k, v) ∷ []
  insert k v ((j, w) ∷ m) = elim (compare k j) [
    | Ordering.lt ↦ (k, v) ∷ (j, w) ∷ m
    | Ordering.eq ↦ (k, v) ∷ m
    | Ordering.gt ↦ (j, w) ∷ insert k v m
  ]

  unfoldable pub remove : String → Map V → Map V
  remove k [] = []
  remove k ((j, w) ∷ m) = if j == k then m else (j, w) ∷ remove k m

  -- `retain` with a test of the value alone.
  abbrev pub retain_values : (V → Bool) → Map V → Map V
  retain_values p m = retain (λ e. p e.1) m

  pub get-insert :
      (k j : String) (v : V) (m : Map V)
      → get j (insert k v m) ≡ (if k == j then some v else get j m)
  unfolding get insert
  get-insert k j v [] = refl
  get-insert k j v ((i, w) ∷ m) =
      ground (arith, eq_iff k j, eq_iff i k, eq_iff k i, eq_iff i j, get-insert k j v m)

  abbrev pub Above : String → Map V → Type 0
  Above k [] = Unit
  Above k ((j, v) ∷ m) = k ≺ j

  -- The keys rise, so each stands once.
  abbrev pub IsMap : Map V → Type 0
  IsMap [] = Unit
  IsMap ((j, v) ∷ m) = Above j m × IsMap m

  get_below : (k : String) (m : Map V) → Above k m → IsMap m → get k m ≡ none
  unfolding get
  get_below k [] a h = refl
  get_below k ((j, v) ∷ []) a h = ground (arith, eq_iff j k, compare_refl k)
  get_below k ((j, v) ∷ (i, w) ∷ m) a h =
      ground (arith, eq_iff j k, compare_refl k, get_below k ((i, w) ∷ m) (≺_trans k j i a h.0) h.1)

  pub get-remove :
      (k j : String) (m : Map V) → IsMap m → get j (remove k m) ≡ (if k == j then none else get j m)
  unfolding get remove
  get-remove k j [] h = ground arith
  get-remove k j ((i, w) ∷ m) h =
      ground
        (arith, eq_iff i k, eq_iff i j, eq_iff k j, get_below i m h.0 h.1, get-remove k j m h.1)

  Above-insert : (i k : String) (v : V) (m : Map V) → i ≺ k → Above i m → Above i (insert k v m)
  unfolding insert
  Above-insert i k v [] h a = h
  Above-insert i k v ((j, w) ∷ m) h a = ground arith

  pub insert-IsMap : (k : String) (v : V) (m : Map V) → IsMap m → IsMap (insert k v m)
  unfolding insert
  insert-IsMap k v [] h = (tt, tt)
  insert-IsMap k v ((j, w) ∷ m) h =
      ground (arith, eq_iff k j, insert-IsMap k v m h.1, Above-insert j k v m, ≺_flip k j)

  Above-remove : (i k : String) (m : Map V) → Above i m → IsMap m → Above i (remove k m)
  unfolding remove
  Above-remove i k [] a h = tt
  Above-remove i k ((j, w) ∷ []) a h = ground arith
  Above-remove i k ((j, w) ∷ (l, u) ∷ m) a h = ground (arith, ≺_trans i j l a h.0)

  pub remove-IsMap : (k : String) (m : Map V) → IsMap m → IsMap (remove k m)
  unfolding remove
  remove-IsMap k [] h = tt
  remove-IsMap k ((j, w) ∷ m) h = ground (arith, remove-IsMap k m h.1, Above-remove j k m h.0 h.1)

  Above-tail : (i j : String) (m : Map V) → i ≺ j → Above j m → Above i m
  Above-tail i j [] a b = tt
  Above-tail i j ((l, u) ∷ m) a b = ≺_trans i j l a b

  Above-retain :
      (i : String) (p : String × V → Bool) (m : Map V) → Above i m → IsMap m → Above i (retain p m)
  unfolding retain
  Above-retain i p [] a h = tt
  Above-retain i p ((j, w) ∷ m) a h = elim (Bool-cases (p (j, w))) [
    | inl kept ↦ rw (kept, retain) a
    | inr gone ↦ rw (gone, retain) (Above-retain i p m (Above-tail i j m a h.0) h.1)
  ]

  pub retain-IsMap : (p : String × V → Bool) (m : Map V) → IsMap m → IsMap (retain p m)
  unfolding retain
  retain-IsMap p [] h = tt
  retain-IsMap p ((j, w) ∷ m) h =
      let rest = retain-IsMap p m h.1 in
      elim (Bool-cases (p (j, w))) [
        | inl kept ↦ rw (kept, retain) (Above-retain j p m h.0 h.1, rest)
        | inr gone ↦ rw (gone, retain) rest
      ]

  abbrev pub keep_if : (V → Bool) → Option V → Option V
  keep_if p none = none
  keep_if p (some v) = if p v then some v else none

  pub get-retain :
      (p : V → Bool) (k : String) (m : Map V)
      → IsMap m
      → get k (retain_values p m) ≡ keep_if p (get k m)
  unfolding get retain
  get-retain p k [] h = refl
  get-retain p k ((j, w) ∷ m) h =
      ground (arith, eq_iff j k, get_below j m h.0 h.1, get-retain p k m h.1)

  pub length-insert-le : (k : String) (v : V) (m : Map V) → length (insert k v m) ≤ length m + 1
  unfolding insert
  length-insert-le k v [] = omega arith
  length-insert-le k v ((j, w) ∷ m) = ground (arith, length-insert-le k v m)

  pub length-remove :
      (k : String) (m : Map V) → is_some (get k m) ≡ true → length (remove k m) + 1 ≡ length m
  unfolding get remove
  length-remove k [] h = cc
  length-remove k ((j, w) ∷ m) h = ground (arith, length-remove k m)

  pub any_of_get :
      (p : V → Bool) (k : String) (v : V) (m : Map V)
      → get k m ≡ some v
      → p v ≡ true
      → any (λ e. p e.1) m ≡ true
  unfolding get
  any_of_get p k v [] g h = cc
  any_of_get p k v ((j, w) ∷ m) g h = ground (arith, any_of_get p k v m)

-- What holds of every value.
abbrev pub AllValues {ℓ κ} : {V : Type ℓ} → (V → Type κ) → Map V → Type κ
AllValues P m = All (λ e. P e.1) m

module _ {ℓ κ} {V : Type ℓ} (P : V → Type κ) where
  pub insert-AllValues :
      (k : String) (v : V) (m : Map V) → P v → AllValues P m → AllValues P (insert k v m)
  unfolding insert
  insert-AllValues k v [] p a = (p, tt)
  insert-AllValues k v ((j, w) ∷ m) p a =
      elim (compare k j)
        as (λ o. AllValues P (elim o [
          | Ordering.lt ↦ (k, v) ∷ (j, w) ∷ m
          | Ordering.eq ↦ (k, v) ∷ m
          | Ordering.gt ↦ (j, w) ∷ insert k v m
        ])) [
          | Ordering.lt ↦ (p, a)
          | Ordering.eq ↦ (p, a.1)
          | Ordering.gt ↦ (a.0, insert-AllValues k v m p a.1)
        ]

  pub remove-AllValues : (k : String) (m : Map V) → AllValues P m → AllValues P (remove k m)
  unfolding remove
  remove-AllValues k [] a = tt
  remove-AllValues k ((j, w) ∷ m) a = elim (Bool-cases (j == k)) [
    | inl here ↦ rw (here, remove) a.1
    | inr later ↦ rw (later, remove) (a.0, remove-AllValues k m a.1)
  ]

  pub retain-AllValues :
      (p : String × V → Bool) (m : Map V) → AllValues P m → AllValues P (retain p m)
  unfolding retain
  retain-AllValues p [] a = tt
  retain-AllValues p ((j, w) ∷ m) a = elim (Bool-cases (p (j, w))) [
    | inl kept ↦ rw (kept, retain) (a.0, retain-AllValues p m a.1)
    | inr gone ↦ rw (gone, retain) (retain-AllValues p m a.1)
  ]

  pub get-AllValues : (k : String) (v : V) (m : Map V) → AllValues P m → get k m ≡ some v → P v
  unfolding get
  get-AllValues k v [] a h = cc
  get-AllValues k v ((j, w) ∷ m) a h = elim (Bool-cases (j == k)) [
    | inl here ↦ let same : w ≡ v = ground arith in subst P same a.0
    | inr later ↦ get-AllValues k v m a.1 (ground arith)
  ]
