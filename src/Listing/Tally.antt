-- ===== src/Listing/Tally.antt =====
-- Counting rows, for the queue reads of crates/korg-core/src/repo.
use korg.Base.{
  ℕ, ◌+◌, ◌-◌, zero, suc, min, take, drop, String, Option, none, some, not, ◌&&◌, contains, sym,
  List, [], ◌∷◌, Bool, true, false, length, retain, all, if◌then◌else◌, ◌≡◌, refl, ap, arith, ◌∙◌,
  Bool-cases, inl, inr,
}
use korg.Listing.{Listed, tally, hidden, place, ordered}

abbrev pub one_if : Bool → ℕ
one_if b = if b then 1 else 0

length-retain : (p : Listed → Bool) (rs : List Listed) → length (retain p rs) ≡ tally p rs
unfolding retain tally
length-retain p [] = refl
length-retain p (r ∷ rs) = ground (arith, length-retain p rs)

length-place :
    (before : Listed → Listed → Bool) (r : Listed) (rs : List Listed)
    → length (place before r rs) ≡ suc (length rs)
unfolding place
length-place before r [] = refl
length-place before r (x ∷ xs) = ground (arith, length-place before r xs)

length-ordered :
    (before : Listed → Listed → Bool) (rs : List Listed) → length (ordered before rs) ≡ length rs
unfolding ordered
length-ordered before [] = refl
length-ordered before (r ∷ rs) =
    length-place before r (ordered before rs) ∙ ap suc (length-ordered before rs)

-- The number of rows that a read gives.
pub length-listed :
    (before : Listed → Listed → Bool) (p : Listed → Bool) (rs : List Listed)
    → length (ordered before (retain p rs)) ≡ tally p rs
length-listed before p rs = length-ordered before (retain p rs) ∙ length-retain p rs

-- Tests of which every row passes exactly one, when it passes the last, count what that one counts.
pub tally-four :
    (ok p q r s whole : Listed → Bool) (rs : List Listed)
    → ((x : Listed)
        → ok x ≡ true
        → one_if (p x) + (one_if (q x) + (one_if (r x) + one_if (s x))) ≡ one_if (whole x))
    → all ok rs ≡ true
    → tally p rs + (tally q rs + (tally r rs + tally s rs)) ≡ tally whole rs
unfolding tally
tally-four ok p q r s whole [] each h = refl
tally-four ok p q r s whole (x ∷ xs) each h =
    ground (arith, each x, tally-four ok p q r s whole xs each)

pub tally_none : (rs : List Listed) → tally (λ r. false) rs ≡ 0
unfolding tally
tally_none [] = refl
tally_none (r ∷ rs) = omega (arith, tally_none rs)

-- Whether a filter for a status hides another one.
abbrev pub hides : Option (List String) → String → Bool
hides none status = false
hides (some list) status = not (contains list status)

pub hidden-tally :
    (shown : Option (List String)) (status : String) (p : Listed → Bool) (rs : List Listed)
    → hidden shown status (tally p rs) ≡ tally (λ r. hides shown status && p r) rs
unfolding hidden
hidden-tally none status p rs = sym (tally_none rs)
hidden-tally (some list) status p rs = elim (Bool-cases (contains list status)) [
  | inl asked ↦ rw asked (sym (tally_none rs))
  | inr other ↦ rw other refl
]

abbrev pub both : (Bool → Bool) → Bool
both f = f true && f false

pub both-holds : (f : Bool → Bool) (b : Bool) → both f ≡ true → f b ≡ true
both-holds f true h = ground (arith, h)
both-holds f false h = ground (arith, h)

-- A test of four Booleans that passes on all of them.
pub every_four :
    (f : Bool → Bool → Bool → Bool → Bool) (a b c d : Bool)
    → both (λ a. both (λ b. both (λ c. both (f a b c)))) ≡ true
    → f a b c d ≡ true
every_four f a b c d h = both-holds (f a b c) d (
    both-holds (λ c. both (f a b c)) c
      (both-holds (λ b. both (λ c. both (f a b c))) b
        (both-holds (λ a. both (λ b. both (λ c. both (f a b c)))) a h)))

pub tally_same :
    (p q : Listed → Bool) (rs : List Listed) → ((x : Listed) → p x ≡ q x) → tally p rs ≡ tally q rs
unfolding tally
tally_same p q [] each = refl
tally_same p q (r ∷ rs) each = rw (each r, tally_same p q rs each) refl

length-take : (n : ℕ) (rs : List Listed) → length (take n rs) ≡ min n (length rs)
length-take zero rs = omega arith
length-take (suc n) [] = omega arith
length-take (suc n) (r ∷ rs) = omega (arith, length-take n rs)

length-drop : (n : ℕ) (rs : List Listed) → length (drop n rs) ≡ length rs - n
length-drop zero rs = omega arith
length-drop (suc n) [] = omega arith
length-drop (suc n) (r ∷ rs) = omega (arith, length-drop n rs)

-- A page has the rows that are left past its offset, up to its limit.
pub length-page :
    (limit offset : ℕ) (rs : List Listed)
    → length (take limit (drop offset rs)) ≡ min limit (length rs - offset)
length-page limit offset rs =
    length-take limit (drop offset rs) ∙ ap (min limit) (length-drop offset rs)
