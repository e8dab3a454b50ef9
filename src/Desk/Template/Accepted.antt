-- ===== src/Desk/Template/Accepted.antt =====
-- What `check_substitutions` of crates/korg-core/src/repo/schedules.rs lets pass, and what it stops at.
use Prim.Native.Char.{Char, char, code}
use Prim.Native.String.{[], ◌∷◌, ◌++◌, count}
use text.Mathlib.TextLemmas.{nil-append, cons-append, length-cons}
use korg.Base.{
  ℕ, zero, suc, ◌<◌, String, none, some, Bool, true, false, contains, nat_eq, if◌then◌else◌, ◌≡◌,
  refl, sym, ap, ◌∙◌, ◌⊎◌, inl, inr, arith, Bool-cases, Option-cases,
}
use korg.Core.Vocab.{schedule_substitutions}
use korg.Desk.Template.{
  opening, closing, cut, capital, capitals, placeholder_shaped, accepted, refused_name, scan,
  check_substitutions,
}

abbrev pub left_brace : Char
left_brace = char 123 tt

abbrev pub right_brace : Char
right_brace = char 125 tt

-- Whether a brace is open after the text, if one is open, or not, before it.
unfoldable pub open_after : Bool → String → Bool
open_after b [] = b
open_after b (c ∷ s) =
    open_after
      (if nat_eq (code c) opening then true else if nat_eq (code c) closing then false else b) s

-- `{name}` stands in the text, and no brace is open before it.
pub record Placed (template name : String) : Type 0 where
  pub before : String
  pub after : String
  pub text : template ≡ before ++ (left_brace ∷ (name ++ (right_brace ∷ after)))
  pub shut : open_after false before ≡ false

-- A cut of a text that is not empty: at its first character, or in what follows.
pub cut-cons :
    (c : ℕ) (x : Char) (s a b : String)
    → cut c (x ∷ s) ≡ some (a, b)
    → ((nat_eq (code x) c ≡ true) × (a ≡ []) × (b ≡ s))
      ⊎ ((a' : String) × (nat_eq (code x) c ≡ false) × (cut c s ≡ some (a', b)) × (a ≡ (x ∷ a')))
unfolding cut
cut-cons c x s a b h = elim (Bool-cases (nat_eq (code x) c)) [
  | inl at ↦ let h' : some ([], s) ≡ some (a, b) = rw (at, cut) at h in inl (at, cc, cc)
  | inr past ↦ elim (Option-cases (cut c s)) [
    | inl absent ↦ absurd (ground arith)
    | inr ((a', b'), found) ↦
        let h' : some (x ∷ a', b') ≡ some (a, b) = rw (past, found, cut) at h in
        inr (a', past, found ∙ cc, cc)
  ]
]

pub cut-count : (c : ℕ) (s a b : String) → cut c s ≡ some (a, b) → count b < count s
unfolding cut
cut-count c [] a b h = cc
cut-count c (x ∷ s) a b h = elim (cut-cons c x s a b h) [
  | inl (at, e, f) ↦ omega (arith, length-cons x s, ap count f)
  | inr (a', past, found, e) ↦ omega (arith, length-cons x s, cut-count c s a' b found)
]

cut_past :
    (c : ℕ) (x : Char) (s a b : String)
    → nat_eq (code x) c ≡ false
    → cut c s ≡ some (a, b)
    → cut c (x ∷ s) ≡ some (x ∷ a, b)
unfolding cut
cut_past c x s a b past found = rw (past, found, cut) refl

cut-append_found :
    (c : ℕ) (p q a b : String) → cut c p ≡ some (a, b) → cut c (p ++ q) ≡ some (a, b ++ q)
cut-append_found c [] q a b h = unfold cut in cc
cut-append_found c (x ∷ p) q a b h = elim (cut-cons c x p a b h) [
  | inl (at, e, f) ↦ rw (cons-append x p q, e, f) (unfold cut in rw (at, cut) refl)
  | inr (a', past, found, e) ↦
      rw (cons-append x p q, e)
        (cut_past c x (p ++ q) a' (b ++ q) past (cut-append_found c p q a' b found))
]

cut-append_missing :
    (c : ℕ) (p q : String) (x : Char)
    → cut c p ≡ none
    → nat_eq (code x) c ≡ true
    → cut c (p ++ (x ∷ q)) ≡ some (p, q)
unfolding cut
cut-append_missing c [] q x h e = rw (nil-append (x ∷ q)) (ground arith)
cut-append_missing c (y ∷ p) q x h e =
    rw (cons-append y p (x ∷ q)) (ground (arith, cut-append_missing c p q x))

open_after-cut-opening :
    (s a b : String) → cut opening s ≡ some (a, b) → open_after false s ≡ open_after true b
unfolding open_after
open_after-cut-opening [] a b h = unfold cut in cc
open_after-cut-opening (x ∷ s) a b h = elim (cut-cons opening x s a b h) [
  | inl (at, e, f) ↦ ground arith
  | inr (a', past, found, e) ↦ ground (arith, open_after-cut-opening s a' b found)
]

open_after-cut-closing :
    (o : Bool) (s a b : String) → cut closing s ≡ some (a, b) → open_after o s ≡ open_after false b
unfolding open_after
open_after-cut-closing o [] a b h = unfold cut in cc
open_after-cut-closing o (x ∷ s) a b h = elim (cut-cons closing x s a b h) [
  | inl (at, e, f) ↦ ground arith
  | inr (a', past, found, e) ↦
      open_after-cut-closing
        (if nat_eq (code x) opening then true else if nat_eq (code x) closing then false else o) s
        a' b found
]

open_after-not_closed : (s : String) → cut closing s ≡ none → open_after true s ≡ true
unfolding open_after cut
open_after-not_closed [] h = refl
open_after-not_closed (x ∷ s) h = ground (arith, open_after-not_closed s)

capitals-cut : (s : String) → capitals s ≡ true → cut closing s ≡ none
unfolding capitals capital cut
capitals-cut [] h = refl
capitals-cut (x ∷ s) h = ground (arith, capitals-cut s)

not_refused-known :
    (name : String)
    → placeholder_shaped name ≡ true
    → refused_name name ≡ false
    → contains schedule_substitutions name ≡ true
unfolding refused_name
not_refused-known name shaped h = ground arith

true_or_false : true ≡ false → ⊥
true_or_false h = cc

-- One round of the loop, on a text whose first group is known.
scan_group :
    (fuel : ℕ) (s before after name rest : String)
    → cut opening s ≡ some (before, after)
    → cut closing after ≡ some (name, rest)
    → scan (suc fuel) s ≡ accepted
    → (refused_name name ≡ false) × (scan fuel rest ≡ accepted)
unfolding scan
scan_group fuel s before after name rest e f h = ground arith

shaped-capitals : (s : String) → placeholder_shaped s ≡ true → capitals s ≡ true
unfolding placeholder_shaped
shaped-capitals [] h = cc
shaped-capitals (x ∷ s) h = h

scan-known :
    (fuel : ℕ) (pre name post : String)
    → open_after false pre ≡ false
    → placeholder_shaped name ≡ true
    → scan fuel (pre ++ (left_brace ∷ (name ++ (right_brace ∷ post)))) ≡ accepted
    → contains schedule_substitutions name ≡ true
scan-known zero pre name post shut shaped h = unfold scan in cc
scan-known (suc fuel) pre name post shut shaped h =
    let group = left_brace ∷ (name ++ (right_brace ∷ post)) in
    elim (Option-cases (cut opening pre)) [
      | inl absent ↦
          let (fine, more) =
            scan_group fuel (pre ++ group) pre (name ++ (right_brace ∷ post)) name post
              (cut-append_missing opening pre (name ++ (right_brace ∷ post)) left_brace absent refl)
              (cut-append_missing closing name post right_brace
                (capitals-cut name (shaped-capitals name shaped)) refl)
              h in
          not_refused-known name shaped fine
      | inr ((a, b), found) ↦ elim (Option-cases (cut closing b)) [
        | inl open_still ↦ absurd (
            true_or_false (
              sym (open_after-not_closed b open_still)
              ∙ sym (open_after-cut-opening pre a b found)
              ∙ shut))
        | inr ((other, r), shut_again) ↦
            let (fine, more) =
              scan_group fuel (pre ++ group) a (b ++ group) other (r ++ group)
                (cut-append_found opening pre group a b found)
                (cut-append_found closing b group other r shut_again) h in
            scan-known fuel r name post
              (sym (open_after-cut-closing true b other r shut_again)
                ∙ sym (open_after-cut-opening pre a b found)
                ∙ shut)
              shaped more
      ]
    ]

-- In a template that is accepted, every `{NAME}` before which no brace is open is one of the
-- substitutions, where the name is made of capitals, digits and `_`.
pub check_substitutions-known :
    (template name : String)
    → check_substitutions template ≡ accepted
    → Placed template name
    → placeholder_shaped name ≡ true
    → contains schedule_substitutions name ≡ true
unfolding check_substitutions
check_substitutions-known template name h p shaped =
    scan-known (suc (count template)) p.before name p.after p.shut shaped
      (ap (scan (suc (count template))) (sym p.text) ∙ h)
