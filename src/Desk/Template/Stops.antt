-- ===== src/Desk/Template/Stops.antt =====
-- `check_substitutions` of crates/korg-core/src/repo/schedules.rs always ends, and refuses only a name
-- that stands in the template.
use Prim.Native.Char.{Char, code}
use Prim.Native.String.{[], ◌∷◌, ◌++◌, count}
use text.Mathlib.TextEquality.{codes_equal}
use text.Mathlib.TextLemmas.{nil-append, cons-append, append_assoc}
use korg.Base.{
  ℕ, zero, suc, ◌<◌, String, some, Bool, true, false, contains, nat_eq, if◌then◌else◌, ◌≡◌, sym, ap,
  ◌∙◌, inl, inr, arith, Bool-cases, Option-cases,
}
use korg.Core.Vocab.{schedule_substitutions}
use korg.Desk.Template.{
  opening, closing, cut, placeholder_shaped, Scan, accepted, unknown_substitution, refused_name,
  scan, check_substitutions,
}
use korg.Desk.Template.Accepted.{left_brace, right_brace, open_after, Placed, cut-cons, cut-count}

cut-text : (x : Char) (s a b : String) → cut (code x) s ≡ some (a, b) → s ≡ a ++ (x ∷ b)
cut-text x [] a b h = unfold cut in cc
cut-text x (y ∷ s) a b h = elim (cut-cons (code x) y s a b h) [
  | inl (at, e, f) ↦
      rw (e, f, nil-append (x ∷ s)) (ap (λ z. z ∷ s) (codes_equal y x (ground arith)))
  | inr (a', past, found, e) ↦
      rw (e, cons-append y a' (x ∷ b)) (ap (λ z. y ∷ z) (cut-text x s a' b found))
]

open_after-append :
    (o : Bool) (p q : String) → open_after o (p ++ q) ≡ open_after (open_after o p) q
unfolding open_after
open_after-append o [] q = ap (open_after o) (nil-append q)
open_after-append o (x ∷ p) q =
    ap (open_after o) (cons-append x p q)
    ∙ open_after-append
        (if nat_eq (code x) opening then true else if nat_eq (code x) closing then false else o) p q

open_after-before : (s a b : String) → cut opening s ≡ some (a, b) → open_after false a ≡ false
unfolding open_after
open_after-before [] a b h = unfold cut in cc
open_after-before (x ∷ s) a b h = elim (cut-cons opening x s a b h) [
  | inl (at, e, f) ↦ ap (open_after false) e
  | inr (a', past, found, e) ↦
      ap (open_after false) e ∙ ground (arith, open_after-before s a' b found)
]

-- Where the loop goes on after a group, what stands in the rest stands in the text.
module _ (s before after name rest : String) (e : cut opening s ≡ some (before, after))
    (f : cut closing after ≡ some (name, rest)) where
  group_text : s ≡ before ++ (left_brace ∷ (name ++ (right_brace ∷ rest)))
  group_text =
      cut-text left_brace s before after e
      ∙ ap (λ t. before ++ (left_brace ∷ t)) (cut-text right_brace after name rest f)

  group-Placed : Placed s name
  group-Placed = record {
    before = before;
    after = rest;
    text = group_text;
    shut = open_after-before s before after e;
  }

  rest-Placed : {other : String} → Placed rest other → Placed s other
  unfolding open_after
  rest-Placed {other} p =
      let g = left_brace ∷ (other ++ (right_brace ∷ p.after)) in
      record {
        before = before ++ (left_brace ∷ (name ++ (right_brace ∷ p.before)));
        after = p.after;
        text =
            group_text
            ∙ ap (λ t. before ++ (left_brace ∷ (name ++ (right_brace ∷ t)))) p.text
            ∙ sym (simp (append_assoc, cons-append));
        shut =
            open_after-append false before (left_brace ∷ (name ++ (right_brace ∷ p.before)))
            ∙ open_after-append true name (right_brace ∷ p.before)
            ∙ p.shut;
      }

-- What the loop comes to, when it has fuel enough: it accepts the text, or stops at a name that stands
-- in it before which no brace is open, and that is no substitution.
pub data Decided (s : String) : Scan → Type 0 where
  passed : Decided s accepted
  stopped :
      (name : String)
      → Placed s name
      → placeholder_shaped name ≡ true
      → contains schedule_substitutions name ≡ false
      → Decided s (unknown_substitution name)

Decided-rest :
    (s before after name rest : String) {r : Scan}
    → cut opening s ≡ some (before, after)
    → cut closing after ≡ some (name, rest)
    → Decided rest r
    → Decided s r
Decided-rest s before after name rest e f passed = passed
Decided-rest s before after name rest e f (stopped other p shaped unknown) =
    stopped other (rest-Placed s before after name rest e f p) shaped unknown

refused-unknown :
    (name : String)
    → refused_name name ≡ true
    → (placeholder_shaped name ≡ true) × (contains schedule_substitutions name ≡ false)
unfolding refused_name
refused-unknown name h = ground arith

scan-Decided : (fuel : ℕ) (s : String) → count s < fuel → Decided s (scan fuel s)
unfolding scan
scan-Decided zero s h = absurd (omega arith)
scan-Decided (suc fuel) s h = elim (Option-cases (cut opening s)) [
  | inl absent ↦ rw (absent, scan) passed
  | inr ((before, after), e) ↦ elim (Option-cases (cut closing after)) [
    | inl unclosed ↦ rw (e, unclosed, scan) passed
    | inr ((name, rest), f) ↦ elim (Bool-cases (refused_name name)) [
      | inl refused ↦
          let (shaped, unknown) = refused-unknown name refused in
          rw (e, f, refused, scan)
            (stopped name (group-Placed s before after name rest e f) shaped unknown)
      | inr fine ↦
          rw (e, f, fine, scan)
            (Decided-rest s before after name rest e f (
              scan-Decided fuel rest (
                omega (
                  arith,
                  cut-count opening s before after e,
                  cut-count closing after name rest f,
                ))))
    ]
  ]
]

-- The loop ends on every template, with the fuel it is given: it accepts the template, or stops at a
-- `{NAME}` of it before which no brace is open, whose name is made of capitals, digits and `_` and is
-- no substitution.
pub check_substitutions-Decided :
    (template : String) → Decided template (check_substitutions template)
unfolding check_substitutions
check_substitutions-Decided template = scan-Decided (suc (count template)) template (omega arith)
