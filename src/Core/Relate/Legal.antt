-- ===== src/Core/Relate/Legal.antt =====
-- The rules of `relate` in crates/korg-core: what an edge that was accepted joins.
use korg.Base.{
  ℕ, String, [], Option, none, some, true, false, ◌≡◌, ◌≢◌, refl, inl, inr, ◌⊎◌, arith, nat_eq,
  blank, is_some, unwrap_or, eq_iff, Option-cases, find,
}
use korg.Core.Registry.{LabelSpec, spec, soaks_label}
use korg.Core.Graph.{WorkItem, Decimal, Graph, ok, after, node_kind, node_project, work_item}
use korg.Core.Programs.Slices.{after-ok, after-none}
use korg.Core.Relate.{
  mismatched, projects, missing, covered, soak, same, store, project_check, soak_check, with_kinds,
  with_spec, relate,
}

-- A kind that the label asks for, or any.
abbrev pub Fits : Option String → String → Type 0
Fits expected kind = (expected ≡ none) ⊎ (expected ≡ some kind)

-- A work item that may be soaked: it says when and what voids it, and no live proposal covers it.
pub record Soakable (g : Graph) (right : ℕ) : Type 0 where
  pub item : WorkItem
  pub found : work_item g right ≡ some item
  pub dated : is_some item.check_after ≡ true
  pub voidable : blank (unwrap_or item.invalidated_if "") ≡ false
  pub uncovered : covered g right ≡ false

pub record Legal (g : Graph) (left right : ℕ) (label : String) : Type 0 where
  pub entry : LabelSpec
  pub left_kind : String
  pub right_kind : String
  pub two_nodes : left ≢ right
  pub registered : spec label ≡ some entry
  pub left_is : node_kind g left ≡ some left_kind
  pub right_is : node_kind g right ≡ some right_kind
  pub left_fits : Fits entry.left_kind left_kind
  pub right_fits : Fits entry.right_kind right_kind
  pub one_project :
      (lp rp : String)
      → entry.same_project ≡ true
      → node_project g left ≡ some (some lp)
      → node_project g right ≡ some (some rp)
      → lp ≡ rp
  pub soakable : label ≡ soaks_label → Soakable g right

mismatched-none :
    (expected : Option String) (kind : String)
    → mismatched expected kind ≡ none
    → Fits expected kind
unfolding mismatched
mismatched-none none kind h = inl refl
mismatched-none (some e) kind h = inr (ground (arith, eq_iff kind e))

missing-nil :
    (w : WorkItem)
    → missing w ≡ []
    → (is_some w.check_after ≡ true) × (blank (unwrap_or w.invalidated_if "") ≡ false)
unfolding missing
missing-nil w h = ground arith

soak-Soakable :
    (g : Graph) (right : ℕ) (o : Option WorkItem)
    → work_item g right ≡ o
    → soak g right o ≡ none
    → Soakable g right
unfolding soak
soak-Soakable g right none e h = cc
soak-Soakable g right (some w) e h =
    let (dated, voidable) = missing-nil w (ground arith) in
    record { item = w; found = e; dated = dated; voidable = voidable; uncovered = ground arith }

projects-none :
    (g : Graph) (right : ℕ) (lp rp : String)
    → projects g right (some (some lp)) (some (some rp)) ≡ none
    → lp ≡ rp
unfolding projects
projects-none g right lp rp h = (eq_iff lp rp).0 (ground arith)

project_check-none :
    (g : Graph) (left right : ℕ) (label : String) (sp : LabelSpec) (lp rp : String)
    → project_check left right label sp g ≡ none
    → sp.same_project ≡ true
    → node_project g left ≡ some (some lp)
    → node_project g right ≡ some (some rp)
    → lp ≡ rp
unfolding project_check
project_check-none g left right label sp lp rp h s a b =
    projects-none g right lp rp (rw (s, a, b, project_check) at h)

soak_check-none :
    (g : Graph) (left right : ℕ) (label : String)
    → soak_check left right label g ≡ none
    → label ≡ soaks_label
    → soak g right (work_item g right) ≡ none
unfolding soak_check
soak_check-none g left right label h e = ground (arith, (eq_iff label soaks_label).1 e)

same_nat_eq : (a b : ℕ) → a ≡ b → nat_eq a b ≡ true
same_nat_eq a b e = ground arith

module _ (g : Graph) (left right : ℕ) (label : String) (origin : Option String)
    (rank : Option Decimal) (r : Graph × ℕ) (apart : left ≢ right) where
  with_kinds-Legal :
      (sp : LabelSpec) (lk rk : Option String)
      → spec label ≡ some sp
      → node_kind g left ≡ lk
      → node_kind g right ≡ rk
      → with_kinds left right label origin rank sp g lk rk ≡ ok r
      → Legal g left right label
  unfolding with_kinds
  with_kinds-Legal sp none rk e l k h = cc
  with_kinds-Legal sp (some lk) none e l k h = cc
  with_kinds-Legal sp (some lk) (some rk) e l k h =
      elim (Option-cases (mismatched sp.left_kind lk)) [
        | inr (x, wrong) ↦ absurd (ground arith)
        | inl left_fits ↦ elim (Option-cases (mismatched sp.right_kind rk)) [
          | inr (x, wrong) ↦ absurd (ground arith)
          | inl right_fits ↦
              let checks : after (project_check left right label sp g) (
                    after (soak_check left right label g) (
                      ok (
                        store left right label origin rank sp (find (same right left label) g.edges)
                          g)))
                  ≡ ok r =
                ground arith in
              let first = after-none (project_check left right label sp g) _ r checks in
              let second =
                after-none (soak_check left right label g) _ r
                  (after-ok (project_check left right label sp g) _ r checks) in
              record {
                entry = sp;
                left_kind = lk;
                right_kind = rk;
                two_nodes = apart;
                registered = e;
                left_is = l;
                right_is = k;
                left_fits = mismatched-none sp.left_kind lk left_fits;
                right_fits = mismatched-none sp.right_kind rk right_fits;
                one_project = λ lp rp. project_check-none g left right label sp lp rp first;
                soakable = λ s.
                    soak-Soakable g right (work_item g right) refl
                      (soak_check-none g left right label second s);
              }
        ]
      ]

  with_spec-Legal :
      (o : Option LabelSpec)
      → spec label ≡ o
      → with_spec left right label origin rank g o ≡ ok r
      → Legal g left right label
  unfolding with_spec
  with_spec-Legal none e h = cc
  with_spec-Legal (some sp) e h =
      with_kinds-Legal sp (node_kind g left) (node_kind g right) e refl refl h

-- An edge is accepted only between two different nodes that exist, under a registered label, with the
-- kinds that the label asks for, within one project where the label asks for that and both are
-- filed, and, under `soaks`, to a work item that says when it can be judged and what voids it, and
-- that no live proposal covers.
pub relate-Legal :
    (g : Graph) (left right : ℕ) (label : String) (origin : Option String) (rank : Option Decimal)
    (r : Graph × ℕ)
    → relate left right label origin rank g ≡ ok r
    → Legal g left right label
unfolding relate
relate-Legal g left right label origin rank r h =
    with_spec-Legal g left right label origin rank r
      (λ same. ground (arith, same_nat_eq left right same)) (spec label) refl (ground arith)
