-- ===== src/Core/Relate/Stored.antt =====
-- What `relate` of crates/korg-core has written when it accepts an edge.
use korg.Base.{ℕ, String, Option, none, some, ◌≡◌, refl, arith, find, Option-cases, inl, inr}
use korg.Core.Registry.{LabelSpec, spec}
use korg.Core.Graph.{Decimal, Graph, ok, node_kind}
use korg.Core.Programs.Slices.{after-ok, ok-injective}
use korg.Core.Relate.{
  mismatched, same, store, project_check, soak_check, with_kinds, with_spec, relate,
}

module _ (left right : ℕ) (label : String) (origin : Option String) (rank : Option Decimal)
    (g : Graph) (r : Graph × ℕ) where
  with_kinds-stored :
      (sp : LabelSpec) (lk rk : Option String)
      → with_kinds left right label origin rank sp g lk rk ≡ ok r
      → store left right label origin rank sp (find (same right left label) g.edges) g ≡ r
  unfolding with_kinds
  with_kinds-stored sp none rk h = cc
  with_kinds-stored sp (some lk) none h = cc
  with_kinds-stored sp (some lk) (some rk) h = elim (Option-cases (mismatched sp.left_kind lk)) [
    | inr (k, wrong) ↦ absurd (ground arith)
    | inl left_fits ↦ elim (Option-cases (mismatched sp.right_kind rk)) [
      | inr (k, wrong) ↦ absurd (ground arith)
      | inl right_fits ↦ ok-injective (
          after-ok (soak_check left right label g) _ r
            (after-ok (project_check left right label sp g) _ r (ground arith)))
    ]
  ]

  with_spec-stored :
      (o : Option LabelSpec)
      → with_spec left right label origin rank g o ≡ ok r
      → (sp : LabelSpec) × (o ≡ some sp)
        × (store left right label origin rank sp (find (same right left label) g.edges) g ≡ r)
  unfolding with_spec
  with_spec-stored none h = cc
  with_spec-stored (some sp) h =
      (sp, refl, with_kinds-stored sp (node_kind g left) (node_kind g right) h)

  pub relate-stored :
      relate left right label origin rank g ≡ ok r
      → (sp : LabelSpec) × (spec label ≡ some sp)
        × (store left right label origin rank sp (find (same right left label) g.edges) g ≡ r)
  unfolding relate
  relate-stored h = with_spec-stored (spec label) (ground arith)
