-- ===== src/Gallery/Owned.antt =====
-- What it is for an image of crates/korg-core/src/repo/attachments.rs to have an owner, and that
-- `relate` keeps it.
use korg.Base.{
  ℕ, String, List, [], ◌∷◌, Option, none, some, Bool, true, false, any, map, retain, nat_eq, ltb,
  find, ◌≡◌, refl, ap, ◌∙◌, arith, Bool-cases, inl, inr,
}
use korg.Core.Registry.{LabelSpec}
use korg.Core.Graph.{Decimal, Edge, Graph, ok}
use korg.Core.Relate.{same, rerank, upsert, write, store, relate}
use korg.Core.Relate.Stored.{relate-stored}
use korg.Desk.Tables.{eq_of_nat_eq}
use korg.Gallery.{Gallery, owns}

-- Whether there is a row of an image.
abbrev pub has_image : Gallery → ℕ → Bool
has_image s id = any (λ a. nat_eq a.node_id id) s.attachments

-- An image that a node owns, which is itself no image.
pub record Owned (owner image : ℕ) (s : Gallery) : Type 0 where
  pub linked : any (owns owner image) s.graph.edges ≡ true
  pub stored : has_image s image ≡ true
  pub no_image : has_image s owner ≡ false
  pub old : ltb owner s.graph.next_node ≡ true

any-rerank :
    (owner image : ℕ) (f : Edge → Bool) (rank : Option Decimal) (es : List Edge)
    → any (owns owner image) (map (rerank f rank) es) ≡ any (owns owner image) es
unfolding rerank
any-rerank owner image f rank [] = refl
any-rerank owner image f rank (e ∷ es) = ground (arith, any-rerank owner image f rank es)

-- `relate` keeps the edge, and does not change which ids are taken.
abbrev pub Linked : ℕ → ℕ → Graph → Graph → Type 0
Linked owner image g g' =
    (any (owns owner image) g.edges ≡ true → any (owns owner image) g'.edges ≡ true)
    × (g'.next_node ≡ g.next_node)

module _ (owner image left right : ℕ) (origin : Option String) (g : Graph) where
  upsert-Linked :
      (o : Option Edge)
      → Linked owner image g (upsert left right "has_attachment" origin none o g).0
  unfolding upsert
  upsert-Linked none = (λ h. ground (arith, h), refl)
  upsert-Linked (some e) =
      (λ h. any-rerank owner image (same left right "has_attachment") none g.edges ∙ h, refl)

  store-Linked :
      (sp : LabelSpec) (o : Option Edge)
      → Linked owner image g (store left right "has_attachment" origin none sp o g).0
  unfolding store write
  store-Linked sp none = upsert-Linked (find (same left right "has_attachment") g.edges)
  store-Linked sp (some e) = elim (Bool-cases sp.directed) [
    | inl directed ↦
        rw (directed, store) (upsert-Linked (find (same left right "has_attachment") g.edges))
    | inr mirrored ↦ rw (mirrored, store) (λ h. h, refl)
  ]

  pub relate-Linked :
      (r : Graph × ℕ)
      → relate left right "has_attachment" origin none g ≡ ok r
      → Linked owner image g r.0
  relate-Linked r h =
      let (sp, known, stored) = relate-stored left right "has_attachment" origin none g r h in
      rw (← stored) (store-Linked sp (find (same right left "has_attachment") g.edges))

pub any-retain :
    {A : Type 0} (p keep : A → Bool) (xs : List A)
    → ((x : A) → p x ≡ true → keep x ≡ true)
    → any p xs ≡ true
    → any p (retain keep xs) ≡ true
unfolding retain
any-retain p keep [] each h = h
any-retain p keep (x ∷ xs) each h = ground (arith, each x, any-retain p keep xs each)

pub any-retain_absent :
    {A : Type 0} (p keep : A → Bool) (xs : List A)
    → any p xs ≡ false
    → any p (retain keep xs) ≡ false
unfolding retain
any-retain_absent p keep [] h = h
any-retain_absent p keep (x ∷ xs) h = ground (arith, any-retain_absent p keep xs)

-- What is found by two tests is found by one.
pub any_weaker :
    {A : Type 0} (p q : A → Bool) (xs : List A)
    → ((x : A) → p x ≡ true → q x ≡ true)
    → any p xs ≡ true
    → any q xs ≡ true
any_weaker p q [] each h = h
any_weaker p q (x ∷ xs) each h = ground (arith, each x, any_weaker p q xs each)

pub none_stronger :
    {A : Type 0} (p q : A → Bool) (xs : List A)
    → ((x : A) → p x ≡ true → q x ≡ true)
    → any q xs ≡ false
    → any p xs ≡ false
none_stronger p q [] each h = h
none_stronger p q (x ∷ xs) each h = ground (arith, each x, none_stronger p q xs each)

pub same_mark : (gone : ℕ → Bool) (a b : ℕ) → nat_eq a b ≡ true → gone b ≡ false → gone a ≡ false
same_mark gone a b same h = ap gone (eq_of_nat_eq a b same) ∙ h
