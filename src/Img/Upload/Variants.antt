-- ===== src/Img/Upload/Variants.antt =====
-- What a reader may rely on of an upload that `prepare` accepted (crates/korg-img/src/lib.rs).
use korg.Base.{
  ◌≡◌, refl, sym, ap, subst, ◌∙◌, ◌⊎◌, inl, inr, ℕ, String, List, [], ◌∷◌, Option, none, some, Bool,
  true, false, arith, Bool-cases, find, is_some,
}
use korg.Img.Upload.{
  Variant, thumb, agent, same_variant, fits_original, ext_for_mime, Picture, Codec, PreparedVariant,
  supplanted_by_the_original, fitted, encoded_as, encode_variant, encode_all,
}

same_variant-eq : (v w : Variant) → same_variant v w ≡ true → v ≡ w
unfolding same_variant
same_variant-eq thumb thumb h = refl
same_variant-eq agent agent h = refl
same_variant-eq thumb agent h = cc
same_variant-eq agent thumb h = cc

same_variant_refl : (v : Variant) → same_variant v v ≡ true
unfolding same_variant
same_variant_refl thumb = refl
same_variant_refl agent = refl

pub record Encoded (c : Codec) (image : Picture) (v : Variant) (e : PreparedVariant) : Type 0 where
  pub variant_is : e.variant ≡ v
  pub width_is : e.width ≡ (fitted c v image).width
  pub height_is : e.height ≡ (fitted c v image).height
  pub has_ext : is_some (ext_for_mime e.mime) ≡ true

pub either-cases {ℓ κ} :
    {A : Type ℓ} {B : Type κ} (s : A ⊎ B) → ((a : A) × (s ≡ inl a)) ⊎ ((b : B) × (s ≡ inr b))
either-cases (inl a) = inl (a, refl)
either-cases (inr b) = inr (b, refl)

supplanted-agent :
    (e : PreparedVariant) (n width height : ℕ)
    → supplanted_by_the_original e n width height ≡ true
    → (e.variant ≡ agent) × (fits_original agent width height ≡ true)
unfolding supplanted_by_the_original
supplanted-agent e n width height h = (same_variant-eq e.variant agent (ground arith), ground arith)

found-here :
    (e : PreparedVariant) (rest : List PreparedVariant) (v : Variant)
    → same_variant e.variant v ≡ true
    → is_some (find (λ m. same_variant m.variant v) (e ∷ rest)) ≡ true
found-here e rest v same = ground arith

found-there :
    (e : PreparedVariant) (rest : List PreparedVariant) (v : Variant)
    → is_some (find (λ m. same_variant m.variant v) rest) ≡ true
    → is_some (find (λ m. same_variant m.variant v) (e ∷ rest)) ≡ true
found-there e rest v there = ground arith

module _ (c : Codec) (image : Picture) where
  encoded_as-Encoded :
      (v : Variant) (mime : String) (o : Option (List ℕ)) (e : PreparedVariant)
      → is_some (ext_for_mime mime) ≡ true
      → encoded_as c v (fitted c v image) mime o ≡ inr e
      → Encoded c image v e
  unfolding encoded_as
  encoded_as-Encoded v mime none e stored h = cc
  encoded_as-Encoded v mime (some bytes) e stored h = record {
    variant_is = cc;
    width_is = cc;
    height_is = cc;
    has_ext = cc;
  }

  encode_variant-Encoded :
      (v : Variant) (lossless : Bool) (e : PreparedVariant)
      → encode_variant c image v lossless ≡ inr e
      → Encoded c image v e
  unfolding encode_variant ext_for_mime
  encode_variant-Encoded v true e h =
      encoded_as-Encoded v "image/png" (c.encode_png (fitted c v image)) e refl h
  encode_variant-Encoded v false e h =
      encoded_as-Encoded v "image/jpeg" (c.encode_jpeg (fitted c v image)) e refl h

  -- One round of the loop that did not fail.
  record Round (n : ℕ) (v : Variant) (vs : List Variant) (made : List PreparedVariant)
      : Type 0 where
    encoded : PreparedVariant
    rest : List PreparedVariant
    encoded_is : encode_variant c image v image.has_alpha ≡ inr encoded
    rest_is : encode_all c image n vs ≡ inr rest
    made_is :
        ((supplanted_by_the_original encoded n image.width image.height ≡ true) × (made ≡ rest))
        ⊎ ((supplanted_by_the_original encoded n image.width image.height ≡ false)
            × (made ≡ (encoded ∷ rest)))

  encode_all-Round :
      (n : ℕ) (v : Variant) (vs : List Variant) (made : List PreparedVariant)
      → encode_all c image n (v ∷ vs) ≡ inr made
      → Round n v vs made
  unfolding encode_all
  encode_all-Round n v vs made h = elim (either-cases (encode_variant c image v image.has_alpha)) [
    | inl (x, wrong) ↦ absurd (ground arith)
    | inr (encoded, e) ↦ elim (either-cases (encode_all c image n vs)) [
      | inl (x, wrong) ↦ absurd (ground arith)
      | inr (rest, r) ↦ record {
        encoded = encoded;
        rest = rest;
        encoded_is = e;
        rest_is = r;
        made_is =
            elim (Bool-cases (supplanted_by_the_original encoded n image.width image.height)) [
              | inl dropped ↦ inl (dropped, ground arith)
              | inr kept ↦ inr (kept, ground arith)
            ];
      }
    ]
  ]

  Encoded-found :
      (w v : Variant) (encoded e : PreparedVariant)
      → Encoded c image w encoded
      → same_variant encoded.variant v ≡ true
      → encoded ≡ e
      → Encoded c image v e
  Encoded-found w v encoded e made same k =
      let wv : w ≡ v = sym made.variant_is ∙ same_variant-eq encoded.variant v same in
      subst (λ x. Encoded c image x e) wv (subst (λ x. Encoded c image w x) k made)

  pub encode_all-find :
      (n : ℕ) (vs : List Variant) (made : List PreparedVariant) (v : Variant) (e : PreparedVariant)
      → encode_all c image n vs ≡ inr made
      → find (λ m. same_variant m.variant v) made ≡ some e
      → Encoded c image v e
  unfolding encode_all
  encode_all-find n [] made v e h found = ground arith
  encode_all-find n (w ∷ vs) made v e h found =
      let r = encode_all-Round n w vs made h in
      elim r.made_is [
        | inl (dropped, m) ↦
            encode_all-find n vs r.rest v e r.rest_is
              (ap (find (λ x. same_variant x.variant v)) (sym m) ∙ found)
        | inr (kept, m) ↦
            let there : find (λ x. same_variant x.variant v) (r.encoded ∷ r.rest) ≡ some e =
              ap (find (λ x. same_variant x.variant v)) (sym m) ∙ found in
            elim (Bool-cases (same_variant r.encoded.variant v)) [
              | inl same ↦
                  Encoded-found w v r.encoded e
                    (encode_variant-Encoded w image.has_alpha r.encoded r.encoded_is) same
                    (ground arith)
              | inr other ↦ encode_all-find n vs r.rest v e r.rest_is (ground arith)
            ]
      ]

  pub encode_all-covers :
      (n : ℕ) (vs : List Variant) (made : List PreparedVariant) (v : Variant)
      → encode_all c image n vs ≡ inr made
      → is_some (find (λ w. same_variant w v) vs) ≡ true
      → (is_some (find (λ m. same_variant m.variant v) made) ≡ true)
        ⊎ ((v ≡ agent) × (fits_original agent image.width image.height ≡ true))
  unfolding encode_all
  encode_all-covers n [] made v h listed = cc
  encode_all-covers n (w ∷ vs) made v h listed =
      let r = encode_all-Round n w vs made h in
      let is_w = (encode_variant-Encoded w image.has_alpha r.encoded r.encoded_is).variant_is in
      elim (Bool-cases (same_variant w v)) [
        | inl same ↦ elim r.made_is [
          | inl (dropped, m) ↦
              let (is_agent, fits) =
                supplanted-agent r.encoded n image.width image.height dropped in
              inr (sym (same_variant-eq w v same) ∙ sym is_w ∙ is_agent, fits)
          | inr (kept, m) ↦ inl (
              ap (λ x. is_some (find (λ y. same_variant y.variant v) x)) m
              ∙ found-here r.encoded r.rest v (ap (λ x. same_variant x v) is_w ∙ same))
        ]
        | inr other ↦ elim (encode_all-covers n vs r.rest v r.rest_is (ground arith)) [
          | inr fits ↦ inr fits
          | inl there ↦ elim r.made_is [
            | inl (dropped, m) ↦
                inl (ap (λ x. is_some (find (λ y. same_variant y.variant v) x)) m ∙ there)
            | inr (kept, m) ↦ inl (
                ap (λ x. is_some (find (λ y. same_variant y.variant v) x)) m
                ∙ found-there r.encoded r.rest v there)
          ]
        ]
      ]
