-- ===== src/Img/Upload/Accepted.antt =====
-- An upload that `prepare` accepted (crates/korg-img/src/lib.rs): its sizes and its files.
use korg.Base.{
  ◌≡◌, refl, ap, ◌∙◌, ◌⊎◌, inl, inr, ℕ, String, max, ◌≤◌, List, [], ◌∷◌, length, Option, none, some,
  true, arith, leb, ltb, Bool-cases, find, is_some,
}
use korg.Core.Error.{ImgError}
use korg.Img.Upload.{
  Variant, thumb, agent, variants, same_variant, long_edge, fits_original, ext_for_mime, Format,
  png, jpeg, gif, webp, bmp, other_format, is_accepted, Picture, Codec, PreparedVariant, Prepared,
  find_variant, fitted, encode_all, max_upload_bytes, prepared, with_picture, with_format, prepare,
}
use korg.Img.Upload.Variants.{encode_all-find, encode_all-covers}

record Accepted (c : Codec) (bytes : List ℕ) (p : Prepared) : Type 0 where
  format : Format
  image : Picture
  is_format : is_accepted format ≡ true
  made_is : encode_all c image (length bytes) variants ≡ inr p.variants
  mime_is : p.mime ≡ c.to_mime_type format
  width_is : p.width ≡ image.width
  height_is : p.height ≡ image.height

-- The registered names of the formats.
unfoldable pub registered : Format → String
registered png = "image/png"
registered jpeg = "image/jpeg"
registered gif = "image/gif"
registered webp = "image/webp"
registered bmp = "image/bmp"
registered (other_format name) = name

registered-stored :
    (f : Format) → is_accepted f ≡ true → is_some (ext_for_mime (registered f)) ≡ true
unfolding registered ext_for_mime is_accepted
registered-stored png ok = refl
registered-stored jpeg ok = refl
registered-stored gif ok = refl
registered-stored webp ok = refl
registered-stored bmp ok = refl
registered-stored (other_format name) ok = cc

long_edge-positive : (v : Variant) → 1 ≤ long_edge v
unfolding long_edge
long_edge-positive thumb = omega arith
long_edge-positive agent = omega arith

module _ (c : Codec) where
  prepared-Accepted :
      (bytes : List ℕ) (format : Format) (image : Picture) (made : ImgError ⊎ List PreparedVariant)
      (p : Prepared)
      → is_accepted format ≡ true
      → encode_all c image (length bytes) variants ≡ made
      → prepared c bytes format image made ≡ inr p
      → Accepted c bytes p
  unfolding prepared
  prepared-Accepted bytes format image (inl e) p ok m h = cc
  prepared-Accepted bytes format image (inr made) p ok m h = record {
    format = format;
    image = image;
    is_format = ok;
    made_is = cc;
    mime_is = cc;
    width_is = cc;
    height_is = cc;
  }

  with_picture-Accepted :
      (bytes : List ℕ) (format : Format) (o : Option Picture) (p : Prepared)
      → is_accepted format ≡ true
      → with_picture c bytes format o ≡ inr p
      → Accepted c bytes p
  unfolding with_picture
  with_picture-Accepted bytes format none p ok h = cc
  with_picture-Accepted bytes format (some image) p ok h =
      prepared-Accepted bytes format image (encode_all c image (length bytes) variants) p ok refl h

  with_format-Accepted :
      (bytes : List ℕ) (o : Option Format) (p : Prepared)
      → with_format c bytes o ≡ inr p
      → Accepted c bytes p
  unfolding with_format
  with_format-Accepted bytes none p h = cc
  with_format-Accepted bytes (some format) p h = elim (Bool-cases (is_accepted format)) [
    | inl ok ↦ with_picture-Accepted bytes format (c.decode format bytes) p ok (ground arith)
    | inr other ↦ absurd (ground arith)
  ]

  prepare-Accepted : (bytes : List ℕ) (p : Prepared) → prepare c bytes ≡ inr p → Accepted c bytes p
  unfolding prepare
  prepare-Accepted [] p h = cc
  prepare-Accepted (b ∷ bytes) p h = elim (Bool-cases (leb (length (b ∷ bytes)) max_upload_bytes)) [
    | inl fits ↦ with_format-Accepted (b ∷ bytes) (c.guess_format (b ∷ bytes)) p (ground arith)
    | inr over ↦ absurd (ground arith)
  ]

  listed : (v : Variant) → is_some (find (λ w. same_variant w v) variants) ≡ true
  unfolding same_variant
  listed thumb = refl
  listed agent = refl

  -- A size that is missing from an accepted upload is `agent`, and the original fits into it: the
  -- reader, who knows the original's width and height only, can tell that it may be missing.
  pub prepare-covers :
      (bytes : List ℕ) (p : Prepared) (v : Variant)
      → prepare c bytes ≡ inr p
      → (is_some (find_variant v p) ≡ true)
        ⊎ ((v ≡ agent) × (fits_original agent p.width p.height ≡ true))
  unfolding find_variant
  prepare-covers bytes p v h =
      let a = prepare-Accepted bytes p h in
      elim (encode_all-covers c a.image (length bytes) variants p.variants v a.made_is (listed v)) [
        | inl there ↦ inl there
        | inr (is_agent, fits) ↦ inr (
          is_agent,
          ap (fits_original agent p.width) a.height_is
              ∙ ap (λ w. fits_original agent w a.image.height) a.width_is
              ∙ fits,
        )
      ]

  fitted-bound :
      ((edge : ℕ) (i : Picture)
        → 1 ≤ edge
        → max (c.resize edge edge i).width (c.resize edge edge i).height ≤ edge)
      → (v : Variant) (i : Picture) → max (fitted c v i).width (fitted c v i).height ≤ long_edge v
  unfolding fitted
  fitted-bound fits v i = elim (Bool-cases (ltb (long_edge v) (max i.width i.height))) [
    | inl over ↦ rw (over, fitted) (fits (long_edge v) i (long_edge-positive v))
    | inr small ↦ rw (small, fitted) (ground arith)
  ]

  -- No size is wider or higher than its long edge, when `resize` fits a picture into the box it is
  -- given.
  pub prepare-bounded :
      ((edge : ℕ) (i : Picture)
        → 1 ≤ edge
        → max (c.resize edge edge i).width (c.resize edge edge i).height ≤ edge)
      → (bytes : List ℕ) (p : Prepared) (v : Variant) (e : PreparedVariant)
      → prepare c bytes ≡ inr p
      → find_variant v p ≡ some e
      → max e.width e.height ≤ long_edge v
  unfolding find_variant
  prepare-bounded fits bytes p v e h found =
      let a = prepare-Accepted bytes p h in
      let made = encode_all-find c a.image (length bytes) variants p.variants v e a.made_is found in
      rw (made.width_is, made.height_is) (fitted-bound fits v a.image)

  -- The original and every size of an accepted upload have a file extension, when the formats have
  -- their registered names.
  pub prepare-stored :
      ((f : Format) → is_accepted f ≡ true → c.to_mime_type f ≡ registered f)
      → (bytes : List ℕ) (p : Prepared) (v : Variant) (e : PreparedVariant)
      → prepare c bytes ≡ inr p
      → find_variant v p ≡ some e
      → (is_some (ext_for_mime p.mime) ≡ true) × (is_some (ext_for_mime e.mime) ≡ true)
  unfolding find_variant
  prepare-stored names bytes p v e h found =
      let a = prepare-Accepted bytes p h in
      let made = encode_all-find c a.image (length bytes) variants p.variants v e a.made_is found in
      (
        ap (λ m. is_some (ext_for_mime m)) a.mime_is
            ∙ ap (λ m. is_some (ext_for_mime m)) (names a.format a.is_format)
            ∙ registered-stored a.format a.is_format,
        made.has_ext,
      )
