-- ===== src/Img/Upload.antt =====
-- crates/korg-img/src/lib.rs: what `prepare` makes of the bytes of an upload. Every generated size is
-- made when the upload arrives.
pub mod Variants
pub mod Accepted
use korg.Base.{
  ◌⊎◌, inl, inr, ℕ, ◌+◌, max, String, List, [], ◌∷◌, length, Option, none, some, Bool, true, false,
  ◌&&◌, leb, ltb, if◌then◌else◌, find, ◌==◌,
}
use korg.Core.Error.{ImgError, unsupported, undecodable, too_large, empty, bad_variant, unencodable}

abbrev pub max_upload_bytes : ℕ
max_upload_bytes = 33554432

pub data Variant : Type 0 where
  thumb agent : Variant

abbrev pub variants : List Variant
variants = thumb ∷ agent ∷ []

unfoldable pub same_variant : Variant → Variant → Bool
same_variant thumb thumb = true
same_variant agent agent = true
same_variant _ _ = false

unfoldable pub variant_name : Variant → String
variant_name thumb = "thumb"
variant_name agent = "agent"

unfoldable pub long_edge : Variant → ℕ
long_edge thumb = 400
long_edge agent = 1568

unfoldable pub fits_original : Variant → ℕ → ℕ → Bool
fits_original v width height = leb (max width height) (long_edge v)

unfoldable pub parse_variant : String → ImgError ⊎ Variant
parse_variant raw =
    if raw == "thumb" then inr thumb else if raw == "agent" then inr agent else inl bad_variant

unfoldable pub ext_for_mime : String → Option String
ext_for_mime mime =
    if mime == "image/png"
    then some "png"
    else if mime == "image/jpeg"
    then some "jpg"
    else if mime == "image/gif"
    then some "gif"
    else if mime == "image/webp"
    then some "webp"
    else if mime == "image/bmp"
    then some "bmp"
    else none

-- The formats of the crate `image` that korg accepts, and the rest of them.
pub data Format : Type 0 where
  png jpeg gif webp bmp : Format
  other_format : String → Format

unfoldable pub is_accepted : Format → Bool
is_accepted (other_format _) = false
is_accepted _ = true

-- A decoded image.
pub record Picture : Type 0 where
  pub width : ℕ
  pub height : ℕ
  pub has_alpha : Bool
  pub pixels : List ℕ

-- The crates `image` and `sha2`: `resize` fits a picture into a box, and `encode_jpeg` includes the
-- change to pixels without alpha.
pub record Codec : Type 0 where
  pub guess_format : List ℕ → Option Format
  pub to_mime_type : Format → String
  pub decode : Format → List ℕ → Option Picture
  pub resize : ℕ → ℕ → Picture → Picture
  pub encode_png : Picture → Option (List ℕ)
  pub encode_jpeg : Picture → Option (List ℕ)
  pub sha256_hex : List ℕ → String

pub record PreparedVariant : Type 0 where
  pub variant : Variant
  pub mime : String
  pub width : ℕ
  pub height : ℕ
  pub bytes : List ℕ

pub record Prepared : Type 0 where
  pub mime : String
  pub width : ℕ
  pub height : ℕ
  pub byte_size : ℕ
  pub content_hash : String
  pub variants : List PreparedVariant

unfoldable pub find_variant : Variant → Prepared → Option PreparedVariant
find_variant v p = find (λ made. same_variant made.variant v) p.variants

unfoldable pub supplanted_by_the_original : PreparedVariant → ℕ → ℕ → ℕ → Bool
supplanted_by_the_original encoded original_bytes width height =
    same_variant encoded.variant agent
    && fits_original agent width height
    && leb original_bytes (length encoded.bytes)

module _ (c : Codec) where
  unfoldable pub fitted : Variant → Picture → Picture
  fitted v image =
      if ltb (long_edge v) (max image.width image.height)
      then c.resize (long_edge v) (long_edge v) image
      else image

  unfoldable pub encoded_as :
      Variant → Picture → String → Option (List ℕ) → ImgError ⊎ PreparedVariant
  encoded_as v source mime none = inl unencodable
  encoded_as v source mime (some bytes) = inr record {
    variant = v;
    mime = mime;
    width = source.width;
    height = source.height;
    bytes = bytes;
  }

  unfoldable pub encode_variant : Picture → Variant → Bool → ImgError ⊎ PreparedVariant
  encode_variant image v lossless =
      let source = fitted v image in
      if lossless
      then encoded_as v source "image/png" (c.encode_png source)
      else encoded_as v source "image/jpeg" (c.encode_jpeg source)

  -- The loop over `VARIANTS`, for an original of so many bytes.
  unfoldable pub encode_all : Picture → ℕ → List Variant → ImgError ⊎ List PreparedVariant
  encode_all image n [] = inr []
  encode_all image n (v ∷ vs) = elim (encode_variant image v image.has_alpha) [
    | inl e ↦ inl e
    | inr encoded ↦ elim (encode_all image n vs) [
      | inl e ↦ inl e
      | inr rest ↦ elim (supplanted_by_the_original encoded n image.width image.height) [
        | true ↦ inr rest
        | false ↦ inr (encoded ∷ rest)
      ]
    ]
  ]

  unfoldable pub prepared :
      List ℕ → Format → Picture → ImgError ⊎ List PreparedVariant → ImgError ⊎ Prepared
  prepared bytes format image (inl e) = inl e
  prepared bytes format image (inr made) = inr record {
    mime = c.to_mime_type format;
    width = image.width;
    height = image.height;
    byte_size = length bytes;
    content_hash = c.sha256_hex bytes;
    variants = made;
  }

  unfoldable pub with_picture : List ℕ → Format → Option Picture → ImgError ⊎ Prepared
  with_picture bytes format none = inl undecodable
  with_picture bytes format (some image) =
      prepared bytes format image (encode_all image (length bytes) variants)

  unfoldable pub with_format : List ℕ → Option Format → ImgError ⊎ Prepared
  with_format bytes none = inl unsupported
  with_format bytes (some format) =
      if is_accepted format
      then with_picture bytes format (c.decode format bytes)
      else inl unsupported

  unfoldable pub prepare : List ℕ → ImgError ⊎ Prepared
  prepare [] = inl empty
  prepare (b ∷ bytes) =
      if leb (length (b ∷ bytes)) max_upload_bytes
      then with_format (b ∷ bytes) (c.guess_format (b ∷ bytes))
      else inl too_large
