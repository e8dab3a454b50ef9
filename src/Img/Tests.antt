-- ===== src/Img/Tests.antt =====
-- Runs of the ids of crates/korg-img.
use korg.Base.{
  ◌≡◌, refl, inl, inr, arith, ℕ, ◌≤◌, max, List, [], ◌∷◌, some, none, true, is_some, leb,
  if◌then◌else◌, ◌⊎◌, eq_ignore_case, lower,
}
use korg.Core.Error.{bad_id, empty}
use korg.Img.Id.{
  from_node_id, digit, hex_from, to_string, digit_value, digits_after, from_hex, after_prefix,
  id_of, parse,
}
use korg.Img.Upload.{
  Codec, Picture, Prepared, PreparedVariant, png, thumb, agent, prepare, prepared, with_picture,
  with_format, encode_all, encode_variant, encoded_as, fitted, supplanted_by_the_original,
  find_variant, fits_original, ext_for_mime, long_edge, same_variant, is_accepted,
}
use korg.Img.Upload.Accepted.{registered, prepare-covers, prepare-bounded, prepare-stored}
use korg.Img.Id.RoundTrip.{parse-to_string}

printed : to_string (record { node_id = 713 }) ≡ "img-2c9"
unfolding to_string hex_from digit
printed = refl

other_case : parse "ImG-C2A" ≡ inr (record { node_id = 3114 })
unfolding parse id_of from_hex after_prefix digits_after digit_value from_node_id eq_ignore_case
    lower
other_case = refl

-- `from_str_radix` accepts a sign.
with_sign : parse "img-+2c9" ≡ inr (record { node_id = 713 })
unfolding parse id_of from_hex after_prefix digits_after digit_value from_node_id eq_ignore_case
    lower
with_sign = refl

only_sign : parse "img-+" ≡ inl bad_id
unfolding parse id_of from_hex after_prefix digits_after digit_value from_node_id eq_ignore_case
    lower
only_sign = refl

past_i64 : parse "img-8000000000000000" ≡ inl bad_id
unfolding parse id_of from_hex after_prefix digits_after digit_value from_node_id eq_ignore_case
    lower
past_i64 = refl

zero_id : parse "img-0" ≡ inl bad_id
unfolding parse id_of from_hex after_prefix digits_after digit_value from_node_id eq_ignore_case
    lower
zero_id = refl

parse-to_string_example :
    parse (to_string (record { node_id = 3114 })) ≡ inr (record { node_id = 3114 })
parse-to_string_example = parse-to_string 3114 (omega arith) (omega arith)

abbrev screenshot : Picture
screenshot = record { width = 500; height = 300; has_alpha = true; pixels = 7 ∷ 8 ∷ [] }

-- A codec that cuts a picture to the box, and encodes it as five bytes.
abbrev codec : Codec
codec = record {
  guess_format = λ bytes. elim bytes [ [] ↦ none | b ∷ rest ↦ some png ];
  to_mime_type = registered;
  decode = λ format bytes. some screenshot;
  resize = λ w h i. record {
    width = if leb i.width w then i.width else w;
    height = if leb i.height h then i.height else h;
    has_alpha = i.has_alpha;
    pixels = i.pixels;
  };
  encode_png = λ i. some (1 ∷ 2 ∷ 3 ∷ 4 ∷ 5 ∷ []);
  encode_jpeg = λ i. none;
  sha256_hex = λ bytes. "00";
}

abbrev small_png : List ℕ
small_png = 137 ∷ 80 ∷ 78 ∷ 71 ∷ []

abbrev thumb_made : PreparedVariant
thumb_made = record {
  variant = thumb;
  mime = "image/png";
  width = 400;
  height = 300;
  bytes = 1 ∷ 2 ∷ 3 ∷ 4 ∷ 5 ∷ [];
}

-- The original has four bytes, so the `agent` size of five bytes is dropped.
abbrev result : Prepared
result = record {
  mime = "image/png";
  width = 500;
  height = 300;
  byte_size = 4;
  content_hash = "00";
  variants = thumb_made ∷ [];
}

prepared_small : prepare codec small_png ≡ inr result
unfolding prepare with_format with_picture prepared encode_all encode_variant encoded_as fitted
    supplanted_by_the_original fits_original long_edge same_variant is_accepted registered
prepared_small = refl

nothing_uploaded : prepare codec [] ≡ inl empty
unfolding prepare
nothing_uploaded = refl

prepare-covers_example :
    (is_some (find_variant agent result) ≡ true)
    ⊎ ((agent ≡ agent) × (fits_original agent 500 300 ≡ true))
prepare-covers_example = prepare-covers codec small_png result agent prepared_small

thumb_found : find_variant thumb result ≡ some thumb_made
unfolding find_variant same_variant
thumb_found = refl

within_box :
    (edge : ℕ) (i : Picture)
    → 1 ≤ edge
    → max (codec.resize edge edge i).width (codec.resize edge edge i).height ≤ edge
within_box edge i h = ground arith

prepare-bounded_example : max 400 300 ≤ long_edge thumb
prepare-bounded_example =
    prepare-bounded codec within_box small_png result thumb thumb_made prepared_small thumb_found

prepare-stored_example :
    (is_some (ext_for_mime "image/png") ≡ true) × (is_some (ext_for_mime "image/png") ≡ true)
prepare-stored_example =
    prepare-stored codec (λ f ok. refl) small_png result thumb thumb_made prepared_small thumb_found
