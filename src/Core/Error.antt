-- ===== src/Core/Error.antt =====
-- crates/korg-core/src/error.rs: the classes of errors. The texts of errors are left out, and the
-- images' errors are those of crates/korg-img/src/lib.rs.
use korg.Base.{String, List, [], ◌∷◌}

pub data RepoError : Type 0 where
  invalid_input not_found conflict : RepoError

pub data ImgError : Type 0 where
  unsupported undecodable too_large empty bad_id bad_variant unencodable io : ImgError

pub data ErrorCode : Type 0 where
  invalid_input_code not_found_code conflict_code internal_code : ErrorCode

abbrev pub all_codes : List ErrorCode
all_codes = invalid_input_code ∷ not_found_code ∷ conflict_code ∷ internal_code ∷ []

unfoldable pub as_str : ErrorCode → String
as_str invalid_input_code = "invalid_input"
as_str not_found_code = "not_found"
as_str conflict_code = "conflict"
as_str internal_code = "internal"

abbrev pub error_codes : List String
error_codes = "invalid_input" ∷ "not_found" ∷ "conflict" ∷ "internal" ∷ []

unfoldable pub repo_code : RepoError → ErrorCode
repo_code invalid_input = invalid_input_code
repo_code not_found = not_found_code
repo_code conflict = conflict_code

unfoldable pub img_code : ImgError → ErrorCode
img_code unencodable = internal_code
img_code io = internal_code
img_code _ = invalid_input_code

-- What an `anyhow::Error` holds: one of the two, or anything else.
pub data Any : Type 0 where
  repo : RepoError → Any
  img : ImgError → Any
  other : Any

unfoldable pub any_code : Any → ErrorCode
any_code (repo e) = repo_code e
any_code (img e) = img_code e
any_code other = internal_code
