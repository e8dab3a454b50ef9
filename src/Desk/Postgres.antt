-- ===== src/Desk/Postgres.antt =====
-- What the statements of crates/korg-core ask of PostgreSQL beyond reading and writing rows: dates,
-- digests, and `replace`.
use Prim.Native.String.{[], ◌∷◌, ◌++◌, count}
use korg.Base.{ℕ, zero, suc, ◌-◌, String, Option, Bool, true, false, ◌&&◌, nat_eq}
use Prim.Native.Char.{code}
use korg.Desk.Tables.{NodeRow, WorkItemRow, ScheduleRow}

pub data Interval : Type 0 where
  days months : ℕ → Interval

-- The renderings of a time by `to_char`.
pub record Stamp : Type 0 where
  pub year : String
  pub month : String
  pub day : String
  pub date : String
  pub quarter : String

-- `digest` is `md5` of the rows of a node as JSON: that of `node`, and those of `workitem`, `card`
-- and `schedule`.
pub record Postgres : Type 0 where
  pub plus : ℕ → Interval → ℕ
  pub to_char : ℕ → Stamp
  pub digest : NodeRow → Option WorkItemRow → Option String → Option ScheduleRow → String

unfoldable pub starts_with : String → String → Bool
starts_with [] s = true
starts_with (c ∷ p) [] = false
starts_with (c ∷ p) (d ∷ s) = nat_eq (code c) (code d) && starts_with p s

-- `replace(text, from, to)`, past as many characters of the text as are skipped.
unfoldable pub replaced : ℕ → String → String → String → String
replaced skipped from to [] = []
replaced (suc skipped) from to (c ∷ s) = replaced skipped from to s
replaced zero from to (c ∷ s) = elim (starts_with from (c ∷ s)) [
  | true ↦ to ++ replaced (count from - 1) from to s
  | false ↦ c ∷ replaced zero from to s
]

unfoldable pub replace : String → String → String → String
replace text from to = replaced zero from to text
