-- ===== src/Desk/Tables.antt =====
-- The tables of crates/korg-core that schedules.rs, awaiting.rs, work_items.rs and selectors.rs of
-- crates/korg-core/src/repo read and write. A table with a primary key is a function from it; a work
-- item's number is the id of its node. Dates of soaks are texts, and times are numbers.
use korg.Base.{
  ℕ, String, List, Option, none, some, Bool, true, false, ◌==◌, find, nat_eq, if◌then◌else◌, [],
  ◌∷◌, ◌<◌, ◌≡◌, refl, ap, arith,
}
use korg.Core.Error.{RepoError, invalid_input, not_found, conflict}
use korg.Core.Graph.{Transition}

pub record NodeRow : Type 0 where
  pub kind : String
  pub project_id : Option ℕ
  pub category : Option String
  pub tags : List String
  pub archived : Bool
  pub awaiting_since : Option ℕ
  pub awaiting_note : Option String
  pub updated : ℕ

pub record ProjectRow : Type 0 where
  pub id : ℕ
  pub name : String
  pub status : String

pub record AreaRow : Type 0 where
  pub id : ℕ
  pub project_id : ℕ
  pub name : String

pub record WorkItemRow : Type 0 where
  pub area_id : Option ℕ
  pub wi_type : String
  pub wi_status : String
  pub wi_tshirt : String
  pub sprint : Option String
  pub title : String
  pub content : String
  pub details : Option String
  pub check_after : Option String
  pub invalidated_if : Option String
  pub parent_node_id : Option ℕ

pub record ScheduleRow : Type 0 where
  pub title : String
  pub template : Option String
  pub notes : Option String
  pub cadence : String
  pub anchor_mode : String
  pub status : String
  pub wi_type : String
  pub wi_tshirt : String
  pub anchor_at : ℕ
  pub last_wi_id : Option ℕ

-- A row of `relationship`.
pub record EdgeRow : Type 0 where
  pub left_id : ℕ
  pub right_id : ℕ
  pub label : String
  pub origin : String
  pub created : ℕ

pub record Event : Type 0 where
  pub node_id : ℕ
  pub action : String

-- Of the proposals, programs and cards, the column `status`. The newest rows of a list come first.
pub record Desk : Type 0 where
  pub nodes : ℕ → Option NodeRow
  pub projects : List ProjectRow
  pub areas : List AreaRow
  pub work_items : ℕ → Option WorkItemRow
  pub proposals : ℕ → Option String
  pub programs : ℕ → Option String
  pub cards : ℕ → Option String
  pub schedules : ℕ → Option ScheduleRow
  pub edges : List EdgeRow
  pub transitions : List Transition
  pub events : List Event
  pub next_node : ℕ

pub data Denial : Type 0 where
  no_work_item no_parent no_node no_project no_area foreign_area : ℕ → Denial
  no_schedule : ℕ → Denial
  selector_conflict : (id_field name_field : String) → Denial
  unknown_project archived_project : String → Denial
  unknown_area area_without_project : String → Denial
  unknown_value : String → Denial
  no_project_named area_in_use : String → Denial
  no_area_named area_taken : (project name : String) → Denial
  blank_field : String → Denial
  unknown_placeholder : (name what : String) → Denial
  outstanding_item not_due : ℕ → Denial
  not_active : String → Denial
  note_when_clearing : Denial
  row_gone : ℕ → Denial

-- The class of a refusal, `none` for an error of the database.
unfoldable pub denial_class : Denial → Option RepoError
denial_class (no_work_item id) = some not_found
denial_class (no_node id) = some not_found
denial_class (no_schedule id) = some not_found
denial_class (no_project_named name) = some not_found
denial_class (no_area_named project name) = some not_found
denial_class (area_taken project name) = some conflict
denial_class (area_in_use name) = some conflict
denial_class (row_gone id) = none
denial_class _ = some invalid_input

pub data Answer (A : Type 0) : Type 0 where
  done : A → Answer A
  denied : Denial → Answer A

-- `?` on a `Result`.
infixl 5 ◌>>=◌ ◌>>◌
abbrev pub ◌>>=◌ : {A B : Type 0} → Answer A → (A → Answer B) → Answer B
done a >>= f = f a
denied why >>= f = denied why

abbrev pub ◌>>◌ : {B : Type 0} → Option Denial → Answer B → Answer B
none >> k = k
some why >> k = denied why

pub >>=-eq-done :
    {A B : Type 0} (m : Answer A) (f : A → Answer B) {b : B}
    → (m >>= f) ≡ done b
    → (a : A) × (m ≡ done a) × (f a ≡ done b)
>>=-eq-done (done a) f h = (a, refl, h)
>>=-eq-done (denied why) f h = cc

pub >>-eq-done :
    {B : Type 0} (m : Option Denial) (k : Answer B) {b : B}
    → (m >> k) ≡ done b
    → (m ≡ none) × (k ≡ done b)
>>-eq-done none k h = (refl, h)
>>-eq-done (some why) k h = cc

-- A run of checks stops at the first that refuses.
abbrev pub first_denial : List (Option Denial) → Option Denial
first_denial [] = none
first_denial (none ∷ checks) = first_denial checks
first_denial (some why ∷ checks) = some why

-- `ok_or`
abbrev pub ok_or : {A : Type 0} → Option A → Denial → Answer A
ok_or none why = denied why
ok_or (some a) why = done a

pub ok_or-eq-done :
    {A : Type 0} (o : Option A) (why : Denial) {a : A} → ok_or o why ≡ done a → o ≡ some a
ok_or-eq-done none why h = cc
ok_or-eq-done (some a) why h = cc

pub some_inj : {A : Type 0} {a b : A} → some a ≡ some b → a ≡ b
some_inj h = cc

pub done_inj : {A : Type 0} {a b : A} → done a ≡ done b → a ≡ b
done_inj h = cc

pub nat_eq_below : (i n : ℕ) → i < n → nat_eq i n ≡ false
nat_eq_below i n h = ground arith

pub eq_of_nat_eq : (i j : ℕ) → nat_eq i j ≡ true → i ≡ j
eq_of_nat_eq i j h = ground arith

-- `INSERT` and `UPDATE … WHERE` on a primary key.
abbrev pub put : {A : Type 0} → ℕ → A → (ℕ → Option A) → ℕ → Option A
put id row t i = if nat_eq i id then some row else t i

abbrev pub mapped : {A : Type 0} → (A → A) → Option A → Option A
mapped f none = none
mapped f (some a) = some (f a)

abbrev pub alter : {A : Type 0} → ℕ → (A → A) → (ℕ → Option A) → ℕ → Option A
alter id f t i = if nat_eq i id then mapped f (t i) else t i

pub alter_self :
    {A : Type 0} (id i : ℕ) (f : A → A) (t : ℕ → Option A) {a : A}
    → nat_eq i id ≡ true
    → t id ≡ some a
    → alter id f t i ≡ some (f a)
alter_self id i f t at found = ground (arith, ap t (eq_of_nat_eq i id at))

pub alter_other :
    {A : Type 0} (id i : ℕ) (f : A → A) (t : ℕ → Option A)
    → nat_eq i id ≡ false
    → alter id f t i ≡ t i
alter_other id i f t past = ground arith

-- A column that a patch may set.
abbrev pub patched : {A : Type 0} → Option A → A → A
patched none old = old
patched (some new) old = new

unfoldable pub project_by_id : Desk → ℕ → Option ProjectRow
project_by_id d id = find (λ p. nat_eq p.id id) d.projects

unfoldable pub project_by_name : Desk → String → Option ProjectRow
project_by_name d name = find (λ p. p.name == name) d.projects

abbrev pub project_of : Option AreaRow → Option ℕ
project_of none = none
project_of (some a) = some a.project_id

-- `SELECT project_id FROM area WHERE id = $1`
unfoldable pub area_project : Desk → ℕ → Option ℕ
area_project d id = project_of (find (λ a. nat_eq a.id id) d.areas)
