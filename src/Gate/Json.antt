-- ===== src/Gate/Json.antt =====
-- `serde_json::Value` as crates/korg-gate uses it. Objects are `BTreeMap`s, as without the crate's
-- feature `preserve_order`; a number is kept as its literal. `Serde` stands for the crate's parser
-- and printer.
use korg.Base.{
  String, List, [], ◌∷◌, Option, none, some, Bool, ◌≡◌, refl, ap, subst, inl, inr, arith, ◌==◌,
  Bool-cases, Map, IsMap, get,
}

mutual
  pub data Value : Type 0 where
    null : Value
    bool : Bool → Value
    number : String → Value
    string : String → Value
    array : Items → Value
    object : Members → Value

  pub data Items : Type 0 where
    nil : Items
    cons : Value → Items → Items

  pub data Members : Type 0 where
    end : Members
    member : String → Value → Members → Members

abbrev pub items : Items → List Value
items nil = []
items (cons v vs) = v ∷ items vs

abbrev pub of_items : List Value → Items
of_items [] = nil
of_items (v ∷ vs) = cons v (of_items vs)

abbrev pub entries : Members → Map Value
entries end = []
entries (member k v ms) = (k, v) ∷ entries ms

abbrev pub of_entries : Map Value → Members
of_entries [] = end
of_entries ((k, v) ∷ m) = member k v (of_entries m)

pub items-of_items : (vs : List Value) → items (of_items vs) ≡ vs
items-of_items [] = refl
items-of_items (v ∷ vs) = ap (λ r. v ∷ r) (items-of_items vs)

pub entries-of_entries : (m : Map Value) → entries (of_entries m) ≡ m
entries-of_entries [] = refl
entries-of_entries ((k, v) ∷ m) = ap (λ r. (k, v) ∷ r) (entries-of_entries m)

-- `Value::get`, `as_str`, `as_object`.
unfoldable pub field : String → Value → Option Value
field k (object ms) = get k (entries ms)
field k _ = none

abbrev pub as_str : Value → Option String
as_str (string s) = some s
as_str _ = none

abbrev pub as_object : Value → Option (Map Value)
as_object (object ms) = some (entries ms)
as_object _ = none

abbrev pub as_array : Value → Option (List Value)
as_array (array vs) = some (items vs)
as_array _ = none

abbrev pub str_of : Option Value → Option String
str_of none = none
str_of (some v) = as_str v

-- `v.get(k).and_then(Value::as_str)`
unfoldable pub str_field : String → Value → Option String
str_field k v = str_of (field k v)

abbrev pub build : Map Value → Value
build m = object (of_entries m)

pub record Serde : Type 0 where
  pub parse : String → Option Value
  pub print : Value → String

-- What a parser that fills `BTreeMap`s gives: the keys of each object rise.
abbrev mutual
  pub IsOrdered : Value → Type 0
  IsOrdered null = Unit {0}
  IsOrdered (bool b) = Unit {0}
  IsOrdered (number n) = Unit {0}
  IsOrdered (string s) = Unit {0}
  IsOrdered (array vs) = AllItems vs
  IsOrdered (object ms) = IsMap (entries ms) × AllMembers ms

  pub AllItems : Items → Type 0
  AllItems nil = Unit {0}
  AllItems (cons v vs) = IsOrdered v × AllItems vs

  pub AllMembers : Members → Type 0
  AllMembers end = Unit {0}
  AllMembers (member k v ms) = IsOrdered v × AllMembers ms

pub get-IsOrdered :
    (k : String) (ms : Members) (v : Value)
    → AllMembers ms
    → get k (entries ms) ≡ some v
    → IsOrdered v
unfolding get
get-IsOrdered k end v a e = cc
get-IsOrdered k (member j w ms) v a e = elim (Bool-cases (j == k)) [
  | inl here ↦ let same : w ≡ v = ground arith in subst IsOrdered same a.0
  | inr later ↦ get-IsOrdered k ms v a.1 (ground arith)
]
