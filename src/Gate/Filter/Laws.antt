-- ===== src/Gate/Filter/Laws.antt =====
-- `filter_json` of crates/korg-gate/src/proxy.rs: what a filtered `tools/list` answer holds.
use korg.Base.{
  Option-cases, ◌||◌, not, String, List, Option, none, some, false, ◌≡◌, refl, ◌∙◌, ap, sym, inl,
  inr, ◌⊎◌, arith, Map, get, true, is_some, Bool-cases, insert, retain, get-insert, ◌==◌, eq_iff,
}
use korg.Gate.Door.{Door}
use korg.Gate.Json.{
  Value, Members, array, object, end, member, items, of_items, items-of_items, entries, of_entries,
  build, field,
}
use korg.Gate.Filter.{listable, filter_tools, filter_result, filter_value}
use korg.Gate.Rewrite.Laws.{field-build}

pub of_entries-entries : (ms : Members) → of_entries (entries ms) ≡ ms
of_entries-entries end = refl
of_entries-entries (member k v ms) = ap (member k v) (of_entries-entries ms)

abbrev tools_of : Option Value → Option (List Value)
tools_of (some (array tools)) = some (items tools)
tools_of _ = none

abbrev tools_in : Option Value → Option (List Value)
tools_in (some result) = tools_of (field "tools" result)
tools_in none = none

-- The tools that an answer lists, `none` where it lists none.
unfoldable pub listed : Value → Option (List Value)
listed v = tools_in (field "result" v)

-- What a list becomes: it loses the tools that the door refuses, every other field of its result
-- is as it was, and so is every other field of the message.
pub record Filtered (door : Door) (v w : Value) : Type 0 where
  pub tools : List Value
  pub result : Value
  pub filtered : Value
  pub result_before : field "result" v ≡ some result
  pub result_after : field "result" w ≡ some filtered
  pub within : (k : String) → (k == "tools") ≡ false → field k filtered ≡ field k result
  pub before : listed v ≡ some tools
  pub after : listed w ≡ some (retain (listable door) tools)
  pub others : (k : String) → (k == "result") ≡ false → field k w ≡ field k v

module _ (door : Door) (ms : Members) where
  tools-Filtered :
      (result : Members) (o : Option Value) (w : Value)
      → get "result" (entries ms) ≡ some (object result)
      → get "tools" (entries result) ≡ o
      → filter_tools door (entries ms) (entries result) o ≡ some w
      → Filtered door (object ms) w
  unfolding filter_tools listed field
  tools-Filtered result (some (array ts)) w e t h =
      let kept : List Value = retain (listable door) (items ts) in
      let inner : Map Value = insert "tools" (array (of_items kept)) (entries result) in
      let same : build (insert "result" (build inner) (entries ms)) ≡ w = ground arith in
      record {
        tools = items ts;
        result = object result;
        filtered = build inner;
        result_before = e;
        result_after =
            ap (field "result") (sym same)
            ∙ field-build "result" _
            ∙ get-insert "result" "result" (build inner) (entries ms);
        within = λ k ne.
            field-build k inner
            ∙ get-insert "tools" k (array (of_items kept)) (entries result)
            ∙ ground (arith, eq_iff k "tools", eq_iff "tools" k);
        before = rw e (rw t refl);
        after =
            ap listed (sym same)
            ∙ ap tools_in
                (field-build "result" _ ∙ get-insert "result" "result" (build inner) (entries ms))
            ∙ ap tools_of (
                field-build "tools" inner
                ∙ get-insert "tools" "tools" (array (of_items kept)) (entries result))
            ∙ ap some (items-of_items kept);
        others = λ k ne.
            ap (field k) (sym same)
            ∙ field-build k _
            ∙ get-insert "result" k (build inner) (entries ms)
            ∙ ground (arith, eq_iff k "result", eq_iff "result" k);
      }
  tools-Filtered result _ w e t h = cc

  result-Filtered :
      (o : Option Value) (w : Value)
      → get "result" (entries ms) ≡ o
      → filter_result door (entries ms) o ≡ some w
      → ((o ≡ none) × (is_some (get "error" (entries ms)) ≡ true) × (w ≡ object ms))
        ⊎ Filtered door (object ms) w
  unfolding filter_result
  result-Filtered (some (object result)) w e h =
      inr (tools-Filtered result (get "tools" (entries result)) w e refl h)
  result-Filtered (some _) w e h = cc
  result-Filtered none w e h = elim (Bool-cases (is_some (get "error" (entries ms)))) [
    | inl failed ↦ inl (refl, failed, sym (ground arith) ∙ ap object (of_entries-entries ms))
    | inr silent ↦ absurd (ground arith)
  ]

pub filter_value-Filtered :
    (door : Door) (v w : Value)
    → filter_value door v ≡ some w
    → ((field "result" v ≡ none) × (is_some (field "error" v) ≡ true) × (w ≡ v)) ⊎ Filtered door v w
unfolding filter_value field
filter_value-Filtered door (object ms) w h =
    elim (result-Filtered door ms (get "result" (entries ms)) w refl h) [
      | inl kept ↦ inl kept
      | inr f ↦ inr f
    ]
filter_value-Filtered door _ w h = cc

no_list :
    (door : Door) (message result : Map Value) (o : Option Value)
    → filter_tools door message result o ≡ none
    → tools_of o ≡ none
unfolding filter_tools
no_list door message result (some (array ts)) h = cc
no_list door message result _ h = refl

no_answer :
    (door : Door) (message : Map Value) (o : Option Value)
    → filter_result door message o ≡ none
    → (tools_in o ≡ none) × ((is_some o || not (is_some (get "error" message))) ≡ true)
unfolding filter_result field
no_answer door message (some (object result)) h = (no_list door message (entries result) _ h, refl)
no_answer door message (some _) h = (refl, refl)
no_answer door message none h = (refl, ground arith)

-- What a filtered answer comes to.
pub data Filtering (door : Door) (v : Value) : Option Value → Type 0 where
  failed : field "result" v ≡ none → is_some (field "error" v) ≡ true → Filtering door v (some v)
  filtered : {w : Value} → Filtered door v w → Filtering door v (some w)
  refused :
      listed v ≡ none
      → (is_some (field "result" v) || not (is_some (field "error" v))) ≡ true
      → Filtering door v none

pub filter_value-refused :
    (door : Door) (v : Value)
    → filter_value door v ≡ none
    → (listed v ≡ none) × ((is_some (field "result" v) || not (is_some (field "error" v))) ≡ true)
unfolding filter_value listed field
filter_value-refused door (object ms) h = no_answer door (entries ms) _ h
filter_value-refused door _ h = (refl, refl)

-- A message with an `error` and no result passes unchanged. A message that lists tools passes with
-- exactly the tools that the door allows, in their order, every other field of the result and of
-- the message as it was. Any other message is refused: it lists no tools, and it has a result or has
-- no error.
pub filter_value-Filtering : (door : Door) (v : Value) → Filtering door v (filter_value door v)
filter_value-Filtering door v = elim (Option-cases (filter_value door v)) [
  | inl none' ↦
      let (listless, open') = filter_value-refused door v none' in
      rw (none') (refused listless open')
  | inr (w, some') ↦ rw (some') (elim (filter_value-Filtered door v w some') [
    | inl (absent, error, same) ↦ rw (same) (failed absent error)
    | inr f ↦ filtered f
  ])
]
