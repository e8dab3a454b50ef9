-- ===== src/Gate/Rewrite/Laws.antt =====
-- What `stamp_origin` and `strip_klams_author` of crates/korg-gate/src/proxy.rs keep and what they
-- make true of the message that is forwarded.
use korg.Base.{
  String, [], Option, none, some, true, ◌≡◌, refl, sym, subst, ◌∙◌, ap, inl, inr, arith, contains,
  Map, get, insert, remove, get-insert, get-remove, IsMap, Bool-cases, eq_iff,
}
use korg.Gate.Allowlist.{
  origin_tools, duet_origin, klams_write_tools, klams_knowledge_kind, klams_author_field,
}
use korg.Gate.Json.{
  Value, Members, null, string, object, entries, entries-of_entries, build, IsOrdered,
  get-IsOrdered, str_of, field, str_field,
}
use korg.Gate.Routing.{tool_name}
use korg.Gate.Rewrite.{
  rewritten, arguments_of, called, with_arguments, is_knowledge, stamp, strip, stamp_params,
  strip_params, stamp_origin, strip_klams_author,
}

pub field-build : (k : String) (m : Map Value) → field k (build m) ≡ get k m
unfolding field
field-build k m = rw entries-of_entries

-- The method and the called tool of a message.
pub record Keeps (message : Map Value) (v : Value) : Type 0 where
  pub method : field "method" v ≡ get "method" message
  pub tool : tool_name (field "params" v) ≡ tool_name (get "params" message)

pub build-Keeps : (message : Map Value) → Keeps message (build message)
build-Keeps message = record {
  method = field-build "method" message;
  tool = ap tool_name (field-build "params" message);
}

tool_name-insert :
    (ms : Members) (arguments : Map Value)
    → tool_name (some (build (insert "arguments" (build arguments) (entries ms))))
      ≡ tool_name (some (object ms))
unfolding tool_name str_field field
tool_name-insert ms arguments = rw entries-of_entries (rw get-insert refl)

with_arguments-Keeps :
    (message : Map Value) (ms : Members) (arguments : Map Value)
    → get "params" message ≡ some (object ms)
    → Keeps message (with_arguments message (entries ms) arguments)
unfolding with_arguments
with_arguments-Keeps message ms arguments e = record {
  method = field-build "method" _ ∙ get-insert "params" "method" _ message;
  tool =
      ap tool_name (field-build "params" _ ∙ get-insert "params" "params" _ message)
      ∙ rw e (tool_name-insert ms arguments);
}

abbrev then_field : String → Option Value → Option Value
then_field k none = none
then_field k (some v) = field k v

-- An argument of the call in a message.
unfoldable pub argument : String → Value → Option Value
argument k v = then_field k (then_field "arguments" (field "params" v))

argument-with_arguments :
    (k : String) (message params arguments : Map Value)
    → argument k (with_arguments message params arguments) ≡ get k arguments
unfolding argument with_arguments
argument-with_arguments k message params arguments =
    let inner : field "params" (with_arguments message params arguments)
        ≡ some (build (insert "arguments" (build arguments) params)) =
      field-build "params" _ ∙ get-insert "params" "params" _ message in
    let call : field "arguments" (build (insert "arguments" (build arguments) params))
        ≡ some (build arguments) =
      field-build "arguments" _ ∙ get-insert "arguments" "arguments" _ params in
    ap (λ o. then_field k (then_field "arguments" o)) inner
    ∙ ap (then_field k) call
    ∙ field-build k arguments

called-tool_name : (ms : Members) → called (entries ms) ≡ tool_name (some (object ms))
unfolding called tool_name str_field field
called-tool_name ms = refl

knowledge-str :
    (o : Option Value) → is_knowledge (str_of o) ≡ true → o ≡ some (string klams_knowledge_kind)
knowledge-str none h = cc
knowledge-str (some (string s)) h = ap (λ t. some (string t)) ((eq_iff s klams_knowledge_kind).0 h)
knowledge-str (some _) h = cc

-- A klams write as it is forwarded: no author is named, and knowledge alone is added.
pub record Unsigned (v : Value) : Type 0 where
  pub no_author : argument klams_author_field v ≡ none
  pub knowledge :
      tool_name (field "params" v) ≡ "memory_add"
      → argument "kind" v ≡ some (string klams_knowledge_kind)

module _ (message : Map Value) where
  stamp-rewritten :
      (ms : Members) (arguments : Option (Map Value)) (v : Value)
      → get "params" message ≡ some (object ms)
      → stamp message (entries ms) arguments ≡ rewritten v
      → Keeps message v × (argument "origin" v ≡ some (string duet_origin))
  unfolding stamp
  stamp-rewritten ms none v e h = cc
  stamp-rewritten ms (some arguments) v e h =
      let m : Map Value = insert "origin" (string duet_origin) arguments in
      let same : with_arguments message (entries ms) m ≡ v = cc in
      rw (← same) (
        with_arguments-Keeps message ms m e,
        argument-with_arguments "origin" message (entries ms) m
            ∙ get-insert "origin" "origin" (string duet_origin) arguments,
      )

  arguments_of-IsMap :
      (o : Option Value) (m : Map Value)
      → ((v : Value) → o ≡ some v → IsOrdered v)
      → arguments_of o ≡ some m
      → IsMap m
  unfolding arguments_of
  arguments_of-IsMap none m ordered h = let e : [] ≡ m = ground arith in subst IsMap e tt
  arguments_of-IsMap (some null) m ordered h = let e : [] ≡ m = ground arith in subst IsMap e tt
  arguments_of-IsMap (some (object ms)) m ordered h =
      let e : entries ms ≡ m = ground arith in subst IsMap e (ordered (object ms) refl).0
  arguments_of-IsMap (some _) m ordered h = cc

  strip-kind :
      (ms : Members) (arguments : Map Value) (v : Value)
      → called (entries ms) ≡ "memory_add"
      → strip message (entries ms) (some arguments) ≡ rewritten v
      → get "kind" arguments ≡ some (string klams_knowledge_kind)
  unfolding strip
  strip-kind ms arguments v add h =
      knowledge-str (get "kind" arguments)
        (ground (arith, (eq_iff (called (entries ms)) "memory_add").1 add))

  called_of_tool :
      (ms : Members) (v : Value)
      → get "params" message ≡ some (object ms)
      → Keeps message v
      → tool_name (field "params" v) ≡ "memory_add"
      → called (entries ms) ≡ "memory_add"
  called_of_tool ms v e kept add = called-tool_name ms ∙ ap tool_name (sym e) ∙ sym kept.tool ∙ add

  strip-rewritten :
      (ms : Members) (arguments : Map Value) (v : Value)
      → get "params" message ≡ some (object ms)
      → IsMap arguments
      → strip message (entries ms) (some arguments) ≡ rewritten v
      → Keeps message v × Unsigned v
  unfolding strip
  strip-rewritten ms arguments v e w h =
      let m : Map Value = remove klams_author_field arguments in
      let same : with_arguments message (entries ms) m ≡ v = ground arith in
      let kept = with_arguments-Keeps message ms m e in
      rw (← same) (
        kept,
        record {
          no_author =
              argument-with_arguments klams_author_field message (entries ms) m
              ∙ get-remove klams_author_field klams_author_field arguments w;
          knowledge = λ add.
              argument-with_arguments "kind" message (entries ms) m
              ∙ get-remove klams_author_field "kind" arguments w
              ∙ strip-kind ms arguments v
                  (called_of_tool ms (with_arguments message (entries ms) m) e kept add) h;
        },
      )

  -- A message that is not a call of these tools goes on as it is.
  pub plain-Keeps : (v : Value) → rewritten (build message) ≡ rewritten v → Keeps message v
  plain-Keeps v h = let same : build message ≡ v = cc in rw (← same) (build-Keeps message)

  stamp_params-rewritten :
      (o : Option Value) (v : Value)
      → get "params" message ≡ o
      → stamp_params message o ≡ rewritten v
      → Keeps message v
        × (contains origin_tools (tool_name o) ≡ true
            → argument "origin" v ≡ some (string duet_origin))
  unfolding stamp_params tool_name str_field field contains
  stamp_params-rewritten none v e h = (plain-Keeps v h, λ k. cc)
  stamp_params-rewritten (some (object ms)) v e h =
      elim (Bool-cases (contains origin_tools (called (entries ms)))) [
        | inl yes' ↦
            let (kept, stamped) =
              stamp-rewritten ms (arguments_of (get "arguments" (entries ms))) v e
                (rw (yes', stamp_params) at h) in
            (kept, λ k. stamped)
        | inr no' ↦ (
          plain-Keeps v (rw (no', stamp_params) at h),
          λ k. absurd (ground (arith, called-tool_name ms)),
        )
      ]
  stamp_params-rewritten (some _) v e h = (plain-Keeps v h, λ k. cc)

  strip-some :
      (ms : Members) (o : Option (Map Value)) (v : Value)
      → get "params" message ≡ some (object ms)
      → ((m : Map Value) → o ≡ some m → IsMap m)
      → strip message (entries ms) o ≡ rewritten v
      → Keeps message v × Unsigned v
  strip-some ms none v e w h = unfold strip in cc
  strip-some ms (some arguments) v e w h = strip-rewritten ms arguments v e (w arguments refl) h

  strip_params-rewritten :
      (o : Option Value) (v : Value)
      → get "params" message ≡ o
      → ((params : Value) → o ≡ some params → IsOrdered params)
      → strip_params message o ≡ rewritten v
      → Keeps message v × (contains klams_write_tools (tool_name o) ≡ true → Unsigned v)
  unfolding strip_params tool_name str_field field contains
  strip_params-rewritten none v e w h = (plain-Keeps v h, λ k. cc)
  strip_params-rewritten (some (object ms)) v e w h =
      let ordered = w (object ms) refl in
      elim (Bool-cases (contains klams_write_tools (called (entries ms)))) [
        | inl yes' ↦
            let (kept, unsigned) =
              strip-some ms (arguments_of (get "arguments" (entries ms))) v e
                (λ m.
                  arguments_of-IsMap (get "arguments" (entries ms)) m
                    (λ a. get-IsOrdered "arguments" ms a ordered.1))
                (rw (yes', strip_params) at h) in
            (kept, λ k. unsigned)
        | inr no' ↦ (
          plain-Keeps v (rw (no', strip_params) at h),
          λ k. absurd (ground (arith, called-tool_name ms)),
        )
      ]
  strip_params-rewritten (some _) v e w h = (plain-Keeps v h, λ k. cc)

-- A call as the korg door forwards it names the method and the tool of the caller's message, and a
-- tool that records an origin is given the gate's own, whatever the caller sent.
pub stamp_origin-rewritten :
    (message : Map Value) (v : Value)
    → stamp_origin message ≡ rewritten v
    → Keeps message v
      × (contains origin_tools (tool_name (get "params" message)) ≡ true
          → argument "origin" v ≡ some (string duet_origin))
unfolding stamp_origin
stamp_origin-rewritten message v h = stamp_params-rewritten message (get "params" message) v refl h

-- A call as the klams door forwards it names the method and the tool of the caller's message, and a
-- write names no author and adds knowledge alone.
pub strip_klams_author-rewritten :
    (message : Map Value) (v : Value)
    → ((params : Value) → get "params" message ≡ some params → IsOrdered params)
    → strip_klams_author message ≡ rewritten v
    → Keeps message v
      × (contains klams_write_tools (tool_name (get "params" message)) ≡ true → Unsigned v)
unfolding strip_klams_author
strip_klams_author-rewritten message v w h =
    strip_params-rewritten message (get "params" message) v refl w h
