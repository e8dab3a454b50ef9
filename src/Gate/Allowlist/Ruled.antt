-- ===== src/Gate/Allowlist/Ruled.antt =====
-- The allowlists: sorted, disjoint, and decided exactly by the binary searches.
use korg.Base.{
  String, List, ◌++◌, true, false, ◌||◌, ◌≡◌, refl, sym, contains, contains-append, not,
  all_of_contains, binary_search, binary_search-contains, IsSorted-of_test, sorted_test, Bool,
}
use korg.Gate.Allowlist.{
  read_tools, write_tools, refused_tools, klams_read_tools, klams_write_tools, klams_refused_tools,
  tool_allowed, klams_tool_allowed,
}

-- The two searches of a door answer membership in its two lists together.
searches-contains :
    (reads writes : List String) (name : String)
    → sorted_test reads ≡ true
    → sorted_test writes ≡ true
    → (binary_search reads name || binary_search writes name) ≡ contains (reads ++ writes) name
searches-contains reads writes name r w =
    rw (binary_search-contains reads name (IsSorted-of_test reads r)) (
      rw (binary_search-contains writes name (IsSorted-of_test writes w))
        (sym (contains-append reads writes name)))

-- The korg door lets a name through exactly when it is a ruled read or a ruled write.
pub tool_allowed-contains :
    (name : String) → tool_allowed name ≡ contains (read_tools ++ write_tools) name
unfolding tool_allowed
tool_allowed-contains name = searches-contains read_tools write_tools name refl refl

-- The klams door lets a name through exactly when it is a ruled read or a ruled write.
pub klams_tool_allowed-contains :
    (name : String)
    → klams_tool_allowed name ≡ contains (klams_read_tools ++ klams_write_tools) name
unfolding klams_tool_allowed
klams_tool_allowed-contains name =
    searches-contains klams_read_tools klams_write_tools name refl refl

false_of_not : (b : Bool) → not b ≡ true → b ≡ false
false_of_not true h = cc
false_of_not false h = refl

-- No tool that was ruled out of a door passes it.
pub refused_tools-refused :
    (name : String)
    → (contains refused_tools name ≡ true → tool_allowed name ≡ false)
      × (contains klams_refused_tools name ≡ true → klams_tool_allowed name ≡ false)
unfolding tool_allowed klams_tool_allowed binary_search
refused_tools-refused name = (
  λ h. false_of_not _ (all_of_contains (λ n. not (tool_allowed n)) refused_tools name refl h),
  λ h.
      false_of_not _
        (all_of_contains (λ n. not (klams_tool_allowed n)) klams_refused_tools name refl h),
)
