-- ===== src/Desk/Tests.antt =====
-- Runs of the desk of crates/korg-core: templates, the lane, schedules and work items.
use korg.Base.{contains, true, ◌≡◌, refl}
use korg.Core.Vocab.{schedule_substitutions}
use korg.Desk.Template.{
  accepted, unknown_substitution, check_substitutions, scan, cut, refused_name, placeholder_shaped,
  capitals, capital,
}
use korg.Desk.Template.Accepted.{Placed, open_after, check_substitutions-known}
use korg.Desk.Template.Stops.{Decided, check_substitutions-Decided}

checked : check_substitutions "korg restore drill - {MONTH} {YEAR} ({x})" ≡ accepted
unfolding check_substitutions scan cut refused_name placeholder_shaped capitals capital contains
checked = refl

misspelt : check_substitutions "{YEAR} {MONTL}" ≡ unknown_substitution "MONTL"
unfolding check_substitutions scan cut refused_name placeholder_shaped capitals capital contains
misspelt = refl

-- The name of the group that a stray brace opens is no placeholder, and the group is passed over whole.
stray_brace : check_substitutions "{ {MONTL}" ≡ accepted
unfolding check_substitutions scan cut refused_name placeholder_shaped capitals capital contains
stray_brace = refl

year_Placed : Placed "korg restore drill - {MONTH} {YEAR} ({x})" "YEAR"
unfolding open_after
year_Placed = record {
  before = "korg restore drill - {MONTH} ";
  after = " ({x})";
  text = refl;
  shut = refl;
}

check_substitutions-known_example : contains schedule_substitutions "YEAR" ≡ true
check_substitutions-known_example =
    check_substitutions-known "korg restore drill - {MONTH} {YEAR} ({x})" "YEAR" checked year_Placed
      (unfold placeholder_shaped capitals capital in refl)

check_substitutions-Decided_example :
    Decided "{YEAR} {MONTL}" (check_substitutions "{YEAR} {MONTL}")
check_substitutions-Decided_example = check_substitutions-Decided "{YEAR} {MONTL}"
