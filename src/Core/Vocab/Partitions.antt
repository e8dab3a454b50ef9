-- ===== src/Core/Vocab/Partitions.antt =====
-- The partitions of crates/korg-core/src/vocab.rs: each status falls on one side.
use korg.Base.{
  String, List, Bool, true, false, not, ◌&&◌, ◌||◌, ◌≡◌, refl, ◌∙◌, ◌++◌, arith, all, contains,
  contains-append, all_of_contains, Bool-cases, inl, inr,
}
use korg.Core.Vocab.{
  wi_statuses, wi_live_statuses, wi_terminal_statuses, wi_finished_statuses, wi_unfinished_statuses,
  proposal_statuses, proposal_live_statuses, proposal_terminal_statuses, program_statuses,
  program_live_statuses, program_terminal_statuses, schedule_statuses, schedule_live_statuses,
  schedule_terminal_statuses,
}

-- A status is in `whole` exactly when it is in one of the parts, and it is in no two.
pub record Splits (whole left right : List String) (s : String) : Type 0 where
  pub covered : contains whole s ≡ (contains left s || contains right s)
  pub apart : (contains left s && contains right s) ≡ false

equal_of_implied : (a b : Bool) → (a ≡ true → b ≡ true) → (b ≡ true → a ≡ true) → a ≡ b
equal_of_implied true b f g = ground (arith, f refl)
equal_of_implied false true f g = ground (arith, g refl)
equal_of_implied false false f g = refl

-- Three tests of the lists settle the question for every text.
splits :
    (whole left right : List String) (s : String)
    → all (contains (left ++ right)) whole ≡ true
    → all (contains whole) (left ++ right) ≡ true
    → all (λ x. not (contains right x)) left ≡ true
    → Splits whole left right s
splits whole left right s f g h = record {
  covered =
      equal_of_implied (contains whole s) (contains (left ++ right) s)
        (all_of_contains (contains (left ++ right)) whole s f)
        (all_of_contains (contains whole) (left ++ right) s g)
      ∙ contains-append left right s;
  apart = elim (Bool-cases (contains left s)) [
    | inl on_left ↦ ground (arith, all_of_contains (λ x. not (contains right x)) left s h on_left)
    | inr off_left ↦ ground arith
  ];
}

-- Of the work items, proposals, programs and schedules, a status of the vocabulary is either shown
-- by a default list read or counted as omitted, and never both; and a work item is either finished
-- or unfinished, and never both. A text outside the vocabulary is on no side.
pub statuses-Splits :
    (s : String)
    → Splits wi_statuses wi_live_statuses wi_terminal_statuses s
      × Splits wi_statuses wi_finished_statuses wi_unfinished_statuses s
      × Splits proposal_statuses proposal_live_statuses proposal_terminal_statuses s
      × Splits program_statuses program_live_statuses program_terminal_statuses s
      × Splits schedule_statuses schedule_live_statuses schedule_terminal_statuses s
unfolding contains
statuses-Splits s = (
  splits wi_statuses wi_live_statuses wi_terminal_statuses s refl refl refl,
  splits wi_statuses wi_finished_statuses wi_unfinished_statuses s refl refl refl,
  splits proposal_statuses proposal_live_statuses proposal_terminal_statuses s refl refl refl,
  splits program_statuses program_live_statuses program_terminal_statuses s refl refl refl,
  splits schedule_statuses schedule_live_statuses schedule_terminal_statuses s refl refl refl,
)
