-- ===== src/Listing/Accounts.antt =====
-- That the queue reads of crates/korg-core/src/repo leave no row unaccounted for.
use korg.Base.{
  ℕ, ◌+◌, String, List, Option, none, some, Bool, true, false, ◌&&◌, ◌==◌, contains, length, retain,
  all, nat_eq, ◌≡◌, refl, arith, all_of_contains,
}
use korg.Core.Vocab.{
  proposal_statuses, proposal_live_statuses, program_statuses, program_live_statuses,
}
use korg.Desk.Tables.{eq_of_nat_eq}
use korg.Listing.{
  Listed, shows_status, shows_archived, hides_archived, in_project, tally, ordered, queue_before,
  ProposalOmitted, proposal_omitted, ProgramOmitted, program_omitted,
}
use korg.Listing.Tally.{
  one_if, length-listed, tally-four, tally_none, hides, hidden-tally, every_four,
}

-- The default filter for a status or none at all, and the same for the archived rows.
abbrev pub shown_by : List String → Bool → Option (List String)
shown_by live true = none
shown_by live false = some live

abbrev pub archived_by : Bool → Option Bool
archived_by true = none
archived_by false = some false

-- Whether a proposal in or out of a project, archived or not, is counted once or not at all.
abbrev proposal_once : (every both_kinds filed archived : Bool) → String → Bool
proposal_once every both_kinds filed archived s =
    let shown = shown_by proposal_live_statuses every in
    let asked = archived_by both_kinds in
    nat_eq
      (one_if (shows_status shown s && filed && shows_archived asked archived)
        + (one_if (hides shown "done" && (filed && (shows_archived asked archived && s == "done")))
            + (one_if (
                  hides shown "declined"
                  && (filed && (shows_archived asked archived && s == "declined")))
                + one_if (filed && hides_archived asked archived))))
      (one_if filed)

proposal_once-holds :
    (every both_kinds filed archived : Bool) (s : String)
    → contains proposal_statuses s ≡ true
    → proposal_once every both_kinds filed archived s ≡ true
unfolding contains
proposal_once-holds every both_kinds filed archived s known =
    all_of_contains (proposal_once every both_kinds filed archived) proposal_statuses s
      (every_four (λ a b c d. all (proposal_once a b c d) proposal_statuses) every both_kinds filed
        archived refl)
      known

-- The rows that are listed and those that are said to be left out.
abbrev pub accounted : List Listed → ProposalOmitted → ℕ
accounted items omitted = length items + (omitted.done + (omitted.declined + omitted.archived))

abbrev program_once : (every both_kinds archived : Bool) → String → Bool
program_once every both_kinds archived s =
    let shown = shown_by program_live_statuses every in
    let asked = archived_by both_kinds in
    nat_eq
      (one_if (shows_status shown s && shows_archived asked archived)
        + (one_if (hides shown "done" && (shows_archived asked archived && s == "done"))
            + (one_if false + one_if (hides_archived asked archived))))
      1

program_once-holds :
    (every both_kinds archived : Bool) (s : String)
    → contains program_statuses s ≡ true
    → program_once every both_kinds archived s ≡ true
unfolding contains
program_once-holds every both_kinds archived s known =
    all_of_contains (program_once every both_kinds archived) program_statuses s
      (every_four (λ a b c d. all (program_once a b d) program_statuses) every both_kinds true
        archived refl)
      known

abbrev pub programs_accounted : List Listed → ProgramOmitted → ℕ
programs_accounted items omitted = length items + (omitted.done + omitted.archived)

module _ (every both_kinds : Bool) (project : Option String) (rows : List Listed) where
  pub proposals-tally :
      all (λ r. contains proposal_statuses r.status) rows ≡ true
      → accounted
          (ordered queue_before (
            retain
              (λ r.
                shows_status (shown_by proposal_live_statuses every) r.status
                && in_project project r.project
                && shows_archived (archived_by both_kinds) r.archived)
              rows))
          (proposal_omitted project
            (archived_by both_kinds)
            (shown_by proposal_live_statuses every)
            rows)
        ≡ tally (λ r. in_project project r.project) rows
  unfolding proposal_omitted
  proposals-tally known =
      let shown = shown_by proposal_live_statuses every in
      let asked = archived_by both_kinds in
      let items = λ (r : Listed).
        shows_status shown r.status
        && in_project project r.project
        && shows_archived asked r.archived in
      let done = λ (r : Listed).
        in_project project r.project && (shows_archived asked r.archived && r.status == "done") in
      let declined = λ (r : Listed).
        in_project project r.project
        && (shows_archived asked r.archived && r.status == "declined") in
      rw
        (
          length-listed queue_before items rows,
          hidden-tally shown "done" done rows,
          hidden-tally shown "declined" declined rows,
        )
        (tally-four (λ r. contains proposal_statuses r.status) items
          (λ r. hides shown "done" && done r) (λ r. hides shown "declined" && declined r)
          (λ r. in_project project r.project && hides_archived asked r.archived)
          (λ r. in_project project r.project) rows
          (λ x known. eq_of_nat_eq _ _ (
            proposal_once-holds every both_kinds (in_project project x.project) x.archived x.status
              known))
          known)

  pub programs-tally :
      all (λ r. contains program_statuses r.status) rows ≡ true
      → programs_accounted
          (ordered queue_before (
            retain
              (λ r.
                shows_status (shown_by program_live_statuses every) r.status
                && shows_archived (archived_by both_kinds) r.archived)
              rows))
          (program_omitted (archived_by both_kinds) (shown_by program_live_statuses every) rows)
        ≡ tally (λ r. true) rows
  unfolding program_omitted
  programs-tally known =
      let shown = shown_by program_live_statuses every in
      let asked = archived_by both_kinds in
      let items = λ (r : Listed). shows_status shown r.status && shows_archived asked r.archived in
      let done = λ (r : Listed). shows_archived asked r.archived && r.status == "done" in
      let archived = λ (r : Listed). hides_archived asked r.archived in
      let whole =
        tally-four (λ r. contains program_statuses r.status) items
          (λ r. hides shown "done" && done r) (λ r. false) archived (λ r. true) rows
          (λ x known.
            eq_of_nat_eq _ _ (program_once-holds every both_kinds x.archived x.status known))
          known in
      rw (length-listed queue_before items rows, hidden-tally shown "done" done rows)
        (omega (arith, whole, tally_none rows))
