-- ===== src/Listing.antt =====
-- The queue reads of crates/korg-core/src/repo/proposals.rs, programs.rs, work_items.rs and
-- schedules.rs: which rows they give, in which order, and what they say that they leave out.
pub mod Reads
pub mod Tally
pub mod Accounts
pub mod Pages
pub mod Whole
mod Tests
use korg.Base.{
  ℕ, ◌+◌, ◌-◌, String, List, [], ◌∷◌, Option, none, some, Bool, true, false, not, ◌&&◌, ◌||◌, ◌==◌,
  contains, retain, drop, take, nat_eq, ltb, leb, min, max, if◌then◌else◌, unwrap_or,
}
use korg.Core.Vocab.{
  parked_status, proposal_statuses, proposal_live_statuses, program_statuses, program_live_statuses,
  wi_statuses, wi_live_statuses, schedule_statuses, schedule_live_statuses,
}

-- A row of one of the four tables with its node: what the filters and the order read. Of a rank
-- and of the time at which a schedule is due, only the order counts.
pub record Listed : Type 0 where
  pub node_id : ℕ
  -- Of a work item; the other tables have no number.
  pub wi_number : ℕ
  pub status : String
  pub project : Option String
  pub archived : Bool
  pub pinned : Bool
  pub rank : ℕ
  pub due_at : ℕ
  pub is_due : Bool

-- The statuses to show, `none` for all of them; outside `Option`, `none` is a refusal.
unfoldable pub status_predicate :
    (vocabulary live : List String) → Option String → Option (Option (List String))
status_predicate vocabulary live none = some (some live)
status_predicate vocabulary live (some status) =
    if status == "all"
    then some none
    else if contains vocabulary status
    then some (some (status ∷ []))
    else none

-- `$1::text[] IS NULL OR status = ANY($1)`
abbrev pub shows_status : Option (List String) → String → Bool
shows_status none status = true
shows_status (some list) status = contains list status

-- `$2::bool IS NULL OR n.archived = $2`
abbrev pub shows_archived : Option Bool → Bool → Bool
shows_archived none archived = true
shows_archived (some true) archived = archived
shows_archived (some false) archived = not archived

-- `n.archived AND $2::bool IS NOT NULL AND NOT $2`
abbrev pub hides_archived : Option Bool → Bool → Bool
hides_archived (some false) archived = archived
hides_archived _ archived = false

-- `$2::text IS NULL OR pj.name = $2`, where a row that is not filed has no name.
abbrev pub in_project : Option String → Option String → Bool
in_project none filed = true
in_project (some name) none = false
in_project (some name) (some filed) = filed == name

-- The number of the rows that pass a test.
unfoldable pub tally : (Listed → Bool) → List Listed → ℕ
tally p [] = 0
tally p (r ∷ rs) = (if p r then 1 else 0) + tally p rs

-- What a filter for a status hides, unless the caller asked for the status.
unfoldable pub hidden : Option (List String) → String → ℕ → ℕ
hidden none status n = 0
hidden (some list) status n = if contains list status then 0 else n

unfoldable pub place : (Listed → Listed → Bool) → Listed → List Listed → List Listed
place before r [] = r ∷ []
place before r (x ∷ xs) = if before x r then x ∷ place before r xs else r ∷ (x ∷ xs)

unfoldable pub ordered : (Listed → Listed → Bool) → List Listed → List Listed
ordered before [] = []
ordered before (r ∷ rs) = place before r (ordered before rs)

-- `ORDER BY (status = 'parked') ASC, pinned DESC, rank ASC, node_id ASC`
unfoldable pub queue_before : Listed → Listed → Bool
queue_before a b =
    let parked = λ (r : Listed). r.status == parked_status in
    not (parked a) && parked b
    || (parked a && parked b || not (parked a) && not (parked b))
      && (a.pinned && not b.pinned
          || (a.pinned && b.pinned || not a.pinned && not b.pinned)
            && (ltb a.rank b.rank || nat_eq a.rank b.rank && ltb a.node_id b.node_id))

pub record ProposalOmitted : Type 0 where
  pub done : ℕ
  pub declined : ℕ
  pub archived : ℕ

pub record ProposalList : Type 0 where
  pub items : List Listed
  pub omitted : ProposalOmitted

unfoldable pub proposal_omitted :
    Option String → Option Bool → Option (List String) → List Listed → ProposalOmitted
proposal_omitted project archived shown rows =
    let scoped = λ (p : Listed → Bool). tally (λ r. in_project project r.project && p r) rows in
    record {
      done =
          hidden shown "done"
            (scoped (λ r. shows_archived archived r.archived && r.status == "done"));
      declined =
          hidden shown "declined"
            (scoped (λ r. shows_archived archived r.archived && r.status == "declined"));
      archived = scoped (λ r. hides_archived archived r.archived);
    }

unfoldable pub list_proposals :
    Option String → Option String → Option Bool → List Listed → Option ProposalList
list_proposals status project archived rows =
    elim (status_predicate proposal_statuses proposal_live_statuses status) [
      | none ↦ none
      | some shown ↦ some (record {
        items = ordered queue_before (
            retain
              (λ r.
                shows_status shown r.status
                && in_project project r.project
                && shows_archived archived r.archived)
              rows);
        omitted = proposal_omitted project archived shown rows;
      })
    ]

pub record ProgramOmitted : Type 0 where
  pub done : ℕ
  pub archived : ℕ

pub record ProgramList : Type 0 where
  pub items : List Listed
  pub omitted : ProgramOmitted

unfoldable pub program_omitted : Option Bool → Option (List String) → List Listed → ProgramOmitted
program_omitted archived shown rows = record {
  done =
      hidden shown "done"
        (tally (λ r. shows_archived archived r.archived && r.status == "done") rows);
  archived = tally (λ r. hides_archived archived r.archived) rows;
}

unfoldable pub list_programs : Option String → Option Bool → List Listed → Option ProgramList
list_programs status archived rows =
    elim (status_predicate program_statuses program_live_statuses status) [
      | none ↦ none
      | some shown ↦ some (record {
        items =
            ordered queue_before (
              retain (λ r. shows_status shown r.status && shows_archived archived r.archived) rows);
        omitted = program_omitted archived shown rows;
      })
    ]
