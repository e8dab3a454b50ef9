-- ===== src/Listing/Whole.antt =====
-- The queue reads of crates/korg-core/src/repo, by their arguments.
use korg.Base.{
  ℕ, ◌-◌, String, List, Option, none, some, Bool, true, false, not, ◌&&◌, ◌==◌, contains, length,
  all, min, ◌≡◌, refl, arith,
}
use korg.Core.Vocab.{
  proposal_statuses, proposal_live_statuses, program_statuses, program_live_statuses, wi_statuses,
  wi_live_statuses, schedule_statuses, schedule_live_statuses,
}
use korg.Listing.{
  Listed, status_predicate, in_project, tally, ProposalList, list_proposals, ProgramList,
  list_programs,
}
use korg.Listing.Reads.{WorkItemList, lean_page, list_work_items_lean, ScheduleList, list_schedules}
use korg.Listing.Accounts.{
  shown_by, archived_by, accounted, programs_accounted, proposals-tally, programs-tally,
}
use korg.Listing.Pages.{
  lean_page-length, items_accounted, schedules_accounted, items-tally, schedules-tally,
}

-- The rows of the four tables.
pub record Queues : Type 0 where
  pub proposals : List Listed
  pub programs : List Listed
  pub work_items : List Listed
  pub schedules : List Listed

-- Every row has a status of its vocabulary.
abbrev pub in_vocabularies : Queues → Bool
in_vocabularies q =
    all (λ r. contains proposal_statuses r.status) q.proposals
    && all (λ r. contains program_statuses r.status) q.programs
    && all (λ r. contains wi_statuses r.status) q.work_items
    && all (λ r. contains schedule_statuses r.status) q.schedules

-- Whether a caller leaves the statuses to the default or asks for all, and does not ask for the
-- archived rows alone.
abbrev pub unnarrowed : Option String → Option Bool → Bool
unnarrowed none none = true
unnarrowed none (some archived) = not archived
unnarrowed (some status) none = status == "all"
unnarrowed (some status) (some archived) = status == "all" && not archived

-- What the reads give with these arguments, and that it adds up to the rows that there are.
abbrev pub Accounted :
    Queues → (status project : Option String) → Option Bool → Bool → (limit offset : ℕ) → Type 0
Accounted q status project archived due_only limit offset =
    ((list : ProposalList) × (list_proposals status project archived q.proposals ≡ some list)
      × (accounted list.items list.omitted ≡ tally (λ r. in_project project r.project) q.proposals))
    × ((list : ProgramList) × (list_programs status archived q.programs ≡ some list)
        × (programs_accounted list.items list.omitted ≡ tally (λ r. true) q.programs))
    × ((list : WorkItemList) × (list_work_items_lean project status archived limit offset
            q.work_items
          ≡ some list)
        × (items_accounted (list.total, list.omitted)
            ≡ tally (λ r. in_project project r.project) q.work_items)
        × (length list.items ≡ min limit (list.total - offset)))
    × ((list : ScheduleList) × (list_schedules status none due_only archived q.schedules
          ≡ some list)
        × (schedules_accounted list.items list.omitted ≡ tally (λ r. true) q.schedules))

module _ (q : Queues) (status project : Option String) (every both_kinds due_only : Bool)
    (asks : (vocabulary live : List String)
      → status_predicate vocabulary live status ≡ some (shown_by live every)) where
  listed-proposals :
      all (λ r. contains proposal_statuses r.status) q.proposals ≡ true
      → (list : ProposalList) × (list_proposals status project (archived_by both_kinds) q.proposals
          ≡ some list)
        × (accounted list.items list.omitted
            ≡ tally (λ r. in_project project r.project) q.proposals)
  unfolding list_proposals
  listed-proposals known = (
    _,
    rw (asks proposal_statuses proposal_live_statuses, list_proposals) refl,
    proposals-tally every both_kinds project q.proposals known,
  )

  listed-programs :
      all (λ r. contains program_statuses r.status) q.programs ≡ true
      → (list : ProgramList) × (list_programs status (archived_by both_kinds) q.programs
          ≡ some list)
        × (programs_accounted list.items list.omitted ≡ tally (λ r. true) q.programs)
  unfolding list_programs
  listed-programs known = (
    _,
    rw (asks program_statuses program_live_statuses, list_programs) refl,
    programs-tally every both_kinds project q.programs known,
  )

  listed-items :
      (limit offset : ℕ)
      → all (λ r. contains wi_statuses r.status) q.work_items ≡ true
      → (list : WorkItemList) × (list_work_items_lean project status
            (archived_by both_kinds)
            limit
            offset
            q.work_items
          ≡ some list)
        × (items_accounted (list.total, list.omitted)
            ≡ tally (λ r. in_project project r.project) q.work_items)
        × (length list.items ≡ min limit (list.total - offset))
  unfolding list_work_items_lean lean_page
  listed-items limit offset known =
      let shown = shown_by wi_live_statuses every in
      (
        lean_page project shown (archived_by both_kinds) limit offset q.work_items,
        rw (asks wi_statuses wi_live_statuses, list_work_items_lean) refl,
        items-tally every both_kinds q.work_items project known,
        lean_page-length project shown (archived_by both_kinds) limit offset q.work_items,
      )

  listed-schedules :
      all (λ r. contains schedule_statuses r.status) q.schedules ≡ true
      → (list : ScheduleList) × (list_schedules status none due_only
            (archived_by both_kinds)
            q.schedules
          ≡ some list)
        × (schedules_accounted list.items list.omitted ≡ tally (λ r. true) q.schedules)
  unfolding list_schedules
  listed-schedules known = (
    _,
    rw (asks schedule_statuses schedule_live_statuses, list_schedules) refl,
    schedules-tally every both_kinds q.schedules due_only known,
  )

  all-Accounted :
      (limit offset : ℕ)
      → in_vocabularies q ≡ true
      → Accounted q status project (archived_by both_kinds) due_only limit offset
  all-Accounted limit offset known = (
    listed-proposals (ground (arith, known)),
    listed-programs (ground (arith, known)),
    listed-items limit offset (ground (arith, known)),
    listed-schedules (ground (arith, known)),
  )

by_default :
    (vocabulary live : List String)
    → status_predicate vocabulary live none ≡ some (shown_by live false)
unfolding status_predicate
by_default vocabulary live = refl

for_all :
    (status : String)
    → (status == "all") ≡ true
    → (vocabulary live : List String)
    → status_predicate vocabulary live (some status) ≡ some (shown_by live true)
unfolding status_predicate
for_all status asked vocabulary live = rw asked refl

-- A caller that narrows nothing is told of every row: the four reads answer, and the rows they list
-- and the rows they say they leave out add up to those of the project, of the schedules and programs
-- to all there are, when every row has a status of its vocabulary. A page of work items has the rows
-- that its total leaves past its offset, up to its limit, an offset past the last row included.
pub reads-Accounted :
    (q : Queues) (status project : Option String) (archived : Option Bool) (due_only : Bool)
    (limit offset : ℕ)
    → unnarrowed status archived ≡ true
    → in_vocabularies q ≡ true
    → Accounted q status project archived due_only limit offset
reads-Accounted q none project none due_only limit offset h known =
    all-Accounted q none project false true due_only by_default limit offset known
reads-Accounted q none project (some true) due_only limit offset h known = ground (arith, h)
reads-Accounted q none project (some false) due_only limit offset h known =
    all-Accounted q none project false false due_only by_default limit offset known
reads-Accounted q (some status) project none due_only limit offset h known =
    all-Accounted q (some status) project true true due_only (for_all status h) limit offset known
reads-Accounted q (some status) project (some true) due_only limit offset h known =
    ground (arith, h)
reads-Accounted q (some status) project (some false) due_only limit offset h known =
    all-Accounted q (some status) project true false due_only (for_all status (ground (arith, h)))
      limit offset known
