-- ===== src/Core/Relate/Change.antt =====
-- The writes of crates/korg-core that can move a program off `queued`, or a slice under it, as one
-- step relation.
use korg.Base.{ℕ, String, Option, false, ◌==◌, ◌≡◌}
use korg.Core.Vocab.{program_initial_status}
use korg.Core.Graph.{Decimal, Graph, ok}
use korg.Core.Programs.{update_proposal, update_program}
use korg.Core.Programs.Queued.{QueuedIdle}
use korg.Core.Programs.Slices.{update_proposal-QueuedIdle, update_program-QueuedIdle}
use korg.Core.Relate.{relate, unrelate}
use korg.Core.Relate.Slices.{relate-QueuedIdle, unrelate-QueuedIdle}

pub data Change : Graph → Graph → Type 0 where
  related :
      (left right : ℕ) (label : String) (origin : Option String) (rank : Option Decimal) {g : Graph}
      (r : Graph × ℕ)
      → relate left right label origin rank g ≡ ok r
      → Change g r.0
  unrelated : (id : ℕ) (g : Graph) → Change g (unrelate id g).0
  proposal_moved :
      (id : ℕ) (status : String) {g g' : Graph} → update_proposal id status g ≡ ok g' → Change g g'
  -- Nobody declares a program queued.
  program_moved :
      (id : ℕ) (status : String) {g g' : Graph}
      → (status == program_initial_status) ≡ false
      → update_program id status g ≡ ok g'
      → Change g g'

pub data Changes : Graph → Graph → Type 0 where
  none_yet : (g : Graph) → Changes g g
  then_change : {g g' g'' : Graph} → Changes g g' → Change g' g'' → Changes g g''

Change-QueuedIdle : (g g' : Graph) → Change g g' → QueuedIdle g → QueuedIdle g'
Change-QueuedIdle g _ (related left right label origin rank r h) q =
    relate-QueuedIdle left right label origin rank g r q h
Change-QueuedIdle g _ (unrelated id _) q = unrelate-QueuedIdle id g q
Change-QueuedIdle g g' (proposal_moved id status h) q =
    update_proposal-QueuedIdle id status g g' q h
Change-QueuedIdle g g' (program_moved id status ne h) q =
    update_program-QueuedIdle id status g g' ne q h

-- A queued program has no slice that has begun, and no series of edges added and removed, slices
-- moved and programs moved makes one that has, as long as nobody declares a program queued.
pub Changes-QueuedIdle : (g g' : Graph) → Changes g g' → QueuedIdle g → QueuedIdle g'
Changes-QueuedIdle g _ (none_yet _) q = q
Changes-QueuedIdle g g'' (then_change {g' = g'} cs c) q =
    Change-QueuedIdle g' g'' c (Changes-QueuedIdle g g' cs q)
