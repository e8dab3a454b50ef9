-- ===== src/Listing/Tests.antt =====
-- Runs of the queue reads of crates/korg-core/src/repo.
use korg.Base.{
  ℕ, String, List, [], ◌∷◌, Option, none, some, Bool, true, false, map, retain, contains, ◌≡◌, refl,
}
use korg.Listing.{
  Listed, status_predicate, ProposalList, list_proposals, proposal_omitted, tally, hidden, ordered,
  place, queue_before,
}
use korg.Listing.Reads.{ScheduleList, resolve, list_schedules, schedule_omitted}
use korg.Listing.Whole.{Queues, Accounted, reads-Accounted}

abbrev row : ℕ → String → Option String → Bool → Listed
row id status project archived = record {
  node_id = id;
  wi_number = id;
  status = status;
  project = project;
  archived = archived;
  pinned = false;
  rank = id;
  due_at = id;
  is_due = false;
}

abbrev queues : Queues
queues = record {
  proposals =
      row 1 "parked" (some "korg") false
      ∷ (row 2 "proposed" (some "korg") false
          ∷ (row 3 "done" (some "korg") true ∷ (row 4 "declined" (some "korg") false ∷ [])));
  programs = row 5 "queued" none false ∷ (row 6 "done" none false ∷ []);
  work_items =
      row 7 "open" (some "korg") false
      ∷ (row 8 "closed" (some "korg") false ∷ (row 9 "open" (some "kfdc") false ∷ []));
  schedules = row 10 "active" (some "korg") false ∷ (row 11 "done" (some "kfdc") false ∷ []);
}

abbrev ids : List Listed → List ℕ
ids rows = map (λ r. r.node_id) rows

abbrev listed_ids : Option ProposalList → List ℕ
listed_ids none = []
listed_ids (some l) = ids l.items

abbrev done_omitted : Option ScheduleList → Option ℕ
done_omitted none = none
done_omitted (some l) = some ((l.omitted).done)

-- Parked proposals come last.
proposals_in_order :
    listed_ids (list_proposals none (some "korg") (some false) queues.proposals) ≡ 2 ∷ (1 ∷ [])
unfolding list_proposals status_predicate ordered place queue_before retain contains
    proposal_omitted
proposals_in_order = refl

-- With a project, a schedule of another one is among those said to be left out.
other_project :
    done_omitted (list_schedules none (some "korg") false (some false) queues.schedules) ≡ some 1
unfolding list_schedules status_predicate schedule_omitted tally hidden contains
other_project = refl

bounds : (resolve (record { limit = some 900; offset = none })) ≡ (500, 0)
unfolding resolve
bounds = refl

reads-Accounted_example : Accounted queues none (some "korg") (some false) true 1 5
unfolding contains
reads-Accounted_example = reads-Accounted queues none (some "korg") (some false) true 1 5 refl refl
