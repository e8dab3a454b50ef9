-- ===== src/Core/Vocab.antt =====
-- crates/korg-core/src/vocab.rs: the closed vocabularies, their partitions, and what is read off them.
pub mod Partitions
use Prim.Native.String.{◌++◌}
use korg.Base.{
  String, List, [], ◌∷◌, Option, none, some, Bool, true, false, ◌==◌, find, contains, if◌then◌else◌,
}

abbrev pub parked_status : String
parked_status = "parked"

abbrev pub soaking_status : String
soaking_status = "soaking"

abbrev pub program_initial_status : String
program_initial_status = "queued"

abbrev pub node_kinds : List String
node_kinds =
    "workitem" ∷ "card" ∷ "link" ∷ "sprint_proposal" ∷ "report" ∷ "handoff" ∷ "program" ∷ "schedule"
    ∷ "attachment" ∷ []

abbrev pub activity_actions : List String
activity_actions =
    "created" ∷ "edited" ∷ "status_changed" ∷ "comment_added" ∷ "comment_edited" ∷ "comment_deleted"
    ∷ "related" ∷ "unrelated" ∷ "attached" ∷ "detached" ∷ []

abbrev pub attachment_states : List String
attachment_states = "pending" ∷ "linked" ∷ []

abbrev pub wi_statuses : List String
wi_statuses = "open" ∷ "resolved" ∷ "done" ∷ "closed" ∷ "parked" ∷ []

abbrev pub wi_live_statuses : List String
wi_live_statuses = "open" ∷ "resolved" ∷ "done" ∷ "parked" ∷ []

abbrev pub wi_terminal_statuses : List String
wi_terminal_statuses = "closed" ∷ []

abbrev pub wi_finished_statuses : List String
wi_finished_statuses = "done" ∷ "closed" ∷ []

abbrev pub wi_unfinished_statuses : List String
wi_unfinished_statuses = "open" ∷ "resolved" ∷ "parked" ∷ []

abbrev pub wi_types : List String
wi_types =
    "task" ∷ "bug" ∷ "chore" ∷ "feature" ∷ "research" ∷ "tweak" ∷ "brainstorm" ∷ "maintenance" ∷ []

abbrev pub wi_tshirts : List String
wi_tshirts = "XS" ∷ "S" ∷ "M" ∷ "L" ∷ "XL" ∷ "Huge" ∷ "Unknown" ∷ []

abbrev pub card_statuses : List String
card_statuses = "Backlog" ∷ "Research" ∷ "OnDeck" ∷ "Active" ∷ "Done" ∷ "Cut" ∷ []

abbrev pub card_terminal_statuses : List String
card_terminal_statuses = "Done" ∷ "Cut" ∷ []

abbrev pub link_dispositions : List String
link_dispositions = "Unread" ∷ "Done" ∷ "Revisit" ∷ "Summarized" ∷ "VaultSaved" ∷ []

abbrev pub proposal_statuses : List String
proposal_statuses = "proposed" ∷ "active" ∷ "done" ∷ "declined" ∷ parked_status ∷ []

abbrev pub proposal_live_statuses : List String
proposal_live_statuses = "proposed" ∷ "active" ∷ parked_status ∷ []

abbrev pub proposal_terminal_statuses : List String
proposal_terminal_statuses = "done" ∷ "declined" ∷ []

abbrev pub proposal_started_statuses : List String
proposal_started_statuses = "active" ∷ "done" ∷ []

abbrev pub program_statuses : List String
program_statuses = "queued" ∷ "active" ∷ "holding" ∷ soaking_status ∷ "done" ∷ parked_status ∷ []

abbrev pub program_live_statuses : List String
program_live_statuses = "queued" ∷ "active" ∷ "holding" ∷ soaking_status ∷ parked_status ∷ []

abbrev pub program_terminal_statuses : List String
program_terminal_statuses = "done" ∷ []

abbrev pub program_liftable_statuses : List String
program_liftable_statuses = program_initial_status ∷ soaking_status ∷ []

abbrev pub report_statuses : List String
report_statuses = "ok" ∷ "attention" ∷ "problem" ∷ []

abbrev pub schedule_cadences : List String
schedule_cadences = "once" ∷ "weekly" ∷ "fortnightly" ∷ "monthly" ∷ "quarterly" ∷ "yearly" ∷ []

abbrev pub schedule_anchors : List String
schedule_anchors = "completed" ∷ "created" ∷ []

abbrev pub schedule_statuses : List String
schedule_statuses = "active" ∷ "paused" ∷ "done" ∷ []

abbrev pub schedule_live_statuses : List String
schedule_live_statuses = "active" ∷ "paused" ∷ []

abbrev pub schedule_terminal_statuses : List String
schedule_terminal_statuses = "done" ∷ []

abbrev pub schedule_substitutions : List String
schedule_substitutions = "YEAR" ∷ "MONTH" ∷ "DAY" ∷ "DATE" ∷ "QUARTER" ∷ []

abbrev pub source_freshness : List String
source_freshness = "fresh" ∷ "stale" ∷ "retired" ∷ "unrated" ∷ "on-demand" ∷ []

abbrev pub source_assertions : List String
source_assertions = "ok" ∷ "attention" ∷ "problem" ∷ "unknown" ∷ []

abbrev pub project_statuses : List String
project_statuses = "active" ∷ "archived" ∷ []

abbrev pub project_categories : List String
project_categories =
    "AI" ∷ "Dashboard" ∷ "EVAL" ∷ "Fun" ∷ "Infrastructure" ∷ "Ops" ∷ "Other" ∷ "Tools" ∷ []

abbrev pub node_routes : List (String × String)
node_routes =
    ("workitem", "/work-items/{id}")
    ∷ ("card", "/cards/{id}")
    ∷ ("link", "/reading-list/{id}")
    ∷ ("sprint_proposal", "/planning/{id}")
    ∷ ("report", "/daily-reports/{id}")
    ∷ ("handoff", "/handoffs/{id}")
    ∷ ("program", "/programs/{id}")
    ∷ ("schedule", "/schedules/{id}")
    ∷ ("attachment", "/attachments/{id}")
    ∷ []

abbrev pub node_title_words : List (String × String)
node_title_words =
    ("workitem", "WI")
    ∷ ("card", "card")
    ∷ ("link", "link")
    ∷ ("sprint_proposal", "proposal")
    ∷ ("report", "report")
    ∷ ("handoff", "handoff")
    ∷ ("program", "program")
    ∷ ("schedule", "schedule")
    ∷ ("attachment", "attachment")
    ∷ []

abbrev pub source_asserts_unknown : String
source_asserts_unknown = "unknown"

abbrev pub project_status_active : String
project_status_active = "active"

abbrev pub project_status_archived : String
project_status_archived = "archived"

second : Option (String × String) → Option String
second none = none
second (some (k, v)) = some v

-- The word that a kind goes by in a tab title.
pub node_title_word : String → Option String
unfolding second
node_title_word kind = second (find (λ e. e.0 == kind) node_title_words)

-- `none` where the value is in its vocabulary, and the set that it should be in otherwise.
unfoldable pub validate : String → List String → Option (List String)
validate value allowed = if contains allowed value then none else some allowed
