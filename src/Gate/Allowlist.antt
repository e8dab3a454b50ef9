-- ===== src/Gate/Allowlist.antt =====
-- crates/korg-gate/src/allowlist.rs: what the gate lets through, deny by default.
pub mod Ruled
use korg.Base.{String, List, [], ◌∷◌, Bool, ◌||◌, ◌==◌, contains, binary_search}
use text.Mathlib.Text.{starts_with}

abbrev pub read_tools : List String
read_tools =
    "get_attachment" ∷ "get_board" ∷ "get_handoff" ∷ "get_item" ∷ "get_program" ∷ "get_project"
    ∷ "get_proposal" ∷ "get_report" ∷ "get_schedule" ∷ "get_work_item" ∷ "list_areas"
    ∷ "list_attachments" ∷ "list_awaiting" ∷ "list_cards" ∷ "list_comments" ∷ "list_links"
    ∷ "list_programs" ∷ "list_projects" ∷ "list_proposals" ∷ "list_report_sources" ∷ "list_reports"
    ∷ "list_schedules" ∷ "list_work_items" ∷ "neighbors" ∷ "search" ∷ "work_item_flow" ∷ []

abbrev pub write_tools : List String
write_tools =
    "add_comment" ∷ "create_link" ∷ "create_program" ∷ "create_work_item" ∷ "propose_sprint"
    ∷ "relate" ∷ "set_awaiting" ∷ "update_work_item" ∷ []

abbrev pub refused_tools : List String
refused_tools =
    "create_area" ∷ "create_card" ∷ "create_handoff" ∷ "create_project" ∷ "create_report"
    ∷ "create_schedule" ∷ "delete_area" ∷ "delete_comment" ∷ "delete_link" ∷ "mark_link_read"
    ∷ "materialize_schedule" ∷ "review_report" ∷ "set_report_source" ∷ "unrelate" ∷ "update_area"
    ∷ "update_card" ∷ "update_comment" ∷ "update_handoff" ∷ "update_link" ∷ "update_program"
    ∷ "update_project" ∷ "update_proposal" ∷ "update_schedule" ∷ []

abbrev pub origin_tools : List String
origin_tools = "add_comment" ∷ "relate" ∷ []

abbrev pub klams_read_tools : List String
klams_read_tools = "event_search" ∷ "memory_get" ∷ "memory_related" ∷ "memory_search" ∷ []

abbrev pub klams_write_tools : List String
klams_write_tools = "memory_add" ∷ "memory_delete" ∷ "memory_supersede" ∷ "memory_update" ∷ []

abbrev pub klams_refused_tools : List String
klams_refused_tools =
    "dissent_propose" ∷ "memory_admin_hard_delete" ∷ "memory_admin_list_authors"
    ∷ "memory_admin_list_deleted" ∷ "memory_admin_merge_authors" ∷ "memory_admin_remove_author"
    ∷ "memory_admin_restore" ∷ "memory_append_event" ∷ "register_author" ∷ []

abbrev pub methods : List String
methods =
    "initialize" ∷ "notifications/initialized" ∷ "ping" ∷ "server/discover" ∷ "tools/list"
    ∷ "tools/call" ∷ []

abbrev pub duet_origin : String
duet_origin = "claude-duet"

abbrev pub klams_knowledge_kind : String
klams_knowledge_kind = "knowledge"

abbrev pub klams_author_field : String
klams_author_field = "author_id"

-- Whether the korg door lets `name` through: a ruled read or a ruled write.
unfoldable pub tool_allowed : String → Bool
tool_allowed name = binary_search read_tools name || binary_search write_tools name

-- The same for the klams door.
unfoldable pub klams_tool_allowed : String → Bool
klams_tool_allowed name =
    binary_search klams_read_tools name || binary_search klams_write_tools name

unfoldable pub method_allowed : String → Bool
method_allowed method = contains methods method

-- The naming rule of a read.
looks_read_only : String → Bool
looks_read_only name =
    starts_with name "get_"
    || starts_with name "list_"
    || name == "search"
    || name == "neighbors"
    || name == "work_item_flow"
