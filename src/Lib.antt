-- ===== src/Lib.antt =====
-- korg keeps the work of a homelab: work items, cards, proposals, programs and reports in PostgreSQL
-- (crates/korg-core), served over HTTP and MCP (crates/korg-api, crates/korg-mcp). korg-gate
-- (crates/korg-gate) is the one way in from the public internet: an OAuth authorization server, a
-- resource server with a door for each upstream, and a filter that denies by default.
--
-- Files and the code they model:
-- - Base: names passed on from the libraries, lists, text, ordered maps (`BTreeMap`, and `HashMap`
--   where its order is not observed), and the binary search of the standard library.
-- - Gate.Allowlist, Gate.Door, Gate.Config: crates/korg-gate/src/allowlist.rs, door.rs, config.rs.
-- - Gate.State: the data of crates/korg-gate/src/store.rs. Gate.Clients is `register`, `client` and
--   `client_count`, Gate.Lock the sign-in lockout, Gate.Grants `issue_code`, `exchange_code`, `mint`,
--   `refresh` and `authenticate`.
-- - Gate.Json, Gate.Headers, Gate.Routing, Gate.Rewrite, Gate.Filter, Gate.Proxy:
--   crates/korg-gate/src/proxy.rs, from the JSON value and the headers up to `post_mcp`, `get_mcp`
--   and `delete_mcp`. Gate.Filter.Stream is `filter_sse`.
-- - Gate.Oauth: crates/korg-gate/src/oauth.rs: the metadata, `register`, `validate_auth`,
--   `authorize_page`, `authorize_submit` and `token`. Gate.Oauth.Calls is `authorize_submit` again, by its
--   calls of the store.
-- - Gate.Server: the handlers that change the store, a sign-in form one call of the store at a time, and a
--   restart, as the steps of one machine.
-- - Core.Vocab, Core.Error, Core.Registry: crates/korg-core/src/vocab.rs, error.rs, relationships.rs.
-- - Core.Graph: the rows of the tables that the next two read and write.
-- - Core.Programs: the status machine of crates/korg-core/src/repo/programs.rs, and the status part
--   of `update_proposal` in crates/korg-core/src/repo/proposals.rs.
-- - Core.Relate: `relate` and `unrelate` of crates/korg-core/src/repo/relationships.rs.
-- - Desk.Tables, Desk.Postgres, Desk.Log, Desk.Select: the rows that the next four share, what their
--   statements ask of PostgreSQL, and the helpers of crates/korg-core/src/repo/common.rs, activity.rs
--   and selectors.rs.
-- - Desk.Template, Desk.Schedules: crates/korg-core/src/repo/schedules.rs. `check_substitutions`, the
--   due test, creation and edits, `materialize_schedule` as its transaction (`fire`) after a check, and
--   `advance_completed_anchor`.
-- - Desk.Awaiting: crates/korg-core/src/repo/awaiting.rs.
-- - Desk.WorkItems: `create_work_item` and `update_work_item` of crates/korg-core/src/repo/work_items.rs.
-- - Desk.AreaEdits: the writes of crates/korg-core/src/repo/areas.rs; Desk.Filing is their series with those
--   of work items.
-- - Desk.Steps: the writes of schedules, work items and the lane as one step relation, where each caller of
--   `materialize_schedule` has seen any row of the schedule before its transaction.
-- - Desk.Flow: crates/korg-core/src/repo/flow.rs, the series read off the log of transitions, with a history
--   of what happened beside it.
-- - Board: `board_blockers` of crates/korg-core/src/repo/board.rs, from the live proposals and the slices
--   that its caller passes.
-- - Listing: the list reads with counts of what they leave out, `list_proposals_lean`, `list_programs`,
--   `list_work_items_lean` and `list_schedules` of crates/korg-core/src/repo, and the page bounds of page.rs.
--   A row is what the filters and the order read of it.
-- - Gallery: the writes of crates/korg-core/src/repo/attachments.rs, on the tables of Core.Graph, and with
--   `relate` of Core.Relate.
-- - Img.Id, Img.Upload: the ids of images, and `prepare`, of crates/korg-img/src/lib.rs.
-- - Gate.Tests, Core.Tests, Desk.Tests, Desk.Runs, Desk.FlowRuns, Board.Tests, Listing.Tests, Gallery.Tests,
--   Img.Tests: runs at concrete inputs.
--
-- The gate and the core meet only over HTTP: the gate forwards a checked MCP call to korg-api, which calls
-- korg-core.
--
-- An operation takes the store and gives the store after it with its answer. One `Env` holds what the
-- operation reads from outside: the clocks, the random tokens, and whether the state file could be
-- written. The mutex of the code makes every method of its `Store` one step. A sign-in form calls
-- several of them: Gate.Oauth.Calls takes it from one call to the next, with other requests between,
-- and `authorize_submit` is the form that runs undisturbed. Times are whole nanoseconds for
-- `Instant` and `Duration`, and whole seconds for the Unix time. Sums of times do not overflow at
-- the sizes in use, so they are plain sums; the counter of failed sign-ins is a `u32` and wraps. A
-- table of the database is a list of rows, or a function from its primary key, an identifier a
-- natural number, and each operation the one transaction that the code runs. Every loop is over a
-- list or a text and is structural, but for two that run on fuel: the printing of digits takes the
-- number itself, more than its digits, and `check_substitutions` the length of its text and one,
-- since every round takes a brace off the text.
--
-- Parameters stand for code of other crates: `Crypto` for sha2 and base64 (any functions), `Serde`
-- for serde_json (any parser and printer, with its objects in the order of their keys where a
-- theorem says so), the upstream, a function from the request to what it answers,
-- `Codec` for the decoders and encoders of the crate image, and `Postgres` for the arithmetic of dates,
-- `to_char` and the digest of rows, and `Zone` for its days in a time zone.
--
-- Not modelled: the log, the wording of refusals and the HTML of pages, the environment and the
-- listener. `subtle`'s comparisons are equality: their timing is not modelled. Elsewhere:
-- cards, links, handoffs, comments, reports, projects and machines, the panels of the board, the reads
-- that only project rows, the HTTP and MCP route tables, the files of images, and the web application.
pub mod Base
pub mod Gate
pub mod Core
pub mod Img
pub mod Desk
pub mod Board
pub mod Listing
pub mod Gallery
