-- ===== src/Desk/Flow/History.antt =====
-- What the status of a work item was at a time, by what happened, and that flow.rs of
-- crates/korg-core/src/repo reads it off the log of transitions.
use korg.Base.{
  ℕ, ◌≤◌, String, List, [], ◌∷◌, Option, none, some, Bool, ◌&&◌, nat_eq, ltb, if◌then◌else◌, ◌≡◌,
}
use korg.Desk.Flow.{FlowRow, Corpus, arrive, change, hide, status_before}

-- That a work item got a status.
pub record Happening : Type 0 where
  pub at : ℕ
  pub id : ℕ
  pub status : String

abbrev pub initial : Option FlowRow → Option String
initial none = none
initial (some w) = some w.wi_status

-- The status of a work item right before a time: the last one it got, or the one it had before all
-- that happened. What happened last comes first.
abbrev pub status_then : (ℕ → Option FlowRow) → List Happening → ℕ → ℕ → Option String
status_then begun [] cut id = initial (begun id)
status_then begun (h ∷ hs) cut id =
    if nat_eq h.id id && ltb h.at cut then some h.status else status_then begun hs cut id

-- The corpora that there are after what happened, up to a time. The log of transitions is empty when
-- it starts; nothing is known of what happened before.
pub data Lived (start : ℕ) (begun : ℕ → Option FlowRow) (first_node : ℕ)
    : List Happening → ℕ → Corpus → Type 0 where
  log_started :
      Lived start begun first_node [] start
        (record { rows = begun; moves = []; next_node = first_node })
  arrived :
      {hs : List Happening} {clock : ℕ} {c : Corpus} (now : ℕ) (status : String)
      → clock ≤ now
      → Lived start begun first_node hs clock c
      → Lived start begun first_node
          (record { at = now; id = c.next_node; status = status } ∷ hs)
          now
          (arrive now status c)
  changed :
      {hs : List Happening} {clock : ℕ} {c : Corpus} {w : FlowRow} (now id : ℕ) (status : String)
      → clock ≤ now
      → c.rows id ≡ some w
      → Lived start begun first_node hs clock c
      → Lived start begun first_node
          (record { at = now; id = id; status = status } ∷ hs)
          now
          (change now id status c)
  hidden :
      {hs : List Happening} {clock : ℕ} {c : Corpus} (id : ℕ) (archived : Bool)
      → Lived start begun first_node hs clock c
      → Lived start begun first_node hs clock (hide id archived c)

-- The status before a time as the log gives it, of a work item that was there.
abbrev pub read_before : Corpus → ℕ → ℕ → Option FlowRow → Option String
read_before c cut id none = none
read_before c cut id (some w) = if ltb w.created cut then some (status_before c cut id w) else none
