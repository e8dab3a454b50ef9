-- ===== src/Desk/Flow/Rows.antt =====
-- The rows of the log of transitions that are read and written by flow.rs of crates/korg-core/src/repo.
use korg.Base.{
  ℕ, suc, ◌≤◌, ◌<◌, String, List, [], ◌∷◌, none, some, true, false, nat_eq, leb, ltb, all, ◌≡◌,
  refl, arith, unwrap_or, Option-cases, inl, inr, eq_iff,
}
use korg.Desk.Tables.{some_inj}
use korg.Desk.Flow.{Move, log_move, first_after, left_status}

pub first_after_past :
    (cut id : ℕ) (ms : List Move) (clock : ℕ)
    → all (λ m. leb m.at clock) ms ≡ true
    → clock < cut
    → first_after cut id ms ≡ none
unfolding first_after
first_after_past cut id [] clock h past = refl
first_after_past cut id (m ∷ ms) clock h past = ground (arith, first_after_past cut id ms clock)

pub first_after_bound :
    (cut id : ℕ) (ms : List Move) (clock : ℕ) (m : Move)
    → all (λ m. leb m.at clock) ms ≡ true
    → first_after cut id ms ≡ some m
    → leb m.at clock ≡ true
unfolding first_after
first_after_bound cut id [] clock m h found = cc
first_after_bound cut id (x ∷ xs) clock m h found = elim (Option-cases (first_after cut id xs)) [
  | inl absent ↦ ground (arith, some_inj {a = x} {b = m})
  | inr (y, older) ↦ ground (
    arith,
    first_after_bound cut id xs clock y,
    some_inj {a = x} {b = m},
    some_inj {a = y} {b = m},
  )
]

pub first_after_unnumbered :
    (cut n : ℕ) (ms : List Move)
    → all (λ m. ltb m.node_id n) ms ≡ true
    → first_after cut n ms ≡ none
unfolding first_after
first_after_unnumbered cut n [] h = refl
first_after_unnumbered cut n (m ∷ ms) h = ground (arith, first_after_unnumbered cut n ms)

pub all_later :
    (ms : List Move) (clock now : ℕ)
    → clock ≤ now
    → all (λ m. leb m.at clock) ms ≡ true
    → all (λ m. leb m.at now) ms ≡ true
all_later [] clock now h a = refl
all_later (m ∷ ms) clock now h a = ground (arith, all_later ms clock now)

pub all_wider :
    (ms : List Move) (n : ℕ)
    → all (λ m. ltb m.node_id n) ms ≡ true
    → all (λ m. ltb m.node_id (suc n)) ms ≡ true
all_wider [] n a = refl
all_wider (m ∷ ms) n a = ground (arith, all_wider ms n)

pub nat_eq_flip : (i j : ℕ) → nat_eq i j ≡ false → nat_eq j i ≡ false
nat_eq_flip i j h = ground arith

-- A row that a change adds to the log is read by nobody else, and is what a time up to it reads.
pub first_after-log_move_other :
    (cut i now id : ℕ) (from to : String) (ms : List Move)
    → nat_eq id i ≡ false
    → first_after cut i (log_move now id from to ms) ≡ first_after cut i ms
unfolding log_move first_after
first_after-log_move_other cut i now id from to ms other = ground arith

pub status-log_move_before :
    (cut now id : ℕ) (from to : String) (ms : List Move)
    → all (λ m. leb m.at now) ms ≡ true
    → cut ≤ now
    → unwrap_or (left_status (first_after cut id (log_move now id from to ms))) to
      ≡ unwrap_or (left_status (first_after cut id ms)) from
unfolding log_move first_after
status-log_move_before cut now id from to ms past before =
    elim (Option-cases (first_after cut id ms)) [
      | inl absent ↦ ground (arith, eq_iff from to)
      | inr (m, found) ↦
          ground (arith, eq_iff from to, first_after_bound cut id ms now m past found)
    ]

pub status-log_move_after :
    (cut now id : ℕ) (from to : String) (ms : List Move)
    → all (λ m. leb m.at now) ms ≡ true
    → now < cut
    → unwrap_or (left_status (first_after cut id (log_move now id from to ms))) to ≡ to
unfolding log_move first_after
status-log_move_after cut now id from to ms past after =
    ground (arith, first_after_past cut id ms now past after)
