-- ===== src/Gate/Lock.antt =====
-- The sign-in lockout in crates/korg-gate/src/store.rs.
pub mod Growth
use korg.Base.{ℕ, ◌+◌, ◌-◌, ◌*◌, ◌^◌, ◌%◌, min, Option, none, some, ltb, if◌then◌else◌}
use korg.Gate.State.{Lockout, unlocked, Store, Verdict, open_gate, locked, seconds}

-- Failures allowed before the lockout starts.
abbrev pub free_failures : ℕ
free_failures = 5

abbrev pub lockout_base : ℕ
lockout_base = seconds 30

abbrev pub lockout_cap : ℕ
lockout_cap = seconds 3600

abbrev pub with_lockout : Store → Lockout → Store
with_lockout s l = record s { inner = record s.inner { lockout = l } }

-- The wait after `over` failures past the free ones, `1 <= over`. The shift is capped at 16 and
-- the product stays far below the range of a `Duration`.
unfoldable pub delay : ℕ → ℕ
delay over = min (lockout_base * 2 ^ min (over - 1) 16) lockout_cap

unfoldable pub check_lockout : ℕ → Store → Verdict
check_lockout now s = elim s.inner.lockout.until [
  | none ↦ open_gate
  | some until ↦ if ltb now until then locked (until - now) else open_gate
]

-- The counter is a `u32`. A failure in the free ones leaves `until` as it was.
unfoldable pub sign_in_failed : ℕ → Store → Store × Option ℕ
sign_in_failed now s =
    let failures = (s.inner.lockout.failures + 1) % 2 ^ 32 in
    let over = failures - free_failures in
    if ltb 0 over
    then (
      with_lockout s (record { failures = failures; until = some (now + delay over) }),
      some (delay over),
    )
    else (with_lockout s (record { failures = failures; until = s.inner.lockout.until }), none)

unfoldable pub sign_in_succeeded : Store → Store
sign_in_succeeded s = with_lockout s unlocked
