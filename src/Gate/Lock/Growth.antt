-- ===== src/Gate/Lock/Growth.antt =====
-- When the sign-in lockout of crates/korg-gate/src/store.rs starts, and how it grows.
use korg.Base.{
  ℕ, zero, suc, ◌+◌, ◌-◌, ◌*◌, ◌^◌, ◌≤◌, ◌<◌, min, List, [], ◌∷◌, none, ◌≡◌, ap, arith, ltb,
  if◌then◌else◌, length,
}
use native.Mathlib.Nat.{pow-le-pow_right}
use korg.Gate.State.{Lockout, unlocked, Store, open_gate, locked, seconds}
use korg.Gate.Lock.{free_failures, lockout_cap, delay, check_lockout, sign_in_failed}

delay_of_many : (over : ℕ) → 8 ≤ over → delay over ≡ lockout_cap
unfolding delay
delay_of_many over h =
    omega
      (arith, pow-le-pow_right {n = 2} (omega arith) {i = 7} {j = min (over - 1) 16} (omega arith))

many :
    (over : ℕ)
    → 8 ≤ over
    → (delay over ≡ min (seconds 30 * 2 ^ (over - 1)) (seconds 3600))
      × (delay (over + 1) ≡ min (2 * delay over) (seconds 3600))
many over h = omega (
  arith,
  delay_of_many over h,
  delay_of_many (over + 1) (omega arith),
  pow-le-pow_right {n = 2} (omega arith) {i = 7} {j = over - 1} (omega arith),
)

-- The wait for the failure of the number `over` past the free ones is 30 seconds doubled `over - 1`
-- times, an hour at most, with no bound on the doublings; the first is 30 seconds, and each next
-- one is twice as long, up to the hour.
pub delay_growth :
    (over : ℕ)
    → 1 ≤ over
    → (delay over ≡ min (seconds 30 * 2 ^ (over - 1)) (seconds 3600))
      × (delay (over + 1) ≡ min (2 * delay over) (seconds 3600))
      × (delay 1 ≡ seconds 30)
unfolding delay
delay_growth zero h = absurd (omega arith)
delay_growth (suc zero) h = omega arith
delay_growth (suc (suc zero)) h = omega arith
delay_growth (suc (suc (suc zero))) h = omega arith
delay_growth (suc (suc (suc (suc zero)))) h = omega arith
delay_growth (suc (suc (suc (suc (suc zero))))) h = omega arith
delay_growth (suc (suc (suc (suc (suc (suc zero)))))) h = omega arith
delay_growth (suc (suc (suc (suc (suc (suc (suc zero))))))) h = omega arith
delay_growth (suc (suc (suc (suc (suc (suc (suc (suc k)))))))) h =
    let (exact, next) = many (suc (suc (suc (suc (suc (suc (suc (suc k)))))))) (omega arith) in
    (exact, next, omega arith)

-- A failure at each of the instants, the last one first.
pub fail_all : List ℕ → Store → Store
fail_all [] s = s
fail_all (now ∷ earlier) s = (sign_in_failed now (fail_all earlier s)).0

failures-fail_all :
    (ts : List ℕ) (s : Store)
    → s.inner.lockout ≡ unlocked
    → length ts < 2 ^ 32
    → (fail_all ts s).inner.lockout.failures ≡ length ts
unfolding fail_all sign_in_failed
failures-fail_all [] s e h = ap (λ (l : Lockout). l.failures) e
failures-fail_all (now ∷ ts) s e h = ground (arith, failures-fail_all ts s e)

until-fail_all :
    (ts : List ℕ) (s : Store)
    → s.inner.lockout ≡ unlocked
    → length ts ≤ free_failures
    → (fail_all ts s).inner.lockout.until ≡ none
unfolding fail_all sign_in_failed
until-fail_all [] s e h = ap (λ (l : Lockout). l.until) e
until-fail_all (now ∷ ts) s e h =
    ground (arith, until-fail_all ts s e, failures-fail_all ts s e (omega arith))

-- After failures in a row, the last one at `last`, sign-in is open while they are no more than the
-- free ones, and otherwise locked exactly until the wait for their number has passed.
pub lockout_after :
    (last t : ℕ) (ts : List ℕ) (s : Store)
    → s.inner.lockout ≡ unlocked
    → length ts + 1 < 2 ^ 32
    → check_lockout t (fail_all (last ∷ ts) s) ≡ (
        if ltb free_failures (length ts + 1)
        then (if ltb t (last + delay (length ts + 1 - free_failures))
            then locked (last + delay (length ts + 1 - free_failures) - t)
            else open_gate)
        else open_gate)
unfolding fail_all sign_in_failed check_lockout
lockout_after last t ts s e h = ground (arith, failures-fail_all ts s e, until-fail_all ts s e)
