-- ===== src/Sandbox/Polling/Laws.antt =====
-- When the polling loop ends, and with what.
use Prim.Native.Nat.{◌/◌}
use cloudeagent.Prelude.{
  ℕ, zero, suc, ◌+◌, ◌*◌, ◌≤◌, ◌<◌, ◌≡◌, ◌≢◌, refl, ◌∙◌, ◌⊎◌, inl, inr, none, some, Option, arith,
}
use cloudeagent.Types.{Err}
use cloudeagent.Sandbox.Polling.{
  Verdict, healthy, retry, broken, ClockOps, rounds, finish, poll_loop, poll,
}

-- A clock that a check does not turn back, and that a pause moves on by its length.
pub record ClockLaws {W : Type 0} (clock : ClockOps W) (check : W → Verdict × W) : Type 0 where
  pub check_later : (w : W) → clock.now w ≤ clock.now (check w).1
  pub pause_later :
      (d : ℕ) (w : W) → (clock.pause d w).0 ≡ none → clock.now w + d ≤ clock.now (clock.pause d w).1

Verdict-cases : (v : Verdict) → (v ≡ healthy) ⊎ ((v ≡ retry) ⊎ ((e : Err) × (v ≡ broken e)))
Verdict-cases healthy = inl refl
Verdict-cases retry = inr (inl refl)
Verdict-cases (broken e) = inr (inr (e, refl))

module _ {W : Type 0} (clock : ClockOps W) (check : W → Verdict × W) (d : ℕ) where
  poll_loop_ends :
      ClockLaws clock check
      → (n deadline : ℕ) (w : W) → deadline ≤ clock.now w + n * d
      → (poll_loop clock check d (suc n) deadline w).0 ≢ none
  unfolding poll_loop
  poll_loop_ends laws zero deadline w h = ground arith
  poll_loop_ends laws (suc n) deadline w h =
      let w1 = (check w).1 in
      ground (
        arith,
        laws.check_later w,
        laws.pause_later d w1,
        poll_loop_ends laws n deadline (clock.pause d w1).1,
      )

  enough_rounds : (timeout : ℕ) → 0 < d → timeout ≤ suc (timeout / d) * d
  enough_rounds timeout h = grind arith

  -- With a clock that checks do not turn back and that a pause moves on by its length, a loop with a
  -- pause that is not empty ends by itself within one round for each pause that fits the timeout,
  -- and two more: the rounds never run out, whatever the checks answer.
  pub poll_ends :
      ClockLaws clock check
      → 0 < d
      → (timeout : ℕ) (w : W)
      → (poll_loop clock check d (rounds d timeout) (clock.now w + timeout) w).0 ≢ none
  poll_ends laws h timeout w = poll_loop_ends laws _ _ w (omega (arith, enough_rounds timeout h))

  -- A check that succeeds, and the world that it leaves.
  abbrev pub Succeeds : W → Type 0
  Succeeds last = (w : W) × ((check w).0 ≡ healthy) × ((check w).1 ≡ last)

  poll_loop_seen :
      (n deadline : ℕ) (w : W)
      → (poll_loop clock check d n deadline w).0 ≡ some none
      → Succeeds (poll_loop clock check d n deadline w).1
  unfolding poll_loop
  poll_loop_seen zero deadline w h = absurd (cc)
  poll_loop_seen (suc n) deadline w h = elim (Verdict-cases (check w).0) [
    | inl e ↦ (w, e, ground arith)
    | inr (inl e) ↦
        let next = poll_loop_seen n deadline (clock.pause d (check w).1).1 (ground arith) in
        (next.0, next.1, next.2 ∙ ground arith)
    | inr (inr (x, e)) ↦ absurd (ground arith)
  ]

  finish-none : (r : Option (Option Err)) → finish r ≡ none → r ≡ some none
  finish-none none h = absurd (cc)
  finish-none (some r) h = ground arith

  pub poll_seen :
      (timeout : ℕ) (w : W)
      → (poll clock check d timeout w).0 ≡ none
      → Succeeds (poll clock check d timeout w).1
  unfolding poll
  poll_seen timeout w h =
      poll_loop_seen (rounds d timeout) (clock.now w + timeout) w (finish-none _ h)
