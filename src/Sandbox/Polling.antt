-- ===== src/Sandbox/Polling.antt =====
-- The polling loop that `WaitHealth` of cloud-backend/pkg/sandboxprovider/health.go and `waitReady`
-- of cloud-backend/pkg/sandboxprovider/e2b/provider.go share: until a deadline, check, then pause.
pub mod Laws
use Prim.Native.Nat.{◌/◌}
use cloudeagent.Prelude.{ℕ, zero, suc, ◌+◌, true, false, Option, none, some, ltb}
use cloudeagent.Types.{Err, not_ready}

-- What one check comes to: it succeeded, it is to be repeated, or it ends the loop with an error.
pub data Verdict : Type 0 where
  healthy retry : Verdict
  broken : Err → Verdict

pub record ClockOps (W : Type 0) : Type 0 where
  pub now : W → ℕ
  -- `none` after the pause, or the error of a context that is done before
  pub pause : ℕ → W → Option Err × W

-- One round for each pause that fits the timeout, and two more.
abbrev pub rounds : ℕ → ℕ → ℕ
rounds pause timeout = suc (suc (timeout / pause))

abbrev pub finish : Option (Option Err) → Option Err
finish none = some not_ready
finish (some r) = r

module _ {W : Type 0} (clock : ClockOps W) (check : W → Verdict × W) (pause : ℕ) where
  -- `for time.Now().Before(deadline)`; `none` in the first place says that the rounds ran out.
  unfoldable pub poll_loop : ℕ → ℕ → W → Option (Option Err) × W
  poll_loop zero deadline w = (none, w)
  poll_loop (suc n) deadline w = elim (ltb (clock.now w) deadline) [
    | false ↦ (some (some not_ready), w)
    | true ↦ elim (check w).0 [
      | healthy ↦ (some none, (check w).1)
      | broken e ↦ (some (some e), (check w).1)
      | retry ↦ elim (clock.pause pause (check w).1).0 [
        | some e ↦ (some (some e), (clock.pause pause (check w).1).1)
        | none ↦ poll_loop n deadline (clock.pause pause (check w).1).1
      ]
    ]
  ]

  unfoldable pub poll : ℕ → W → Option Err × W
  poll timeout w =
      let r = poll_loop (rounds pause timeout) (clock.now w + timeout) w in (finish r.0, r.1)
