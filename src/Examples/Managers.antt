-- ===== src/Examples/Managers.antt =====
-- The manager of the control plane, from a call that creates the instance of one user on.
use cloudeagent.Prelude.{◌≡◌, ℕ, true, [], ◌∷◌}
use cloudeagent.Db.Memory.{Memory, memory_ops}
use cloudeagent.Db.Memory.Laws.{memory_laws}
use cloudeagent.Manager.{create, wake}
use cloudeagent.Manager.World.{State}
use cloudeagent.Manager.Creation.{Ends}
use cloudeagent.Manager.Waking.{create-Ends, wake-Ends}
use cloudeagent.Manager.Control.{suspend, delete}
use cloudeagent.Manager.Control.Endings.{
  SuspendResult, DeleteResult, suspend-SuspendResult, delete-DeleteResult,
}
use cloudeagent.Manager.Result.{phase, can_move}
use cloudeagent.Manager.Lifecycle.{creates, suspends, wakes, step, run, IsKeyed, HasNoSandbox}
use cloudeagent.Manager.Lifecycle.Histories.{step_moves, step_others, run_invariant}
use cloudeagent.Examples.Setup.{alice, bob, env, start, start-IsKeyed, start-HasNoSandbox}

-- The instance of `alice` runs.
abbrev pub created : State Memory ℕ
created = run env (creates alice ∷ []) start

pub created-IsKeyed : IsKeyed memory_ops created.store
created-IsKeyed =
    (run_invariant env memory_laws (creates alice ∷ []) start start-IsKeyed start-HasNoSandbox).0

step_moves_example :
    can_move
      (phase (memory_ops.get_instance alice created.store))
      (phase (memory_ops.get_instance alice (step env (suspends alice) created).store))
    ≡ true
step_moves_example = step_moves env memory_laws (suspends alice) created alice created-IsKeyed

step_others_example :
    memory_ops.get_instance alice (step env (creates bob) created).store
    ≡ memory_ops.get_instance alice created.store
step_others_example =
    step_others env memory_laws (creates bob) created alice created-IsKeyed (λ e. cc)

run_invariant_example :
    IsKeyed memory_ops (run env (creates alice ∷ suspends alice ∷ wakes alice ∷ []) start).store
    × HasNoSandbox memory_ops
        (run env (creates alice ∷ suspends alice ∷ wakes alice ∷ []) start).store
run_invariant_example =
    run_invariant env memory_laws (creates alice ∷ suspends alice ∷ wakes alice ∷ []) start
      start-IsKeyed start-HasNoSandbox

create-Ends_example : Ends env memory_laws alice start (create env alice start)
create-Ends_example = create-Ends env memory_laws alice start (start-IsKeyed alice)

wake-Ends_example : Ends env memory_laws alice created (wake env alice created)
wake-Ends_example = wake-Ends env memory_laws alice created (created-IsKeyed alice)

suspend-SuspendResult_example :
    SuspendResult env memory_laws alice created
      (suspend env alice created).0
      (suspend env alice created).1
suspend-SuspendResult_example = suspend-SuspendResult env memory_laws alice created

delete-DeleteResult_example :
    DeleteResult env memory_laws alice created
      (delete env alice created).0
      (delete env alice created).1
delete-DeleteResult_example = delete-DeleteResult env memory_laws alice created
