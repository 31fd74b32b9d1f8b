-- ===== src/Manager/Control/InMemory.antt =====
-- `Suspend` of manager.go over the store in memory.
use cloudeagent.Prelude.{◌≡◌, none, Text, ap, text_eq_iff, lookup, lookup-insert, arith}
use cloudeagent.Types.{ok, running, suspended, Instance}
use cloudeagent.Db.Memory.{Memory, update_instance, get_instance}
use cloudeagent.Manager.MemoryActivity.{in_memory}
use cloudeagent.Manager.Result.{phase}
use cloudeagent.Manager.World.{Env, State}
use cloudeagent.Manager.Control.{suspend, suspend_running, suspend_record}

-- Where the record of the user is running, and the sandbox stops, it is suspended after the call.
pub suspend_stopped :
    {W : Type 0} (env : Env Memory W) (u : Text) (s : State Memory W) (i : Instance)
    → get_instance u s.store ≡ ok i
    → i.status ≡ running
    → i.user_id ≡ u
    → (env.provider.stop u s.world).0 ≡ none
    → phase (get_instance u (suspend (in_memory env) u s).1.store) ≡ suspended
unfolding suspend suspend_running suspend_record update_instance get_instance
suspend_stopped env u s i at up keyed stops =
    let w = (env.provider.stop u s.world).1 in
    let i' : Instance = record i { status = suspended; updated_at = env.probes.now w } in
    ground (
      arith,
      text_eq_iff i.user_id u,
      lookup-insert i.user_id u i' s.store.instances,
      ap (λ v. lookup v s.store.instances) keyed,
    )
