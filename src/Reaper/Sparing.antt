-- ===== src/Reaper/Sparing.antt =====
-- Whom the reaper of reaper.go leaves alone, and whom it suspends.
use cloudeagent.Prelude.{
  ℕ, ◌-◌, ◌<◌, ◌≤◌, ◌≡◌, sym, ap, ◌∙◌, true, Text, text_eq_iff, none, some, lookup, arith,
}
use cloudeagent.Types.{ok, running, suspended, is_running, Instance}
use cloudeagent.Db.Memory.Laws.{memory_laws, stored-memory}
use cloudeagent.Manager.Result.{already, done, gave_up, refused, phase}
use cloudeagent.Manager.Waking.{KeyedAt, wake-Ends}
use cloudeagent.Manager.Control.Endings.{is_running_iff}
use cloudeagent.Manager.Control.InMemory.{suspend_stopped}
use cloudeagent.Db.Store.{Activity}
use cloudeagent.Db.Memory.{Memory, get_activity, get_instance}
use cloudeagent.Manager.{wake}
use cloudeagent.Manager.World.{Env, State}
use cloudeagent.Manager.Control.{suspend}
use cloudeagent.Manager.MemoryActivity.{in_memory, wake-activity}
use cloudeagent.Reaper.{activity_at, reap_one}

-- Over the store in memory, and with a positive timeout: an instance whose user has no activity
-- record counts as active at the time of the scan, so the reaper leaves it alone, and the whole
-- state with it, whatever the times in its own record.
pub reap_unrecorded :
    {W : Type 0} (env : Env Memory W) (idle : ℕ) (inst : Instance) (s : State Memory W)
    → 0 < idle
    → lookup inst.user_id s.store.activity ≡ none
    → (reap_one (in_memory env) idle inst s).1 ≡ s
unfolding reap_one get_activity
reap_unrecorded env idle inst s pos h = ground arith

-- Over any store: an instance whose user is connected is left alone.
pub reap_connected :
    {S W : Type 0} (env : Env S W) (idle : ℕ) (inst : Instance) (s : State S W)
    → 0 < (activity_at env idle inst s).ws_connections
    → (reap_one env idle inst s).1 ≡ s
unfolding reap_one
reap_connected env idle inst s h = ground arith

-- An instance that has been idle for the timeout is suspended.
reap_quiet :
    {W : Type 0} (env : Env Memory W) (idle : ℕ) (u : Text) (i : Instance) (act : Activity)
    (s : State Memory W)
    → i.status ≡ running
    → i.user_id ≡ u
    → lookup u s.store.activity ≡ some act
    → act.ws_connections ≡ 0
    → idle ≤ env.probes.now s.world - act.last_active_at
    → (reap_one (in_memory env) idle i s).1 ≡ (suspend (in_memory env) u s).1
unfolding reap_one get_activity
reap_quiet env idle u i act s up own at quiet old =
    ground (arith, ap (λ v. lookup v s.store.activity) own)

-- The instance that a wake returns is the one that is read afterwards, and it runs.
woken :
    {W : Type 0} (env : Env Memory W) (u : Text) (s : State Memory W) (i : Instance)
    → KeyedAt (in_memory env) memory_laws u s
    → (wake (in_memory env) u s).0 ≡ (some i, none)
    → let after = (wake (in_memory env) u s).1.store in
      (get_instance u after ≡ ok i) × (i.status ≡ running) × (i.user_id ≡ u)
woken env u s i keyed r = elim (wake-Ends (in_memory env) memory_laws u s keyed) [
  | already j at up e same ↦
      let same_i : j ≡ i = cc in
      let up_i : is_running i.status ≡ true =
        ap (λ (x : Instance). is_running x.status) (sym same_i) ∙ up in
      let at_i : get_instance u s.store ≡ ok i = at ∙ ap ok same_i in
      (same u ∙ at_i, is_running_iff i.status up_i, keyed i at_i)
  | done j own up fine down e put ↦
      let same_i : j ≡ i = cc in
      let at_i : get_instance u (wake (in_memory env) u s).1.store ≡ ok j =
        ground (
          arith,
          put u,
          own.0,
          text_eq_iff j.user_id u,
          stored-memory (get_instance u s.store) j,
        ) in
      (
        at_i ∙ ap ok same_i,
        ap (λ (x : Instance). x.status) (sym same_i) ∙ up,
        ap (λ (x : Instance). x.user_id) (sym same_i) ∙ own.0,
      )
  | gave_up j x own bad error down e put ↦ absurd (cc)
  | refused x e same ↦ absurd (cc)
]

-- Over the store in memory: waking an instance does not count as activity. Where a wake returns an
-- instance with no error, and the last activity of its user, who is not connected, is the whole
-- timeout ago, the next scan that comes to the instance leaves it suspended again, however soon after
-- the wake, if its sandbox stops.
pub reap_after_wake :
    {W : Type 0} (env : Env Memory W) (idle : ℕ) (u : Text) (i : Instance) (act : Activity)
    (s : State Memory W) (w : W)
    → KeyedAt (in_memory env) memory_laws u s
    → (wake (in_memory env) u s).0 ≡ (some i, none)
    → lookup u s.store.activity ≡ some act
    → act.ws_connections ≡ 0
    → idle ≤ env.probes.now w - act.last_active_at
    → (env.provider.stop u w).0 ≡ none
    → let later = record ((wake (in_memory env) u s).1) { world = w } in
      phase (get_instance u (reap_one (in_memory env) idle i later).1.store) ≡ suspended
unfolding reap_one get_activity
reap_after_wake env idle u i act s w keyed r at quiet old stops =
    let later = record ((wake (in_memory env) u s).1) { world = w } in
    let (read, up, own) = woken env u s i keyed r in
    let reaps : (reap_one (in_memory env) idle i later).1 ≡ (suspend (in_memory env) u later).1 =
      reap_quiet env idle u i act later up own (ap (lookup u) (wake-activity env u s) ∙ at) quiet
        old in
    ap (λ (x : State Memory _). phase (get_instance u x.store)) reaps
    ∙ suspend_stopped env u later i read up own stops
