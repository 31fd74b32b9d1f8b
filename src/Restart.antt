-- ===== src/Restart.antt =====
-- The restart of the control plane, in `main` of cloud-backend/cmd/admin/main.go: the E2B provider is
-- given back what the store's records say of the sandboxes.
use cloudeagent.Prelude.{
  ◌≡◌, refl, sym, ap, ◌∙◌, List, [], ◌∷◌, Text, Assoc, All, lookup, length, leb, if◌then◌else◌,
}
use cloudeagent.Types.{Instance, ok, err, unknown_sandbox}
use cloudeagent.Db.Store.{StoreOps, StoreLaws}
use cloudeagent.Manager.World.{Env, State}
use cloudeagent.Manager.Result.{sandbox_of}
use cloudeagent.Manager.Lifecycle.{Call, run, IsKeyed, HasNoSandbox}
use cloudeagent.Manager.Lifecycle.Histories.{run_invariant}
use cloudeagent.Sandbox.E2b
use cloudeagent.Sandbox.E2b.Mapping.{start_unknown}

-- `m[inst.UserID] = inst.SandboxID` for the instances that name a sandbox
pub seed_mapping : List Instance → Assoc Text
seed_mapping [] = []
seed_mapping (inst ∷ insts) =
    let rest = seed_mapping insts in
    if leb (length inst.sandbox_id) 0 then rest else (inst.user_id, inst.sandbox_id) ∷ rest

abbrev pub fresh_provider : {W : Type 0} → W → E2b.Provider W
fresh_provider w = record { sbxs = []; world = w }

-- A list of instances that are what the store reads for their users.
abbrev pub IsListing : {S : Type 0} → StoreOps S → S → List Instance → Type 0
IsListing ops s insts = All (λ i. ops.get_instance i.user_id s ≡ ok i) insts

seed_mapping-empty :
    {S : Type 0} (ops : StoreOps S) (s : S) (insts : List Instance)
    → HasNoSandbox ops s
    → IsListing ops s insts
    → seed_mapping insts ≡ []
unfolding seed_mapping
seed_mapping-empty ops s [] h listed = refl
seed_mapping-empty ops s (i ∷ insts) h (at, listed) =
    rw (sym (ap sandbox_of at) ∙ h i.user_id) (seed_mapping-empty ops s insts h listed)

-- After any calls of the manager, from a store whose records name their users and no sandbox, as the
-- empty store is, a restart gives the E2B provider nothing back: it then refuses to start any user.
pub restart_forgets :
    {S W V : Type 0} (env : Env S W) (laws : StoreLaws env.store) (cs : List Call) (s : State S W)
    (insts : List Instance) (cfg : E2b.Config) (sdk : E2b.Sdk V) (u : Text) (w : V)
    → IsKeyed env.store s.store
    → HasNoSandbox env.store s.store
    → IsListing env.store (run env cs s).store insts
    → E2b.start cfg sdk u (E2b.seed (seed_mapping insts) (fresh_provider w))
      ≡ (err unknown_sandbox, fresh_provider w)
unfolding E2b.seed lookup
restart_forgets env laws cs s insts cfg sdk u w h k listed =
    let inv = run_invariant env laws cs s h k in
    rw (seed_mapping-empty env.store (run env cs s).store insts inv.1 listed)
      (start_unknown cfg sdk u (fresh_provider w) refl)
