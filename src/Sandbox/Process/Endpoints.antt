-- ===== src/Sandbox/Process/Endpoints.antt =====
-- What the calls of cloud-backend/pkg/sandboxprovider/process/provider.go do to the port of a user.
use cloudeagent.Prelude.{
  ℕ, zero, suc, ◌≢◌, refl, sym, ◌∙◌, subst, inl, inr, Bool, true, false, List, [], ◌∷◌, All, Text,
  text_eq, text_eq_iff, lookup, arith, Option-cases, Bool-cases,
}
use cloudeagent.Types.{Outcome-cases}
use cloudeagent.Sandbox.Process.{
  port_file, pid_file, Host, Provider, alive, port_for, spawn, spawned_info, create_at, create,
  start, wait_gone, stop_stranger, read_pid, stop, delete_workspace,
}
use cloudeagent.Sandbox.Process.Ports.{
  HostLaws, HasPort, Keeps, keep, port-not-pid, port_for-known, port_for-Keeps, spawn-Keeps,
}

-- The calls of the provider.
pub data Call : Type 0 where
  creates starts stops : Text → Call
  deletes : Bool → Text → Call

-- The call does not remove the workspace of the user.
abbrev pub Spares : Text → Call → Type 0
Spares u (deletes false v) = u ≢ v
Spares u _ = Unit

module _ {W : Type 0} (host : Host W) where
  abbrev pub call : Call → Provider W → Provider W
  call (creates v) p = (create host v p).1
  call (starts v) p = (start host v p).1
  call (stops v) p = stop host v p
  call (deletes keep v) p = (delete_workspace host keep v p).1

  abbrev pub run : List Call → Provider W → Provider W
  run [] p = p
  run (c ∷ calls) p = run calls (call c p)

module _ {W : Type 0} (host : Host W) (laws : HostLaws host) (u : Text) where
  port_for-stays :
      (v : Text) (port : ℕ) (w : W)
      → HasPort host laws u port w
      → HasPort host laws u port (port_for host v w).1
  port_for-stays v port w h = elim (Bool-cases (text_eq u v)) [
    | inl e ↦
        let same = (text_eq_iff u v).0 e in
        subst (λ x. HasPort host laws u port (port_for host x w).1) same
          (subst (λ x. HasPort host laws u port x.1) (sym (port_for-known host laws u port w h)) h)
    | inr e ↦
        keep host laws u port w (port_for host v w).1
          (port_for-Keeps host laws u v w (λ k. ground (arith, text_eq_iff u v))) h
  ]

  pub spawned_info-Keeps :
      (v : Text) (n : ℕ) (p : Provider W)
      → Keeps host laws u p.world (spawned_info host v n p).1.world
  unfolding spawned_info
  spawned_info-Keeps v n p = elim (Option-cases (spawn host v n p).0) [
    | inl e ↦ rw (spawned_info, e) (spawn-Keeps host laws u v n p)
    | inr (x, e) ↦ rw (spawned_info, e) (spawn-Keeps host laws u v n p)
  ]

  create_at-stays :
      (v : Text) (port : ℕ) (p : Provider W)
      → HasPort host laws u port p.world
      → HasPort host laws u port (create_at host v p).1.world
  unfolding create_at
  create_at-stays v port p h =
      let out = port_for host v p.world in
      let p' : Provider W = record p { world = out.1 } in
      let h' = port_for-stays v port p.world h in
      elim (Outcome-cases out.0) [
        | inr (x, e) ↦ rw (create_at, e) h'
        | inl (n, e) ↦
            rw (create_at, e) (keep host laws u port p'.world _ (spawned_info-Keeps v n p') h')
      ]

  pub create-stays :
      (v : Text) (port : ℕ) (p : Provider W)
      → HasPort host laws u port p.world
      → HasPort host laws u port (create host v p).1.world
  unfolding create
  create-stays v port p h =
      let out = host.make_dir v p.world in
      let h' = keep host laws u port p.world out.1 (laws.read-make_dir (port_file u) v p.world) h in
      elim (Option-cases out.0) [
        | inr (x, e) ↦ rw (create, e) h'
        | inl e ↦ rw (create, e) (create_at-stays v port (record p { world = out.1 }) h')
      ]

  start-stays :
      (v : Text) (port : ℕ) (p : Provider W)
      → HasPort host laws u port p.world
      → HasPort host laws u port (start host v p).1.world
  unfolding start
  start-stays v port p h =
      let out = port_for host v p.world in
      let p' : Provider W = record p { world = out.1 } in
      let h' = port_for-stays v port p.world h in
      elim (Outcome-cases out.0) [
        | inr (x, e) ↦ rw (start, e) h'
        | inl (n, e) ↦ elim (Bool-cases (alive host v out.1)) [
          | inl k ↦ rw (start, e, k) h'
          | inr k ↦
              rw (start, e, k) (keep host laws u port p'.world _ (spawned_info-Keeps v n p') h')
        ]
      ]

  wait_gone-Keeps : (n : ℕ) (v : Text) (w : W) → Keeps host laws u w (wait_gone host n v w)
  unfolding wait_gone
  wait_gone-Keeps zero v w = refl
  wait_gone-Keeps (suc n) v w = elim (Bool-cases (alive host v w)) [
    | inl e ↦ rw (wait_gone, e) (wait_gone-Keeps n v (host.nap w) ∙ laws.read-nap (port_file u) w)
    | inr e ↦ rw (wait_gone, e) refl
  ]

  stop_stranger-Keeps : (v : Text) (w : W) → Keeps host laws u w (stop_stranger host v w)
  unfolding stop_stranger
  stop_stranger-Keeps v w = elim (Option-cases (read_pid host v w)) [
    | inl e ↦ rw (stop_stranger, e) refl
    | inr (pid, e) ↦
        let w' = wait_gone host 20 v (host.terminate pid w) in
        let kept : Keeps host laws u w w' =
          wait_gone-Keeps 20 v (host.terminate pid w) ∙ laws.read-terminate (port_file u) pid w in
        elim (Bool-cases (alive host v w')) [
          | inl k ↦ rw (stop_stranger, e, k) (laws.read-kill (port_file u) pid w' ∙ kept)
          | inr k ↦ rw (stop_stranger, e, k) kept
        ]
  ]

  stop-Keeps : (v : Text) (p : Provider W) → Keeps host laws u p.world (stop host v p).world
  unfolding stop
  stop-Keeps v p = elim (Option-cases (lookup v p.procs)) [
    | inl e ↦
        rw (stop, e)
          (laws.read-remove (port_file u) (pid_file v) _ (port-not-pid host laws u v)
            ∙ stop_stranger-Keeps v p.world)
    | inr (pid, e) ↦
        rw (stop, e)
          (laws.read-remove (port_file u) (pid_file v) _ (port-not-pid host laws u v)
            ∙ laws.read-end_child (port_file u) pid p.world)
  ]

  call-stays :
      (c : Call) (port : ℕ) (p : Provider W)
      → Spares u c
      → HasPort host laws u port p.world
      → HasPort host laws u port (call host c p).world
  unfolding delete_workspace
  call-stays (creates v) port p sp h = create-stays v port p h
  call-stays (starts v) port p sp h = start-stays v port p h
  call-stays (stops v) port p sp h = keep host laws u port p.world _ (stop-Keeps v p) h
  call-stays (deletes true v) port p sp h = keep host laws u port p.world _ (stop-Keeps v p) h
  call-stays (deletes false v) port p sp h =
      keep host laws u port p.world _
        (laws.read-remove_workspace (port_file u) v (stop host v p).world sp ∙ stop-Keeps v p) h

  pub run-stays :
      (calls : List Call) (port : ℕ) (p : Provider W)
      → All (Spares u) calls
      → HasPort host laws u port p.world
      → HasPort host laws u port (run host calls p).world
  run-stays [] port p sp h = h
  run-stays (c ∷ calls) port p (sp, sps) h =
      run-stays calls port (call host c p) sps (call-stays c port p sp h)
