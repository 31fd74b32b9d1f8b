-- ===== src/Sandbox/Process/Ports.antt =====
-- The port of a user in cloud-backend/pkg/sandboxprovider/process/provider.go, which a file keeps.
use cloudeagent.Prelude.{
  ℕ, ltb, ◌≡◌, ◌≢◌, refl, sym, ap, ◌∙◌, subst, inl, inr, true, none, some, Text, codes, ◌++◌, arith,
  Option-cases,
}
use cloudeagent.Types.{Outcome, ok, Outcome-cases}
use cloudeagent.Sandbox.Process.{
  File, port_file, pid_file, Host, Provider, number_in, new_port, port_for, spawn,
}

abbrev pub user_of : File → Text
user_of (port_file u) = u
user_of (pid_file u) = u

-- What is relied on: a file that was written is read back, a write or a removal leaves other files,
-- the removal of a workspace leaves the files of other users, nothing else touches a file, a
-- printed number is read back, and a free port is not zero.
pub record HostLaws {W : Type 0} (host : Host W) : Type 0 where
  pub atoi-itoa : (n : ℕ) → host.atoi (host.itoa n) ≡ some n
  pub read-write :
      (f : File) (s : Text) (w : W)
      → (host.write f s w).0 ≡ none
      → host.read f (host.write f s w).1 ≡ some s
  pub read-write_other :
      (f g : File) (s : Text) (w : W) → f ≢ g → host.read f (host.write g s w).1 ≡ host.read f w
  pub read-remove : (f g : File) (w : W) → f ≢ g → host.read f (host.remove g w) ≡ host.read f w
  pub read-remove_workspace :
      (f : File) (v : Text) (w : W)
      → user_of f ≢ v
      → host.read f (host.remove_workspace v w).1 ≡ host.read f w
  pub read-make_dir :
      (f : File) (v : Text) (w : W) → host.read f (host.make_dir v w).1 ≡ host.read f w
  pub read-free_port : (f : File) (w : W) → host.read f (host.free_port w).1 ≡ host.read f w
  pub read-start :
      (f : File) (a b : Text) (w : W) → host.read f (host.start a b w).1 ≡ host.read f w
  pub read-end_child : (f : File) (n : ℕ) (w : W) → host.read f (host.end_child n w) ≡ host.read f w
  pub read-terminate : (f : File) (n : ℕ) (w : W) → host.read f (host.terminate n w) ≡ host.read f w
  pub read-kill : (f : File) (n : ℕ) (w : W) → host.read f (host.kill n w) ≡ host.read f w
  pub read-nap : (f : File) (w : W) → host.read f (host.nap w) ≡ host.read f w
  pub free_port-positive : (n : ℕ) (w : W) → (host.free_port w).0 ≡ ok n → ltb 0 n ≡ true

module _ {W : Type 0} (host : Host W) (laws : HostLaws host) (u : Text) where
  abbrev pub HasPort : ℕ → W → Type 0
  HasPort port w = number_in host (host.read (port_file u) w) ≡ some port

  -- The file reads the same.
  abbrev pub Keeps : W → W → Type 0
  Keeps w w' = host.read (port_file u) w' ≡ host.read (port_file u) w

  pub keep : (port : ℕ) (w w' : W) → Keeps w w' → HasPort port w → HasPort port w'
  keep port w w' k h = ap (number_in host) k ∙ h

  pub port-not-pid : (v : Text) → port_file u ≢ pid_file v
  port-not-pid v e = cc

  pub port_for-known : (port : ℕ) (w : W) → HasPort port w → port_for host u w ≡ (ok port, w)
  unfolding port_for
  port_for-known port w h = rw (port_for, h) refl

  new_port-HasPort :
      (port : ℕ) (w : W) → (new_port host u w).0 ≡ ok port → HasPort port (new_port host u w).1
  unfolding new_port
  new_port-HasPort port w h = elim (Outcome-cases (host.free_port w).0) [
    | inr (x, e) ↦ absurd (ground (arith, h, e))
    | inl (n, e) ↦
        let w1 = (host.free_port w).1 in
        let out = host.write (port_file u) (host.itoa n) w1 in
        elim (Option-cases out.0) [
          | inr (x, k) ↦ absurd (ground (arith, h, e, k))
          | inl k ↦
              let same : n ≡ port = ground (arith, h, e, k) in
              rw
                (
                  new_port,
                  e,
                  k,
                  laws.read-write (port_file u) (host.itoa n) w1 k,
                  laws.atoi-itoa n,
                  laws.free_port-positive n w e,
                )
                (ap some same)
        ]
  ]

  pub port_for-HasPort :
      (port : ℕ) (w : W) → (port_for host u w).0 ≡ ok port → HasPort port (port_for host u w).1
  unfolding port_for
  port_for-HasPort port w h = elim (Option-cases (number_in host (host.read (port_file u) w))) [
    | inl e ↦
        let eq : port_for host u w ≡ new_port host u w = rw (port_for, e) refl in
        subst (λ x. HasPort port x.1) (sym eq)
          (new_port-HasPort port w (sym (ap (λ (x : Outcome ℕ × W). x.0) eq) ∙ h))
    | inr (n, e) ↦
        let eq = port_for-known n w e in
        let same : ok n ≡ ok port = sym (ap (λ (x : Outcome ℕ × W). x.0) eq) ∙ h in
        subst (λ x. HasPort port x.1) (sym eq) (e ∙ ground (arith, same))
  ]

  new_port-Keeps : (v : Text) (w : W) → u ≢ v → Keeps w (new_port host v w).1
  unfolding new_port
  new_port-Keeps v w ne = elim (Outcome-cases (host.free_port w).0) [
    | inr (x, e) ↦ rw (new_port, e) (laws.read-free_port (port_file u) w)
    | inl (n, e) ↦
        let w1 = (host.free_port w).1 in
        let out = host.write (port_file v) (host.itoa n) w1 in
        let kept =
          laws.read-write_other (port_file u) (port_file v) (host.itoa n) w1
            (λ k. ne (ap user_of k))
          ∙ laws.read-free_port (port_file u) w in
        elim (Option-cases out.0) [
          | inr (x, k) ↦ rw (new_port, e, k) kept
          | inl k ↦ rw (new_port, e, k) kept
        ]
  ]

  pub port_for-Keeps : (v : Text) (w : W) → u ≢ v → Keeps w (port_for host v w).1
  unfolding port_for
  port_for-Keeps v w ne = elim (Option-cases (number_in host (host.read (port_file v) w))) [
    | inl e ↦ rw (port_for, e) (new_port-Keeps v w ne)
    | inr (n, e) ↦ rw (port_for, e) refl
  ]

  pub spawn-Keeps :
      (v : Text) (port : ℕ) (p : Provider W) → Keeps p.world (spawn host v port p).1.world
  unfolding spawn
  spawn-Keeps v port p =
      let address = codes "127.0.0.1:" ++ host.itoa port in
      let out = host.start address (host.workspace_dir v) p.world in
      elim (Outcome-cases out.0) [
        | inr (x, e) ↦
            rw (spawn, e) (laws.read-start (port_file u) address (host.workspace_dir v) p.world)
        | inl (pid, e) ↦
            rw (spawn, e)
              (laws.read-write_other (port_file u) (pid_file v) (host.itoa pid) out.1
                  (port-not-pid v)
                ∙ laws.read-start (port_file u) address (host.workspace_dir v) p.world)
      ]
