-- ===== src/Sandbox/Process/Waking.antt =====
-- Where a user's runtime of cloud-backend/pkg/sandboxprovider/process/provider.go is found again.
use cloudeagent.Prelude.{
  ℕ, ◌≡◌, refl, sym, ap, ◌∙◌, subst, ◌⊎◌, inl, inr, true, false, List, All, Text, codes, ◌++◌,
  arith, Option-cases, Bool-cases,
}
use cloudeagent.Types.{Err, Outcome, ok, err, Outcome-cases}
use cloudeagent.Sandbox.{Info}
use cloudeagent.Sandbox.Process.{
  Host, Provider, alive, port_for, spawn, info_of, spawned_info, create_at, create, start,
}
use cloudeagent.Sandbox.Process.Ports.{HostLaws, HasPort, keep, port_for-known, port_for-HasPort}
use cloudeagent.Sandbox.Process.Endpoints.{Call, Spares, run, run-stays, spawned_info-Keeps}

module _ {W : Type 0} (host : Host W) (laws : HostLaws host) (u : Text) where
  spawned_info-ok :
      (n : ℕ) (p : Provider W) (info : Info)
      → (spawned_info host u n p).0 ≡ ok info
      → info ≡ info_of host u n
  unfolding spawned_info
  spawned_info-ok n p info h = elim (Option-cases (spawn host u n p).0) [
    | inl e ↦ ground (arith, h, e)
    | inr (x, e) ↦ absurd (ground (arith, h, e))
  ]

  -- How a spawn ends.
  spawned_info-cases :
      (n : ℕ) (p : Provider W)
      → ((spawned_info host u n p).0 ≡ ok (info_of host u n))
        ⊎ ((x : Err) × ((spawned_info host u n p).0 ≡ err x)
            × ((host.start (codes "127.0.0.1:" ++ host.itoa n) (host.workspace_dir u) p.world).0
                ≡ err x))
  unfolding spawned_info spawn
  spawned_info-cases n p =
      let out = host.start (codes "127.0.0.1:" ++ host.itoa n) (host.workspace_dir u) p.world in
      elim (Outcome-cases out.0) [
        | inl (pid, e) ↦ inl (rw (spawned_info, spawn, e) refl)
        | inr (x, e) ↦ inr (x, rw (spawned_info, spawn, e) refl, e)
      ]

  create_at-HasPort :
      (p : Provider W) (info : Info)
      → (create_at host u p).0 ≡ ok info
      → (port : ℕ) × (info ≡ info_of host u port)
        × HasPort host laws u port (create_at host u p).1.world
  unfolding create_at
  create_at-HasPort p info h =
      let out = port_for host u p.world in
      elim (Outcome-cases out.0) [
        | inr (x, e) ↦ absurd (ground (arith, h, e))
        | inl (n, e) ↦
            let p' : Provider W = record p { world = out.1 } in
            let eq : create_at host u p ≡ spawned_info host u n p' = rw (create_at, e) refl in
            let got = sym (ap (λ (x : Outcome Info × Provider W). x.0) eq) ∙ h in
            (
              n,
              spawned_info-ok n p' info got,
              rw (create_at, e)
                  (keep host laws u n p'.world _ (spawned_info-Keeps host laws u u n p')
                    (port_for-HasPort host laws u n p.world e)),
            )
      ]

  create-HasPort :
      (p : Provider W) (info : Info)
      → (create host u p).0 ≡ ok info
      → (port : ℕ) × (info ≡ info_of host u port)
        × HasPort host laws u port (create host u p).1.world
  unfolding create
  create-HasPort p info h =
      let out = host.make_dir u p.world in
      let p' : Provider W = record p { world = out.1 } in
      elim (Option-cases out.0) [
        | inr (x, e) ↦ absurd (ground (arith, h, e))
        | inl e ↦
            let eq : create host u p ≡ create_at host u p' = rw (create, e) refl in
            let (n, same, there) =
              create_at-HasPort p' info
                (sym (ap (λ (x : Outcome Info × Provider W). x.0) eq) ∙ h) in
            (n, same, subst (λ x. HasPort host laws u n x.1.world) (sym eq) there)
      ]

  start-at :
      (port : ℕ) (p : Provider W)
      → HasPort host laws u port p.world
      → ((start host u p).0 ≡ ok (info_of host u port))
        ⊎ ((x : Err) × ((start host u p).0 ≡ err x)
            × (alive host u p.world ≡ false)
            × ((host.start (codes "127.0.0.1:" ++ host.itoa port) (host.workspace_dir u) p.world).0
                ≡ err x))
  unfolding start
  start-at port p h =
      let go : Outcome ℕ × W → Outcome Info × Provider W = λ r. elim r.0 [
        | err e ↦ (err e, record p { world = r.1 })
        | ok n ↦ elim (alive host u r.1) [
          | true ↦ (ok (info_of host u n), record p { world = r.1 })
          | false ↦ spawned_info host u n (record p { world = r.1 })
        ]
      ] in
      let eq : start host u p ≡ go (ok port, p.world) =
        ap go (port_for-known host laws u port p.world h) in
      let first = ap (λ (x : Outcome Info × Provider W). x.0) eq in
      elim (Bool-cases (alive host u p.world)) [
        | inl k ↦ inl (first ∙ rw k refl)
        | inr k ↦ elim (spawned_info-cases port p) [
          | inl e ↦ inl (first ∙ rw k e)
          | inr (x, e, f) ↦ inr (x, first ∙ rw k e, k, f)
        ]
      ]

  -- Once `Create` has returned the address of a user's runtime, and whatever is created, started,
  -- stopped or deleted afterwards, short of removing this user's workspace: `Start` returns the same
  -- address, unless no process of the user runs and the program cannot be started.
  pub start_address :
      (p : Provider W) (info : Info) (calls : List Call)
      → (create host u p).0 ≡ ok info
      → All (Spares u) calls
      → let q = run host calls (create host u p).1 in
        ((start host u q).0 ≡ ok info)
        ⊎ ((x : Err) × ((start host u q).0 ≡ err x)
            × (alive host u q.world ≡ false)
            × ((host.start
                  (codes "127.0.0.1:" ++ host.itoa info.port)
                  (host.workspace_dir u)
                  q.world).0
                ≡ err x))
  unfolding info_of
  start_address p info calls h sp =
      let made = create-HasPort p info h in
      let q = run host calls (create host u p).1 in
      let out =
        start-at made.0 q (run-stays host laws u calls made.0 (create host u p).1 sp made.2) in
      subst
        (λ (i : Info).
          ((start host u q).0 ≡ ok i)
          ⊎ ((x : Err) × ((start host u q).0 ≡ err x)
              × (alive host u q.world ≡ false)
              × ((host.start (codes "127.0.0.1:" ++ host.itoa i.port) (host.workspace_dir u)
                    q.world).0
                  ≡ err x)))
        (sym made.1) out
