-- ===== src/Sandbox/E2b/Mapping.antt =====
-- What the provider of e2b/provider.go knows of its sandboxes.
use cloudeagent.Prelude.{
  ◌≡◌, inl, inr, none, some, Text, text_eq, text_eq_self, text_eq_iff, lookup, insert,
  lookup-insert, lookup-delete, arith, if◌then◌else◌,
}
use cloudeagent.Types.{Outcome-cases, Err, unknown_sandbox, ok, err}
use cloudeagent.Sandbox.{Info}
use cloudeagent.Sandbox.E2b.{Config, Sdk, Provider, create, start, delete_sandbox, ready_info}

module _ {W : Type 0} (cfg : Config) (sdk : Sdk W) (u : Text) where
  sbxs-ready : (id : Text) (p : Provider W) → (ready_info cfg sdk u id p).1.sbxs ≡ p.sbxs
  unfolding ready_info
  sbxs-ready id p = ground arith

  -- After a `Delete` that returns no error the provider knows no sandbox of the user, and it knows
  -- what it knew of every other user.
  pub delete_forgets :
      (v : Text) (p : Provider W)
      → (delete_sandbox cfg sdk u p).0 ≡ none
      → lookup v (delete_sandbox cfg sdk u p).1.sbxs
        ≡ (if text_eq u v then none else lookup v p.sbxs)
  unfolding delete_sandbox
  delete_forgets v p h = ground (arith, lookup-delete u v p.sbxs, text_eq_iff u v)

  -- A `Delete` that fails keeps the mapping whole, so that it can be repeated.
  pub delete_keeps :
      (e : Err) (p : Provider W)
      → (delete_sandbox cfg sdk u p).0 ≡ some e
      → (delete_sandbox cfg sdk u p).1.sbxs ≡ p.sbxs
  unfolding delete_sandbox
  delete_keeps e p h = ground arith

  ready_info-id :
      (id : Text) (info : Info) (p : Provider W)
      → (ready_info cfg sdk u id p).0 ≡ ok info
      → info.sandbox_id ≡ id
  unfolding ready_info
  ready_info-id id info p h = ground arith

  known_fresh :
      (id : Text) (w : W) (p : Provider W)
      → lookup u (ready_info cfg sdk u id (record { sbxs = insert u id p.sbxs; world = w })).1.sbxs
        ≡ some id
  known_fresh id w p =
      let q : Provider W = record { sbxs = insert u id p.sbxs; world = w } in
      rw (sbxs-ready id q) (rw (lookup-insert u u id p.sbxs, text_eq_self u))

  -- Whatever was known of the user before, a successful `Create` returns the id of a sandbox that it
  -- had made, and this id is the only one that is known of the user from then on: one that was known
  -- before is known no more.
  pub create_remembers :
      (info : Info) (p : Provider W)
      → (create cfg sdk u p).0 ≡ ok info
      → ((sdk.create_sandbox cfg.template u p.world).0 ≡ ok info.sandbox_id)
        × (lookup u (create cfg sdk u p).1.sbxs ≡ some info.sandbox_id)
  unfolding create
  create_remembers info p h =
      let out = sdk.create_sandbox cfg.template u p.world in
      elim (Outcome-cases out.0) [
        | inl (id, e) ↦
            let q : Provider W = record { sbxs = insert u id p.sbxs; world = out.1 } in
            ground (arith, ready_info-id id info q, known_fresh id out.1 p)
        | inr (x, e) ↦ absurd (ground arith)
      ]

  -- `Start` of a user of whom no sandbox is known fails, and asks nothing of the SDK.
  pub start_unknown :
      (p : Provider W) → lookup u p.sbxs ≡ none → start cfg sdk u p ≡ (err unknown_sandbox, p)
  unfolding start
  start_unknown p h = rw (h, start)
