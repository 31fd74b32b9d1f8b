-- ===== src/Engine/Acp/Prompts/Credentials.antt =====
-- Which configuration the process of acp.go runs with.
use cloudeagent.Prelude.{
  ◌≡◌, refl, codes, ◌∙◌, ◌⊎◌, inl, inr, true, false, ◌&&◌, none, some, Text, text_eq_self, arith,
  Bool-cases, Option-cases,
}
use cloudeagent.Engine.Config.{EngineConfig}
use cloudeagent.Engine.Json.{Fields}
use cloudeagent.Engine.Acp.{Answer-cases, Acp, kill_locked, initialized}
use cloudeagent.Engine.Acp.Prompts.{
  Host, Client, client_info, request, wait_reply, initialize, start, restart, sync_config,
  same_credentials, is_some, is_mock, outdated,
}

-- No process runs, or none that has got credentials, or its credentials are the current ones.
abbrev pub Current : {W : Type 0} → Client W → Type 0
Current c =
    (c.acp.proc ≡ none)
    ⊎ ((c.acp.spawned_cfg ≡ none)
        ⊎ ((cfg : EngineConfig) × (c.acp.spawned_cfg ≡ some cfg)
            × (same_credentials c.cfg cfg ≡ true)))

same_credentials_self : (cfg : EngineConfig) → same_credentials cfg cfg ≡ true
same_credentials_self cfg =
    ground (arith, text_eq_self cfg.base_url, text_eq_self cfg.api_key, text_eq_self cfg.model)

proc-kill_locked : (a : Acp) → (kill_locked a).proc ≡ none
unfolding kill_locked
proc-kill_locked a = ground arith

settled-Current :
    {W : Type 0} (c : Client W)
    → (is_some c.acp.proc && outdated c.cfg c.acp.spawned_cfg) ≡ false
    → Current c
settled-Current c h = elim (Option-cases c.acp.proc) [
  | inl e ↦ inl e
  | inr (p, e) ↦ elim (Option-cases c.acp.spawned_cfg) [
    | inl k ↦ inr (inl k)
    | inr (cfg, k) ↦ inr (inr (cfg, k, ground arith))
  ]
]

module _ {W : Type 0} (host : Host W) where
  cfg-request :
      (method : Text) (params : Fields) (c : Client W)
      → (request host method params c).1.cfg ≡ c.cfg
  unfolding request wait_reply
  cfg-request method params c = ground arith

  initialize-Current :
      (cfg : EngineConfig) (c : Client W) → c.cfg ≡ cfg → Current (initialize host cfg c).1
  unfolding initialize initialized
  initialize-Current cfg c h =
      let out = request host (codes "initialize") client_info c in
      elim (Answer-cases out.0) [
        | inr (x, e) ↦ rw (initialize, e) (inl (proc-kill_locked out.1.acp))
        | inl (resp, e) ↦
            let same : out.1.cfg ≡ cfg = cfg-request (codes "initialize") client_info c ∙ h in
            rw (initialize, e) (inr (inr (cfg, refl, rw same (same_credentials_self cfg))))
      ]

  start-Current : (c : Client W) → c.acp.proc ≡ none → Current (start host c).1
  unfolding start
  start-Current c h = elim (Bool-cases (is_mock c.cfg)) [
    | inl e ↦ rw (start, e) (inl h)
    | inr e ↦ elim (Answer-cases (host.spawn c.cfg c.world).0) [
      | inr (x, k) ↦ rw (start, e, k) (inl h)
      | inl (made, k) ↦ rw (start, e, k) (initialize-Current c.cfg _ refl)
    ]
  ]

  restart-Current : (c : Client W) → Current (restart host c).1
  unfolding restart
  restart-Current c = elim (Option-cases (host.pause c.world).0) [
    | inr (x, e) ↦ rw (restart, e) (inl (proc-kill_locked c.acp))
    | inl e ↦ rw (restart, e) (start-Current _ (proc-kill_locked c.acp))
  ]

  -- After `SyncConfig` no process runs with outdated credentials: there is none, or none has been
  -- initialized, or the last one that was got the current base URL, key and model. This holds where
  -- no other call starts a process or applies a configuration until it returns, whatever replies,
  -- updates and ends of the process come while it waits, and also where the restart fails.
  pub sync_config-Current : (c : Client W) → Current (sync_config host c)
  unfolding sync_config
  sync_config-Current c =
      elim (Bool-cases (is_some c.acp.proc && outdated c.cfg c.acp.spawned_cfg)) [
        | inl e ↦ rw (sync_config, e) (restart-Current c)
        | inr e ↦ rw (sync_config, e) (settled-Current c e)
      ]
