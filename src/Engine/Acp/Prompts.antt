-- ===== src/Engine/Acp/Prompts.antt =====
-- The calls of cloud-backend/pkg/agentengine/qwenpaw/acp.go that the engine makes. A call is a
-- sequence of critical sections; what other goroutines do while it waits for a reply is an operation
-- of the host, which may change the kernel's part in any way, but not the configuration; in the pause
-- of a restart and while a process is spawned nothing else happens to the client.
pub mod Credentials
pub mod Sending
use cloudeagent.Prelude.{
  ℕ, suc, Bool, true, false, ◌||◌, ◌&&◌, not, Option, none, some, List, [], ◌∷◌, Text, codes, Assoc,
  lookup, insert, delete, text_eq, length, leb, if◌then◌else◌,
}
use cloudeagent.Engine.Config.{EngineConfig}
use cloudeagent.Sandbox.Health.{starts_with}
use cloudeagent.Engine.Json.{
  Json, null, num, str, arr, obj, nil, cons, Fields, no_fields, field, param_string,
}
use cloudeagent.Engine.Acp.{
  Acp, Printing, RpcMessage, AcpErr, transport, cancelled, timed_out, mock_config, no_session,
  is_transport, Answer, good, bad, begin_request, give_up, conclude, notify, kill_locked, stop,
  spawned, initialized, closed,
}

-- A reply, or the error of a context that is done.
pub data Waited : Type 0 where
  replied : RpcMessage → Waited
  context_done : AcpErr → Waited

pub record Host (W : Type 0) : Type 0 where
  pub sprint : Printing
  -- whether the pipe takes a message, by its method and parameters
  pub write : Text → Fields → W → Bool × W
  pub await : ℕ → Acp → W → Waited × Acp × W
  pub spawn : EngineConfig → W → Answer (ℕ × Text) × W
  pub pause : W → Option AcpErr × W
  pub now : W → ℕ

-- The client, the configuration of its manager, its workspace, and the world.
pub record Client (W : Type 0) : Type 0 where
  pub acp : Acp
  pub cfg : EngineConfig
  pub workspace : Text
  pub world : W

abbrev pub is_some {ℓ} : {A : Type ℓ} → Option A → Bool
is_some none = false
is_some (some a) = true

abbrev pub is_mock : EngineConfig → Bool
is_mock cfg = leb (length cfg.base_url) 0 || starts_with (codes "mock://") cfg.base_url

abbrev pub session_param : Text → Fields → Fields
session_param sid rest = field (codes "sessionId") (str sid) rest

abbrev pub client_info : Fields
client_info = field (codes "protocolVersion") (num 1) (
    field (codes "clientCapabilities") (obj no_fields) (
      field (codes "clientInfo")
        (obj (
          field (codes "name") (str (codes "cloudeagent")) (
            field (codes "title") (str (codes "CloudeAgent"))
              (field (codes "version") (str (codes "0.1.0")) no_fields))))
        no_fields))

abbrev pub same_credentials : EngineConfig → EngineConfig → Bool
same_credentials a b =
    text_eq a.base_url b.base_url && (text_eq a.api_key b.api_key && text_eq a.model b.model)

abbrev pub outdated : EngineConfig → Option EngineConfig → Bool
outdated cfg none = false
outdated cfg (some old) = not (same_credentials cfg old)

abbrev is_done : AcpErr → Bool
is_done cancelled = true
is_done timed_out = true
is_done _ = false

abbrev text_of : Option Text → Text
text_of none = []
text_of (some s) = s

abbrev pub prompt_params : Text → Text → Fields
prompt_params sid message =
    let text =
      field (codes "type") (str (codes "text")) (field (codes "text") (str message) no_fields) in
    session_param sid (field (codes "prompt") (arr (cons (obj text) nil)) no_fields)

module _ {W : Type 0} (host : Host W) where
  -- Waiting for the reply to a request that was written.
  pub wait_reply : ℕ → Acp → W → Client W → Answer Fields × Client W
  wait_reply id a w c =
      let (x, a', w') = host.await id a w in
      elim x [
        | replied msg ↦ (conclude msg, record c { acp = a'; world = w' })
        | context_done e ↦ (bad e, record c { acp = give_up host.sprint id a'; world = w' })
      ]

  pub request : Text → Fields → Client W → Answer Fields × Client W
  unfolding wait_reply
  request method params c = elim c.acp.proc [
    | none ↦ (bad transport, c)
    | some p ↦
        let (wrote, w) = host.write method params c.world in
        let (r, a) = begin_request host.sprint wrote c.acp in
        elim r [ bad e ↦ (bad e, record c { acp = a; world = w }) | good id ↦ wait_reply id a w c ]
  ]

  -- `start`, once a process is there.
  pub initialize : EngineConfig → Client W → Option AcpErr × Client W
  unfolding request
  initialize cfg c =
      let (r, c') = request (codes "initialize") client_info c in
      elim r [
        | bad e ↦ (some e, record c' { acp = kill_locked c'.acp })
        | good resp ↦ (none, record c' { acp = initialized cfg resp c'.acp })
      ]

  pub start : Client W → Option AcpErr × Client W
  unfolding initialize
  start c = elim (is_mock c.cfg) [
    | true ↦ (some mock_config, c)
    | false ↦
        let (r, w) = host.spawn c.cfg c.world in
        elim r [
          | bad e ↦ (some e, record c { world = w })
          | good (p, dir) ↦
              initialize c.cfg (record c { acp = spawned p dir (host.now w) c.acp; world = w })
        ]
  ]

  unfoldable pub ensure_started : Client W → Option AcpErr × Client W
  unfolding start
  ensure_started c = if is_some c.acp.proc && c.acp.connected then (none, c) else start c

  -- `Restart`: what follows the pause of 300 ms
  pub restart : Client W → Option AcpErr × Client W
  unfolding start
  restart c =
      let c1 = record c { acp = kill_locked c.acp } in
      let (e, w) = host.pause c1.world in
      let c2 = record c1 { world = w } in elim e [ some x ↦ (some x, c2) | none ↦ start c2 ]

  -- `SyncConfig`
  unfoldable pub sync_config : Client W → Client W
  unfolding restart
  sync_config c =
      if is_some c.acp.proc && outdated c.cfg c.acp.spawned_cfg then (restart c).1 else c

  -- `SessionID`, where the local key has no session yet.
  pub open_session : Text → Client W → Answer Text × Client W
  unfolding request
  open_session key c =
      let params =
        field (codes "cwd") (str c.workspace) (field (codes "mcpServers") (arr nil) no_fields) in
      let (r, c') = request (codes "session/new") params c in
      elim r [
        | bad e ↦ (bad e, c')
        | good resp ↦
            let sid = param_string resp (codes "sessionId") in
            elim (leb (length sid) 0) [
              | true ↦ (bad no_session, c')
              | false ↦
                  let opened = record c' {
                    acp = record (c'.acp) { sessions = insert key sid c'.acp.sessions };
                  } in
                  elim (text_eq c'.cfg.tool_guard_mode (codes "bypass")) [
                    | false ↦ (good sid, opened)
                    | true ↦ (
                      good sid,
                      (request (codes "session/set_config_option")
                          (session_param sid (
                            field (codes "configId") (str (codes "mode"))
                              (field (codes "value") (str (codes "bypassPermissions")) no_fields)))
                          opened).1,
                    )
                  ]
            ]
      ]

  unfoldable pub session_id : Text → Client W → Answer Text × Client W
  unfolding ensure_started open_session
  session_id key c =
      let (e, c') = ensure_started c in
      elim e [
        | some x ↦ (bad x, c')
        | none ↦ elim (lookup key c'.acp.sessions) [
          | some sid ↦ (good sid, c')
          | none ↦ open_session key c'
        ]
      ]

  -- `Cancel`
  pub cancel : Text → Client W → Client W
  cancel sid c = elim c.acp.proc [
    | none ↦ c
    | some p ↦
        let (wrote, w) =
          host.write (codes "session/cancel") (session_param sid no_fields) c.world in
        record c { acp = (notify wrote c.acp).1; world = w }
  ]

  -- What follows the reply to a prompt; the handler of the session goes.
  pub after_prompt : Text → Answer Fields → Client W → Option AcpErr × Client W
  unfolding cancel
  after_prompt sid (good resp) c =
      (none, record c { acp = record (c.acp) { handlers = delete sid c.acp.handlers } })
  after_prompt sid (bad e) c =
      let c' = if is_done e then cancel sid c else c in
      (some e, record c' { acp = record (c'.acp) { handlers = delete sid c'.acp.handlers } })

  abbrev pub with_handler : Text → ℕ → Client W → Client W
  with_handler sid handler c = record c {
    acp = record (c.acp) { handlers = insert sid handler c.acp.handlers };
  }

  -- `promptOnce` with a session.
  pub prompt_in : Text → Text → ℕ → Client W → Option AcpErr × Client W
  unfolding request after_prompt
  prompt_in sid message handler c =
      let (r, c') =
        request (codes "session/prompt") (prompt_params sid message) (with_handler sid handler c) in
      after_prompt sid r c'

  pub prompt_once : Text → Text → ℕ → Client W → Option AcpErr × Client W
  unfolding session_id prompt_in
  prompt_once key message handler c =
      let (r, c') = session_id key c in
      elim r [ bad e ↦ (some e, c') | good sid ↦ prompt_in sid message handler c' ]

  -- `Prompt`, whose text is always empty: the updates carry the reply.
  pub prompt : Text → Text → ℕ → Client W → Option AcpErr × Client W
  unfolding prompt_once restart
  prompt key message handler c =
      let (e, c1) = prompt_once key message handler c in
      elim e [
        | none ↦ (none, c1)
        | some x ↦ elim (is_transport x) [
          | false ↦ (some x, c1)
          | true ↦
              let (e', c2) = restart c1 in
              elim e' [ some y ↦ (some y, c2) | none ↦ prompt_once key message handler c2 ]
        ]
      ]

  -- `CloseSession` and `CloseSessionLocal`
  pub close_session : Text → Client W → Client W
  unfolding request
  close_session sid c =
      let c' = (request (codes "session/close") (session_param sid no_fields) c).1 in
      record c' { acp = closed sid c'.acp }

  pub close_session_local : Text → Client W → Client W
  unfolding close_session
  close_session_local key c =
      let sid = text_of (lookup key c.acp.sessions) in
      if leb (length sid) 0 then c else close_session sid c
