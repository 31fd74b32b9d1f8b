-- ===== src/Engine/Acp/Prompts/Sending.antt =====
-- What a prompt of acp.go leaves behind, and when it is sent again.
use cloudeagent.Prelude.{
  ℕ, suc, ◌≡◌, refl, ap, ◌∙◌, true, false, Option, none, some, Text, codes, lookup, lookup-delete,
  text_eq_self, arith,
}
use cloudeagent.Engine.Json.{Fields}
use cloudeagent.Engine.Acp.{AcpErr, write_failed, Answer, good, bad, begin_request, write_locked}
use cloudeagent.Engine.Acp.Prompts.{
  Host, Client, request, session_id, ensure_started, after_prompt, prompt_params, with_handler,
  prompt_in, prompt_once, prompt,
}

module _ {W : Type 0} (host : Host W) where
  after_prompt-handlers :
      (sid : Text) (r : Answer Fields) (c : Client W)
      → lookup sid (after_prompt host sid r c).1.acp.handlers ≡ none
  unfolding after_prompt
  after_prompt-handlers sid (good resp) c = rw (lookup-delete, text_eq_self sid) refl
  after_prompt-handlers sid (bad e) c = rw (lookup-delete, text_eq_self sid) refl

  -- Where `promptOnce` finds or opens the session `sid`, no handler stands for that session once it
  -- returns, whatever other goroutines do while it waits, and also where it fails.
  pub prompt_once_handlers :
      (key message sid : Text) (handler : ℕ) (c : Client W)
      → (session_id host key c).0 ≡ good sid
      → lookup sid (prompt_once host key message handler c).1.acp.handlers ≡ none
  unfolding prompt_once prompt_in
  prompt_once_handlers key message sid handler c h =
      rw (prompt_once, h) (after_prompt-handlers sid _ _)

  session_id-known :
      (key sid : Text) (p : ℕ) (c : Client W)
      → c.acp.proc ≡ some p
      → c.acp.connected ≡ true
      → lookup key c.acp.sessions ≡ some sid
      → session_id host key c ≡ (good sid, c)
  unfolding session_id ensure_started
  session_id-known key sid p c up there known = ground arith

  request-broken :
      (method : Text) (params : Fields) (p : ℕ) (c : Client W)
      → c.acp.proc ≡ some p
      → (host.write method params c.world).0 ≡ false
      → let out = request host method params c in
        (out.0 ≡ bad write_failed)
        × (out.1.acp.proc ≡ some p)
        × (out.1.acp.next_id ≡ suc c.acp.next_id)
  unfolding request begin_request write_locked
  request-broken method params p c up broken = ground arith

  after_prompt-write_failed :
      (sid : Text) (c : Client W)
      → ((after_prompt host sid (bad write_failed) c).0 ≡ some write_failed)
        × ((after_prompt host sid (bad write_failed) c).1.acp.proc ≡ c.acp.proc)
        × ((after_prompt host sid (bad write_failed) c).1.acp.next_id ≡ c.acp.next_id)
  unfolding after_prompt
  after_prompt-write_failed sid c = (refl, refl, refl)

  -- With a process that is connected, and a session that is known: where the pipe to the process
  -- fails, `Prompt` ends with the error of the pipe. It does not start the process again, and sends
  -- nothing more.
  pub prompt_write_failed :
      (key message sid : Text) (handler p : ℕ) (c : Client W)
      → c.acp.proc ≡ some p
      → c.acp.connected ≡ true
      → lookup key c.acp.sessions ≡ some sid
      → ((method : Text) (params : Fields) → (host.write method params c.world).0 ≡ false)
      → ((prompt host key message handler c).0 ≡ some write_failed)
        × ((prompt host key message handler c).1.acp.proc ≡ some p)
        × ((prompt host key message handler c).1.acp.next_id ≡ suc c.acp.next_id)
  unfolding prompt prompt_once prompt_in
  prompt_write_failed key message sid handler p c up there known broken =
      let c1 = with_handler host sid handler c in
      let out = request host (codes "session/prompt") (prompt_params sid message) c1 in
      let fact =
        request-broken (codes "session/prompt") (prompt_params sid message) p c1 up (broken _ _) in
      let after = after_prompt-write_failed sid out.1 in
      let opened = session_id-known key sid p c up there known in
      let once : prompt_once host key message handler c
          ≡ after_prompt host sid (bad write_failed) out.1 =
        ap
          (λ (x : Answer Text × Client W). elim x.0 [
            | bad e ↦ (some e, x.1)
            | good sid ↦ prompt_in host sid message handler x.1
          ])
          opened
        ∙ ap (λ r. after_prompt host sid r out.1) fact.0 in
      let failed = ap (λ (x : Option AcpErr × Client W). x.0) once ∙ after.0 in
      let left = ap (λ (x : Option AcpErr × Client W). x.1) once in
      rw (prompt, failed)
        (
          refl,
          ap (λ (c : Client W). c.acp.proc) left ∙ after.1 ∙ fact.1,
          ap (λ (c : Client W). c.acp.next_id) left ∙ after.2 ∙ fact.2,
        )
