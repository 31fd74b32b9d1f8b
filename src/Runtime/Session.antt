-- ===== src/Runtime/Session.antt =====
-- cloud-backend/pkg/agentruntime/session.go: one request of a chat in an instance, over the log and
-- the agent engines, which are parameters with their names.
pub mod Agreement
use cloudeagent.Prelude.{
  ℕ, Bool, true, false, ◌&&◌, List, [], ◌∷◌, ◌++◌, Text, codes, text_eq, length, leb, if◌then◌else◌,
}
use cloudeagent.Types.{Err, Outcome, ok, err, ChatResponse}
use cloudeagent.Engine.Config.{EngineConfig}
use cloudeagent.Runtime.Log.{Entry, Disk, Json, append_log}

-- What an engine reports on its way, and what `ChatStream` passes on.
pub data Event : Type 0 where
  delta thought tool_call usage failure : Text → Event

pub record Engine (W : Type 0) : Type 0 where
  pub ready : W → Bool
  pub active_session : W → Text
  pub chat : Text → Text → W → (List Event × Outcome Text) × W

-- What surrounds a session: the engines by their names, the encoding, the clock, and texts.
pub record Host (W : Type 0) : Type 0 where
  pub engines : Text → Engine W
  pub json : Json
  pub now : W → ℕ
  pub itoa : ℕ → Text
  pub error_text : Err → Text
  pub no_reply : Text
  pub is_blank : Text → Bool

pub record Session (W : Type 0) : Type 0 where
  pub cfg : EngineConfig
  pub eng_name : Text
  pub disk : Disk
  pub world : W

abbrev mock_name : Text
mock_name = codes "mock"

module _ {W : Type 0} (host : Host W) where
  abbrev engine : Session W → Engine W
  engine s = host.engines s.eng_name

  unfoldable pub session_key : Text → Session W → Text
  session_key hint s = if leb (length hint) 0 then (engine s).active_session s.world else hint

  unfoldable pub session_id : Text → Session W → Text
  session_id hint s =
      if leb (length hint) 0 then codes "local-" ++ host.itoa (host.now s.world) else hint

  unfoldable pub append : Text → Text → Text → Session W → Outcome ℕ × Session W
  append role content key s =
      let entry : Entry = record {
        ts = host.json.format_time (host.now s.world);
        role = role;
        content = content;
        model = s.cfg.model;
        index = 0;
        session_id = key;
      } in
      let (r, d) = append_log host.json entry s.disk in (r, record s { disk = d })

  -- An engine that is not ready gives way to the mock.
  unfoldable pub fall_back : Session W → Session W
  fall_back s =
      if (engine s).ready s.world
      then s
      else if text_eq s.eng_name mock_name
      then s
      else record s { eng_name = mock_name }

  unfoldable pub respond : Text → ℕ → Text → Session W → Outcome ChatResponse × Session W
  unfolding session_id append
  respond hint idx reply s = (
    ok (record {
      reply = reply;
      model = s.cfg.model;
      provider = s.cfg.provider;
      mock = text_eq s.eng_name mock_name;
      message_index = idx;
      session_id = session_id hint s;
    }),
    s,
  )

  abbrev shown : Text → Session W → Text
  shown reply s =
      if leb (length reply) 0 && text_eq s.eng_name (codes "qwenpaw") then host.no_reply else reply

  -- What follows the engine's answer, in `Chat`.
  unfoldable pub finish_chat :
      Text → Text → ℕ → Outcome Text → Session W → Outcome ChatResponse × Session W
  unfolding append respond
  finish_chat hint key idx (err e) s = (err e, (append (codes "error") (host.error_text e) key s).1)
  finish_chat hint key idx (ok reply) s =
      let text = shown reply s in respond hint idx text (append (codes "assistant") text key s).1

  -- What the engine is asked, once the message is in the log.
  unfoldable pub ask : Text → Text → Session W → (List Event × Outcome Text) × Session W
  unfolding fall_back
  ask key message s =
      let s1 = fall_back s in
      let (r, w) = (engine s1).chat key message s1.world in (r, record s1 { world = w })

  unfoldable pub chat : Text → Text → Session W → Outcome ChatResponse × Session W
  unfolding session_key append ask finish_chat
  chat hint message s =
      let key = session_key hint s in
      let (r, s1) = append (codes "user") message key s in
      elim r [
        | err e ↦ (err e, s1)
        | ok idx ↦ let ((events, out), s2) = ask key message s1 in finish_chat hint key idx out s2
      ]

  -- A delta that is blank is not passed on.
  pub passed_on : List Event → List Event
  passed_on [] = []
  passed_on (delta text ∷ events) =
      let rest = passed_on events in if host.is_blank text then rest else delta text ∷ rest
  passed_on (thought text ∷ events) = thought text ∷ passed_on events
  passed_on (tool_call text ∷ events) = tool_call text ∷ passed_on events
  passed_on (usage text ∷ events) = usage text ∷ passed_on events
  passed_on (failure text ∷ events) = failure text ∷ passed_on events

  unfoldable pub finish_stream :
      Text
      → Text
      → ℕ
      → List Event
      → Outcome Text
      → Session W
      → (List Event × Outcome ChatResponse) × Session W
  unfolding append respond passed_on
  finish_stream hint key idx events (err e) s =
      let text = host.error_text e in
      let (r, s1) = append (codes "error") text key s in
      ((passed_on events ++ failure text ∷ [], err e), s1)
  finish_stream hint key idx events (ok reply) s =
      let (r, s1) = append (codes "assistant") reply key s in
      let (out, s2) = respond hint idx reply s1 in ((passed_on events, out), s2)

  -- `ChatStream`, with the events that it emits.
  unfoldable pub chat_stream :
      Text → Text → Session W → (List Event × Outcome ChatResponse) × Session W
  unfolding session_key append ask finish_stream
  chat_stream hint message s =
      let key = session_key hint s in
      let (r, s1) = append (codes "user") message key s in
      elim r [
        | err e ↦ (([], err e), s1)
        | ok idx ↦
            let ((events, out), s2) = ask key message s1 in finish_stream hint key idx events out s2
      ]
