-- ===== src/Runtime/Http.antt =====
-- cloud-backend/pkg/apiserver/agent/handler.go over cloud-backend/pkg/agentruntime/daemon.go: the
-- pages of an instance. JSON, the numbers in a query, and what an instance says of its workspace,
-- of its health (which Runtime.Daemon has) and of a new session of the engine are parameters.
use cloudeagent.Prelude.{
  ℕ, leb, length, Option, none, some, List, [], Text, codes, text_eq, if◌then◌else◌,
}
use cloudeagent.Types.{Err, Outcome, ok, err, ChatResponse}
use cloudeagent.Engine.Config.{EngineConfig}
use cloudeagent.Engine.Config
use cloudeagent.Runtime.Log.{Entry}
use cloudeagent.Runtime.Log
use cloudeagent.Runtime.Session.{Host, Session, Engine}
use cloudeagent.Runtime.Session
use cloudeagent.Gateway.Forward.{Method, get_method, post_method}

-- A page, with its status; `broken_off` stands for a request whose handler panicked.
abbrev pub Page : Type 0
Page = ℕ × Text

pub record Pages (W : Type 0) : Type 0 where
  pub decode_config : Text → Option EngineConfig
  pub decode_chat : Text → Option (Text × Text)
  pub encode_chat : ChatResponse → Text
  pub encode_config : EngineConfig → Text
  pub encode_history : List Entry → Text
  pub encode_session : Text → Text
  pub applied_page : EngineConfig → Text
  pub error_page : Err → Text
  pub bad_body : Text
  pub not_found_page : Page
  pub broken_off : Page
  pub atoi : Text → Option ℕ
  pub query_value : Text → Text → Text
  pub health : Session W → Outcome Text
  pub workspace : Session W → Outcome Text
  pub new_session : Session W → Outcome Text × Session W
  pub sync : Session W → Session W

module _ {W : Type 0} (host : Host W) (pages : Pages W) where
  abbrev page : {A : Type 0} → ℕ → (A → Text) → Outcome A → Page
  page code show (ok a) = (200, show a)
  page code show (err e) = (code, pages.error_page e)

  abbrev body_or_empty : Option Text → Text
  body_or_empty none = []
  body_or_empty (some s) = s

  unfoldable pub handle_chat : Option Text → Session W → Page × Session W
  handle_chat body s = elim (pages.decode_chat (body_or_empty body)) [
    | none ↦ ((400, pages.bad_body), s)
    | some (message, session) ↦
        let (r, s') = Session.chat host session message s in (page 502 pages.encode_chat r, s')
  ]

  -- `SetConfig` of the daemon starts `SyncConfig` of the engine beside it.
  pub handle_set_config : Option Text → Session W → Page × Session W
  handle_set_config body s = elim (pages.decode_config (body_or_empty body)) [
    | none ↦ ((400, pages.bad_body), s)
    | some cfg ↦
        let applied = Config.apply cfg s.cfg in
        ((200, pages.applied_page applied), pages.sync (record s { cfg = applied }))
  ]

  abbrev limit_or : ℕ → Option ℕ → ℕ
  limit_or d none = d
  limit_or d (some n) = n

  -- The number of messages that is asked for.
  pub history_limit : Text → ℕ
  history_limit query =
      let v = pages.query_value (codes "limit") query in
      if leb (length v) 0 then 100 else limit_or 100 (pages.atoi v)

  pub handle_history : Text → Session W → Page
  unfolding history_limit
  handle_history query s = page 500 pages.encode_history (
      Log.history host.json (history_limit query) (pages.query_value (codes "session_id") query)
        s.disk)

  pub handle_new_session : Session W → Page × Session W
  handle_new_session s = let (r, s') = pages.new_session s in (page 502 pages.encode_session r, s')

  pub handle_get_session : Session W → Page
  handle_get_session s =
      (200, pages.encode_session ((host.engines s.eng_name).active_session s.world))

  -- Masking a short key panics.
  pub handle_get_config : Session W → Page
  handle_get_config s = elim (Config.masked s.cfg) [
    | none ↦ pages.broken_off
    | some cfg ↦ (200, pages.encode_config cfg)
  ]

  abbrev or_empty : Option Text → Text
  or_empty none = []
  or_empty (some q) = q

  pub handle_get : Text → Text → Session W → Page × Session W
  unfolding handle_history handle_get_session handle_get_config
  handle_get path query s =
      if text_eq path (codes "/health")
      then (page 500 (λ x. x) (pages.health s), s)
      else if text_eq path (codes "/v1/config")
      then (handle_get_config s, s)
      else if text_eq path (codes "/v1/workspace")
      then (page 500 (λ x. x) (pages.workspace s), s)
      else if text_eq path (codes "/v1/history")
      then (handle_history query s, s)
      else if text_eq path (codes "/v1/session/info")
      then (handle_get_session s, s)
      else (pages.not_found_page, s)

  unfoldable pub handle_post : Text → Option Text → Session W → Page × Session W
  unfolding handle_chat handle_set_config handle_new_session
  handle_post path body s =
      let chatted = handle_chat body s in
      let configured = handle_set_config body s in
      let renewed = handle_new_session s in
      if text_eq path (codes "/v1/chat")
      then chatted
      else if text_eq path (codes "/v1/config")
      then configured
      else if text_eq path (codes "/v1/session/new")
      then renewed
      else (pages.not_found_page, s)

  -- `Handler`, but for the WebSocket
  unfoldable pub serve : Method → Text → Option Text → Option Text → Session W → Page × Session W
  unfolding handle_get handle_post
  serve get_method path query body s = handle_get path (or_empty query) s
  serve post_method path query body s = handle_post path body s
