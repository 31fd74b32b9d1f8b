-- ===== src/Transit.antt =====
-- A chat on its way from the control plane to an instance: the client of
-- cloud-backend/pkg/sandboxruntime/gateway.go, the routes of
-- cloud-gateway/internal/server/server.go, the pages of cloud-backend/pkg/apiserver/agent/handler.go
-- and the session of cloud-backend/pkg/agentruntime/session.go, composed. No connection fails, and
-- no request times out.
use cloudeagent.Prelude.{
  ℕ, ◌≤◌, ◌≡◌, length, take, take-all, refl, ap, ◌∙◌, Bool, true, false, Option, none, some, List,
  [], ◌∷◌, Text, codes, text_eq, text_eq_self, inl, inr,
}
use cloudeagent.Types.{external, Outcome, ok, err, Outcome-cases, ChatResponse}
use cloudeagent.Gateway.Registry.{Registry, resolve}
use cloudeagent.Gateway.Forward.{
  Body, forwarded, body_limit, recoded, Response, AgentOps, proxy_post, post_method, answer,
}
use cloudeagent.Gateway.Routes.{Verb, post_verb, Request, route, follow, posts}
use cloudeagent.Gateway.Routes
use cloudeagent.Gateway.Client.{Coding, exchange, chat, decoded, accepted}
use cloudeagent.Runtime.Session.{Host, Session}
use cloudeagent.Runtime.Session
use cloudeagent.Runtime.Http.{Pages, Page, handle_chat, handle_post, serve}

-- What the network between the programs does beside.
pub record Network : Type 0 where
  pub encode_query : List (Text × Text) → Text
  pub decode_endpoint : Option Text → Option Text
  pub own_body : Body → Text
  pub no_route : Text
  -- JSON text, decoded and encoded again by the gateway
  pub recode : Text → Option Text

-- Both clients read 16 MiB of a body.
abbrev pub limited : Page → Page
limited (code, bytes) = (code, take body_limit bytes)

module _ {W : Type 0} (host : Host W) (pages : Pages W) (network : Network) (coding : Coding)
    (address : Text) where
  -- The one instance, which is reached at its address (agentclient/client.go).
  abbrev pub instance_ops : AgentOps (Session W)
  instance_ops = record {
    recode = network.recode;
    request = λ method endpoint path query body s. elim (text_eq endpoint address) [
      | false ↦ (err (external 1), s)
      | true ↦ let (page, s') = serve host pages method path query body s in (ok (limited page), s')
    ];
  }

  abbrev pub bytes_of : Body → Text
  bytes_of (forwarded bytes) = bytes
  bytes_of body = network.own_body body

  abbrev pub printed : Option Response → Page
  printed none = (404, network.no_route)
  printed (some r) = (r.code, bytes_of r.body)

  -- The exchange of a request with the gateway.
  unfoldable pub send : Request → Registry × Session W → Outcome (ℕ × Text) × (Registry × Session W)
  send req s =
      let (r, s') = Routes.serve instance_ops network.encode_query network.decode_endpoint req s in
      (ok (printed r), s')

  -- What the control plane makes of the instance's answer.
  abbrev pub received : Outcome ChatResponse → Outcome ChatResponse
  received (ok resp) = ok resp
  received (err e) = err (external 502)

  chat_request : Text → Text → Text → Request
  chat_request u message session = record {
    verb = post_verb;
    path = codes "v1" ∷ codes "agents" ∷ u ∷ codes "chat" ∷ [];
    query = [];
    body = some (coding.encode_message message session);
  }

  send-chat :
      (u message session : Text) (reg : Registry) (s : Session W)
      → send (chat_request u message session) (reg, s) ≡ (
          let (r, s') =
            proxy_post instance_ops reg
              (codes "/v1/chat")
              u
              (some (coding.encode_message message session))
              s in
          (ok (printed (some r)), (reg, s')))
  unfolding send chat_request Routes.serve follow route text_eq
  send-chat u message session reg s = refl

  -- The instance answers a chat page as its session does.
  shown : Outcome ChatResponse → Page
  shown (ok resp) = (200, pages.encode_chat resp)
  shown (err e) = (502, pages.error_page e)

  handle_chat-shown :
      (message session body : Text) (s : Session W)
      → pages.decode_chat body ≡ some (message, session)
      → handle_chat host pages (some body) s
        ≡ (shown (Session.chat host session message s).0, (Session.chat host session message s).1)
  unfolding handle_chat shown
  handle_chat-shown message session body s h =
      elim (Outcome-cases (Session.chat host session message s).0) [
        | inl (resp, e) ↦ rw (handle_chat, h, e) refl
        | inr (x, e) ↦ rw (handle_chat, h, e) refl
      ]

  serve-chat :
      (body : Option Text) (s : Session W)
      → serve host pages post_method (codes "/v1/chat") none body s ≡ handle_chat host pages body s
  unfolding serve handle_post text_eq
  serve-chat body s = refl

  request-chat :
      (message session body : Text) (s : Session W)
      → pages.decode_chat body ≡ some (message, session)
      → instance_ops.request post_method address (codes "/v1/chat") none (some body) s ≡ (
        ok (limited (shown (Session.chat host session message s).0)),
        (Session.chat host session message s).1,
      )
  request-chat message session body s h =
      ap
        (λ (b : Bool). elim b as (λ b. Outcome Page × Session W) [
          | false ↦ (err (external 1), s)
          | true ↦
              let (page, s') = serve host pages post_method (codes "/v1/chat") none (some body) s in
              (ok (limited page), s')
        ])
        (text_eq_self address)
      ∙ ap (λ (x : Page × Session W). (ok (limited x.0), x.1))
          (serve-chat (some body) s ∙ handle_chat-shown message session body s h)

  -- The body of a chat is carried to the instance: the gateway decodes and encodes it, and the
  -- instance reads the message.
  abbrev pub Carried : Text → Text → Type 0
  Carried message session =
      (body : Text) × (recoded instance_ops (some (coding.encode_message message session))
        ≡ some body)
      × (pages.decode_chat body ≡ some (message, session))

  proxy-chat :
      (u message session : Text) (reg : Registry) (s : Session W)
      → resolve u reg ≡ some address
      → Carried message session
      → proxy_post instance_ops reg
          (codes "/v1/chat")
          u
          (some (coding.encode_message message session))
          s
        ≡ (
          answer (ok (limited (shown (Session.chat host session message s).0))),
          (Session.chat host session message s).1,
        )
  unfolding proxy_post
  proxy-chat u message session reg s known (body, sent, h) =
      rw (proxy_post, known, sent, request-chat message session body s h) refl

  -- A reply that fits the limit, and is read as it was written.
  abbrev pub Readable : Outcome ChatResponse → Type 0
  Readable (err e) = Unit
  Readable (ok resp) =
      (length (pages.encode_chat resp) ≤ body_limit)
      × (coding.decode_chat (pages.encode_chat resp) ≡ some resp)

  exchange-shown :
      (o : Outcome ChatResponse)
      → Readable o
      → decoded send coding coding.decode_chat
          (accepted send coding (ok (printed (some (answer (ok (limited (shown o))))))))
        ≡ received o
  unfolding shown
  exchange-shown (ok resp) (fits, reads) =
      let whole = take-all body_limit (pages.encode_chat resp) fits in
      ap (λ b. decoded send coding coding.decode_chat (ok (take body_limit b))) whole
      ∙ ap (λ b. decoded send coding coding.decode_chat (ok b)) whole
      ∙ rw (decoded, reads) refl
  exchange-shown (err e) readable = refl

  -- Where no connection fails and no request times out, the body of the chat is carried to the
  -- instance, and the reply of the session, if it is one, is of at most 16 MiB and read as it was
  -- written: a chat that the control plane sends for a user who is registered at the instance's
  -- address comes back as the instance's session answers it, with an error of the session as status
  -- 502; it leaves that session as the answer does, and no route is changed.
  pub chat_transit :
      (u message session : Text) (reg : Registry) (s : Session W)
      → resolve u reg ≡ some address
      → Carried message session
      → Readable (Session.chat host session message s).0
      → chat send coding u message session (reg, s) ≡ (
        received (Session.chat host session message s).0,
        (reg, (Session.chat host session message s).1),
      )
  unfolding chat exchange chat_request
  chat_transit u message session reg s known carried readable =
      let out = Session.chat host session message s in
      let posted : Response × Session W → Outcome ChatResponse × (Registry × Session W) = λ x. (
        decoded send coding coding.decode_chat (accepted send coding (ok (printed (some x.0)))),
        (reg, x.1),
      ) in
      ap
        (λ (x : Outcome (ℕ × Text) × (Registry × Session W)).
          (decoded send coding coding.decode_chat (accepted send coding x.0), x.1))
        (send-chat u message session reg s)
      ∙ ap posted (proxy-chat u message session reg s known carried)
      ∙ ap (λ (o : Outcome ChatResponse). (o, (reg, out.1))) (exchange-shown out.0 readable)
