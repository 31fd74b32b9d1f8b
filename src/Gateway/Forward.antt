-- ===== src/Gateway/Forward.antt =====
-- cloud-gateway/internal/server/server.go: the handlers that keep the routes and forward requests.
-- The client of the agents is an operation of the world. A decoded body is a parameter, and so is
-- `recode`: the text of a body as it is decoded into any value and encoded again.
use cloudeagent.Prelude.{
  ℕ, ◌≡◌, Bool, false, Option, none, some, Text, length, leb, arith, if◌then◌else◌, text_eq_self,
  lookup-insert, lookup-delete,
}
use cloudeagent.Types.{Err, Outcome, ok, err}
use cloudeagent.Gateway.Registry.{Registry, register, unregister, resolve}

-- What a reply's body holds, beside its status.
pub data Body : Type 0 where
  registered : Text → Body
  bad_endpoint not_registered : Body
  forwarded : Text → Body
  failed_with : Err → Body

pub record Response : Type 0 where
  pub code : ℕ
  pub body : Body

-- A forwarded request: GET or POST, and what it carries.
pub data Method : Type 0 where
  get_method post_method : Method

pub record AgentOps (W : Type 0) : Type 0 where
  -- `none` where the body does not decode, or is null
  pub recode : Text → Option Text
  pub request : Method → Text → Text → Option Text → Option Text → W → Outcome (ℕ × Text) × W

-- `handleRegister`; `none` is a body that does not decode.
pub handle_register : Text → Option Text → Registry → Response × Registry
handle_register user_id none r = (record { code = 400; body = bad_endpoint }, r)
handle_register user_id (some endpoint) r =
    if leb (length endpoint) 0
    then (record { code = 400; body = bad_endpoint }, r)
    else (record { code = 200; body = registered user_id }, register user_id endpoint r)

pub handle_unregister : Text → Registry → Response × Registry
handle_unregister user_id r =
    (record { code = 200; body = registered user_id }, unregister user_id r)

-- `16 << 20`: the bytes of a body that are read.
abbrev pub body_limit : ℕ
body_limit = 16_777_216

-- What both proxies do with the agent's answer.
abbrev pub answer : Outcome (ℕ × Text) → Response
answer (ok (status, bytes)) = record { code = status; body = forwarded bytes }
answer (err e) = record { code = 502; body = failed_with e }

-- What `proxyPOST` sends on of a body; one of no bytes is none.
abbrev pub recoded : {W : Type 0} → AgentOps W → Option Text → Option Text
recoded agent none = none
recoded agent (some body) = if leb (length body) 0 then none else agent.recode body

module _ {W : Type 0} (agent : AgentOps W) (reg : Registry) where
  -- `proxyGET`, with the query of the request
  pub proxy_get : Text → Bool → Text → Text → W → Response × W
  proxy_get path with_query user_id query w = elim (resolve user_id reg) [
    | none ↦ (record { code = 404; body = not_registered }, w)
    | some endpoint ↦
        let q : Option Text = if with_query then some query else none in
        let (r, w') = agent.request get_method endpoint path q none w in (answer r, w')
  ]

  -- `proxyPOST`, with the body of the request, if it has one
  unfoldable pub proxy_post : Text → Text → Option Text → W → Response × W
  proxy_post path user_id body w = elim (resolve user_id reg) [
    | none ↦ (record { code = 404; body = not_registered }, w)
    | some endpoint ↦
        let (r, w') = agent.request post_method endpoint path none (recoded agent body) w in
        (answer r, w')
  ]

-- A request for a user that was unregistered is answered with 404 and reaches no agent; after a
-- registration with an endpoint that is not empty it reaches that endpoint, and its status and body
-- come back as they are, or as 502 if the exchange failed.
pub proxy_post_routes :
    {W : Type 0} (agent : AgentOps W) (r : Registry) (path u endpoint : Text) (body : Option Text)
    (w : W)
    → leb (length endpoint) 0 ≡ false
    → (proxy_post agent (handle_unregister u r).1 path u body w
        ≡ (record { code = 404; body = not_registered }, w))
      × (proxy_post agent (handle_register u (some endpoint) r).1 path u body w ≡ (
        answer (agent.request post_method endpoint path none (recoded agent body) w).0,
        (agent.request post_method endpoint path none (recoded agent body) w).1,
      ))
unfolding proxy_post handle_register handle_unregister resolve register unregister
proxy_post_routes agent r path u endpoint body w h = (
  ground (arith, lookup-delete u u r, text_eq_self u),
  ground (arith, lookup-insert u u endpoint r, text_eq_self u),
)
