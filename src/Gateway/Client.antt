-- ===== src/Gateway/Client.antt =====
-- cloud-backend/pkg/sandboxruntime/gateway.go: the client of the gateway. The exchange of a request
-- and JSON are parameters; a path is the list of its segments, which `url.PathEscape` keeps apart.
use cloudeagent.Prelude.{
  ℕ, ◌++◌, ltb, leb, length, take, Option, none, some, List, [], ◌∷◌, Text, codes, if◌then◌else◌,
}
use cloudeagent.Types.{Err, external, Outcome, ok, err, ModelConfig, ChatResponse}
use cloudeagent.Gateway.Forward.{body_limit}
use cloudeagent.Gateway.Routes.{Verb, get_verb, post_verb, delete_verb, Request}
use cloudeagent.Manager.World.{GatewayOps}

-- What is sent and what is read. A map that is passed on is its text; of a health page the part
-- `kernel` is read.
pub record Coding : Type 0 where
  pub itoa : ℕ → Text
  pub encode_endpoint : Text → Text
  pub encode_message : Text → Text → Text
  pub encode_config : ModelConfig → Text
  pub decode_chat : Text → Option ChatResponse
  pub decode_map : Text → Option Text
  pub decode_session : Text → Option Text
  pub decode_health : Text → Option (Option Text)

-- A reply that does not decode.
abbrev bad_json : Err
bad_json = external 0

module _ {W : Type 0} (send : Request → W → Outcome (ℕ × Text) × W) (coding : Coding) where
  -- What `do` makes of an answer, of which it reads 16 MiB.
  abbrev pub accepted : Outcome (ℕ × Text) → Outcome Text
  accepted (err e) = err e
  accepted (ok (status, bytes)) =
      if leb 400 status then err (external status) else ok (take body_limit bytes)

  -- `do`
  unfoldable pub exchange : Request → W → Outcome Text × W
  exchange req w = let (r, w') = send req w in (accepted r, w')

  abbrev pub decoded : {A : Type 0} → (Text → Option A) → Outcome Text → Outcome A
  decoded decode (err e) = err e
  decoded decode (ok bytes) = elim (decode bytes) [ none ↦ err bad_json | some a ↦ ok a ]

  abbrev error_of : Outcome Text → Option Err
  error_of (ok bytes) = none
  error_of (err e) = some e

  abbrev agents : Text → List Text → List Text
  agents user_id rest = codes "v1" ∷ codes "agents" ∷ user_id ∷ rest

  abbrev registry : Text → List Text
  registry user_id = codes "v1" ∷ codes "registry" ∷ user_id ∷ []

  abbrev asks : Verb → List Text → Option Text → Request
  asks verb path body = record { verb = verb; path = path; query = []; body = body }

  unfoldable pub register : Text → Text → W → Option Err × W
  unfolding exchange
  register user_id endpoint w =
      let (r, w') =
        exchange (asks post_verb (registry user_id) (some (coding.encode_endpoint endpoint))) w in
      (error_of r, w')

  unfoldable pub unregister : Text → W → Option Err × W
  unfolding exchange
  unregister user_id w =
      let (r, w') = exchange (asks delete_verb (registry user_id) none) w in (error_of r, w')

  unfoldable pub chat : Text → Text → Text → W → Outcome ChatResponse × W
  unfolding exchange
  chat user_id message session w =
      let (r, w') =
        exchange
          (asks post_verb (agents user_id (codes "chat" ∷ []))
            (some (coding.encode_message message session)))
          w in
      (decoded coding.decode_chat r, w')

  unfoldable pub workspace : Text → W → Outcome Text × W
  unfolding exchange
  workspace user_id w =
      let (r, w') = exchange (asks get_verb (agents user_id (codes "workspace" ∷ [])) none) w in
      (decoded coding.decode_map r, w')

  -- The query of `History`.
  pub history_query : ℕ → Text → List (Text × Text)
  history_query limit session =
      (if ltb 0 limit then (codes "limit", coding.itoa limit) ∷ [] else [])
      ++ (if leb (length session) 0 then [] else (codes "session_id", session) ∷ [])

  unfoldable pub history : Text → ℕ → Text → W → Outcome Text × W
  unfolding exchange history_query
  history user_id limit session w =
      let req : Request = record {
        verb = get_verb;
        path = agents user_id (codes "history" ∷ []);
        query = history_query limit session;
        body = none;
      } in
      let (r, w') = exchange req w in (decoded coding.decode_map r, w')

  unfoldable pub new_session : Text → W → Outcome Text × W
  unfolding exchange
  new_session user_id w =
      let (r, w') =
        exchange (asks post_verb (agents user_id (codes "sessions" ∷ [])) (some (codes "{}"))) w in
      (decoded coding.decode_map r, w')

  unfoldable pub session_info : Text → W → Outcome Text × W
  unfolding exchange
  session_info user_id w =
      let (r, w') =
        exchange (asks get_verb (agents user_id (codes "session" ∷ codes "info" ∷ [])) none) w in
      (decoded coding.decode_session r, w')

  unfoldable pub health : Text → W → Outcome (Option Text) × W
  unfolding exchange
  health user_id w =
      let (r, w') = exchange (asks get_verb (agents user_id (codes "health" ∷ [])) none) w in
      (decoded coding.decode_health r, w')

  unfoldable pub set_config : Text → ModelConfig → W → Option Err × W
  unfolding exchange
  set_config user_id cfg w =
      let (r, w') =
        exchange
          (asks post_verb (agents user_id (codes "config" ∷ [])) (some (coding.encode_config cfg)))
          w in
      (error_of r, w')

  -- The client, as the manager takes it.
  pub gateway_client : GatewayOps W
  gateway_client = record {
    register = register;
    unregister = unregister;
    chat = chat;
    workspace = workspace;
    history = history;
    new_session = new_session;
    session_info = session_info;
    health = health;
    set_config = set_config;
  }
