-- ===== src/Engine/Acp.antt =====
-- cloud-backend/pkg/agentengine/qwenpaw/acp.go: the client that speaks JSON-RPC with a `qwenpaw acp`
-- process. Each operation here is one critical section of the lock `a.mu`; the steps of different
-- goroutines interleave in any order (Acp.Steps). A channel of a request is known by the number of
-- the request, and what was put into the channels is a list. The process, its pipes and the printing
-- of ids are parameters.
pub mod Permission
pub mod Reading
pub mod Steps
pub mod Replies
pub mod Prompts
use cloudeagent.Prelude.{
  ℕ, suc, ◌≡◌, refl, ◌⊎◌, inl, inr, Bool, true, false, Option, none, some, List, [], ◌∷◌, Text,
  codes, Assoc, lookup, insert, delete, text_eq, ◌==◌, if◌then◌else◌,
}
use cloudeagent.Types.{Outcome, ok, err}
use cloudeagent.Engine.Config.{EngineConfig}
use cloudeagent.Engine.Json.{
  Json, null, Fields, get, as_text, as_fields, fields_or_none, param_string,
}

-- An error code, with its sign.
pub data Code : Type 0 where
  negative positive : ℕ → Code

abbrev pub process_gone : Code
process_gone = negative 32001

abbrev pub is_process_gone : Code → Bool
is_process_gone (negative n) = n == 32001
is_process_gone (positive n) = false

pub record RpcError : Type 0 where
  pub code : Code
  pub message : Text

-- The id is `null` where there is none.
pub record RpcMessage : Type 0 where
  pub id : Json
  pub method : Text
  pub params : Option Fields
  pub result : Option Fields
  pub error : Option RpcError

-- The errors that the client tells apart: `transport` is `errACPTransport`, however it is wrapped.
pub data AcpErr : Type 0 where
  transport write_failed cancelled timed_out mock_config no_session : AcpErr
  answered : Code → Text → AcpErr
  not_spawned : ℕ → AcpErr

-- `errors.Is(err, errACPTransport)`
abbrev pub is_transport : AcpErr → Bool
is_transport transport = true
is_transport _ = false

pub data Answer (A : Type 0) : Type 0 where
  good : A → Answer A
  bad : AcpErr → Answer A

pub Answer-cases :
    {A : Type 0} (x : Answer A) → ((a : A) × (x ≡ good a)) ⊎ ((e : AcpErr) × (x ≡ bad e))
Answer-cases (good a) = inl (a, refl)
Answer-cases (bad e) = inr (e, refl)

-- A process, a handler and a request are known by numbers.
pub record Acp : Type 0 where
  pub proc : Option ℕ
  pub next_id : ℕ
  pub pending : Assoc ℕ
  pub handlers : Assoc ℕ
  pub sessions : Assoc Text
  pub spawned_cfg : Option EngineConfig
  pub cfg_dir : Text
  pub connected : Bool
  pub agent_name : Text
  pub agent_version : Text
  pub last_restart : ℕ
  pub delivered : List (ℕ × RpcMessage)

abbrev pub new_acp : Acp
new_acp = record {
  proc = none;
  next_id = 0;
  pending = [];
  handlers = [];
  sessions = [];
  spawned_cfg = none;
  cfg_dir = [];
  connected = false;
  agent_name = [];
  agent_version = [];
  last_restart = 0;
  delivered = [];
}

-- `writeLocked`: whether the pipe takes the message is given. A process whose pipe fails is killed.
unfoldable pub write_locked : Bool → Acp → Option AcpErr × Acp
write_locked wrote a = elim a.proc [
  | none ↦ (some transport, a)
  | some p ↦ if wrote then (none, a) else (some write_failed, record a { connected = false })
]

-- `fmt.Sprint`, of an id that the client made and of one that was decoded.
pub record Printing : Type 0 where
  pub of_int : ℕ → Text
  pub of_json : Json → Text

module _ (sprint : Printing) where
  -- What `request` does before it waits; it returns the number of the request.
  unfoldable pub begin_request : Bool → Acp → Answer ℕ × Acp
  unfolding write_locked
  begin_request wrote a = elim a.proc [
    | none ↦ (bad transport, a)
    | some p ↦
        let id = suc a.next_id in
        let key = sprint.of_int id in
        let asked = record a { next_id = id; pending = insert key id a.pending } in
        let (e, a') = write_locked wrote asked in
        elim e [
          | none ↦ (good id, a')
          | some x ↦ (bad x, record a' { pending = delete key a'.pending })
        ]
  ]

  -- The branch of `request` for a context that is done.
  pub give_up : ℕ → Acp → Acp
  give_up id a = record a { pending = delete (sprint.of_int id) a.pending }

  -- The branch of `dispatch` for a message with an id.
  pub deliver : RpcMessage → Acp → Acp
  deliver msg a =
      let key = sprint.of_json msg.id in
      let a' = record a { pending = delete key a.pending } in
      elim (lookup key a.pending) [
        | none ↦ a'
        | some id ↦ record a' { delivered = (id, msg) ∷ a.delivered }
      ]

-- What the receiver of a reply makes of it.
pub conclude : RpcMessage → Answer Fields
conclude resp = elim resp.error [
  | none ↦ good (fields_or_none resp.result)
  | some e ↦ if is_process_gone e.code then bad transport else bad (answered e.code e.message)
]

-- `notify`
pub notify : Bool → Acp → Option AcpErr × Acp
unfolding write_locked
notify wrote a = elim a.proc [ none ↦ (some transport, a) | some p ↦ write_locked wrote a ]

-- The message that `watchProc` puts into the channel of each pending request.
abbrev pub gone_message : RpcMessage
gone_message = record {
  id = null;
  method = [];
  params = none;
  result = none;
  error = some (record { code = process_gone; message = codes "qwenpaw acp process exited" });
}

pub fail_all : Assoc ℕ → List (ℕ × RpcMessage) → List (ℕ × RpcMessage)
fail_all [] out = out
fail_all ((key, id) ∷ pending) out = (id, gone_message) ∷ fail_all pending out

-- `watchProc`, once the process `p` has exited.
pub exited : ℕ → Acp → Acp
unfolding fail_all
exited p a = elim a.proc [
  | none ↦ a
  | some q ↦
      if q == p
      then record a {
        proc = none;
        connected = false;
        sessions = [];
        handlers = [];
        pending = [];
        delivered = fail_all a.pending a.delivered;
      }
      else a
]

-- `killLocked`, but for the signals to the process.
pub kill_locked : Acp → Acp
kill_locked a = elim a.proc [
  | none ↦ a
  | some p ↦ record a { proc = none; connected = false; cfg_dir = []; sessions = []; handlers = [] }
]

-- `Stop`
pub stop : Acp → Acp
unfolding kill_locked
stop a = record (kill_locked a) { sessions = []; handlers = [] }

-- The two critical sections of `start`: a process was spawned; it has answered `initialize`.
unfoldable pub spawned : ℕ → Text → ℕ → Acp → Acp
spawned p dir now a = record a {
  proc = some p;
  cfg_dir = dir;
  connected = false;
  last_restart = now;
}

abbrev with_agent : Option Fields → Acp → Acp
with_agent none a = a
with_agent (some info) a = record a {
  agent_name = as_text (get (codes "name") info);
  agent_version = as_text (get (codes "version") info);
}

pub initialized : EngineConfig → Fields → Acp → Acp
unfolding get
initialized cfg resp a = record (with_agent (as_fields (get (codes "agentInfo") resp)) a) {
  connected = true;
  spawned_cfg = some cfg;
}

-- `for k, v := range a.sessions { if v == sid { delete(a.sessions, k) } }`
pub forget_session : Text → Assoc Text → Assoc Text
forget_session sid [] = []
forget_session sid ((k, v) ∷ m) =
    let rest = forget_session sid m in if text_eq v sid then rest else (k, v) ∷ rest

-- `CloseSession`, once its request is over.
pub closed : Text → Acp → Acp
unfolding forget_session
closed sid a = record a {
  sessions = forget_session sid a.sessions;
  handlers = delete sid a.handlers;
}
