-- ===== src/Examples/Kernel.antt =====
-- Runs of the client of the qwenpaw process, and of the engine over it.
use cloudeagent.Prelude.{
  ℕ, ◌+◌, ◌≤◌, ◌<◌, ◌≡◌, ◌≢◌, ◌⊎◌, refl, Bool, true, false, none, some, [], ◌∷◌, Text, codes,
  text_eq, lookup, insert, arith,
}
use cloudeagent.Engine.Config.{EngineConfig, default_config}
use cloudeagent.Engine.Headline.{new_filter, write, flush}
use cloudeagent.Engine.Json.{Json, num, str, arr, obj, nil, cons, Fields, no_fields, field}
use cloudeagent.Engine.Acp.{
  Acp, new_acp, Printing, RpcMessage, AcpErr, good, bad, exited, spawned, begin_request,
  write_locked,
}
use cloudeagent.Engine.Acp.Permission.{
  PermissionRequest, permission_request, permission_reply, permission_reply_grants, refusal,
  selection,
}
use cloudeagent.Engine.Acp.Steps.{begins, receives, spawns, step, run}
use cloudeagent.Engine.Acp.Replies.{waits, replies_to, run_replies_once, exit_answers}
use cloudeagent.Engine.Acp.Prompts.{
  Host, Client, replied, session_id, ensure_started, sync_config, prompt_once,
}
use cloudeagent.Engine.Acp.Prompts.Credentials.{Current, sync_config-Current}
use cloudeagent.Engine.Acp.Prompts.Sending.{prompt_once_handlers}
use cloudeagent.Engine.Qwenpaw.{Engine, chat}
use cloudeagent.Engine.Qwenpaw.Deltas.{chat_deltas, chat_silent}

abbrev printed : Json → Text
printed (num n) = n ∷ []
printed _ = []

abbrev pub sprint : Printing
sprint = record { of_int = λ n. n ∷ []; of_json = printed }

abbrev asked : Fields
asked = field (codes "sessionId") (str (codes "s1")) (
    field (codes "options")
      (arr (cons (obj (field (codes "optionId") (str (codes "allow")) no_fields)) nil)) no_fields)

abbrev pub answer : Json → RpcMessage
answer id = record {
  id = id;
  method = [];
  params = none;
  result = some (field (codes "sessionId") (str (codes "s1")) no_fields);
  error = none;
}

abbrev question : RpcMessage
question = record {
  id = num 7;
  method = codes "session/request_permission";
  params = some asked;
  result = none;
  error = none;
}

abbrev allow : PermissionRequest → Text
allow req = codes "allow"

-- One request is answered, the other waits.
abbrev answered_one : Acp
answered_one =
    run sprint none false
      (spawns 4 (codes "/c") 0 ∷ begins true ∷ begins true ∷ receives true (answer (num 1)) ∷ [])
      new_acp

run_replies_once_example :
    (replies_to 1 answered_one.delivered ≤ 1)
    × (waits 1 answered_one.pending + replies_to 1 answered_one.delivered ≤ 1)
    × (answered_one.next_id < 1 → replies_to 1 answered_one.delivered ≡ 0)
run_replies_once_example =
    run_replies_once sprint none false
      (spawns 4 (codes "/c") 0 ∷ begins true ∷ begins true ∷ receives true (answer (num 1)) ∷ []) 1

abbrev pub asking : Acp
asking = run sprint none false (spawns 4 (codes "/c") 0 ∷ begins true ∷ []) new_acp

asking-up : asking.proc ≡ some 4
unfolding run step spawned begin_request write_locked
asking-up = refl

asking-waits : 1 ≤ waits 1 asking.pending
unfolding waits insert run step spawned begin_request write_locked
asking-waits = omega arith

exit_answers_example :
    (replies_to 1 (exited 4 asking).delivered ≡ 1) × ((exited 4 asking).pending ≡ [])
exit_answers_example =
    exit_answers sprint none false (spawns 4 (codes "/c") 0 ∷ begins true ∷ []) 4 1 asking-up
      asking-waits

permission_reply_grants_example :
    let req = permission_request asked in
    let reply = permission_reply (some allow) question in
    (reply.id ≡ question.id)
    × ((reply.result ≡ some refusal)
        ⊎ ((choose : PermissionRequest → Text) × (some allow ≡ some choose)
            × (reply.result ≡ some (selection (choose req)))
            × (choose req ≢ [])
            × (choose req ≢ codes "deny")
            × (choose req ≢ codes "reject_once")))
permission_reply_grants_example = permission_reply_grants (some allow) question

-- A process that answers each request, over a pipe that works or not.
abbrev pub host : Bool → Host ℕ
host works = record {
  sprint = sprint;
  write = λ method params w. (works, w);
  await = λ id a w. (replied (answer (num id)), a, w);
  spawn = λ cfg w. (good (5, codes "/c"), w);
  pause = λ w. (none, w);
  now = λ w. w;
}

abbrev keyed : EngineConfig
keyed = record default_config { base_url = codes "https://m"; api_key = codes "k2" }

abbrev client : Client ℕ
client = record {
  acp = record new_acp {
    proc = some 4;
    connected = true;
    sessions = (codes "default", codes "s1") ∷ [];
    spawned_cfg = some (record keyed { api_key = codes "k1" });
  };
  cfg = keyed;
  workspace = codes "/w";
  world = 0;
}

sync_config-Current_example : Current (sync_config (host true) client)
sync_config-Current_example = sync_config-Current (host true) client

client-session : (session_id (host true) (codes "default") client).0 ≡ good (codes "s1")
unfolding session_id ensure_started lookup text_eq
client-session = refl

prompt_once_handlers_example :
    lookup
      (codes "s1")
      (prompt_once (host true) (codes "default") (codes "hi") 9 client).1.acp.handlers
    ≡ none
prompt_once_handlers_example =
    prompt_once_handlers (host true) (codes "default") (codes "hi") (codes "s1") 9 client
      client-session

abbrev update : Text → Fields
update s =
    field (codes "sessionUpdate") (str (codes "agent_message_chunk"))
      (field (codes "content") (obj (field (codes "text") (str s) no_fields)) no_fields)

abbrev engine : Engine ℕ
engine = record { client = client; bin = codes "qwenpaw"; active_sess = codes "default" }

abbrev is_mark : Text → Bool
is_mark [] = false
is_mark (c ∷ s) = true

chat_deltas_example :
    let heard =
      (chat is_mark
        (host true)
        (λ s. s)
        (codes "-")
        true
        []
        (codes "hi")
        9
        (update (codes "a") ∷ update (codes "b") ∷ [])
        engine).0 in
    heard.deltas ≡ flush is_mark (write is_mark heard.text new_filter)
chat_deltas_example =
    chat_deltas is_mark (host true) (λ s. s) (codes "-") true [] (codes "hi") 9
      (update (codes "a") ∷ update (codes "b") ∷ []) engine

chat_silent_example :
    let answer =
      (chat is_mark
        (host true)
        (λ s. s)
        (codes "-")
        false
        []
        (codes "hi")
        9
        (update (codes "a") ∷ [])
        engine).1 in
    (answer ≡ good (codes "-")) ⊎ ((x : AcpErr) × (answer ≡ bad x))
chat_silent_example =
    chat_silent is_mark (host true) (λ s. s) (codes "-") [] (codes "hi") 9 (update (codes "a") ∷ [])
      engine refl
