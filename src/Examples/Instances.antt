-- ===== src/Examples/Instances.antt =====
-- The log of an instance, and a chat with it.
use cloudeagent.Prelude.{
  ℕ, suc, ap, ◌≡◌, refl, true, false, none, some, inl, inr, [], ◌∷◌, codes, text_eq,
}
use cloudeagent.Types.{ok, external}
use cloudeagent.Engine.Config.{default_config}
use cloudeagent.Runtime.Log.{
  Disk, cut_short, write_line, append_log, message_index, history, read_log, count_newlines,
}
use cloudeagent.Runtime.Log.Index.{Indexed, append_log_index}
use cloudeagent.Runtime.Log.History.{log_of, recent, history-append_log}
use cloudeagent.Runtime.Session.{Engine, Host, Session, chat, chat_stream, delta, fall_back}
use cloudeagent.Runtime.Session.Agreement.{chat_stream_agrees}
use cloudeagent.Examples.Encoding.{
  json, Carried, question, reply, encode-plain, count_newlines-question, json-JsonLaws,
}

abbrev pub disk : Disk
disk = record { log = none; read_error = none; write_error = none }

-- The question is there, and a write stops after three bytes.
abbrev full : Disk
full = record {
  log = some (log_of json (question ∷ []));
  read_error = none;
  write_error = some (cut_short 3 (external 1));
}

append_log_index_example : Indexed json reply full
append_log_index_example = append_log_index json reply full encode-plain

abbrev asked : Disk
asked = record full { write_error = none }

history-append_log_example :
    history json 5 (codes "default") (append_log json reply asked).1
    ≡ ok (recent 5 (codes "default") (question ∷ reply ∷ []))
unfolding append_log write_line message_index read_log count_newlines log_of
history-append_log_example =
    history-append_log json Carried json-JsonLaws reply asked (question ∷ []) 2 5 (codes "default")
      (inl refl, tt) (inr refl) refl (ap (λ n. ok (suc n)) count_newlines-question)

abbrev pub echo : Engine ℕ
echo = record {
  ready = λ w. true;
  active_session = λ w. codes "default";
  chat = λ key message w. ((delta message ∷ [], ok message), suc w);
}

abbrev pub host : Host ℕ
host = record {
  engines = λ name. echo;
  json = json;
  now = λ w. w;
  itoa = λ n. codes "7";
  error_text = λ e. codes "failed";
  no_reply = codes "none";
  is_blank = λ s. false;
}

abbrev pub session : Session ℕ
session = record { cfg = default_config; eng_name = codes "mock"; disk = disk; world = 7 }

chat_stream_agrees_example :
    let streamed = chat_stream host [] (codes "hi") session in
    chat host [] (codes "hi") session ≡ (streamed.0.1, streamed.1)
unfolding fall_back text_eq
chat_stream_agrees_example = chat_stream_agrees host [] (codes "hi") session refl
