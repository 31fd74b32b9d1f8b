-- ===== src/Examples/Transits.antt =====
-- A chat from the control plane to an instance, over an encoding of its messages.
use cloudeagent.Prelude.{
  ℕ, ◌≡◌, refl, ap, Bool, true, false, Option, none, some, [], ◌∷◌, Text, codes, lookup, text_eq,
  leb, arith,
}
use cloudeagent.Types.{ok, ChatResponse}
use cloudeagent.Engine.Config.{default_config}
use cloudeagent.Gateway.Registry.{Registry, resolve}
use cloudeagent.Gateway.Forward.{recoded}
use cloudeagent.Gateway.Client.{Coding, chat}
use cloudeagent.Runtime.Session
use cloudeagent.Runtime.Http.{Pages}
use cloudeagent.Runtime.Log.{append_log, write_line, message_index}
use cloudeagent.Transit.{Network, instance_ops, Readable, send, received, chat_transit}
use cloudeagent.Examples.Encoding.{field, read_field, read_field-field}
use cloudeagent.Examples.Instances.{host, session}
use cloudeagent.Examples.Setup.{alice}

encode_message : Text → Text → Text
encode_message message key = field message (field key [])

decode_message : Text → Option (Text × Text)
decode_message s =
    let (message, rest) = read_field s in let (key, end) = read_field rest in some (message, key)

decode-encode_message :
    (message key : Text) → decode_message (encode_message message key) ≡ some (message, key)
unfolding decode_message encode_message
decode-encode_message message key = rw (read_field-field, read_field-field) refl

abbrev bit : Bool → ℕ
bit true = 1
bit false = 0

response_of : ℕ → ℕ → Text → Text → Text → Text → ChatResponse
response_of mock index reply model provider key = record {
  reply = reply;
  model = model;
  provider = provider;
  mock = leb 1 mock;
  message_index = index;
  session_id = key;
}

encode_response : ChatResponse → Text
encode_response r =
    bit r.mock
    ∷ r.message_index
    ∷ field r.reply (field r.model (field r.provider (field r.session_id [])))

read_response : ℕ → ℕ → Text → ChatResponse
unfolding response_of
read_response mock index s =
    let (reply, s1) = read_field s in
    let (model, s2) = read_field s1 in
    let (provider, s3) = read_field s2 in
    let (key, s4) = read_field s3 in response_of mock index reply model provider key

decode_response : Text → Option ChatResponse
unfolding read_response
decode_response (mock ∷ index ∷ s) = some (read_response mock index s)
decode_response _ = none

bit-leb : (b : Bool) → leb 1 (bit b) ≡ b
bit-leb true = refl
bit-leb false = refl

decode-encode_response : (r : ChatResponse) → decode_response (encode_response r) ≡ some r
unfolding decode_response encode_response read_response response_of
decode-encode_response r =
    rw (read_field-field, read_field-field, read_field-field, read_field-field)
      (ap (λ b. some (record r { mock = b })) (bit-leb r.mock))

abbrev pages : Pages ℕ
pages = record {
  decode_config = λ s. some default_config;
  decode_chat = decode_message;
  encode_chat = encode_response;
  encode_config = λ cfg. cfg.model;
  encode_history = λ entries. [];
  encode_session = λ s. s;
  applied_page = λ cfg. cfg.model;
  error_page = λ e. codes "error";
  bad_body = codes "bad";
  not_found_page = (404, codes "404");
  broken_off = (0, []);
  atoi = λ s. none;
  query_value = λ key query. [];
  health = λ s. ok (codes "{}");
  workspace = λ s. ok (codes "{}");
  new_session = λ s. (ok (codes "s2"), s);
  sync = λ s. s;
}

abbrev network : Network
network = record {
  encode_query = λ query. [];
  decode_endpoint = λ body. body;
  own_body = λ body. codes "{}";
  no_route = codes "404";
  recode = λ body. some body;
}

abbrev coding : Coding
coding = record {
  itoa = λ n. n ∷ [];
  encode_endpoint = λ s. s;
  encode_message = encode_message;
  encode_config = λ cfg. cfg.model;
  decode_chat = decode_response;
  decode_map = λ s. some s;
  decode_session = λ s. some s;
  decode_health = λ s. some none;
}

abbrev address : Text
address = codes "http://10.0.0.7:8088"

abbrev routes : Registry
routes = (alice, address) ∷ []

routed : resolve alice routes ≡ some address
unfolding resolve lookup text_eq
routed = refl

sent :
    recoded (instance_ops host pages network coding address) (some (encode_message (codes "hi") []))
    ≡ some (encode_message (codes "hi") [])
unfolding encode_message field
sent = refl

readable : Readable host pages network coding address (Session.chat host [] (codes "hi") session).0
unfolding Session.chat encode_response append_log write_line message_index field
readable = (omega arith, decode-encode_response _)

chat_transit_example :
    chat (send host pages network coding address) coding alice (codes "hi") [] (routes, session) ≡ (
      received host pages network coding address (Session.chat host [] (codes "hi") session).0,
      (routes, (Session.chat host [] (codes "hi") session).1),
    )
chat_transit_example =
    chat_transit host pages network coding address alice (codes "hi") [] routes session routed
      (encode_message (codes "hi") [], sent, decode-encode_message (codes "hi") []) readable
