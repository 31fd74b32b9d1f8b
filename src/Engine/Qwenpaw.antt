-- ===== src/Engine/Qwenpaw.antt =====
-- cloud-backend/pkg/agentengine/qwenpaw/engine.go: the agent engine over the ACP client. The file
-- system, the program's version, the clock, the scanning of a number and the regular expression of
-- headlines are parameters.
pub mod Deltas
use cloudeagent.Prelude.{
  ℕ, Bool, true, false, ◌||◌, ◌&&◌, not, Option, none, some, List, [], ◌∷◌, ◌++◌, Text, codes,
  text_eq, ◌==◌, ltb, length, leb, if◌then◌else◌,
}
use cloudeagent.Engine.Config.{EngineConfig, apply, default_config}
use cloudeagent.Engine.Json.{Json, str, obj, Fields, get, as_text, as_fields}
use cloudeagent.Engine.Headline.{Filter, new_filter, write, flush}
use cloudeagent.Engine.Acp.{new_acp, AcpErr, Answer, good, bad, stop}
use cloudeagent.Engine.Acp.Prompts.{
  Host, Client, is_mock, prompt, session_id, close_session_local, sync_config,
}

pub record Engine (W : Type 0) : Type 0 where
  pub client : Client W
  pub bin : Text
  pub active_sess : Text

-- What surrounds the engine: `found` says whether the program is in the path or a file, `version` is
-- the answer to `--version`.
pub record Probe : Type 0 where
  pub found : Text → Bool
  pub version : Option Text
  pub scan_int : Text → Option ℕ

-- `New`: the configuration is applied over the default one.
abbrev or_qwenpaw : Text → Text
or_qwenpaw name = if leb (length name) 0 then codes "qwenpaw" else name

unfoldable pub new_engine : {W : Type 0} → Text → Text → EngineConfig → W → Engine W
new_engine name workspace cfg w = record {
  client = record {
    acp = new_acp;
    cfg = apply cfg default_config;
    workspace = workspace;
    world = w;
  };
  bin = or_qwenpaw name;
  active_sess = codes "default";
}

-- `strings.FieldsFunc` by the separators of a version
abbrev is_separator : ℕ → Bool
is_separator c = c == b'.' || (c == b' ' || (c == b',' || c == b'-'))

abbrev word_onto : Text → List Text → List Text
word_onto [] words = words
word_onto (c ∷ w) words = (c ∷ w) ∷ words

fields_from : Text → Text → List Text
fields_from word [] = word_onto word []
fields_from word (c ∷ s) =
    let next = fields_from [] s in
    let more = fields_from (word ++ c ∷ []) s in
    if is_separator c then word_onto word next else more

pub version_fields : Text → List Text
unfolding fields_from
version_fields s = fields_from [] s

-- The loop of `versionMajorMinor`, with the major number so far.
pub version_loop : (Text → Option ℕ) → List Text → ℕ → ℕ × ℕ
version_loop scan [] major = (major, 0)
version_loop scan (part ∷ parts) major =
    let rest = version_loop scan parts in
    elim (scan part) [ none ↦ rest major | some n ↦ if major == 0 then rest n else (major, n) ]

pub version_major_minor : (Text → Option ℕ) → Text → ℕ × ℕ
unfolding version_loop version_fields
version_major_minor scan ver = version_loop scan (version_fields ver) 0

-- `Ready`, but for the reason.
unfoldable pub ready : {W : Type 0} → Probe → Engine W → Bool
unfolding version_major_minor
ready probe e =
    not (leb (length e.bin) 0)
    && (probe.found e.bin && elim probe.version [
      | none ↦ false
      | some ver ↦
          let major = (version_major_minor probe.scan_int ver).0 in
          not (ltb 0 major && ltb major 2) && not (is_mock e.client.cfg)
    ])

-- What the callbacks of a chat are called with; `deltas` is the filter of headlines, with what it has
-- passed on.
pub record Heard : Type 0 where
  pub text : Text
  pub deltas : Filter
  pub thoughts : List Text
  pub tools : List Fields
  pub usages : List Fields

abbrev pub new_heard : Heard
new_heard = record { text = []; deltas = new_filter; thoughts = []; tools = []; usages = [] }

-- `c, ok := u["content"].(map[string]any); text, ok := c["text"].(string)`
abbrev string_of : Json → Option Text
string_of (str s) = some s
string_of _ = none

pub content_text : Fields → Option Text
content_text u = elim (as_fields (get (codes "content") u)) [
  | none ↦ none
  | some c ↦ string_of (get (codes "text") c)
]

module _ (is_headline : Text → Bool) where
  pub hear_message : Option Text → Heard → Heard
  hear_message none h = h
  hear_message (some []) h = h
  hear_message (some (c ∷ s)) h = record h {
    text = h.text ++ c ∷ s;
    deltas = write is_headline (c ∷ s) h.deltas;
  }

  abbrev pub hear_thought : Option Text → Heard → Heard
  hear_thought none h = h
  hear_thought (some s) h = record h { thoughts = h.thoughts ++ s ∷ [] }

  -- The handler of `Chat`, where there are callbacks, all of them.
  pub hear : Fields → Heard → Heard
  unfolding hear_message content_text
  hear u h =
      let kind = as_text (get (codes "sessionUpdate") u) in
      if text_eq kind (codes "agent_message_chunk")
      then hear_message (content_text u) h
      else if text_eq kind (codes "agent_thought_chunk")
      then hear_thought (content_text u) h
      else if text_eq kind (codes "tool_call") || text_eq kind (codes "tool_call_update")
      then record h { tools = h.tools ++ u ∷ [] }
      else if text_eq kind (codes "usage_update")
      then record h { usages = h.usages ++ u ∷ [] }
      else h

  pub hear_all : List Fields → Heard → Heard
  unfolding hear
  hear_all [] h = h
  hear_all (u ∷ us) h = hear_all us (hear u h)

  -- `Chat`, with or without callbacks: the updates are those that reach the handler while `Prompt`
  -- runs. `strip` takes the headlines out of the whole text, `no_reply` stands for an empty rest.
  pub chat :
      {W : Type 0}
      → Host W
      → (Text → Text)
      → Text
      → Bool
      → Text
      → Text
      → ℕ
      → List Fields
      → Engine W
      → Heard × Answer Text × Engine W
  unfolding hear_all
  chat host strip no_reply callbacks key message handler updates e =
      let key' = if leb (length key) 0 then e.active_sess else key in
      let heard = hear_all (if callbacks then updates else []) new_heard in
      let heard' = record heard { deltas = flush is_headline heard.deltas } in
      let (r, c) = prompt host key' message handler e.client in
      let reply = strip heard.text in
      let answer : Answer Text = elim r [
        | some x ↦ bad x
        | none ↦ good (if leb (length reply) 0 then no_reply else reply)
      ] in
      (heard', answer, record e { client = c })

-- `NewSession`, with the key that it makes from the time.
pub new_session : {W : Type 0} → Host W → Text → Engine W → Answer Text × Engine W
new_session {W} host key e =
    let old = e.active_sess in
    let c = e.client in
    let c' = if leb (length old) 0 || text_eq old key then c else close_session_local host old c in
    let (r, c'') = session_id host key c' in
    let e' : Engine W = record { client = c''; bin = e.bin; active_sess = key } in
    elim r [ bad x ↦ (bad x, e') | good sid ↦ (good key, e') ]

pub close : {W : Type 0} → Engine W → Engine W
close e = record e { client = record (e.client) { acp = stop e.client.acp } }
