-- ===== src/Engine/Qwenpaw/Deltas.antt =====
-- What a chat passes on of a reply, piece by piece, beside its whole text.
use cloudeagent.Prelude.{
  ℕ, ◌≡◌, refl, sym, ap, ◌∙◌, Bool, true, false, ◌||◌, ◌⊎◌, Option, none, some, List, [], ◌∷◌, ◌++◌,
  Text, codes, text_eq, length, leb, Option-cases, if◌then◌else◌, inl, inr,
}
use cloudeagent.Engine.Json.{Fields, get, as_text}
use cloudeagent.Engine.Headline.{new_filter, write, flush}
use cloudeagent.Engine.Headline.Streaming.{write-append, write-none}
use cloudeagent.Engine.Qwenpaw.{
  Engine, Heard, new_heard, content_text, hear_message, hear_thought, hear, hear_all, chat,
}
use cloudeagent.Engine.Acp.{AcpErr, good, bad}
use cloudeagent.Engine.Acp.Prompts.{Host, prompt}

module _ (is_headline : Text → Bool) where
  -- The filter has been given the text that was heard.
  abbrev pub InStep : Heard → Type 0
  InStep h = h.deltas ≡ write is_headline h.text new_filter

  hear_message-InStep :
      (o : Option Text) (h : Heard) → InStep h → InStep (hear_message is_headline o h)
  unfolding hear_message
  hear_message-InStep none h e = e
  hear_message-InStep (some []) h e = e
  hear_message-InStep (some (c ∷ s)) h e =
      ap (write is_headline (c ∷ s)) e ∙ sym (write-append is_headline h.text (c ∷ s) new_filter)

  hear_thought-InStep :
      (o : Option Text) (h : Heard) → InStep h → InStep (hear_thought is_headline o h)
  hear_thought-InStep none h e = e
  hear_thought-InStep (some s) h e = e

  if-InStep : (b : Bool) (x y : Heard) → InStep x → InStep y → InStep (if b then x else y)
  if-InStep true x y e f = e
  if-InStep false x y e f = f

  hear-InStep : (u : Fields) (h : Heard) → InStep h → InStep (hear is_headline u h)
  unfolding hear
  hear-InStep u h e =
      let kind = as_text (get (codes "sessionUpdate") u) in
      let tools = record h { tools = h.tools ++ u ∷ [] } in
      let usages = record h { usages = h.usages ++ u ∷ [] } in
      let is_tool = text_eq kind (codes "tool_call") || text_eq kind (codes "tool_call_update") in
      let is_usage = text_eq kind (codes "usage_update") in
      let thought = hear_thought is_headline (content_text u) h in
      let is_thought = text_eq kind (codes "agent_thought_chunk") in
      let after_usage = if is_usage then usages else h in
      let after_tool = if is_tool then tools else after_usage in
      if-InStep (text_eq kind (codes "agent_message_chunk"))
        (hear_message is_headline (content_text u) h) (if is_thought then thought else after_tool)
        (hear_message-InStep (content_text u) h e)
        (if-InStep is_thought thought after_tool (hear_thought-InStep (content_text u) h e)
          (if-InStep is_tool tools after_usage e (if-InStep is_usage usages h e e)))

  hear_all-InStep : (us : List Fields) (h : Heard) → InStep h → InStep (hear_all is_headline us h)
  unfolding hear_all
  hear_all-InStep [] h e = e
  hear_all-InStep (u ∷ us) h e = hear_all-InStep us (hear is_headline u h) (hear-InStep u h e)

  -- However the process cuts a reply into updates, and whatever other updates come in between: the
  -- chat passes on the same lines as if the whole text had come at once.
  pub chat_deltas :
      {W : Type 0} (host : Host W) (strip : Text → Text) (no_reply : Text) (callbacks : Bool)
      (key message : Text) (handler : ℕ) (updates : List Fields) (e : Engine W)
      → let heard =
          (chat is_headline host strip no_reply callbacks key message handler updates e).0 in
        heard.deltas ≡ flush is_headline (write is_headline heard.text new_filter)
  unfolding chat
  chat_deltas host strip no_reply callbacks key message handler updates e = ap (flush is_headline) (
      hear_all-InStep (if callbacks then updates else []) new_heard
        (sym (write-none is_headline new_filter)))

  -- A chat without callbacks, where nothing is stripped of an empty text: whatever the process
  -- says, the answer is that there is no text, or an error.
  pub chat_silent :
      {W : Type 0} (host : Host W) (strip : Text → Text) (no_reply key message : Text) (handler : ℕ)
      (updates : List Fields) (e : Engine W)
      → strip [] ≡ []
      → let answer = (chat is_headline host strip no_reply false key message handler updates e).1 in
        (answer ≡ good no_reply) ⊎ ((x : AcpErr) × (answer ≡ bad x))
  unfolding chat hear_all
  chat_silent host strip no_reply key message handler updates e h =
      let key' = if leb (length key) 0 then e.active_sess else key in
      elim (Option-cases (prompt host key' message handler e.client).0) [
        | inl r ↦ inl (rw (chat, r, h) refl)
        | inr (x, r) ↦ inr (x, rw (chat, r) refl)
      ]
