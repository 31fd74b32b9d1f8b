-- ===== src/Runtime/Socket.antt =====
-- The WebSocket of an instance: `handleSessionWS` of cloud-backend/pkg/apiserver/agent/handler.go.
-- The messages that are read are given, until one cannot be read; a frame that cannot be written is
-- passed over there, too.
use cloudeagent.Prelude.{
  ℕ, ◌≡◌, refl, ap, ◌∙◌, Bool, true, false, List, [], ◌∷◌, ◌++◌, Text, codes, text_eq,
}
use mathlib.Core.List.{append_assoc}
use cloudeagent.Types.{Err, Outcome, ok, err, ChatResponse}
use cloudeagent.Engine.Json.{Fields, get, as_text}
use cloudeagent.Runtime.Session.{
  Event, failure, Host, Session, append, ask, session_key, passed_on, finish_stream, chat_stream,
}

-- What is written: an event of the chat, the end of a chat, or an error.
pub data Frame : Type 0 where
  event_frame : Event → Frame
  done_frame : Text → ℕ → Text → Bool → Frame
  error_frame : Text → Frame

-- What `emit` writes; its kind for a failure is that of an error.
abbrev pub emitted : Event → Frame
emitted (failure text) = error_frame text
emitted event = event_frame event

pub emit_all : List Event → List Frame
emit_all [] = []
emit_all (event ∷ events) = emitted event ∷ emit_all events

module _ {W : Type 0} (host : Host W) where
  -- What follows `ChatStream`.
  pub close_chat : Outcome ChatResponse → Frame
  close_chat (ok resp) = done_frame resp.session_id resp.message_index resp.model resp.mock
  close_chat (err e) = error_frame (host.error_text e)

  pub handle_chat_message : Fields → Session W → List Frame × Session W
  unfolding emit_all close_chat
  handle_chat_message msg s =
      let session = as_text (get (codes "session_id") msg) in
      let message = as_text (get (codes "message") msg) in
      let ((events, out), s') = chat_stream host session message s in
      (emit_all events ++ close_chat out ∷ [], s')

  -- One round of the loop.
  pub handle_message : Fields → Session W → List Frame × Session W
  unfolding handle_chat_message
  handle_message msg s = elim (text_eq (as_text (get (codes "type") msg)) (codes "chat")) [
    | false ↦ (error_frame (codes "unknown message type") ∷ [], s)
    | true ↦ handle_chat_message msg s
  ]

  pub handle_messages : List Fields → Session W → List Frame × Session W
  unfolding handle_message
  handle_messages [] s = ([], s)
  handle_messages (msg ∷ msgs) s =
      let (frames, s1) = handle_message msg s in
      let (rest, s2) = handle_messages msgs s1 in (frames ++ rest, s2)

  emit_all-append : (xs ys : List Event) → emit_all (xs ++ ys) ≡ emit_all xs ++ emit_all ys
  unfolding emit_all
  emit_all-append [] ys = refl
  emit_all-append (x ∷ xs) ys = ap (λ l. emitted x ∷ l) (emit_all-append xs ys)

  stream-fails :
      (key message : Text) (idx : ℕ) (x : Err) (s : Session W)
      → let k = session_key host key s in
        let logged = append host (codes "user") message k s in
        let asked = ask host k message logged.1 in
        logged.0 ≡ ok idx
        → asked.0.1 ≡ err x
        → (chat_stream host key message s).0
          ≡ (passed_on host asked.0.0 ++ failure (host.error_text x) ∷ [], err x)
  unfolding chat_stream finish_stream
  stream-fails key message idx x s h f =
      let k = session_key host key s in
      let logged = append host (codes "user") message k s in
      let asked = ask host k message logged.1 in
      let finished : Outcome Text → (List Event × Outcome ChatResponse) × Session W =
        λ o. finish_stream host key k idx asked.0.0 o asked.1 in
      ap
        (λ (r : Outcome ℕ).
          (elim r as (λ r. (List Event × Outcome ChatResponse) × Session W) [
            | err e ↦ (([], err e), logged.1)
            | ok n ↦ finish_stream host key k n asked.0.0 asked.0.1 asked.1
          ]).0)
        h
      ∙ ap (λ o. (finished o).0) f

  -- A chat over the WebSocket whose message is logged and whose engine fails: the error is written
  -- twice, after what the engine has reported.
  pub failed_twice :
      (msg : Fields) (idx : ℕ) (x : Err) (s : Session W)
      → let key = session_key host (as_text (get (codes "session_id") msg)) s in
        let message = as_text (get (codes "message") msg) in
        let logged = append host (codes "user") message key s in
        let asked = ask host key message logged.1 in
        text_eq (as_text (get (codes "type") msg)) (codes "chat") ≡ true
        → logged.0 ≡ ok idx
        → asked.0.1 ≡ err x
        → let e = error_frame (host.error_text x) in
          (handle_message msg s).0 ≡ emit_all (passed_on host asked.0.0) ++ e ∷ e ∷ []
  unfolding handle_message handle_chat_message close_chat emit_all
  failed_twice msg idx x s c h f =
      let session = as_text (get (codes "session_id") msg) in
      let message = as_text (get (codes "message") msg) in
      let key = session_key host session s in
      let asked = ask host key message (append host (codes "user") message key s).1 in
      let fails = stream-fails session message idx x s h f in
      let e = error_frame (host.error_text x) in
      let closed : List Event × Outcome ChatResponse → List Frame =
        λ r. emit_all r.0 ++ close_chat r.1 ∷ [] in
      let end =
        ap closed fails
        ∙ ap (λ l. l ++ e ∷ [])
            (emit_all-append (passed_on host asked.0.0) (failure (host.error_text x) ∷ []))
        ∙ append_assoc (emit_all (passed_on host asked.0.0)) (e ∷ []) (e ∷ []) in
      rw (handle_message, c) end
