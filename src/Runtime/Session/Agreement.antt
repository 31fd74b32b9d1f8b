-- ===== src/Runtime/Session/Agreement.antt =====
-- The two ways to chat with an instance, over REST and over a stream.
use cloudeagent.Prelude.{
  ℕ, suc, ◌≡◌, refl, ap, ◌∙◌, false, List, Text, codes, text_eq, arith, inl, inr,
}
use cloudeagent.Types.{Outcome, ok, err, ChatResponse, Outcome-cases}
use cloudeagent.Runtime.Log.{message_index, append_log}
use cloudeagent.Runtime.Session.{
  Event, Host, Session, session_key, append, fall_back, ask, respond, finish_chat, finish_stream,
  chat, chat_stream,
}

module _ {W : Type 0} (host : Host W) where
  finish-agree :
      (hint key : Text) (idx : ℕ) (events : List Event) (out : Outcome Text) (s : Session W)
      → text_eq s.eng_name (codes "qwenpaw") ≡ false
      → let streamed = finish_stream host hint key idx events out s in
        finish_chat host hint key idx out s ≡ (streamed.0.1, streamed.1)
  unfolding finish_chat finish_stream
  finish-agree hint key idx events (err e) s h = refl
  finish-agree hint key idx events (ok reply) s h = ground arith

  ask-name :
      (key message : Text) (s : Session W)
      → (ask host key message s).1.eng_name ≡ (fall_back host s).eng_name
  unfolding ask
  ask-name key message s = refl

  append-name :
      (role content key : Text) (s : Session W)
      → (fall_back host (append host role content key s).1).eng_name ≡ (fall_back host s).eng_name
  unfolding append fall_back
  append-name role content key s = ground arith

  -- Where the engine that answers is not `qwenpaw`, a chat over REST and one over a stream give the
  -- same reply or the same error, and leave the same session: the same log, engine and world.
  pub chat_stream_agrees :
      (hint message : Text) (s : Session W)
      → text_eq (fall_back host s).eng_name (codes "qwenpaw") ≡ false
      → let streamed = chat_stream host hint message s in
        chat host hint message s ≡ (streamed.0.1, streamed.1)
  unfolding chat chat_stream
  chat_stream_agrees hint message s h =
      let key = session_key host hint s in
      let s1 = (append host (codes "user") message key s).1 in
      elim (Outcome-cases (append host (codes "user") message key s).0) [
        | inr (x, e) ↦ rw (chat, chat_stream, e) refl
        | inl (idx, e) ↦
            rw (chat, chat_stream, e)
              (finish-agree hint key idx (ask host key message s1).0.0 (ask host key message s1).0.1
                (ask host key message s1).1
                (ap (λ n. text_eq n (codes "qwenpaw")) (append-name (codes "user") message key s)
                  ∙ h))
      ]

  -- A chat that succeeds replies with the index of its message in the log: one more than the number
  -- of messages before.
  pub chat_index :
      (hint message : Text) (s : Session W) (n : ℕ) (resp : ChatResponse)
      → message_index s.disk ≡ ok n
      → (chat host hint message s).0 ≡ ok resp
      → resp.message_index ≡ suc n
  unfolding chat append append_log finish_chat respond
  chat_index hint message s n resp at h = ground arith
