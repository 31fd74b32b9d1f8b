-- ===== src/Examples/Encoding.antt =====
-- Encodings: texts that stand after their lengths, and the lines of conversation.jsonl as
-- `encoding/json` writes them, with the keys in their order, for two messages to be read back.
use cloudeagent.Prelude.{
  ℕ, ◌+◌, ◌-◌, ◌==◌, ◌≡◌, ◌⊎◌, inl, inr, refl, Option, none, some, [], ◌∷◌, ◌++◌, Text, codes,
  length, take, drop, arith, text_eq, if◌then◌else◌,
}
use mathlib.Core.List.{reverse, reverse-append}
use cloudeagent.Runtime.Log.{Entry, Json, count_newlines}
use cloudeagent.Runtime.Log.Index.{count_newlines-append}
use cloudeagent.Runtime.Log.History.{log_of, JsonLaws, StartsSolid}

unfoldable pub shift : Text → Text
shift [] = []
shift (c ∷ s) = (c + 100) ∷ shift s

unshift : Text → Text
unshift [] = []
unshift (c ∷ s) = (c - 100) ∷ unshift s

unfoldable pub field : Text → Text → Text
unfolding shift
field s rest = (length s + 100) ∷ (shift s ++ rest)

unfoldable pub read_field : Text → Text × Text
unfolding unshift
read_field [] = ([], [])
read_field (n ∷ s) = (unshift (take (n - 100) s), drop (n - 100) s)

take-shift : (s rest : Text) → unshift (take (length s) (shift s ++ rest)) ≡ s
unfolding shift unshift
take-shift [] rest = refl
take-shift (c ∷ s) rest = ground (arith, take-shift s rest)

drop-shift : (s rest : Text) → drop (length s) (shift s ++ rest) ≡ rest
unfolding shift
drop-shift [] rest = refl
drop-shift (c ∷ s) rest = drop-shift s rest

pub read_field-field : (s rest : Text) → read_field (field s rest) ≡ (s, rest)
unfolding read_field field
read_field-field s rest =
    let e : (length s + 100) - 100 ≡ length s = omega arith in
    rw (e, take-shift s rest, drop-shift s rest) refl

escaped : Text → Text
escaped [] = []
escaped (c ∷ s) =
    let rest = escaped s in
    if c == 10
    then 92 ∷ 110 ∷ rest
    else if c == 34
    then 92 ∷ 34 ∷ rest
    else if c == 92
    then 92 ∷ 92 ∷ rest
    else c ∷ rest

quoted : Text → Text
unfolding escaped
quoted s = 34 ∷ (escaped s ++ 34 ∷ [])

-- One digit; the indices here are below 10.
number : ℕ → Text
number n = (48 + n) ∷ []

member : Text → Text → Text → Text
unfolding quoted
member key value rest = (quoted key ++ 58 ∷ []) ++ (value ++ (44 ∷ rest))

members : Entry → Text
unfolding member quoted number
members e = member (codes "content") (quoted e.content) (
    member (codes "index") (number e.index) (
      member (codes "model") (quoted e.model) (
        member (codes "role") (quoted e.role) (
          member (codes "session_id") (quoted e.session_id)
            ((quoted (codes "ts") ++ 58 ∷ []) ++ quoted e.ts)))))

pub encode : Entry → Text
unfolding members
encode e = (123 ∷ members e) ++ 125 ∷ []

abbrev pub question : Entry
question = record {
  ts = codes "2025-06-01T08:00:00Z";
  role = codes "user";
  content = codes "say \"hi\"";
  model = codes "mock-gpt-4o";
  index = 1;
  session_id = codes "default";
}

abbrev pub reply : Entry
reply = record question { role = codes "assistant"; content = codes "hi"; index = 2 }

pub decode : Text → Option Entry
unfolding encode
decode line =
    if text_eq line (encode question)
    then some question
    else if text_eq line (encode reply)
    then some reply
    else none

abbrev pub json : Json
json = record { encode = encode; decode = decode; format_time = λ t. codes "2025-06-01T08:00:00Z" }

escaped-plain : (s : Text) → count_newlines (escaped s) ≡ 0
unfolding escaped count_newlines
escaped-plain [] = refl
escaped-plain (c ∷ s) = ground (arith, escaped-plain s)

append-plain :
    (s t : Text) → count_newlines s ≡ 0 → count_newlines t ≡ 0 → count_newlines (s ++ t) ≡ 0
append-plain s t h k = ground (arith, count_newlines-append s t)

quoted-plain : (s : Text) → count_newlines (quoted s) ≡ 0
unfolding quoted count_newlines
quoted-plain s = append-plain (escaped s) (34 ∷ []) (escaped-plain s) refl

member-plain :
    (key value rest : Text)
    → count_newlines value ≡ 0
    → count_newlines rest ≡ 0
    → count_newlines (member key value rest) ≡ 0
unfolding member count_newlines
member-plain key value rest h k =
    append-plain (quoted key ++ 58 ∷ []) (value ++ (44 ∷ rest))
      (append-plain (quoted key) (58 ∷ []) (quoted-plain key) refl)
      (append-plain value (44 ∷ rest) h k)

number-plain : (n : ℕ) → count_newlines (number n) ≡ 0
unfolding number count_newlines
number-plain n = ground arith

pub encode-plain : (e : Entry) → count_newlines (encode e) ≡ 0
unfolding encode members count_newlines
encode-plain e =
    let ts = (quoted (codes "ts") ++ 58 ∷ []) ++ quoted e.ts in
    let sid = member (codes "session_id") (quoted e.session_id) ts in
    let role = member (codes "role") (quoted e.role) sid in
    let model = member (codes "model") (quoted e.model) role in
    let index = member (codes "index") (number e.index) model in
    let p0 =
      append-plain (quoted (codes "ts") ++ 58 ∷ []) (quoted e.ts)
        (append-plain (quoted (codes "ts")) (58 ∷ []) (quoted-plain (codes "ts")) refl)
        (quoted-plain e.ts) in
    let p1 =
      member-plain (codes "session_id") (quoted e.session_id) ts (quoted-plain e.session_id) p0 in
    let p2 = member-plain (codes "role") (quoted e.role) sid (quoted-plain e.role) p1 in
    let p3 = member-plain (codes "model") (quoted e.model) role (quoted-plain e.model) p2 in
    let p4 = member-plain (codes "index") (number e.index) model (number-plain e.index) p3 in
    append-plain (members e) (125 ∷ [])
      (member-plain (codes "content") (quoted e.content) index (quoted-plain e.content) p4) refl

pub count_newlines-question : count_newlines (log_of json (question ∷ [])) ≡ 1
unfolding count_newlines encode log_of
count_newlines-question = refl

-- The messages that are read back.
abbrev pub Carried : Entry → Type 0
Carried e = (e ≡ question) ⊎ (e ≡ reply)

decode-encode : (e : Entry) → Carried e → decode (encode e) ≡ some e
unfolding decode text_eq
decode-encode e (inl h) = rw h refl
decode-encode e (inr h) = rw h refl

ends : (e : Entry) → StartsSolid (reverse (encode e))
unfolding encode
ends e = rw (reverse-append) (ground arith)

pub json-JsonLaws : JsonLaws json Carried
unfolding encode
json-JsonLaws = record {
  plain = λ e h. encode-plain e;
  starts = λ e h. ground arith;
  ends = λ e h. ends e;
  decode-encode = decode-encode;
}
