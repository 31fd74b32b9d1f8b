-- ===== src/Runtime/Log/History.antt =====
-- What is read back from the log.
use cloudeagent.Prelude.{
  ℕ, zero, suc, subst, ◌-◌, ◌≡◌, refl, sym, ap, ◌∙◌, false, Option, none, some, ◌&&◌, List, [], ◌∷◌,
  ◌++◌, map, Text, text_eq, length, drop, leb, ltb, arith, if◌then◌else◌, Bool-cases, inl, inr,
}
use mathlib.Core.List.{reverse, reverse-append, reverse-reverse, append_assoc}
use cloudeagent.Types.{Err, ok}
use cloudeagent.Runtime.Log.{
  Entry, Disk, Json, WriteError, not_opened, cut_short, write_line, content_of, read_log,
  count_newlines, message_index, append_log, is_space, skip_space, trim, split_lines,
  filter_session, decode_lines, last_lines, history_of, history,
}

-- The first byte is no blank, and there is one.
abbrev pub StartsSolid : Text → Type 0
StartsSolid [] = ⊥
StartsSolid (c ∷ s) = is_space c ≡ false

-- JSON of one line, that neither begins nor ends with a blank, as an object does, and is read back,
-- for the entries that JSON carries unchanged: `encoding/json` replaces what is not UTF-8 in a text.
pub record JsonLaws (json : Json) (Carried : Entry → Type 0) : Type 0 where
  pub plain : (e : Entry) → Carried e → count_newlines (json.encode e) ≡ 0
  pub starts : (e : Entry) → Carried e → StartsSolid (json.encode e)
  pub ends : (e : Entry) → Carried e → StartsSolid (reverse (json.encode e))
  pub decode-encode : (e : Entry) → Carried e → json.decode (json.encode e) ≡ some e

abbrev pub Each : (Entry → Type 0) → List Entry → Type 0
Each P [] = Unit
Each P (e ∷ es) = P e × Each P es

-- The file with these messages.
unfoldable pub log_of : Json → List Entry → Text
log_of json [] = []
log_of json (e ∷ es) = json.encode e ++ (10 ∷ log_of json es)

-- The last messages of a session, or of all sessions; 0 stands for no limit.
pub of_session : Text → List Entry → List Entry
of_session sid [] = []
of_session sid (e ∷ es) =
    let rest = of_session sid es in if text_eq e.session_id sid then e ∷ rest else rest

pub recent : ℕ → Text → List Entry → List Entry
unfolding of_session
recent n sid es =
    let own = if leb (length sid) 0 then es else of_session sid es in
    if ltb 0 n && ltb n (length own) then drop (length own - n) own else own

split-line :
    (s rest : Text) → count_newlines s ≡ 0 → split_lines (s ++ (10 ∷ rest)) ≡ s ∷ split_lines rest
unfolding split_lines count_newlines
split-line [] rest h = refl
split-line (c ∷ s) rest h = ground (arith, split-line s rest)

split-plain : (s : Text) → count_newlines s ≡ 0 → split_lines s ≡ s ∷ []
unfolding split_lines count_newlines
split-plain [] h = refl
split-plain (c ∷ s) h = ground (arith, split-plain s)

skip_space-solid : (s : Text) → StartsSolid s → skip_space s ≡ s
unfolding skip_space
skip_space-solid [] h = elim h [ ]
skip_space-solid (c ∷ s) h = rw h

solid-append : (s t : Text) → StartsSolid s → StartsSolid (s ++ t)
solid-append [] t h = elim h [ ]
solid-append (c ∷ s) t h = h

solid-full : (s : Text) → StartsSolid s → leb (length s) 0 ≡ false
solid-full [] h = elim h [ ]
solid-full (c ∷ s) h = ground arith

trim-newline : (s : Text) → StartsSolid s → StartsSolid (reverse s) → trim (s ++ 10 ∷ []) ≡ s
unfolding trim skip_space
trim-newline s h k =
    rw
      (
        skip_space-solid (s ++ 10 ∷ []) (solid-append s (10 ∷ []) h),
        reverse-append,
        skip_space-solid (reverse s) k,
      )
      (reverse-reverse s)

length-map : {A B : Type 0} (f : A → B) (xs : List A) → length (map f xs) ≡ length xs
length-map f [] = refl
length-map f (x ∷ xs) = ap suc (length-map f xs)

drop-map : {A B : Type 0} (f : A → B) (n : ℕ) (xs : List A) → drop n (map f xs) ≡ map f (drop n xs)
drop-map f zero xs = refl
drop-map f (suc n) [] = refl
drop-map f (suc n) (x ∷ xs) = drop-map f n xs

Each-snoc :
    (P : Entry → Type 0) (es : List Entry) (e : Entry) → Each P es → P e → Each P (es ++ e ∷ [])
Each-snoc P [] e h k = (k, tt)
Each-snoc P (f ∷ es) e h k = (h.0, Each-snoc P es e h.1 k)

Each-drop : (P : Entry → Type 0) (n : ℕ) (es : List Entry) → Each P es → Each P (drop n es)
Each-drop P zero es h = h
Each-drop P (suc n) [] h = h
Each-drop P (suc n) (e ∷ es) h = Each-drop P n es h.1

Each-of_session :
    (P : Entry → Type 0) (sid : Text) (es : List Entry) → Each P es → Each P (of_session sid es)
unfolding of_session
Each-of_session P sid [] h = h
Each-of_session P sid (e ∷ es) h = elim (Bool-cases (text_eq e.session_id sid)) [
  | inl c ↦ rw (of_session, c) (h.0, Each-of_session P sid es h.1)
  | inr c ↦ rw (of_session, c) (Each-of_session P sid es h.1)
]

module _ (json : Json) (Carried : Entry → Type 0) (laws : JsonLaws json Carried) where
  -- The file without the newline at its end.
  joined : Entry → List Entry → Text
  joined e [] = json.encode e
  joined e (f ∷ es) = json.encode e ++ (10 ∷ joined f es)

  log_of-joined : (e : Entry) (es : List Entry) → log_of json (e ∷ es) ≡ joined e es ++ 10 ∷ []
  unfolding log_of joined
  log_of-joined e [] = refl
  log_of-joined e (f ∷ es) =
      ap (λ t. json.encode e ++ (10 ∷ t)) (log_of-joined f es)
      ∙ sym (append_assoc (json.encode e) (10 ∷ joined f es) (10 ∷ []))

  joined-starts : (e : Entry) (es : List Entry) → Carried e → StartsSolid (joined e es)
  unfolding joined
  joined-starts e [] h = laws.starts e h
  joined-starts e (f ∷ es) h = solid-append (json.encode e) _ (laws.starts e h)

  joined-ends :
      (e : Entry) (es : List Entry) → Each Carried (e ∷ es) → StartsSolid (reverse (joined e es))
  unfolding joined
  joined-ends e [] h = laws.ends e h.0
  joined-ends e (f ∷ es) h =
      let j = joined f es in
      subst StartsSolid (sym (reverse-append (json.encode e) (10 ∷ j))) (
        solid-append (reverse (10 ∷ j)) (reverse (json.encode e)) (
          subst StartsSolid (sym (reverse-append (10 ∷ []) j))
            (solid-append (reverse j) (10 ∷ []) (joined-ends f es h.1))))

  split-joined :
      (e : Entry) (es : List Entry)
      → Each Carried (e ∷ es)
      → split_lines (joined e es) ≡ map json.encode (e ∷ es)
  unfolding joined
  split-joined e [] h = split-plain (json.encode e) (laws.plain e h.0)
  split-joined e (f ∷ es) h =
      split-line (json.encode e) (joined f es) (laws.plain e h.0)
      ∙ ap (λ ls. json.encode e ∷ ls) (split-joined f es h.1)

  decode-map : (es : List Entry) → Each Carried es → decode_lines json (map json.encode es) ≡ es
  unfolding decode_lines
  decode-map [] h = refl
  decode-map (e ∷ es) h = rw (laws.decode-encode e h.0) (ap (λ l. e ∷ l) (decode-map es h.1))

  filter-map :
      (sid : Text) (es : List Entry)
      → Each Carried es
      → filter_session json sid (map json.encode es) ≡ map json.encode (of_session sid es)
  unfolding filter_session of_session
  filter-map sid [] h = refl
  filter-map sid (e ∷ es) h = ground (arith, laws.decode-encode e h.0, filter-map sid es h.1)

  last_lines-map :
      (n : ℕ) (es : List Entry)
      → Each Carried es
      → decode_lines json (last_lines json n (map json.encode es))
        ≡ (if ltb 0 n && ltb n (length es) then drop (length es - n) es else es)
  last_lines-map n es h =
      rw (length-map json.encode es) (elim (Bool-cases (ltb 0 n && ltb n (length es))) [
        | inl c ↦ rw c (
            ap (λ ls. decode_lines json ls) (drop-map json.encode (length es - n) es)
            ∙ decode-map (drop (length es - n) es) (Each-drop Carried (length es - n) es h))
        | inr c ↦ rw c (decode-map es h)
      ])

  joined-full : (e : Entry) (es : List Entry) → Carried e → leb (length (joined e es)) 0 ≡ false
  joined-full e es h = solid-full (joined e es) (joined-starts e es h)

  history_of-joined :
      (n : ℕ) (sid : Text) (e : Entry) (es : List Entry)
      → Each Carried (e ∷ es)
      → history_of json n sid (joined e es ++ 10 ∷ []) ≡ recent n sid (e ∷ es)
  unfolding history_of recent
  history_of-joined n sid e es h =
      rw
        (
          trim-newline (joined e es) (joined-starts e es h.0) (joined-ends e es h),
          joined-full e es h.0,
          split-joined e es h,
        )
        (elim (Bool-cases (leb (length sid) 0)) [
          | inl c ↦ rw c (last_lines-map n (e ∷ es) h)
          | inr c ↦ rw c (
              rw (filter-map sid (e ∷ es) h) (
                last_lines-map n (of_session sid (e ∷ es))
                  (Each-of_session Carried sid (e ∷ es) h)))
        ])

  history_of-log :
      (n : ℕ) (sid : Text) (es : List Entry)
      → Each Carried es
      → history_of json n sid (log_of json es) ≡ recent n sid es
  unfolding history_of recent log_of trim skip_space of_session
  history_of-log n sid [] h = ground arith
  history_of-log n sid (e ∷ es) h = rw (log_of-joined e es) (history_of-joined n sid e es h)

  log_of-snoc :
      (es : List Entry) (e : Entry)
      → log_of json (es ++ e ∷ []) ≡ log_of json es ++ (json.encode e ++ 10 ∷ [])
  unfolding log_of
  log_of-snoc [] e = refl
  log_of-snoc (f ∷ es) e =
      ap (λ t. json.encode f ++ (10 ∷ t)) (log_of-snoc es e)
      ∙ sym (append_assoc (json.encode f) (10 ∷ log_of json es) (json.encode e ++ 10 ∷ []))

  history-appended :
      (entry : Entry) (log : Option Text) (r : Option Err) (w : Option WriteError) (es : List Entry)
      (i n : ℕ) (sid : Text)
      → Each Carried es
      → Carried (record entry { index = i })
      → content_of log ≡ log_of json es
      → let d : Disk = record { log = log; read_error = r; write_error = w } in
        (append_log json entry d).0 ≡ ok i
        → history json n sid (append_log json entry d).1
          ≡ ok (recent n sid (es ++ record entry { index = i } ∷ []))
  unfolding append_log write_line message_index read_log history
  history-appended entry log (some x) w es i n sid c k at h = absurd (cc)
  history-appended entry log none (some (not_opened x)) es i n sid c k at h = absurd (cc)
  history-appended entry log none (some (cut_short m x)) es i n sid c k at h = absurd (cc)
  history-appended entry log none none es i n sid c k at h =
      let m = suc (count_newlines (content_of log)) in
      let same : m ≡ i = cc in
      let own = record entry { index = m } in
      let grown : content_of log ++ (json.encode own ++ 10 ∷ []) ≡ log_of json (es ++ own ∷ []) =
        ap (λ t. t ++ (json.encode own ++ 10 ∷ [])) at ∙ sym (log_of-snoc es own) in
      let carried = subst (λ x. Carried (record entry { index = x })) (sym same) k in
      subst
        (λ x.
          ok (history_of json n sid (content_of log ++ (json.encode own ++ 10 ∷ [])))
          ≡ ok (recent n sid (es ++ record entry { index = x } ∷ [])))
        same
        (ap ok (
          ap (history_of json n sid) grown
          ∙ history_of-log n sid (es ++ own ∷ []) (Each-snoc Carried es own c carried)))

  -- Where JSON keeps its promises for the entries that it carries unchanged, the log holds such
  -- messages `es`, and the new message is one, too: once `appendLog` has returned the index `i` of
  -- it, with no other call in between, `History` reads back those messages and then this one with
  -- this index, cut down to the session that is asked for, if one is, and then to the last `n`, if
  -- there is a limit.
  pub history-append_log :
      (entry : Entry) (d : Disk) (es : List Entry) (i : ℕ) (n : ℕ) (sid : Text)
      → Each Carried es
      → Carried (record entry { index = i })
      → content_of d.log ≡ log_of json es
      → (append_log json entry d).0 ≡ ok i
      → history json n sid (append_log json entry d).1
        ≡ ok (recent n sid (es ++ record entry { index = i } ∷ []))
  history-append_log entry d es i n sid c k at h =
      history-appended entry d.log d.read_error d.write_error es i n sid c k at h
