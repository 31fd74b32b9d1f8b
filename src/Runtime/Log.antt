-- ===== src/Runtime/Log.antt =====
-- The log of messages in cloud-backend/pkg/agentruntime/session.go: the file conversation.jsonl, one
-- line for each message. The JSON encoding and the format of times are parameters. The disk says whether
-- reading and writing fail, and how much of a line a write that fails leaves in the file. `appendLog`
-- takes no lock: that it is one step here is a call that no other comes in between of.
pub mod Index
pub mod History
use cloudeagent.Prelude.{
  ℕ, suc, ◌-◌, Bool, true, false, Option, none, some, ◌||◌, ◌&&◌, List, [], ◌∷◌, ◌++◌, Text, ◌==◌,
  text_eq, length, take, drop, leb, ltb, if◌then◌else◌,
}
use mathlib.Core.List.{reverse}
use cloudeagent.Types.{Err, Outcome, ok, err}

pub record Entry : Type 0 where
  pub ts : Text
  pub role : Text
  pub content : Text
  pub model : Text
  pub index : ℕ
  pub session_id : Text

-- The file cannot be opened, or only so many bytes are written.
pub data WriteError : Type 0 where
  not_opened : Err → WriteError
  cut_short : ℕ → Err → WriteError

pub record Disk : Type 0 where
  pub log : Option Text
  pub read_error : Option Err
  pub write_error : Option WriteError

pub record Json : Type 0 where
  pub encode : Entry → Text
  pub decode : Text → Option Entry
  -- `Format(time.RFC3339)`, of a time in nanoseconds
  pub format_time : ℕ → Text

-- `os.ReadFile`, where a missing file is the empty text: all its readers do the same for both.
abbrev pub content_of : Option Text → Text
content_of none = []
content_of (some s) = s

unfoldable pub read_log : Disk → Outcome Text
read_log d = elim d.read_error [ some e ↦ err e | none ↦ ok (content_of d.log) ]

-- `strings.Count(s, "\n")`
unfoldable pub count_newlines : Text → ℕ
count_newlines [] = 0
count_newlines (c ∷ s) = let n = count_newlines s in if c == 10 then suc n else n

unfoldable pub message_index : Disk → Outcome ℕ
unfolding read_log count_newlines
message_index d = elim (read_log d) [ err e ↦ err e | ok s ↦ ok (count_newlines s) ]

unfoldable pub write_line : Text → Disk → Option Err × Disk
write_line line d = elim d.write_error [
  | some (not_opened e) ↦ (some e, d)
  | some (cut_short n e) ↦ (some e, record d { log = some (content_of d.log ++ take n line) })
  | none ↦ (none, record d { log = some (content_of d.log ++ line) })
]

-- The entry is given without its index.
unfoldable pub append_log : Json → Entry → Disk → Outcome ℕ × Disk
unfolding write_line
append_log json entry d = elim (message_index d) [
  | err e ↦ (err e, d)
  | ok n ↦
      let (e, d') = write_line (json.encode (record entry { index = suc n }) ++ 10 ∷ []) d in
      elim e [ some x ↦ (err x, d') | none ↦ (ok (suc n), d') ]
]

-- `strings.TrimSpace`, of text whose blanks are ASCII
abbrev pub is_space : ℕ → Bool
is_space c = c == 32 || (leb 9 c && leb c 13)

pub skip_space : Text → Text
skip_space [] = []
skip_space (c ∷ s) = let rest = skip_space s in if is_space c then rest else c ∷ s

pub trim : Text → Text
unfolding skip_space
trim s = reverse (skip_space (reverse (skip_space s)))

abbrev pub onto_first : ℕ → List Text → List Text
onto_first c [] = (c ∷ []) ∷ []
onto_first c (line ∷ lines) = (c ∷ line) ∷ lines

-- `strings.Split(s, "\n")`
pub split_lines : Text → List Text
split_lines [] = [] ∷ []
split_lines (c ∷ s) =
    let lines = split_lines s in if c == 10 then [] ∷ lines else onto_first c lines

-- `json.Unmarshal(…) == nil && entry["session_id"] == sessionID`
abbrev pub in_session : Text → Option Entry → Bool
in_session sid none = false
in_session sid (some entry) = text_eq entry.session_id sid

module _ (json : Json) where
  pub filter_session : Text → List Text → List Text
  filter_session sid [] = []
  filter_session sid (line ∷ lines) =
      let rest = filter_session sid lines in
      if in_session sid (json.decode line) then line ∷ rest else rest

  abbrev entry_onto : Option Entry → List Entry → List Entry
  entry_onto none es = es
  entry_onto (some e) es = e ∷ es

  pub decode_lines : List Text → List Entry
  decode_lines [] = []
  decode_lines (line ∷ lines) = entry_onto (json.decode line) (decode_lines lines)

  abbrev pub last_lines : ℕ → List Text → List Text
  last_lines n lines =
      if ltb 0 n && ltb n (length lines) then drop (length lines - n) lines else lines

  pub history_of : ℕ → Text → Text → List Entry
  unfolding trim split_lines filter_session decode_lines
  history_of n sid text =
      let lines = split_lines (trim text) in
      if leb (length (trim text)) 0
      then []
      else decode_lines
          (last_lines n (if leb (length sid) 0 then lines else filter_session sid lines))

  -- `History`; a nil slice and an empty one are the same.
  pub history : ℕ → Text → Disk → Outcome (List Entry)
  unfolding read_log
  history n sid d = elim (read_log d) [ err e ↦ err e | ok text ↦ ok (history_of n sid text) ]
