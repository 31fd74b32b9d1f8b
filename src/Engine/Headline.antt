-- ===== src/Engine/Headline.antt =====
-- `headlineLineFilter` of cloud-backend/pkg/agentengine/qwenpaw/headline.go: a reply that arrives in
-- pieces is passed on line by line, without the headline lines. The regular expression that finds
-- these is a parameter; `emit` adds to the list of what was passed on.
pub mod Streaming
use cloudeagent.Prelude.{
  ℕ, Bool, true, false, List, [], ◌∷◌, ◌++◌, Text, ◌==◌, length, leb, if◌then◌else◌,
}

pub record Filter : Type 0 where
  pub buffer : Text
  pub emitted : List Text

abbrev pub new_filter : Filter
new_filter = record { buffer = []; emitted = [] }

abbrev add_byte : ℕ → List Text × Text → List Text × Text
add_byte c ([], rest) = ([], c ∷ rest)
add_byte c (line ∷ lines, rest) = ((c ∷ line) ∷ lines, rest)

-- The lines of a text that end in a newline, and the rest: what `Write` cuts off round by round.
pub cut_lines : Text → List Text × Text
cut_lines [] = ([], [])
cut_lines (c ∷ s) =
    let cut = cut_lines s in if c == 10 then ((c ∷ []) ∷ cut.0, cut.1) else add_byte c cut

module _ (is_headline_line : Text → Bool) where
  -- One round of the loop of `Write`, with a whole line.
  complete_line : Text → Filter → Filter
  complete_line line f =
      let complete = f.buffer ++ line in
      if is_headline_line complete
      then record f { buffer = [] }
      else record { buffer = []; emitted = f.emitted ++ complete ∷ [] }

  write_lines : List Text → Filter → Filter
  unfolding complete_line
  write_lines [] f = f
  write_lines (line ∷ lines) f = write_lines lines (complete_line line f)

  pub write : Text → Filter → Filter
  write s f =
      let cut = cut_lines s in
      let f' = write_lines cut.0 f in record f' { buffer = f'.buffer ++ cut.1 }

  pub flush : Filter → Filter
  flush f =
      if leb (length f.buffer) 0
      then f
      else if is_headline_line f.buffer
      then record f { buffer = [] }
      else record { buffer = []; emitted = f.emitted ++ f.buffer ∷ [] }

  -- One `Write` for each piece.
  pub write_all : List Text → Filter → Filter
  write_all [] f = f
  write_all (s ∷ pieces) f = write_all pieces (write s f)
