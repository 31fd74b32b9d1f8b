-- ===== src/Scanner.antt =====
-- `bufio.Scanner`, as cloud-backend/pkg/services/reviews.go and
-- cloud-backend/pkg/agentengine/qwenpaw/acp.go use it: the lines of a text, for a buffer of a given
-- size, which a line and its newline must fit.
pub mod Cut
pub mod Lengths
use cloudeagent.Prelude.{ℕ, List, [], ◌∷◌, Text, ◌==◌, ltb, length, if◌then◌else◌}

abbrev pub add_to_first : ℕ → List Text → List Text
add_to_first c [] = (c ∷ []) ∷ []
add_to_first c (line ∷ lines) = (c ∷ line) ∷ lines

-- The bytes between newlines; nothing follows the last newline.
unfoldable pub raw_lines : Text → List Text
raw_lines [] = []
raw_lines (c ∷ s) = let lines = raw_lines s in if c == 10 then [] ∷ lines else add_to_first c lines

unfoldable pub drop_return : Text → Text
drop_return [] = []
drop_return (c ∷ []) = if c == 13 then [] else c ∷ []
drop_return (c ∷ d ∷ s) = c ∷ drop_return (d ∷ s)

-- The tokens of the scanner, which stops at a line that is too long.
unfoldable pub tokens : ℕ → List Text → List Text
unfolding drop_return
tokens size [] = []
tokens size (line ∷ lines) =
    let rest = tokens size lines in if ltb (length line) size then drop_return line ∷ rest else []

unfoldable pub scan_lines : ℕ → Text → List Text
unfolding raw_lines tokens
scan_lines size content = tokens size (raw_lines content)
