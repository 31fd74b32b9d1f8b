-- ===== src/Reviews/Pattern.antt =====
-- `reviewPattern` of cloud-backend/pkg/services/reviews.go, over the bytes of a line: a word TODO,
-- FIXME, HACK or XXX in letters of either case, a colon or not, and the rest after spaces. The sign
-- for kelvin is the one other character that folds to a letter of these words.
use cloudeagent.Prelude.{
  ℕ, ◌+◌, Bool, false, ◌&&◌, ◌||◌, Option, none, some, [], ◌∷◌, ◌++◌, Text, codes, leb, ◌==◌,
  if◌then◌else◌,
}

-- What `\b` counts as part of a word.
abbrev is_word : ℕ → Bool
is_word c =
    (leb b'a' c && leb c b'z')
    || (leb b'A' c && leb c b'Z')
    || (leb b'0' c && leb c b'9')
    || c == b'_'

abbrev kelvin : Text
kelvin = 226 ∷ 132 ∷ 170 ∷ []

-- The rest after a prefix.
strip_prefix : Text → Text → Option Text
strip_prefix [] s = some s
strip_prefix (c ∷ p) [] = none
strip_prefix (c ∷ p) (d ∷ s) = if c == d then strip_prefix p s else none

-- A capital letter, in either case: what it matched, in capitals, and the rest.
letter : ℕ → Text → Option (Text × Text)
unfolding strip_prefix
letter k [] = none
letter k (c ∷ s) =
    if c == k || c == k + 32
    then some (k ∷ [], s)
    else if k == b'K'
    then elim (strip_prefix kelvin (c ∷ s)) [ none ↦ none | some rest ↦ some (kelvin, rest) ]
    else none

abbrev joined : Text → Option (Text × Text) → Option (Text × Text)
joined m none = none
joined m (some (w, rest)) = some (m ++ w, rest)

word : Text → Text → Option (Text × Text)
unfolding letter
word [] s = some ([], s)
word (k ∷ ks) s = elim (letter k s) [ none ↦ none | some (m, rest) ↦ joined m (word ks rest) ]

-- Whether the first, or the last, byte is part of a word.
abbrev starts_word : Text → Bool
starts_word [] = false
starts_word (c ∷ s) = is_word c

abbrev ends_word : Text → Bool
ends_word [] = false
ends_word (c ∷ []) = is_word c
ends_word (c ∷ d ∷ s) = ends_word (d ∷ s)

-- `\b` between what was matched and what follows.
abbrev bounded : Option (Text × Text) → Option (Text × Text)
bounded none = none
bounded (some (w, rest)) =
    if ends_word w
    then (if starts_word rest then none else some (w, rest))
    else (if starts_word rest then some (w, rest) else none)

abbrev first_of : Option (Text × Text) → Option (Text × Text) → Option (Text × Text)
first_of none o = o
first_of (some m) o = some m

tag : Text → Option (Text × Text)
unfolding word
tag s = first_of (bounded (word (codes "TODO") s)) (
    first_of (bounded (word (codes "FIXME") s))
      (first_of (bounded (word (codes "HACK") s)) (bounded (word (codes "XXX") s))))

-- `\s*`
drop_spaces : Text → Text
drop_spaces [] = []
drop_spaces (c ∷ s) =
    let rest = drop_spaces s in
    if c == 9 || c == 10 || c == 12 || c == 13 || c == b' ' then rest else c ∷ s

-- `[:：]?`
drop_colon : Text → Text
unfolding strip_prefix
drop_colon [] = []
drop_colon (c ∷ s) =
    if c == b':'
    then s
    else elim (strip_prefix (239 ∷ 188 ∷ 154 ∷ []) (c ∷ s)) [ none ↦ c ∷ s | some rest ↦ rest ]

-- The leftmost match from a position on, given whether a byte of a word stands before it: the tag
-- in capitals, and the second group.
find_from : Bool → Text → Option (Text × Text)
unfolding tag drop_spaces drop_colon
find_from in_word [] = none
find_from in_word (c ∷ s) =
    let later = find_from (is_word c) s in
    if in_word then later else elim (tag (c ∷ s)) [
      | none ↦ later
      | some (w, rest) ↦ some (w, drop_spaces (drop_colon rest))
    ]

unfoldable pub find_submatch : Text → Option (Text × Text)
unfolding find_from
find_submatch line = find_from false line
