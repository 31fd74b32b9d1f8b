-- ===== src/Scanner/Cut.antt =====
-- What a line that is too long does to the lines after it.
use cloudeagent.Prelude.{
  ℕ, ◌≤◌, ◌≡◌, ◌≢◌, refl, ap, ◌∙◌, List, [], ◌∷◌, ◌++◌, Text, All, length, ◌==◌, arith, Bool-cases,
  inl, inr,
}
use cloudeagent.Scanner.{raw_lines, tokens, scan_lines}

-- A byte within a line.
abbrev pub IsInner : ℕ → Type 0
IsInner c = c ≢ 10

raw_lines_first :
    (s : Text) → (line : Text) × (lines : List Text) × (raw_lines (s ++ 10 ∷ []) ≡ line ∷ lines)
unfolding raw_lines
raw_lines_first [] = ([], [], refl)
raw_lines_first (c ∷ s) =
    let (line, lines, e) = raw_lines_first s in
    elim (Bool-cases (c == 10)) [
      | inl b ↦ ([], raw_lines (s ++ 10 ∷ []), rw b refl)
      | inr b ↦ (c ∷ line, lines, rw (b, e) refl)
    ]

raw_lines-append : (s t : Text) → raw_lines (s ++ 10 ∷ t) ≡ raw_lines (s ++ 10 ∷ []) ++ raw_lines t
unfolding raw_lines
raw_lines-append [] t = refl
raw_lines-append (c ∷ s) t =
    let (line, lines, e) = raw_lines_first s in
    elim (Bool-cases (c == 10)) [
      | inl b ↦ rw (b, raw_lines-append s t) refl
      | inr b ↦ rw (b, raw_lines-append s t, e) refl
    ]

raw_lines-line :
    (line t : Text) → All IsInner line → raw_lines (line ++ 10 ∷ t) ≡ line ∷ raw_lines t
unfolding raw_lines
raw_lines-line [] t h = refl
raw_lines-line (c ∷ line) t h = ground (arith, raw_lines-line line t h.1)

tokens-long :
    (size : ℕ) (before : List Text) (line : Text) (after : List Text)
    → size ≤ length line
    → tokens size (before ++ line ∷ after) ≡ tokens size before
unfolding tokens
tokens-long size [] line after h = ground arith
tokens-long size (x ∷ before) line after h = ground (arith, tokens-long size before line after h)

-- A line that does not fit the buffer ends the scan: whatever follows it, the lines before it are
-- all that is given.
pub scan_lines-long :
    (size : ℕ) (before line after : Text)
    → All IsInner line
    → size ≤ length line
    → scan_lines size (before ++ 10 ∷ (line ++ 10 ∷ after)) ≡ scan_lines size (before ++ 10 ∷ [])
unfolding scan_lines
scan_lines-long size before line after inner long =
    ap (tokens size) (
      raw_lines-append before (line ++ 10 ∷ after)
      ∙ ap (λ l. raw_lines (before ++ 10 ∷ []) ++ l) (raw_lines-line line after inner))
    ∙ tokens-long size (raw_lines (before ++ 10 ∷ [])) line (raw_lines after) long
