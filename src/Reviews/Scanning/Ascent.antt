-- ===== src/Reviews/Scanning/Ascent.antt =====
-- The order and the bounds of the lines of findings.
use cloudeagent.Prelude.{
  ℕ, suc, ◌+◌, ◌≤◌, ◌<◌, subst, sym, inl, inr, some, List, [], ◌∷◌, Text, arith, ltb, length,
  Bool-cases, Option-cases,
}
use cloudeagent.Types.{Finding}
use cloudeagent.Reviews.Pattern.{find_submatch}
use cloudeagent.Reviews.Scanning.Found.{find_lines_untagged, find_lines_tagged}
use cloudeagent.Scanner.{scan_lines}
use cloudeagent.Scanner.Lengths.{length-scan_lines}
use cloudeagent.Reviews.Scanning.{max_line, max_size, relative, is_text_file, find_lines, scan_file}

-- The lines ascend strictly from above `low`, and none is above `high`.
abbrev pub Ascending : ℕ → ℕ → List Finding → Type 0
Ascending low high [] = low ≤ high
Ascending low high (f ∷ fs) = (low < f.line) × Ascending f.line high fs

module _ (trim_space : Text → Text) where
  Ascending-low :
      (low mid high : ℕ) (fs : List Finding)
      → low ≤ mid
      → Ascending mid high fs
      → Ascending low high fs
  Ascending-low low mid high [] h a = omega arith
  Ascending-low low mid high (f ∷ fs) h a = (omega (arith, a.0), a.1)

  find_lines-Ascending :
      (path : Text) (k high : ℕ) (lines : List Text)
      → k + length lines ≤ high
      → Ascending k high (find_lines trim_space path k lines)
  unfolding find_lines
  find_lines-Ascending path k high [] h = omega arith
  find_lines-Ascending path k high (line ∷ lines) h =
      let step : Ascending (suc k) high (find_lines trim_space path (suc k) lines) =
        find_lines-Ascending path (suc k) high lines (omega arith) in
      elim (Option-cases (find_submatch line)) [
        | inl e ↦
            subst (Ascending k high) (sym (find_lines_untagged trim_space path k line lines e)) (
              Ascending-low k (suc k) high (find_lines trim_space path (suc k) lines) (omega arith)
                step)
        | inr (m, e) ↦
            subst (Ascending k high) (sym (find_lines_tagged trim_space path k line lines m e))
              (omega arith, step)
      ]

  -- The findings of one file stand in the order of their lines, at most one for a line, all of them
  -- from line 1 to the last line that the scanner gives, of which there are no more than the file
  -- has bytes.
  pub scan_file-Ascending :
      (path : List Text) (size : ℕ) (content : Text)
      → Ascending 0
          (length (scan_lines max_line content))
          (scan_file trim_space path size (some content))
        × (length (scan_lines max_line content) ≤ length content)
  unfolding scan_file
  scan_file-Ascending path size content = (
    elim (Bool-cases (ltb max_size size)) [
      | inl e ↦ rw e (omega arith)
      | inr e ↦ elim (Bool-cases (is_text_file content)) [
        | inl t ↦
            rw (e, t)
              (find_lines-Ascending (relative path) 0 (length (scan_lines max_line content))
                (scan_lines max_line content) (omega arith))
        | inr t ↦ rw (e, t) (omega arith)
      ]
    ],
    length-scan_lines max_line content,
  )
