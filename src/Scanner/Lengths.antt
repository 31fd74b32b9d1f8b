-- ===== src/Scanner/Lengths.antt =====
-- How many lines a scanner gives.
use cloudeagent.Prelude.{ℕ, suc, ◌≤◌, List, [], ◌∷◌, Text, length, arith}
use cloudeagent.Scanner.{add_to_first, raw_lines, tokens, scan_lines}

length-add_to_first :
    (c : ℕ) (lines : List Text) → length (add_to_first c lines) ≤ suc (length lines)
length-add_to_first c [] = omega arith
length-add_to_first c (line ∷ lines) = omega arith

length-raw_lines : (s : Text) → length (raw_lines s) ≤ length s
unfolding raw_lines
length-raw_lines [] = omega arith
length-raw_lines (c ∷ s) = ground (arith, length-raw_lines s, length-add_to_first c (raw_lines s))

length-tokens : (size : ℕ) (lines : List Text) → length (tokens size lines) ≤ length lines
unfolding tokens
length-tokens size [] = omega arith
length-tokens size (line ∷ lines) = ground (arith, length-tokens size lines)

pub length-scan_lines : (size : ℕ) (s : Text) → length (scan_lines size s) ≤ length s
unfolding scan_lines
length-scan_lines size s = omega (arith, length-tokens size (raw_lines s), length-raw_lines s)
