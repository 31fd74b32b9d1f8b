-- ===== src/Engine/Headline/Streaming.antt =====
-- What the pieces of a reply do to the filter of headline.go.
use cloudeagent.Prelude.{
  ℕ, ◌≡◌, refl, sym, ap, ◌∙◌, inl, inr, Bool, List, [], ◌∷◌, ◌++◌, Text, ◌==◌, Bool-cases,
  if◌then◌else◌,
}
use mathlib.Core.List.{append_assoc, append-nil, flatten}
use cloudeagent.Engine.Headline.{
  Filter, cut_lines, add_byte, complete_line, write_lines, write, write_all,
}

module _ (is_headline : Text → Bool) where
  -- What one byte does.
  push : ℕ → Filter → Filter
  push c f =
      if c == 10
      then complete_line is_headline (c ∷ []) f
      else record f { buffer = f.buffer ++ c ∷ [] }

  -- The lines that are cut off, then the rest.
  finish : List Text → Text → Filter → Filter
  finish lines rest f =
      let f' = write_lines is_headline lines f in record f' { buffer = f'.buffer ++ rest }

  grow : ℕ → Filter → Filter
  grow c f = record f { buffer = f.buffer ++ c ∷ [] }

  complete_line-grow :
      (c : ℕ) (line : Text) (f : Filter)
      → complete_line is_headline (c ∷ line) f ≡ complete_line is_headline line (grow c f)
  unfolding complete_line grow
  complete_line-grow c line f = rw (append_assoc f.buffer (c ∷ []) line) refl

  finish-add :
      (c : ℕ) (lines : List Text) (rest : Text) (f : Filter)
      → finish (add_byte c (lines, rest)).0 (add_byte c (lines, rest)).1 f
        ≡ finish lines rest (grow c f)
  unfolding finish grow write_lines
  finish-add c [] rest f = rw (append_assoc f.buffer (c ∷ []) rest) refl
  finish-add c (line ∷ lines) rest f = ap (λ g. finish lines rest g) (complete_line-grow c line f)

  write-push :
      (c : ℕ) (s : Text) (f : Filter) → write is_headline (c ∷ s) f ≡ write is_headline s (push c f)
  unfolding write cut_lines push write_lines grow finish
  write-push c s f = elim (Bool-cases (c == 10)) [
    | inl e ↦ rw e refl
    | inr e ↦ rw e (finish-add c (cut_lines s).0 (cut_lines s).1 f)
  ]

  pub write-none : (f : Filter) → write is_headline [] f ≡ f
  unfolding write cut_lines write_lines
  write-none f = rw append-nil refl

  pub write-append :
      (s t : Text) (f : Filter)
      → write is_headline (s ++ t) f ≡ write is_headline t (write is_headline s f)
  write-append [] t f = rw write-none refl
  write-append (c ∷ s) t f =
      write-push c (s ++ t) f
      ∙ write-append s t (push c f)
      ∙ ap (λ g. write is_headline t g) (sym (write-push c s f))

  -- However a reply is cut into pieces, the filter ends in the same state, with the same lines passed
  -- on, as when the whole reply comes at once.
  pub write_all_pieces :
      (pieces : List Text) (f : Filter)
      → write_all is_headline pieces f ≡ write is_headline (flatten pieces) f
  unfolding write_all flatten
  write_all_pieces [] f = sym (write-none f)
  write_all_pieces (s ∷ pieces) f =
      write_all_pieces pieces (write is_headline s f) ∙ sym (write-append s (flatten pieces) f)
