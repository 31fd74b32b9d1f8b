-- ===== src/Engine/Chunks.antt =====
-- `chunkText` of cloud-backend/pkg/agentengine/mock/engine.go: a text, as its runes, in pieces.
use cloudeagent.Prelude.{
  ℕ, zero, suc, ◌≤◌, ◌<◌, ◌≡◌, refl, List, [], ◌∷◌, Text, length, take, drop, ltb, All, length-take,
  length-drop, take-append-drop, arith, if◌then◌else◌,
}
use mathlib.Core.List.{flatten}

-- The `for` loop, with fuel: one round for each piece.
chunk_loop : ℕ → ℕ → Text → List Text
chunk_loop fuel n [] = []
chunk_loop zero n (r ∷ runes) = []
chunk_loop (suc fuel) n (r ∷ runes) =
    let s = r ∷ runes in
    let n' = if ltb (length s) n then length s else n in take n' s ∷ chunk_loop fuel n' (drop n' s)

pub chunk_text : Text → ℕ → List Text
unfolding chunk_loop
chunk_text s n = chunk_loop (length s) n s

abbrev pub IsPiece : ℕ → Text → Type 0
IsPiece n s = (1 ≤ length s) × (length s ≤ n)

take-IsPiece :
    (k m : ℕ) (s : Text) (rest : List Text)
    → 1 ≤ k
    → k ≤ m
    → 1 ≤ length s
    → (flatten rest ≡ drop k s) × All (IsPiece m) rest
    → (flatten (take k s ∷ rest) ≡ s) × All (IsPiece m) (take k s ∷ rest)
unfolding flatten
take-IsPiece k m s rest pos le ne done = (
  rw (done.0, take-append-drop k s) refl,
  ((omega (arith, length-take k s), omega (arith, length-take k s)), done.1),
)

chunk_loop_pieces :
    (fuel n m : ℕ) (s : Text)
    → 0 < n
    → n ≤ m
    → length s ≤ fuel
    → (flatten (chunk_loop fuel n s) ≡ s) × All (IsPiece m) (chunk_loop fuel n s)
unfolding chunk_loop flatten
chunk_loop_pieces fuel n m [] pos le h = (refl, tt)
chunk_loop_pieces zero n m (r ∷ runes) pos le h = absurd (omega arith)
chunk_loop_pieces (suc fuel) n m (r ∷ runes) pos le h =
    let s = r ∷ runes in
    let n' = if ltb (length s) n then length s else n in
    let pos' : 1 ≤ n' = ground arith in
    let le' : n' ≤ m = ground arith in
    take-IsPiece n' m s (chunk_loop fuel n' (drop n' s)) pos' le' (omega arith)
      (chunk_loop_pieces fuel n' m (drop n' s) pos' le' (omega (arith, length-drop n' s)))

-- For a size that is positive the pieces are the text, in order and with nothing lost, and each has
-- at least one rune and at most that many: the fuel, the number of runes, is enough.
pub chunk_text_pieces :
    (s : Text) (n : ℕ) → 0 < n → (flatten (chunk_text s n) ≡ s) × All (IsPiece n) (chunk_text s n)
unfolding chunk_text
chunk_text_pieces s n pos = chunk_loop_pieces (length s) n n s pos (omega arith) (omega arith)
