-- ===== src/Examples/Reading.antt =====
-- The output of a process with a line of 16 MiB, and a request that waits.
use cloudeagent.Prelude.{
  ℕ, zero, suc, ◌≡◌, refl, true, false, none, [], ◌∷◌, ◌++◌, Text, All, codes, length, arith,
}
use cloudeagent.Scanner.Cut.{IsInner}
use cloudeagent.Engine.Acp.Reading.{max_line, read_loop, read_loop_deaf}
use cloudeagent.Examples.Kernel.{sprint, answer, asking}
use cloudeagent.Engine.Json.{num}
use mathlib.Core.Option.{some}

repeated : ℕ → Text
repeated zero = []
repeated (suc n) = b'a' ∷ repeated n

length-repeated : (n : ℕ) → length (repeated n) ≡ n
unfolding repeated
length-repeated zero = refl
length-repeated (suc n) = omega (arith, length-repeated n)

repeated-IsInner : (n : ℕ) → All IsInner (repeated n)
unfolding repeated
repeated-IsInner zero = tt
repeated-IsInner (suc n) = (omega arith, repeated-IsInner n)

read_loop_deaf_example :
    read_loop
      (λ s. s)
      (λ s. some (answer (num 1)))
      sprint
      none
      false
      true
      (codes "{}" ++ 10 ∷ (repeated max_line ++ 10 ∷ codes "{}"))
      asking
    ≡ read_loop
        (λ s. s)
        (λ s. some (answer (num 1)))
        sprint
        none
        false
        true
        (codes "{}" ++ 10 ∷ [])
        asking
read_loop_deaf_example =
    read_loop_deaf (λ s. s) (λ s. some (answer (num 1))) sprint none false true (codes "{}")
      (repeated max_line) (codes "{}") asking (repeated-IsInner max_line)
      (omega (arith, length-repeated max_line))
