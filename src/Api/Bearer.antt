-- ===== src/Api/Bearer.antt =====
-- `BearerToken`, `trimPrefix` and `trimSpace` of cloud-backend/pkg/api/middleware.go. The two loops
-- of `trimSpace` move a start and an end over the bytes; here they drop bytes from either side.
use cloudeagent.Prelude.{
  ℕ, ◌≡◌, refl, Bool, false, ◌||◌, [], ◌∷◌, ◌++◌, Text, codes, ◌==◌, arith, if◌then◌else◌,
}
use mathlib.Core.List.{reverse, reverse-reverse}

abbrev pub is_blank : ℕ → Bool
is_blank c = c == b' ' || c == 9

-- `for start < len(s) && blank(s[start]) { start++ }`
unfoldable pub drop_blanks : Text → Text
drop_blanks [] = []
drop_blanks (c ∷ s) = let rest = drop_blanks s in if is_blank c then rest else c ∷ s

unfoldable pub trim_space : Text → Text
unfolding drop_blanks
trim_space s = reverse (drop_blanks (reverse (drop_blanks s)))

-- `s[len(prefix):]` where `prefix` is one, and `s` elsewhere.
unfoldable pub strip : Text → Text → Text → Text
strip [] s whole = s
strip (c ∷ p) [] whole = whole
strip (c ∷ p) (d ∷ s) whole = if c == d then strip p s whole else whole

unfoldable pub trim_prefix : Text → Text → Text
unfolding strip
trim_prefix s prefix = strip prefix s s

unfoldable pub bearer_token : Text → Text
bearer_token header = trim_space (trim_prefix header (codes "Bearer "))

-- The first byte is no blank, and there is one; nor the last.
abbrev pub StartsInked : Text → Type 0
StartsInked [] = ⊥
StartsInked (c ∷ s) = is_blank c ≡ false

drop_blanks_inked : (s : Text) → StartsInked s → drop_blanks s ≡ s
unfolding drop_blanks
drop_blanks_inked (c ∷ s) h = rw h
drop_blanks_inked [] h = elim h [ ]

trim_space_inked : (s : Text) → StartsInked s → StartsInked (reverse s) → trim_space s ≡ s
unfolding trim_space
trim_space_inked s h k =
    rw (drop_blanks_inked s h, drop_blanks_inked (reverse s) k) (reverse-reverse s)

strip-append : (p s whole : Text) → strip p (p ++ s) whole ≡ s
unfolding strip
strip-append [] s whole = refl
strip-append (c ∷ p) s whole = ground (arith, strip-append p s whole)

-- From the header `Bearer t` the token `t` is read back, if it neither begins nor ends with a blank
-- and is not empty.
pub bearer_token_round :
    (t : Text) → StartsInked t → StartsInked (reverse t) → bearer_token (codes "Bearer " ++ t) ≡ t
unfolding bearer_token trim_prefix
bearer_token_round t h k =
    rw (strip-append (codes "Bearer ") t (codes "Bearer " ++ t)) (trim_space_inked t h k)
