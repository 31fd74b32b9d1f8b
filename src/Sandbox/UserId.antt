-- ===== src/Sandbox/UserId.antt =====
-- `ValidateUserID` of cloud-backend/pkg/sandboxprovider/provider.go. The pattern is written out as
-- the test that it stands for: a letter or digit, then letters, digits, dots, underscores, dashes.
use cloudeagent.Prelude.{
  ℕ, ◌≤◌, ◌≡◌, ◌≢◌, Bool, true, false, ◌&&◌, ◌||◌, not, Option, none, some, [], ◌∷◌, Text, length,
  All, leb, ltb, ◌==◌, arith, if◌then◌else◌,
}
use cloudeagent.Types.{Err, invalid_user_id}

unfoldable pub is_alnum : ℕ → Bool
is_alnum c = leb b'a' c && leb c b'z' || (leb b'A' c && leb c b'Z' || leb b'0' c && leb c b'9')

unfoldable pub is_id_byte : ℕ → Bool
unfolding is_alnum
is_id_byte c = is_alnum c || (c == b'.' || (c == b'_' || c == b'-'))

unfoldable pub all_id_bytes : Text → Bool
all_id_bytes [] = true
all_id_bytes (c ∷ s) = is_id_byte c && all_id_bytes s

-- `userIDPattern.MatchString`
unfoldable pub matches_user_id : Text → Bool
unfolding is_id_byte all_id_bytes
matches_user_id [] = false
matches_user_id (c ∷ s) = is_alnum c && all_id_bytes s

unfoldable pub validate_user_id : Text → Option Err
unfolding matches_user_id
validate_user_id user_id =
    if not (matches_user_id user_id) || ltb 63 (length user_id) then some invalid_user_id else none

-- What an accepted id may hold: at most 63 bytes, none of them a path separator, a colon, a bar, a
-- blank or a NUL.
abbrev pub IsPlain : ℕ → Type 0
IsPlain c = (c ≢ b'/') × (c ≢ b':') × (c ≢ b'|') × (c ≢ b' ') × (c ≢ b'\\') × (c ≢ 0)

all_id_bytes-IsPlain : (s : Text) → all_id_bytes s ≡ true → All IsPlain s
unfolding all_id_bytes is_id_byte
all_id_bytes-IsPlain [] h = tt
all_id_bytes-IsPlain (c ∷ s) h = ground (arith, all_id_bytes-IsPlain s)

-- The first byte, and 0 for the empty text.
abbrev pub first_byte : Text → ℕ
first_byte [] = 0
first_byte (c ∷ s) = c

-- A user id that is accepted has 1 to 63 bytes, holds no byte with a meaning in a path, in a
-- store's key or in the text of a token (a separator, a colon, a bar, a blank, a backslash, a NUL),
-- and does not begin with a dot or a dash.
pub validate_user_id_safe :
    (s : Text)
    → validate_user_id s ≡ none
    → (1 ≤ length s)
      × (length s ≤ 63)
      × All IsPlain s
      × (first_byte s ≢ b'.')
      × (first_byte s ≢ b'-')
unfolding validate_user_id
validate_user_id_safe [] h = cc
validate_user_id_safe (c ∷ s) h = ground (arith, all_id_bytes-IsPlain s)
