-- ===== src/Types/Masking.antt =====
-- What `Masked` of cloud-backend/pkg/db/types.go shows of a key.
use cloudeagent.Prelude.{
  ◌-◌, ◌≡◌, refl, [], ◌∷◌, ◌++◌, Text, codes, length, drop, length-append, arith,
}
use cloudeagent.Types.{ModelConfig, masked, mask_key, last_four}

drop-append : (p s : Text) → drop (length p) (p ++ s) ≡ s
drop-append [] s = refl
drop-append (x ∷ p) s = drop-append p s

last_four-append : (p s : Text) → length s ≡ 4 → last_four (p ++ s) ≡ s
last_four-append p s h =
    let e : length (p ++ s) - 4 ≡ length p = omega (arith, length-append p s) in
    rw e (drop-append p s)

mask_key-append : (p s : Text) → length s ≡ 4 → mask_key (p ++ s) ≡ codes "sk-****" ++ s
unfolding mask_key
mask_key-append p s h = ground (arith, length-append p s, last_four-append p s)

-- Of a key of four bytes or more the masked form is `sk-****` and its last four bytes, so two keys
-- that end in the same four bytes have one masked form, whatever stands before these; the other
-- fields stay.
pub masked_hides :
    (c : ModelConfig) (p q s : Text)
    → length s ≡ 4
    → ((masked (record c { api_key = p ++ s })).api_key ≡ codes "sk-****" ++ s)
      × (masked (record c { api_key = p ++ s }) ≡ masked (record c { api_key = q ++ s }))
      × ((masked (record c { api_key = p ++ s })).base_url ≡ c.base_url)
unfolding masked
masked_hides c p q s h =
    (mask_key-append p s h, rw (mask_key-append p s h, mask_key-append q s h) refl, refl)
