-- ===== src/Types.antt =====
-- cloud-backend/pkg/db/types.go: the records that the control plane stores and passes round, and
-- the error values of the packages above it. A time is a number of nanoseconds.
pub mod Masking
use cloudeagent.Prelude.{
  ℕ, ◌-◌, Option, List, Bool, true, false, Text, codes, length, leb, drop, ◌++◌, if◌then◌else◌, ◌≡◌,
  refl, ◌⊎◌, inl, inr,
}

-- The values of `error`, one constructor for each place that makes one; `external` is an error of
-- code that is called from outside this repository, and `panicked` a panic, which ends a request.
pub data Err : Type 0 where
  invalid_user_id not_found not_running no_gateway not_cached cache_expired not_ready : Err
  unknown_sandbox unauthorized panicked : Err
  external : ℕ → Err
  suspend_failed hot_load_failed delete_failed : Err → Err

pub data Outcome {ℓ} (A : Type ℓ) : Type ℓ where
  ok : A → Outcome A
  err : Err → Outcome A

pub Outcome-cases {ℓ} :
    {A : Type ℓ} (o : Outcome A) → ((a : A) × (o ≡ ok a)) ⊎ ((e : Err) × (o ≡ err e))
Outcome-cases (ok a) = inl (a, refl)
Outcome-cases (err e) = inr (e, refl)

pub data Status : Type 0 where
  status_none running suspended failed : Status

abbrev pub is_running : Status → Bool
is_running running = true
is_running status_none = false
is_running suspended = false
is_running failed = false

-- `error` is `none` for the empty message, and otherwise the error whose message is stored.
pub record Instance : Type 0 where
  pub user_id : Text
  pub instance_name : Text
  pub status : Status
  pub workspace : Text
  pub endpoint : Text
  pub port : ℕ
  pub sandbox_id : Text
  pub error : Option Err
  pub last_active_at : ℕ
  pub ws_connections : ℕ
  pub created_at : ℕ
  pub updated_at : ℕ

pub record ModelConfig : Type 0 where
  pub base_url : Text
  pub api_key : Text
  pub model : Text
  pub models : List Text
  pub provider : Text

pub record ChatResponse : Type 0 where
  pub reply : Text
  pub model : Text
  pub provider : Text
  pub mock : Bool
  pub message_index : ℕ
  pub session_id : Text

-- The strings that the review worker stores as a status.
pub data ReviewStatus : Type 0 where
  pending in_progress review_failed completed : ReviewStatus

pub record Finding : Type 0 where
  pub file : Text
  pub line : ℕ
  pub level : Text
  pub message : Text

pub record Review : Type 0 where
  pub id : Text
  pub user_id : Text
  pub repo : Text
  pub pr_number : ℕ
  pub status : ReviewStatus
  pub model : Text
  pub findings : List Finding
  pub error : Text
  pub created_at : ℕ
  pub updated_at : ℕ

pub record VcsToken : Type 0 where
  pub user_id : Text
  pub platform : Text
  pub token : Text

-- `cp.APIKey[len(cp.APIKey)-4:]`, for a key of four bytes or more.
abbrev pub last_four : Text → Text
last_four k = drop (length k - 4) k

mask_key : Text → Text
mask_key k =
    if leb (length k) 0
    then k
    else if leb 4 (length k)
    then codes "sk-****" ++ last_four k
    else codes "****"

-- `(*ModelConfig).Masked`
pub masked : ModelConfig → ModelConfig
unfolding mask_key
masked c = record c { api_key = mask_key c.api_key }
