-- ===== src/Sandbox/Health.antt =====
-- `WaitHealth` of cloud-backend/pkg/sandboxprovider/health.go: polling an instance until it is
-- ready. The HTTP client and the clock are operations of the world.
use cloudeagent.Prelude.{
  ℕ, ◌≡◌, ◌∙◌, ◌⊎◌, inl, inr, Bool, true, false, Option, none, [], ◌∷◌, ◌++◌, ◌&&◌, ◌||◌, Text,
  codes, ◌==◌, arith, Bool-cases,
}
use cloudeagent.Types.{Err}
use cloudeagent.Sandbox.Polling.{Verdict, healthy, retry, broken, ClockOps, poll}
use cloudeagent.Sandbox.Polling.Laws.{poll_seen}

-- What one GET comes to: a request that cannot be built, a failed exchange, or a status.
pub data ProbeResult : Type 0 where
  bad_request : Err → ProbeResult
  unreachable : ProbeResult
  answered : ℕ → ProbeResult

pub record ProbeOps (W : Type 0) : Type 0 where
  pub clock : ClockOps W
  pub open clock use *
  pub get_health : Text → W → ProbeResult × W

unfoldable pub starts_with : Text → Text → Bool
starts_with [] s = true
starts_with (c ∷ p) [] = false
starts_with (c ∷ p) (d ∷ s) = c == d && starts_with p s

-- `strings.Contains(s, p)`
unfoldable pub contains : Text → Text → Bool
unfolding starts_with
contains p [] = starts_with p []
contains p (c ∷ s) = starts_with p (c ∷ s) || contains p s

unfoldable pub verdict : ProbeResult → Verdict
verdict (bad_request e) = broken e
verdict unreachable = retry
verdict (answered code) = elim (code == 200) [ true ↦ healthy | false ↦ retry ]

-- 300 ms
abbrev pub poll_pause : ℕ
poll_pause = 300_000_000

module _ {W : Type 0} (ops : ProbeOps W) where
  unfoldable pub check_health : Text → W → Verdict × W
  unfolding verdict
  check_health url w = let (r, w') = ops.get_health url w in (verdict r, w')

  unfoldable pub wait_health : Text → ℕ → W → Option Err × W
  wait_health endpoint timeout w = elim (contains (codes "/sandboxes/") endpoint) [
    | true ↦ (none, w)
    | false ↦ poll ops.clock (check_health (endpoint ++ codes "/health")) poll_pause timeout w
  ]

verdict_healthy : (r : ProbeResult) → verdict r ≡ healthy → r ≡ answered 200
unfolding verdict
verdict_healthy (answered code) h = ground arith
verdict_healthy (bad_request e) h = cc
verdict_healthy unreachable h = cc

module _ {W : Type 0} (ops : ProbeOps W) where
  -- A GET of the page is answered with status 200, and leaves this world.
  abbrev pub Answers : Text → W → Type 0
  Answers url last =
      (w : W) × ((ops.get_health url w).0 ≡ answered 200) × ((ops.get_health url w).1 ≡ last)

  -- Success of `WaitHealth` means that the endpoint is one of the sandbox gateway, or that its last
  -- step was a GET of the health page that was answered with status 200.
  pub wait_health_sound :
      (endpoint : Text) (timeout : ℕ) (w : W)
      → (wait_health ops endpoint timeout w).0 ≡ none
      → (contains (codes "/sandboxes/") endpoint ≡ true)
        ⊎ Answers (endpoint ++ codes "/health") (wait_health ops endpoint timeout w).1
  unfolding wait_health check_health
  wait_health_sound endpoint timeout w h =
      let url = endpoint ++ codes "/health" in
      elim (Bool-cases (contains (codes "/sandboxes/") endpoint)) [
        | inl e ↦ inl e
        | inr e ↦
            let seen =
              poll_seen ops.clock (check_health ops url) poll_pause timeout w (ground arith) in
            inr (seen.0, verdict_healthy _ seen.1, seen.2 ∙ ground arith)
      ]
