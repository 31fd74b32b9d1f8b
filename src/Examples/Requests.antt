-- ===== src/Examples/Requests.antt =====
-- Requests to the control plane, and a review.
use cloudeagent.Prelude.{ℕ, ◌≡◌, refl, List, [], ◌∷◌, ◌++◌, Text, codes, text_eq, if◌then◌else◌}
use cloudeagent.Types.{ok, err, not_found, status_none, Finding}
use cloudeagent.Db.Memory
use cloudeagent.Db.Memory.{new_memory, memory_ops}
use cloudeagent.Db.Memory.Laws.{memory_laws}
use cloudeagent.Manager.Result.{phase}
use cloudeagent.Manager.Control
use cloudeagent.Server.Handlers.{handle_delete_user}
use cloudeagent.Server.Auth.{Authenticator, derived_token, request_token}
use cloudeagent.Api.Bearer.{bearer_token, trim_space, trim_prefix, strip, drop_blanks}
use cloudeagent.Server.Handlers.Requests.{session, page, serve, unauthorized, serve_stranger}
use cloudeagent.Server.Handlers.Outcomes.{deleting, handle, handle_reaches}
use cloudeagent.Reviews.{memory_reviews, scanned, new_review, submit, run}
use cloudeagent.Reviews.Progress.{ended, submit-run}
use cloudeagent.Examples.Setup.{alice, mock_config, env, start, start-IsKeyed}

abbrev mark : Text → Text
mark s = codes "#" ++ s

abbrev auth : Authenticator
auth = record { namespace = codes "dev"; admin_token = codes "root" }

abbrev new_id : ℕ → Text × ℕ
new_id w = (codes "rev_1", w)

serve_stranger_example :
    serve mark auth env memory_reviews new_id (codes "Bearer guess") [] (session alice) start
    ≡ (page unauthorized, start)
unfolding bearer_token trim_space trim_prefix strip drop_blanks request_token derived_token
serve_stranger_example =
    serve_stranger mark auth env memory_reviews new_id (codes "Bearer guess") [] (session alice)
      start (λ e. cc) (λ e. cc) (λ e. cc, λ u e. cc) (λ e. cc, λ u e. cc)

deleted-ok : (handle env deleting alice start).0.code ≡ 200
unfolding handle handle_delete_user Control.delete Control.unregister_gateway Control.drop_cached
    Memory.delete_instance
deleted-ok = refl

handle_reaches_example :
    phase (memory_ops.get_instance alice (handle env deleting alice start).1.store) ≡ status_none
handle_reaches_example =
    handle_reaches env memory_laws alice deleting start (start-IsKeyed alice) deleted-ok

abbrev found : List Finding
found =
    record { file = codes "a.go"; line = 3; level = codes "warning"; message = codes "TODO: x" }
    ∷ []

submit-run_example :
    Memory.get_review alice (codes "r1") (
      run memory_reviews alice
        (codes "r1")
        (scanned found)
        []
        2
        3
        (submit memory_reviews (codes "r1") alice (codes "/src") 7 (ok mock_config) 1 new_memory).1)
    ≡ (if text_eq (codes "r1") (codes "r1")
        then (if text_eq alice alice
            then ok (
                ended
                  (scanned found)
                  []
                  3
                  (new_review (codes "r1") alice (codes "/src") 7 (ok mock_config) 1))
            else err not_found)
        else Memory.get_review alice (codes "r1") new_memory)
submit-run_example =
    submit-run (codes "r1") alice (codes "/src") 7 (ok mock_config) 1 2 3 (scanned found) []
      new_memory alice (codes "r1")
