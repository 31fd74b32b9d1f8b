-- ===== src/Engine/Acp/Replies.antt =====
-- What becomes of the requests of the client in acp.go.
use cloudeagent.Prelude.{
  ℕ, suc, ◌+◌, ◌≤◌, ◌<◌, ◌≡◌, Bool, Option, some, List, [], ◌∷◌, Text, Assoc, lookup, insert,
  delete, ◌==◌, arith, if◌then◌else◌,
}
use cloudeagent.Engine.Acp.{
  Acp, new_acp, Printing, RpcMessage, begin_request, write_locked, give_up, deliver, notify,
  fail_all, exited, kill_locked, stop, spawned, initialized, closed,
}
use cloudeagent.Engine.Acp.Permission.{PermissionRequest, dispatch}
use cloudeagent.Engine.Acp.Steps.{
  Event, begins, gives_up, receives, notifies, exits, kills, stops, spawns, initializes, closes,
  step, run,
}

-- How often the request waits in the map, and how often something was put into its channel.
unfoldable pub waits : ℕ → Assoc ℕ → ℕ
waits n [] = 0
waits n ((k, id) ∷ m) = let rest = waits n m in if id == n then suc rest else rest

pub replies_to : ℕ → List (ℕ × RpcMessage) → ℕ
replies_to n [] = 0
replies_to n ((id, msg) ∷ out) = let rest = replies_to n out in if id == n then suc rest else rest

-- Every request waits, or has one message in its channel, or neither; a request that was not made
-- has neither.
abbrev pub Settled : Acp → Type 0
Settled a =
    (n : ℕ)
    → (waits n a.pending + replies_to n a.delivered ≤ 1)
      × (a.next_id < n → waits n a.pending + replies_to n a.delivered ≡ 0)

waits-insert :
    (n id : ℕ) (k : Text) (m : Assoc ℕ)
    → waits n (insert k id m) ≤ waits n m + (if id == n then 1 else 0)
unfolding waits insert
waits-insert n id k [] = ground arith
waits-insert n id k ((j, v) ∷ m) = ground (arith, waits-insert n id k m)

waits-delete : (n : ℕ) (k : Text) (m : Assoc ℕ) → waits n (delete k m) ≤ waits n m
unfolding waits delete
waits-delete n k [] = omega arith
waits-delete n k ((j, v) ∷ m) = ground (arith, waits-delete n k m)

waits-lookup :
    (n : ℕ) (k : Text) (m : Assoc ℕ) → lookup k m ≡ some n → waits n (delete k m) + 1 ≤ waits n m
unfolding waits delete lookup
waits-lookup n k [] h = absurd (cc)
waits-lookup n k ((j, v) ∷ m) h = ground (arith, waits-lookup n k m, waits-delete n k m)

replies_to-fail_all :
    (n : ℕ) (m : Assoc ℕ) (out : List (ℕ × RpcMessage))
    → replies_to n (fail_all m out) ≡ waits n m + replies_to n out
unfolding replies_to fail_all waits
replies_to-fail_all n [] out = omega arith
replies_to-fail_all n ((k, id) ∷ m) out = ground (arith, replies_to-fail_all n m out)

module _ (sprint : Printing) where
  begin_request-Settled :
      (wrote : Bool) (a : Acp) → Settled a → Settled (begin_request sprint wrote a).1
  unfolding begin_request write_locked
  begin_request-Settled wrote a h n =
      let id = suc a.next_id in
      let key = sprint.of_int id in
      ground
        (arith, h n, waits-insert n id key a.pending, waits-delete n key (insert key id a.pending))

  deliver-Settled : (msg : RpcMessage) (a : Acp) → Settled a → Settled (deliver sprint msg a)
  unfolding deliver replies_to
  deliver-Settled msg a h n =
      let key = sprint.of_json msg.id in
      ground (arith, h n, waits-delete n key a.pending, waits-lookup n key a.pending)

  give_up-Settled : (id : ℕ) (a : Acp) → Settled a → Settled (give_up sprint id a)
  unfolding give_up
  give_up-Settled id a h n = ground (arith, h n, waits-delete n (sprint.of_int id) a.pending)

exited-Settled : (p : ℕ) (a : Acp) → Settled a → Settled (exited p a)
unfolding exited waits
exited-Settled p a h n = ground (arith, h n, replies_to-fail_all n a.pending a.delivered)

module _ (sprint : Printing) (policy : Option (PermissionRequest → Text)) (observed : Bool) where
  dispatch-Settled :
      (wrote : Bool) (msg : RpcMessage) (a : Acp)
      → Settled a
      → Settled (dispatch sprint policy observed wrote msg a).1
  unfolding dispatch write_locked
  dispatch-Settled wrote msg a h n = ground (arith, h n, deliver-Settled sprint msg a h n)

  step-Settled : (e : Event) (a : Acp) → Settled a → Settled (step sprint policy observed e a)
  unfolding step notify write_locked kill_locked stop spawned initialized closed
  step-Settled (begins wrote) a h n = begin_request-Settled sprint wrote a h n
  step-Settled (gives_up id) a h n = give_up-Settled sprint id a h n
  step-Settled (receives wrote msg) a h n = dispatch-Settled wrote msg a h n
  step-Settled (notifies wrote) a h n = ground (arith, h n)
  step-Settled (exits p) a h n = exited-Settled p a h n
  step-Settled kills a h n = ground (arith, h n)
  step-Settled stops a h n = ground (arith, h n)
  step-Settled (spawns p dir now) a h n = h n
  step-Settled (initializes cfg resp) a h n = ground (arith, h n)
  step-Settled (closes sid) a h n = h n

  run-Settled :
      (events : List Event) (a : Acp) → Settled a → Settled (run sprint policy observed events a)
  unfolding run
  run-Settled [] a h = h
  run-Settled (e ∷ events) a h =
      run-Settled events (step sprint policy observed e a) (step-Settled e a h)

  new_acp-Settled : Settled new_acp
  unfolding waits replies_to
  new_acp-Settled n = (omega arith, λ h. omega arith)

  -- Whatever steps of whatever goroutines come in whatever order, from a new client: no channel of a
  -- request gets a second message, so that no sender ever blocks on one; a request that has its
  -- message waits no more; and there is none for a request that was not made.
  pub run_replies_once :
      (events : List Event) (n : ℕ)
      → let a = run sprint policy observed events new_acp in
        (replies_to n a.delivered ≤ 1)
        × (waits n a.pending + replies_to n a.delivered ≤ 1)
        × (a.next_id < n → replies_to n a.delivered ≡ 0)
  run_replies_once events n = ground (arith, run-Settled events new_acp new_acp-Settled n)

  -- After any steps from a new client: when the process that it runs exits, every request that waits
  -- has one message in its channel, and none waits any more.
  pub exit_answers :
      (events : List Event) (p n : ℕ)
      → let a = run sprint policy observed events new_acp in
        a.proc ≡ some p
        → 1 ≤ waits n a.pending
        → (replies_to n (exited p a).delivered ≡ 1) × ((exited p a).pending ≡ [])
  unfolding exited
  exit_answers events p n up h =
      let a = run sprint policy observed events new_acp in
      ground (
        arith,
        run-Settled events new_acp new_acp-Settled n,
        replies_to-fail_all n a.pending a.delivered,
      )

-- The exit of a process that the client has killed, as a restart does, changes nothing: every request
-- that waited for its answer waits on, with no message in its channel.
pub killed_waits :
    (p : ℕ) (a : Acp)
    → a.proc ≡ some p
    → (exited p (kill_locked a) ≡ kill_locked a)
      × ((kill_locked a).pending ≡ a.pending)
      × ((kill_locked a).delivered ≡ a.delivered)
unfolding exited kill_locked
killed_waits p a h = ground arith
