-- ===== src/Gateway/Registry.antt =====
-- cloud-gateway/internal/registry/registry.go: the routes from users to the endpoints of their
-- agents. The lock makes each method one step.
use cloudeagent.Prelude.{
  ◌≡◌, refl, sym, Option, none, some, List, [], ◌∷◌, Text, text_eq, Assoc, lookup, insert, delete,
  lookup-insert, lookup-delete, if◌then◌else◌,
}

abbrev pub Registry : Type 0
Registry = Assoc Text

abbrev pub new : Registry
new = []

unfoldable pub register : Text → Text → Registry → Registry
register user_id endpoint r = insert user_id endpoint r

unfoldable pub unregister : Text → Registry → Registry
unregister user_id r = delete user_id r

unfoldable pub resolve : Text → Registry → Option Text
resolve user_id r = lookup user_id r

-- The loop of `Snapshot` over the entries.
snapshot_onto : Registry → Registry → Registry
snapshot_onto [] out = out
snapshot_onto ((k, v) ∷ r) out = snapshot_onto r (insert k v out)

pub snapshot : Registry → Registry
snapshot r = snapshot_onto r []

-- The calls that change the routes, and the abstract table that they stand for.
pub data RegistryCall : Type 0 where
  registers : Text → Text → RegistryCall
  unregisters : Text → RegistryCall

pub apply : RegistryCall → Registry → Registry
unfolding register unregister
apply (registers u e) r = register u e r
apply (unregisters u) r = unregister u r

pub replay : List RegistryCall → Registry → Registry
replay [] r = r
replay (c ∷ cs) r = replay cs (apply c r)

-- What the calls say of a user: the endpoint that was registered last, if nothing was unregistered
-- since.
pub last_route : Text → List RegistryCall → Option Text → Option Text
last_route u [] before = before
last_route u (registers v e ∷ cs) before = last_route u cs (if text_eq v u then some e else before)
last_route u (unregisters v ∷ cs) before = last_route u cs (if text_eq v u then none else before)

-- After any calls each user is resolved to the endpoint that was registered for it last, and to
-- nothing if it was unregistered since, or never registered.
pub resolve-replay :
    (u : Text) (cs : List RegistryCall) (r : Registry)
    → resolve u (replay cs r) ≡ last_route u cs (resolve u r)
unfolding resolve replay apply last_route
resolve-replay u [] r = refl
resolve-replay u (registers v e ∷ cs) r =
    rw (sym (lookup-insert v u e r)) (resolve-replay u cs (insert v e r))
resolve-replay u (unregisters v ∷ cs) r =
    rw (sym (lookup-delete v u r)) (resolve-replay u cs (delete v r))
