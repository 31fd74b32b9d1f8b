-- ===== src/Db/Memory.antt =====
-- cloud-backend/pkg/db/memory.go: the store in memory. Its maps are association lists; a pointer to
-- a copied record is the record. No method of it fails but for a record that is not there.
pub mod Laws
use cloudeagent.Prelude.{
  ℕ, Bool, true, false, Option, none, some, List, [], ◌∷◌, ◌++◌, Text, codes, text_eq, Assoc,
  lookup, insert, delete, ltb, ◌==◌, if◌then◌else◌,
}
use cloudeagent.Types.{Err, not_found, Outcome, ok, err, Instance, Review, VcsToken}
use cloudeagent.Db.Store.{Activity, StoreOps}

pub record Memory : Type 0 where
  pub instances : Assoc Instance
  pub activity : Assoc Activity
  pub reviews : Assoc Review
  pub vcs : Assoc VcsToken

abbrev pub new_memory : Memory
new_memory = record { instances = []; activity = []; reviews = []; vcs = [] }

-- `v, ok := m[k]; if !ok { return nil, ErrNotFound }`
abbrev pub found {ℓ} : {A : Type ℓ} → Option A → Outcome A
found none = err not_found
found (some a) = ok a

unfoldable pub create_instance : Instance → Memory → Option Err × Memory
create_instance inst m = (none, record m { instances = insert inst.user_id inst m.instances })

unfoldable pub get_instance : Text → Memory → Outcome Instance
get_instance user_id m = found (lookup user_id m.instances)

-- Strings are ordered byte by byte.
unfoldable pub text_lt : Text → Text → Bool
text_lt [] [] = false
text_lt [] (y ∷ ys) = true
text_lt (x ∷ xs) [] = false
text_lt (x ∷ xs) (y ∷ ys) = if x == y then text_lt xs ys else ltb x y

-- `sort.Slice(out, …)`, by the Boolean test `less`
module _ {A : Type 0} (less : A → A → Bool) where
  insert_sorted : A → List A → List A
  insert_sorted a [] = a ∷ []
  insert_sorted a (x ∷ xs) = if less x a then x ∷ insert_sorted a xs else a ∷ x ∷ xs

  sort : List A → List A
  unfolding insert_sorted
  sort [] = []
  sort (x ∷ xs) = insert_sorted x (sort xs)

abbrev values {ℓ} : {V : Type ℓ} → Assoc V → List V
values [] = []
values ((k, v) ∷ m) = v ∷ values m

abbrev by_user : Instance → Instance → Bool
by_user a b = text_lt a.user_id b.user_id

unfoldable pub list_instances : Memory → Outcome (List Instance)
unfolding sort text_lt
list_instances m = ok (sort by_user (values m.instances))

unfoldable pub update_instance : Instance → Memory → Option Err × Memory
update_instance inst m = elim (lookup inst.user_id m.instances) [
  | none ↦ (some not_found, m)
  | some _ ↦ (none, record m { instances = insert inst.user_id inst m.instances })
]

unfoldable pub delete_instance : Text → Memory → Option Err × Memory
delete_instance user_id m = (
  none,
  record m { instances = delete user_id m.instances; activity = delete user_id m.activity },
)

abbrev activity_or : Activity → Option Activity → Activity
activity_or d none = d
activity_or d (some act) = act

unfoldable pub touch_activity : ℕ → Text → Memory → Option Err × Memory
touch_activity now user_id m =
    let fresh : Activity = record { user_id = user_id; last_active_at = now; ws_connections = 0 } in
    let act = activity_or fresh (lookup user_id m.activity) in
    (none, record m { activity = insert user_id (record act { last_active_at = now }) m.activity })

unfoldable pub set_ws_connections : ℕ → Text → ℕ → Memory → Option Err × Memory
set_ws_connections now user_id n m =
    let fresh : Activity = record { user_id = user_id; last_active_at = now; ws_connections = 0 } in
    let act = activity_or fresh (lookup user_id m.activity) in
    let act' : Activity = record act { ws_connections = n; last_active_at = now } in
    (none, record m { activity = insert user_id act' m.activity })

-- A user with no record counts as active now.
unfoldable pub get_activity : ℕ → Text → Memory → Outcome Activity
get_activity now user_id m =
    let fresh : Activity = record { user_id = user_id; last_active_at = now; ws_connections = 0 } in
    ok (activity_or fresh (lookup user_id m.activity))

unfoldable pub create_review : Review → Memory → Option Err × Memory
create_review r m = (none, record m { reviews = insert r.id r m.reviews })

abbrev own_review : Text → Option Review → Outcome Review
own_review user_id none = err not_found
own_review user_id (some r) = if text_eq r.user_id user_id then ok r else err not_found

unfoldable pub get_review : Text → Text → Memory → Outcome Review
get_review user_id review_id m = own_review user_id (lookup review_id m.reviews)

reviews_of : Text → List Review → List Review
reviews_of user_id [] = []
reviews_of user_id (r ∷ rs) =
    let rest = reviews_of user_id rs in if text_eq r.user_id user_id then r ∷ rest else rest

abbrev by_creation : Review → Review → Bool
by_creation a b = ltb a.created_at b.created_at

unfoldable pub list_reviews : Text → Memory → Outcome (List Review)
unfolding sort reviews_of
list_reviews user_id m = ok (sort by_creation (reviews_of user_id (values m.reviews)))

unfoldable pub update_review : Review → Memory → Option Err × Memory
update_review r m = elim (lookup r.id m.reviews) [
  | none ↦ (some not_found, m)
  | some _ ↦ (none, record m { reviews = insert r.id r m.reviews })
]

-- `userID + "|" + platform`
abbrev pub vcs_key : Text → Text → Text
vcs_key user_id platform = user_id ++ (codes "|" ++ platform)

unfoldable pub save_vcs_token : VcsToken → Memory → Option Err × Memory
save_vcs_token t m = (none, record m { vcs = insert (vcs_key t.user_id t.platform) t m.vcs })

unfoldable pub get_vcs_token : Text → Text → Memory → Outcome VcsToken
get_vcs_token user_id platform m = found (lookup (vcs_key user_id platform) m.vcs)

-- The store, behind its interface.
abbrev pub memory_ops : StoreOps Memory
memory_ops = record {
  create_instance = create_instance;
  get_instance = get_instance;
  list_instances = list_instances;
  update_instance = update_instance;
  delete_instance = delete_instance;
  touch_activity = touch_activity;
  set_ws_connections = set_ws_connections;
  get_activity = get_activity;
}
