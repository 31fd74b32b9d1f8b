-- ===== src/Manager/Step.antt =====
-- Actions on the state of the manager: a Go method returns its results beside the state it leaves.
use cloudeagent.Manager.World.{State}

abbrev pub M : Type 0 → Type 0 → Type 0 → Type 0
M S W A = State S W → A × State S W

module _ {S W : Type 0} where
  abbrev pub pure : {A : Type 0} → A → M S W A
  pure a s = (a, s)

  infixl 5 ◌>>=◌ ◌>>◌
  abbrev pub ◌>>=◌ : {A B : Type 0} → M S W A → (A → M S W B) → M S W B
  ◌>>=◌ m f s = let (r, s') = m s in f r s'

  abbrev pub ◌>>◌ : {A B : Type 0} → M S W A → M S W B → M S W B
  ◌>>◌ m k s = let (r, s') = m s in k s'

  -- A call of the store, and one of the world.
  abbrev pub at_store : {A : Type 0} → (S → A × S) → M S W A
  at_store f s = let (r, t) = f s.store in (r, record s { store = t })

  abbrev pub at_world : {A : Type 0} → (W → A × W) → M S W A
  at_world f s = let (r, w) = f s.world in (r, record s { world = w })

  abbrev pub get_state : M S W (State S W)
  get_state s = (s, s)
