-- ===== src/Db/Tables.antt =====
-- A table of a SQL database with a primary key, and what the statements of
-- cloud-backend/pkg/db/postgres.go rely on. The database is a parameter.
use cloudeagent.Prelude.{
  ℕ, ◌≡◌, ◌&&◌, Bool, true, false, Option, none, some, List, is_none, if◌then◌else◌,
}
use cloudeagent.Types.{Err, Outcome, ok}

-- A condition beside the key selects rows further; `update` tells how many rows it changed.
pub record Table (K R T : Type 0) : Type 0 where
  pub select : K → (R → Bool) → T → Outcome (Option R)
  pub select_all : (R → Bool) → (R → R → Bool) → T → Outcome (List R)
  pub insert : R → T → Option Err × T
  pub upsert : R → (R → R) → T → Option Err × T
  pub update : K → (R → Bool) → (R → R) → T → Outcome ℕ × T
  pub remove : K → T → Option Err × T

abbrev pub only {ℓ} : {A : Type ℓ} → (A → Bool) → Option A → Option A
only p none = none
only p (some a) = if p a then some a else none

abbrev pub upserted {ℓ} : {A : Type ℓ} → A → (A → A) → Option A → A
upserted a f none = a
upserted a f (some old) = f old

abbrev pub changed {ℓ} : {A : Type ℓ} → (A → Bool) → (A → A) → Option A → Option A
changed p f none = none
changed p f (some a) = if p a then some (f a) else some a

abbrev pub count {ℓ} : {A : Type ℓ} → Option A → ℕ
count none = 0
count (some a) = 1

abbrev pub succeeded {ℓ} : {A : Type ℓ} → Outcome A → Bool
succeeded (ok a) = true
succeeded _ = false

-- A statement that fails changes nothing; an insertion under a key that is taken fails; the rows
-- that are there can be read. What is set in a row leaves its key.
pub record TableLaws {K R T : Type 0} (table : Table K R T) (same : K → K → Bool) (key : R → K)
    : Type 0 where
  pub find : K → T → Option R
  pub key-find : (k : K) (r : R) (t : T) → find k t ≡ some r → same (key r) k ≡ true
  pub select-find : (k : K) (p : R → Bool) (t : T) → table.select k p t ≡ ok (only p (find k t))
  pub find-insert :
      (k : K) (r : R) (t : T)
      → find k (table.insert r t).1
        ≡ (if is_none (table.insert r t).0 && same (key r) k then some r else find k t)
  pub insert-taken :
      (k : K) (r : R) (t : T)
      → same (key r) k ≡ true
      → is_none (find k t) ≡ false
      → is_none (table.insert r t).0 ≡ false
  pub find-upsert :
      (k : K) (r : R) (f : R → R) (t : T)
      → ((a : R) → key (f a) ≡ key a)
      → find k (table.upsert r f t).1 ≡ (
          if is_none (table.upsert r f t).0 && same (key r) k
          then some (upserted r f (find k t))
          else find k t)
  pub find-update :
      (k j : K) (p : R → Bool) (f : R → R) (t : T)
      → ((a : R) → key (f a) ≡ key a)
      → find k (table.update j p f t).1 ≡ (
          if succeeded (table.update j p f t).0 && same j k
          then changed p f (find k t)
          else find k t)
  pub update-count :
      (k : K) (p : R → Bool) (f : R → R) (n : ℕ) (t : T)
      → (table.update k p f t).0 ≡ ok n
      → n ≡ count (only p (find k t))
  pub find-remove :
      (k j : K) (t : T)
      → find k (table.remove j t).1
        ≡ (if is_none (table.remove j t).0 && same j k then none else find k t)
