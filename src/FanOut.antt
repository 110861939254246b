-- ===== src/FanOut.antt =====
-- The bounded fan-out that the workflows share: one coroutine for each item takes a slot of a
-- buffered channel, runs its activity, writes the result at its own index and gives the slot back
-- (scanRepos of runnerscaler/workflows/poll_dispatch.go, renewAll of
-- ghtokenrenewer/workflows/renew_common.go, Scan of trivyscan/workflows/scan.go, Reconcile of
-- mediaimport/workflows/reconcile.go, NodeCleanup of maintenance/nodecleanup/workflow.go, postgresLeg
-- of backup/workflows/backup.go). The scheduler chooses which coroutine moves, so the fan-out is a
-- step relation. What an item's activities answer is a function of the item.
pub mod Bounded
pub mod Outcome
use nomad_temporal_jobs.Prelude.{
  ℕ, suc, ◌≡◌, ◌<◌, ℤ, pos, pos_part, ltb_ℤ, List, [], ◌∷◌, map, if◌then◌else◌,
}

-- The `applyDefaults` of the workflow configurations, each with its own default: a concurrency that
-- is not positive is replaced.
unfoldable pub concurrency : ℕ → ℤ → ℕ
concurrency default c = if ltb_ℤ (pos 0) c then pos_part c else default

-- A coroutine: before `sem.Send`, holding a slot, and after `sem.Receive`.
pub data Worker {ℓ κ} (A : Type ℓ) (B : Type κ) : Type (ℓ ⊔ κ) where
  waiting : A → Worker A B
  running : A → Worker A B
  finished : B → Worker A B

-- The coroutines in the order of the items, and the number of slots that the channel holds.
pub record Pool {ℓ κ} (A : Type ℓ) (B : Type κ) : Type (ℓ ⊔ κ) where
  pub workers : List (Worker A B)
  pub held : ℕ

-- `At x y l l'`: one element of `l`, `x`, is `y` in `l'`, and the others stay.
pub data At {ℓ} {A : Type ℓ} (x y : A) : List A → List A → Type ℓ where
  here : {l : List A} → At x y (x ∷ l) (y ∷ l)
  there : {z : A} {l l' : List A} → At x y l l' → At x y (z ∷ l) (z ∷ l')

module _ {ℓ κ} {A : Type ℓ} {B : Type κ} (cap : ℕ) (f : A → B) where
  pub data Step (s t : Pool A B) : Type (ℓ ⊔ κ) where
    acquire :
        (a : A)
        → At (waiting a) (running a) s.workers t.workers
        → s.held < cap
        → t.held ≡ suc s.held
        → Step s t
    release :
        (a : A)
        → At (running a) (finished (f a)) s.workers t.workers
        → s.held ≡ suc t.held
        → Step s t

  -- `Reach s t n`: n steps lead from `s` to `t`.
  pub data Reach (s : Pool A B) : Pool A B → ℕ → Type (ℓ ⊔ κ) where
    start : Reach s s 0
    next : {t u : Pool A B} {n : ℕ} → Reach s t n → Step t u → Reach s u (suc n)

abbrev pub start_pool {ℓ κ} : {A : Type ℓ} {B : Type κ} → List A → Pool A B
start_pool xs = record { workers = map waiting xs; held = 0 }
