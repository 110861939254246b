-- ===== src/FanOut/Bounded.antt =====
-- No more items run at once than the channel has slots, and no schedule runs forever or gets stuck.
use nomad_temporal_jobs.Prelude.{
  ℕ, suc, ◌+◌, ◌*◌, ◌≤◌, ◌<◌, ◌≡◌, refl, Bool, true, false, ℤ, List, [], ◌∷◌, length, count, arith,
  sym,
}
use nomad_temporal_jobs.FanOut.{
  concurrency, Worker, waiting, running, finished, Pool, At, here, there, Step, acquire, release,
  Reach, start, next, start_pool,
}

-- A configured concurrency leaves at least one slot.
pub concurrency_pos : (default : ℕ) (c : ℤ) → 0 < default → 0 < concurrency default c
unfolding concurrency
concurrency_pos default c h = ground arith

module _ {ℓ κ} {A : Type ℓ} {B : Type κ} where
  abbrev pub is_running : Worker A B → Bool
  is_running (waiting a) = false
  is_running (running a) = true
  is_running (finished b) = false

  -- the number of items in the section that the channel guards
  abbrev pub active : Pool A B → ℕ
  active s = count is_running s.workers

  -- the steps that a coroutine has left
  abbrev left : Worker A B → ℕ
  left (waiting a) = 2
  left (running a) = 1
  left (finished b) = 0

  abbrev pub work : List (Worker A B) → ℕ
  work [] = 0
  work (w ∷ ws) = left w + work ws

  count-At :
      (x y : Worker A B) {l l' : List (Worker A B)}
      → At x y l l'
      → (count is_running l' + count is_running (x ∷ [])
          ≡ count is_running l + count is_running (y ∷ []))
        × (work l' + left x ≡ work l + left y)
  count-At x y (here {l = l}) = (ground arith, omega arith)
  count-At x y (there {z = z} m) = ground (arith, count-At x y m)

module _ {ℓ κ} {A : Type ℓ} {B : Type κ} (cap : ℕ) (f : A → B) where
  pub record IsBounded (s : Pool A B) : Type 0 where
    pub exact : s.held ≡ active s
    pub within : s.held ≤ cap

  Step-IsBounded : {s t : Pool A B} → Step cap f s t → IsBounded s → IsBounded t
  Step-IsBounded (acquire a m room up) h =
      let (c, _) = count-At (waiting a) (running a) m in
      record { exact = omega (arith, h.exact); within = omega (arith, h.within) }
  Step-IsBounded (release a m down) h =
      let (c, _) = count-At (running a) (finished (f a)) m in
      record { exact = omega (arith, h.exact); within = omega (arith, h.within) }

  pub Reach-IsBounded : {s t : Pool A B} {n : ℕ} → IsBounded s → Reach cap f s t n → IsBounded t
  Reach-IsBounded h start = h
  Reach-IsBounded h (next r st) = Step-IsBounded st (Reach-IsBounded h r)

  Step-work : {s t : Pool A B} → Step cap f s t → work s.workers ≡ suc (work t.workers)
  Step-work (acquire a m room up) = omega (arith, count-At (waiting a) (running a) m)
  Step-work (release a m down) = omega (arith, count-At (running a) (finished (f a)) m)

  Reach-work : {s t : Pool A B} {n : ℕ} → Reach cap f s t n → work s.workers ≡ work t.workers + n
  Reach-work start = omega arith
  Reach-work (next r st) = omega (arith, Step-work st, Reach-work r)

  work-start : (xs : List A) → work (start_pool {B = B} xs).workers ≡ 2 * length xs
  work-start [] = refl
  work-start (x ∷ xs) = omega (arith, work-start xs)

  active-start : (xs : List A) → active (start_pool {B = B} xs) ≡ 0
  active-start [] = refl
  active-start (x ∷ xs) = active-start xs

  pub start-IsBounded : (xs : List A) → IsBounded (start_pool xs)
  start-IsBounded xs = record { exact = sym (active-start xs); within = omega arith }

  -- From the start of a fan-out over `xs`, in every reachable pool at most `cap` items run, the
  -- channel holds one slot for each, and no more than two steps for each item were made.
  pub fan_out_bounded :
      (xs : List A) {t : Pool A B} {n : ℕ}
      → Reach cap f (start_pool xs) t n
      → (active t ≤ cap) × (t.held ≡ active t) × (n ≤ 2 * length xs)
  fan_out_bounded xs r =
      let b = Reach-IsBounded (start-IsBounded xs) r in
      (omega (arith, b), b.exact, omega (arith, Reach-work r, work-start xs))
