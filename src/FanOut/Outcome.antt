-- ===== src/FanOut/Outcome.antt =====
-- Every schedule goes on until all items are done, and ends with the same results in the order of
-- the items.
use nomad_temporal_jobs.Prelude.{
  ℕ, suc, ◌-◌, ◌<◌, ◌≡◌, refl, ap, ◌∙◌, sym, ◌⊎◌, inl, inr, List, [], ◌∷◌, map, count, arith,
  Option, none, some,
}
use nomad_temporal_jobs.FanOut.{
  Worker, waiting, running, finished, Pool, At, here, there, Step, acquire, release, Reach, start,
  next, start_pool,
}
use nomad_temporal_jobs.FanOut.Bounded.{is_running, IsBounded, Reach-IsBounded, start-IsBounded}

module _ {ℓ κ} {A : Type ℓ} {B : Type κ} where
  -- what is written at each item's index; `none` is a slot that is not yet written
  abbrev pub written : Worker A B → Option B
  written (waiting a) = none
  written (running a) = none
  written (finished b) = some b

  abbrev pub results : Pool A B → List (Option B)
  results s = map written s.workers

module _ {ℓ κ} {A : Type ℓ} {B : Type κ} (cap : ℕ) (f : A → B) where
  -- what an item's coroutine has written or will write
  abbrev yields : Worker A B → B
  yields (waiting a) = f a
  yields (running a) = f a
  yields (finished b) = b

  map-At :
      {x y : Worker A B} {l l' : List (Worker A B)}
      → yields x ≡ yields y
      → At x y l l'
      → map yields l ≡ map yields l'
  map-At e (here {l = l}) = ap (λ b. b ∷ map yields l) e
  map-At e (there {z = z} m) = ap (◌∷◌ (yields z)) (map-At e m)

  Step-yields : {s t : Pool A B} → Step cap f s t → map yields s.workers ≡ map yields t.workers
  Step-yields (acquire a m room up) = map-At refl m
  Step-yields (release a m down) = map-At refl m

  Reach-yields :
      {s t : Pool A B} {n : ℕ} → Reach cap f s t n → map yields s.workers ≡ map yields t.workers
  Reach-yields start = refl
  Reach-yields (next r st) = Reach-yields r ∙ Step-yields st

  yields-start : (xs : List A) → map yields (start_pool xs).workers ≡ map f xs
  yields-start [] = refl
  yields-start (x ∷ xs) = ap (◌∷◌ (f x)) (yields-start xs)

  -- what can move in a list of coroutines
  data Moves (l : List (Worker A B)) : Type (ℓ ⊔ κ) where
    all_done : map written l ≡ map some (map yields l) → count is_running l ≡ 0 → Moves l
    can_release :
        (a : A) (l' : List (Worker A B))
        → At (running a) (finished (f a)) l l'
        → 0 < count is_running l
        → Moves l
    can_acquire :
        (a : A) (l' : List (Worker A B))
        → At (waiting a) (running a) l l'
        → count is_running l ≡ 0
        → Moves l

  Moves-cons : (w : Worker A B) {l : List (Worker A B)} → Moves l → Moves (w ∷ l)
  Moves-cons (finished b) (all_done e h) = all_done (ap (◌∷◌ (some b)) e) h
  Moves-cons w (can_release a l' m h) = can_release a (w ∷ l') (there m) (ground arith)
  Moves-cons (running a) {l} _ = can_release a (finished (f a) ∷ l) here (omega arith)
  Moves-cons (finished b) (can_acquire a l' m h) = can_acquire a (finished b ∷ l') (there m) h
  Moves-cons (waiting a) {l} (can_acquire _ _ _ h) = can_acquire a (running a ∷ l) here h
  Moves-cons (waiting a) {l} (all_done e h) = can_acquire a (running a ∷ l) here h

  moves : (l : List (Worker A B)) → Moves l
  moves [] = all_done refl refl
  moves (w ∷ l) = Moves-cons w (moves l)

  step_of_Moves :
      {s : Pool A B}
      → IsBounded cap f s
      → 0 < cap
      → Moves s.workers
      → (results s ≡ map some (map yields s.workers)) ⊎ ((t : Pool A B) × Step cap f s t)
  step_of_Moves h room (all_done e _) = inl e
  step_of_Moves {s} h room (can_release a l m busy) =
      inr (record { workers = l; held = s.held - 1 }, release a m (omega (arith, h.exact)))
  step_of_Moves {s} h room (can_acquire a l m idle) =
      inr (record { workers = l; held = suc s.held }, acquire a m (omega (arith, h.exact)) refl)

  -- A channel with at least one slot: wherever a schedule from the start over `xs` has led, either
  -- every index holds the result of its item, in order, or a coroutine can move. So every schedule
  -- that cannot go on has the same results.
  pub fan_out_results :
      (xs : List A) {t : Pool A B} {n : ℕ}
      → 0 < cap
      → Reach cap f (start_pool xs) t n
      → (results t ≡ map some (map f xs)) ⊎ ((u : Pool A B) × Step cap f t u)
  fan_out_results xs {t} room r =
      let kept = sym (yields-start xs) ∙ Reach-yields r in
      elim (step_of_Moves (Reach-IsBounded cap f (start-IsBounded cap f xs) r) room
        (moves t.workers)) [ inl e ↦ inl (e ∙ ap (map some) (sym kept)) | inr st ↦ inr st ]
