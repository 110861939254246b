-- ===== src/Nomad/Wait/First.antt =====
-- When the wait ends, and how.
use nomad_temporal_jobs.Prelude.{
  ℕ, zero, suc, ◌≡◌, ◌↔◌, ◌≤◌, refl, sym, subst, ap, ℤ, pos, negsuc, true, false, none, some, List,
  [], ◌∷◌, ◌++◌, count, length, All, arith, inl, inr, Bool-cases,
}
use nomad_temporal_jobs.Prelude.Result.{Result, ok, err}
use nomad_temporal_jobs.Nomad.Alloc.{AllocStub, running_alloc_stubs, is_running}
use nomad_temporal_jobs.Nomad.Wait.{Round, is_met, listing_met, wait_alloc_count}

-- the running allocations of a listing
abbrev pub running_count : List AllocStub → ℕ
running_count = count (λ (al : AllocStub). is_running al.client_status)

length-running_alloc_stubs :
    (allocs : List AllocStub) → length (running_alloc_stubs allocs) ≡ running_count allocs
unfolding running_alloc_stubs
length-running_alloc_stubs [] = refl
length-running_alloc_stubs (al ∷ allocs) = ground (arith, length-running_alloc_stubs allocs)

-- For the target 0 nothing runs, for a positive target that many allocations do; a negative target
-- and a listing that fails are never met.
abbrev pub Meets : ℤ → Result (List AllocStub) → Type 0
Meets target (err e) = ⊥
Meets (pos zero) (ok allocs) = running_count allocs ≡ 0
Meets (pos (suc n)) (ok allocs) = suc n ≤ running_count allocs
Meets (negsuc n) (ok allocs) = ⊥

-- The round leaves the loop running.
abbrev pub GoesOn : ℤ → Round → Type 0
GoesOn target r = (r.done_before ≡ false) × ¬ Meets target r.listing × (r.done_after ≡ false)

-- A first round that meets the target, begun with the context alive; every round before goes on.
abbrev pub IsMetIn : ℤ → List Round → Type 0
IsMetIn target rounds =
    (before : List Round) × (r : Round) × (after : List Round) × (rounds ≡ before ++ (r ∷ after))
    × All (GoesOn target) before
    × (r.done_before ≡ false)
    × Meets target r.listing

listing_met-Meets :
    (target : ℤ) (q : Result (List AllocStub))
    → ((listing_met target q ≡ true) → Meets target q)
      × (Meets target q → (listing_met target q ≡ true))
unfolding listing_met is_met
listing_met-Meets target (err e) = ground arith
listing_met-Meets (pos zero) (ok allocs) = ground (arith, length-running_alloc_stubs allocs)
listing_met-Meets (pos (suc n)) (ok allocs) = ground (arith, length-running_alloc_stubs allocs)
listing_met-Meets (negsuc n) (ok allocs) = ground arith

GoesOn-if :
    (target : ℤ) (r : Round)
    → r.done_before ≡ false
    → listing_met target r.listing ≡ false
    → r.done_after ≡ false
    → GoesOn target r
GoesOn-if target r b m a =
    (b, (λ p. ground (arith, m, (listing_met-Meets target r.listing).1 p)), a)

not_met : (target : ℤ) (r : Round) → GoesOn target r → listing_met target r.listing ≡ false
not_met target r h = elim (Bool-cases (listing_met target r.listing)) [
  | inl y ↦ absurd (h.1 ((listing_met-Meets target r.listing).0 y))
  | inr n ↦ n
]

wait-met :
    (target : ℤ) (before : List Round) (r : Round) (after : List Round)
    → All (GoesOn target) before
    → r.done_before ≡ false
    → Meets target r.listing
    → wait_alloc_count target (before ++ (r ∷ after)) ≡ some (ok tt)
unfolding wait_alloc_count
wait-met target [] r after h b m = ground (arith, b, (listing_met-Meets target r.listing).1 m)
wait-met target (q ∷ before) r after h b m =
    ground (arith, h.0.0, h.0.2, not_met target q h.0, wait-met target before r after h.1 b m)

-- one more round before
later :
    (target : ℤ) (q : Round) (rounds : List Round)
    → GoesOn target q
    → IsMetIn target rounds
    → IsMetIn target (q ∷ rounds)
later target q rounds g (before, r, after, e, h, b, m) =
    (q ∷ before, r, after, ap (λ rs. q ∷ rs) e, (g, h), b, m)

wait-IsMetIn :
    (target : ℤ) (rounds : List Round)
    → wait_alloc_count target rounds ≡ some (ok tt)
    → IsMetIn target rounds
unfolding wait_alloc_count
wait-IsMetIn target [] p = ground (arith, p)
wait-IsMetIn target (r ∷ rounds) p = elim (Bool-cases r.done_before) [
  | inl y ↦ ground (arith, p, y)
  | inr b ↦ elim (Bool-cases (listing_met target r.listing)) [
    | inl y ↦ ([], r, rounds, refl, tt, b, (listing_met-Meets target r.listing).0 y)
    | inr m ↦ elim (Bool-cases r.done_after) [
      | inl y ↦ ground (arith, p, b, m, y)
      | inr a ↦
          later target r rounds (GoesOn-if target r b m a)
            (wait-IsMetIn target rounds (ground (arith, p, b, m, a)))
    ]
  ]
]

wait-none :
    (target : ℤ) (rounds : List Round)
    → wait_alloc_count target rounds ≡ none
    → All (GoesOn target) rounds
unfolding wait_alloc_count
wait-none target [] p = tt
wait-none target (r ∷ rounds) p = elim (Bool-cases r.done_before) [
  | inl y ↦ ground (arith, p, y)
  | inr b ↦ elim (Bool-cases (listing_met target r.listing)) [
    | inl y ↦ ground (arith, p, b, y)
    | inr m ↦ elim (Bool-cases r.done_after) [
      | inl y ↦ ground (arith, p, b, m, y)
      | inr a ↦ (GoesOn-if target r b m a, wait-none target rounds (ground (arith, p, b, m, a)))
    ]
  ]
]

wait-going :
    (target : ℤ) (rounds : List Round)
    → All (GoesOn target) rounds
    → wait_alloc_count target rounds ≡ none
unfolding wait_alloc_count
wait-going target [] h = refl
wait-going target (r ∷ rounds) h =
    ground (arith, h.0.0, h.0.2, not_met target r h.0, wait-going target rounds h.1)

-- Whatever the rounds answer, the wait ends well exactly if some round, begun with the context alive,
-- lists as many running allocations as the target asks for and no round before it met the target or
-- saw the context done; and it still waits behind the rounds exactly if none of them did.
pub wait_alloc_count_iff :
    (target : ℤ) (rounds : List Round)
    → ((wait_alloc_count target rounds ≡ some (ok tt)) ↔ IsMetIn target rounds)
      × ((wait_alloc_count target rounds ≡ none) ↔ All (GoesOn target) rounds)
wait_alloc_count_iff target rounds = (
  (
    wait-IsMetIn target rounds,
    λ (before, r, after, e, h, b, m).
        subst (λ rs. wait_alloc_count target rs ≡ some (ok tt)) (sym e)
          (wait-met target before r after h b m),
  ),
  (wait-none target rounds, wait-going target rounds),
)
