-- ===== src/Backup/Upload/Attempts.antt =====
-- What an upload does to the store, and how it ends.
use nomad_temporal_jobs.Prelude.{
  ℕ, zero, suc, ◌+◌, ◌≡◌, refl, sym, subst, ap, ◌∙◌, ◌==◌, not, Bool, true, false, ◌||◌, ◌∷◌, ◌++◌,
  arith, inl, inr, ◌⊎◌, if◌then◌else◌, Bool-cases,
}
use nomad_temporal_jobs.Prelude.Result.{Result, Failure, wrap, ok, err, is_ok}
use nomad_temporal_jobs.Prelude.Text.{Text}
use nomad_temporal_jobs.Backup.Store.{Service, delete_oldest}
use nomad_temporal_jobs.Backup.Store.Evicted.{Evicts, delete_oldest-Evicts}
use nomad_temporal_jobs.Backup.Upload.{evicted, answered, attempt, attempts, upload_to_s3}

module _ {S : Type 0} (service : Service S) (is_quota : Failure → Bool)
    (open_file : ℕ → Result (Unit {0})) (prefix key : Text) where
  -- So many times a put of the key that is over the quota, and an eviction that spares the key.
  abbrev pub Rounds : ℕ → S → S → Type 0
  Rounds zero s t = s ≡ t
  Rounds (suc n) s t =
      (e : Failure) × (u : S) × (v : S) × (service.put key s ≡ (err e, u))
      × (is_quota e ≡ true)
      × Evicts service prefix key u v
      × Rounds n v t

  -- The last put fails: for good, or over the quota and the eviction fails as well.
  abbrev pub Fails : ℕ → S → S → Type 0
  Fails left s after =
      (e : Failure) × (t : S) × (service.put key s ≡ (err e, t))
      × ((((is_quota e ≡ false) ⊎ (left ≡ 0)) × (after ≡ t))
          ⊎ ((is_quota e ≡ true)
              × ((f : Failure) × (delete_oldest service prefix key t ≡ (err f, after)))))

  -- The end behind the rounds, with so many evictions left: the key exactly if the file was opened
  -- and its put worked, which was the last request.
  abbrev pub Ends : ℕ → S → Result Text × S → Type 0
  Ends left s (answer, after) =
      ((answer ≡ ok key) × (is_ok (open_file left) ≡ true) × (service.put key s ≡ (ok tt, after)))
      ⊎ ((is_ok answer ≡ false)
          × (((is_ok (open_file left) ≡ false) × (after ≡ s)) ⊎ Fails left s after))

  abbrev pub Uploads : ℕ → S → Result Text × S → Type 0
  Uploads allowed s u =
      (n : ℕ) × (left : ℕ) × (n + left ≡ allowed) × (t : S) × Rounds n s t × Ends left t u

  -- one more round before
  later :
      (left : ℕ) (s u v : S) (e : Failure) (out : Result Text × S)
      → service.put key s ≡ (err e, u)
      → is_quota e ≡ true
      → Evicts service prefix key u v
      → Uploads left v out
      → Uploads (suc left) s out
  later left s u v e out p q ev (n, m, sum, t, rounds, ends) =
      (suc n, m, omega (arith, sum), t, (e, u, v, p, q, ev, rounds), ends)

  evicted-Uploads :
      (left : ℕ) (s t : S) (e : Failure) (r : Result Text × S) (next : S → Result Text × S)
      → service.put key s ≡ (err e, t)
      → is_quota e ≡ true
      → delete_oldest service prefix key t ≡ r
      → ((v : S) → Uploads left v (next v))
      → Uploads (suc left) s (evicted service is_quota open_file e r next)
  unfolding evicted
  evicted-Uploads left s t e (ok k, v) next p q d h =
      later left s t v e (next v) p q (delete_oldest-Evicts service prefix key t k v d) (h v)
  evicted-Uploads left s t e (err f, v) next p q d h =
      (0, suc left, omega arith, s, refl, inr (refl, inr (e, t, p, inr (q, (f, d)))))

  failed-Uploads :
      (left : ℕ) (s t : S) (e : Failure)
      → service.put key s ≡ (err e, t)
      → (is_quota e ≡ false) ⊎ (left ≡ 0)
      → Uploads left s (err (wrap "upload" e), t)
  failed-Uploads left s t e p q =
      (0, left, omega arith, s, refl, inr (refl, inr (e, t, p, inl (q, refl))))

  left_over : (b : Bool) (n : ℕ) → (not b || (suc n == 0)) ≡ not b
  left_over b n = ground arith

  answered-Uploads :
      (left : ℕ) (s : S) (r : Result (Unit {0}) × S) (next : S → Result Text × S)
      → is_ok (open_file (suc left)) ≡ true
      → service.put key s ≡ r
      → ((v : S) → Uploads left v (next v))
      → Uploads (suc left) s (answered service is_quota open_file (suc left) prefix key r next)
  unfolding answered
  answered-Uploads left s (ok u, t) next o p h =
      (0, suc left, omega arith, s, refl, inl (refl, o, p))
  answered-Uploads left s (err e, t) next o p h =
      let out = evicted service is_quota open_file e (delete_oldest service prefix key t) next in
      let P = λ (b : Bool). Uploads (suc left) s (if b then (err (wrap "upload" e), t) else out) in
      elim (Bool-cases (is_quota e)) [
        | inl y ↦
            subst P (sym (left_over (is_quota e) left ∙ ap not y))
              (evicted-Uploads left s t e (delete_oldest service prefix key t) next p y refl h)
        | inr n ↦
            subst P (sym (left_over (is_quota e) left ∙ ap not n))
              (failed-Uploads (suc left) s t e p (inl n))
      ]

  or_true : (b : Bool) → (b || true) ≡ true
  or_true b = ground arith

  answered_last-Uploads :
      (s : S) (r : Result (Unit {0}) × S) (next : S → Result Text × S)
      → is_ok (open_file 0) ≡ true
      → service.put key s ≡ r
      → Uploads 0 s (answered service is_quota open_file 0 prefix key r next)
  unfolding answered
  answered_last-Uploads s (ok u, t) next o p = (0, 0, refl, s, refl, inl (refl, o, p))
  answered_last-Uploads s (err e, t) next o p =
      let out = evicted service is_quota open_file e (delete_oldest service prefix key t) next in
      subst (λ b. Uploads 0 s (if b then (err (wrap "upload" e), t) else out))
        (sym (or_true (not (is_quota e)))) (failed-Uploads 0 s t e p (inr refl))

  attempt_last-Uploads :
      (s : S) (r : Result (Unit {0})) (next : S → Result Text × S)
      → open_file 0 ≡ r
      → Uploads 0 s (attempt service is_quota open_file 0 prefix key r s next)
  unfolding attempt
  attempt_last-Uploads s (ok u) next o =
      answered_last-Uploads s (service.put key s) next (ap is_ok o) refl
  attempt_last-Uploads s (err e) next o = (0, 0, refl, s, refl, inr (refl, inl (ap is_ok o, refl)))

  attempt-Uploads :
      (left : ℕ) (s : S) (r : Result (Unit {0})) (next : S → Result Text × S)
      → open_file (suc left) ≡ r
      → ((v : S) → Uploads left v (next v))
      → Uploads (suc left) s (attempt service is_quota open_file (suc left) prefix key r s next)
  unfolding attempt
  attempt-Uploads left s (ok u) next o h =
      answered-Uploads left s (service.put key s) next (ap is_ok o) refl h
  attempt-Uploads left s (err e) next o h =
      (0, suc left, omega arith, s, refl, inr (refl, inl (ap is_ok o, refl)))

  attempts-Uploads :
      (left : ℕ) (s : S) → Uploads left s (attempts service is_quota open_file left prefix key s)
  unfolding attempts
  attempts-Uploads zero s = attempt_last-Uploads s (open_file 0) _ refl
  attempts-Uploads (suc left) s =
      attempt-Uploads left s (open_file (suc left))
        (attempts service is_quota open_file left prefix key) refl (attempts-Uploads left)

-- An upload of a file that is there first goes through some rounds, three at most, of a put of one key
-- under the prefix that fails over the quota and the deletion of another object listed under the
-- prefix. Then it answers with that key, the file was opened and the last request was a put of the key
-- that worked; or with an error: the file was not opened, or the last put failed with another error or
-- behind three rounds, or it failed over the quota and no object was evicted. Of a file that is not
-- there nothing is asked.
pub upload_to_s3_bounded :
    {S : Type 0} (service : Service S) (is_quota : Failure → Bool)
    (open_file : ℕ → Result (Unit {0})) (stat : Result (Unit {0})) (prefix base : Text) (s : S)
    → let u = upload_to_s3 service is_quota open_file stat prefix base s in
      ((is_ok stat ≡ false) × (is_ok u.0 ≡ false) × (u.1 ≡ s))
      ⊎ ((is_ok stat ≡ true)
          × Uploads service is_quota open_file prefix (prefix ++ (b'/' ∷ base)) 3 s u)
unfolding upload_to_s3
upload_to_s3_bounded service is_quota open_file (err e) prefix base s = inl (refl, refl, refl)
upload_to_s3_bounded service is_quota open_file (ok u) prefix base s =
    inr (refl, attempts-Uploads service is_quota open_file prefix (prefix ++ (b'/' ∷ base)) 3 s)
