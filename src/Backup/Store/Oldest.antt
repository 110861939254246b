-- ===== src/Backup/Store/Oldest.antt =====
-- Which object is evicted, and which ones expire.
use nomad_temporal_jobs.Prelude.{
  not_ltb, ltb-le, ℕ, ◌≡◌, ◌≤◌, subst, refl, ◌∙◌, sym, ap, ltb, true, false, List, [], ◌∷◌, All,
  map, Option, none, some, arith, inl, inr, ◌⊎◌, Bool-cases, if◌then◌else◌,
}
use nomad_temporal_jobs.Prelude.Text.{Text, text_eq, text_eq_refl, contains}
use nomad_temporal_jobs.Backup.Store.{
  Object, evict_time, take_older, older_of, oldest_from, oldest_object,
}

abbrev pub time_of : Text → Option Object → Option ℕ
time_of skip none = none
time_of skip (some o) = evict_time skip o

-- The second time, if there is one, is not before the first, which then is one too.
abbrev pub NotBefore : Option ℕ → Option ℕ → Type 0
NotBefore a none = Unit
NotBefore none (some u) = ⊥
NotBefore (some t) (some u) = t ≤ u

NotBefore-trans : (a b c : Option ℕ) → NotBefore a b → NotBefore b c → NotBefore a c
NotBefore-trans a b none p q = tt
NotBefore-trans a none (some v) p q = elim q [ ]
NotBefore-trans none (some u) (some v) p q = elim p [ ]
NotBefore-trans (some t) (some u) (some v) p q = omega (arith, p, q)

HasTime : Text → Option Object → Type 0
HasTime skip none = Unit
HasTime skip (some o) = (t : ℕ) × (evict_time skip o ≡ some t)

IsChosen : Text → Object → Option Object → Option Object → Type 0
IsChosen skip o found r =
    HasTime skip r
    × NotBefore (time_of skip r) (time_of skip found)
    × NotBefore (time_of skip r) (evict_time skip o)
    × ((r ≡ found) ⊎ (r ≡ some o))

NotBefore-refl : (a : Option ℕ) → NotBefore a a
NotBefore-refl none = tt
NotBefore-refl (some t) = omega arith

evict_time-some :
    (skip : Text) (m : Object) (u : ℕ) → evict_time skip m ≡ some u → m.last_modified ≡ some u
unfolding evict_time
evict_time-some skip m u p = ground (arith, p)

take_older-if :
    (o m : Object) (t u : ℕ)
    → m.last_modified ≡ some u
    → take_older o (some t) (some m) ≡ (if ltb t u then some o else some m)
unfolding take_older
take_older-if o m t u p = ground (arith, p)

take_older-IsChosen :
    (skip : Text) (o : Object) (t : Option ℕ) (found : Option Object)
    → evict_time skip o ≡ t
    → HasTime skip found
    → IsChosen skip o found (take_older o t found)
unfolding take_older IsChosen HasTime
take_older-IsChosen skip o none none p h = ground (arith, p)
take_older-IsChosen skip o none (some m) p (u, h) = ((u, h), reflexive, later, inl refl)
  where
    reflexive : NotBefore (evict_time skip m) (evict_time skip m)
    reflexive = subst (λ a. NotBefore a a) (sym h) (omega arith)

    later : NotBefore (evict_time skip m) (evict_time skip o)
    later = subst (NotBefore (evict_time skip m)) (sym p) tt
take_older-IsChosen skip o (some t) none p h =
    ((t, p), tt, subst (λ a. NotBefore a a) (sym p) (omega arith), inr refl)
take_older-IsChosen skip o (some t) (some m) p (u, h) =
    let q = evict_time-some skip m u h in
    elim (Bool-cases (ltb t u)) [
      | inl y ↦
          subst (IsChosen skip o (some m))
            (sym (take_older-if o m t u q ∙ ap (λ b. if b then some o else some m) y))
            (
              (t, p),
              subst (λ a. NotBefore a (evict_time skip m)) (sym p)
                  (subst (NotBefore (some t)) (sym h) (ltb-le t u y)),
              subst (λ a. NotBefore a a) (sym p) (omega arith),
              inr refl,
            )
      | inr n ↦
          subst (IsChosen skip o (some m))
            (sym (take_older-if o m t u q ∙ ap (λ b. if b then some o else some m) n))
            (
              (u, h),
              subst (λ a. NotBefore a a) (sym h) (omega arith),
              subst (λ a. NotBefore a (evict_time skip o)) (sym h)
                  (subst (NotBefore (some u)) (sym p) (not_ltb t u n)),
              inl refl,
            )
    ]

older_of-IsChosen :
    (skip : Text) (o : Object) (found : Option Object)
    → HasTime skip found
    → IsChosen skip o found (older_of skip o found)
unfolding older_of
older_of-IsChosen skip o found h = take_older-IsChosen skip o (evict_time skip o) found refl h

abbrev pub keys : List Object → List Text
keys = map (λ (o : Object). o.key)

IsFound : Text → List Object → Option Object → Option Object → Type 0
IsFound skip os found r =
    NotBefore (time_of skip r) (time_of skip found)
    × All (λ (o : Object). NotBefore (time_of skip r) (evict_time skip o)) os
    × HasTime skip r
    × ((r ≡ found) ⊎ ((m : Object) × (r ≡ some m) × (contains (keys os) m.key ≡ true)))

placed :
    (o : Object) (os : List Object) (found next r : Option Object)
    → (next ≡ found) ⊎ (next ≡ some o)
    → (r ≡ next) ⊎ ((m : Object) × (r ≡ some m) × (contains (keys os) m.key ≡ true))
    → (r ≡ found) ⊎ ((m : Object) × (r ≡ some m) × (contains (keys (o ∷ os)) m.key ≡ true))
unfolding contains
placed o os found next r a (inr (m, p, c)) = inr (m, p, ground (arith, c))
placed o os found next r (inl q) (inl p) = inl (p ∙ q)
placed o os found next r (inr q) (inl p) = inr (o, p ∙ q, ground (arith, text_eq_refl o.key))

no_time : (a : Option ℕ) → NotBefore none a → a ≡ none
no_time none n = refl
no_time (some t) n = elim n [ ]

none_evictable :
    (skip : Text) (os : List Object)
    → All (λ (o : Object). NotBefore none (evict_time skip o)) os
    → All (λ (o : Object). evict_time skip o ≡ none) os
none_evictable skip [] a = tt
none_evictable skip (o ∷ os) (n, a) = (no_time (evict_time skip o) n, none_evictable skip os a)

not_older :
    (skip : Text) (t : ℕ) (os : List Object)
    → All (λ (o : Object). NotBefore (some t) (evict_time skip o)) os
    → All (λ (o : Object). (u : ℕ) → evict_time skip o ≡ some u → t ≤ u) os
not_older skip t [] a = tt
not_older skip t (o ∷ os) (n, a) = (λ u p. subst (NotBefore (some t)) p n, not_older skip t os a)

IsShown : Text → List Object → Option Object → Type 0
IsShown skip objs r =
    ((r ≡ none) × All (λ (o : Object). evict_time skip o ≡ none) objs)
    ⊎ ((m : Object) × (t : ℕ) × (r ≡ some m)
        × (contains (keys objs) m.key ≡ true)
        × (text_eq m.key skip ≡ false)
        × (m.last_modified ≡ some t)
        × All (λ (o : Object). (u : ℕ) → evict_time skip o ≡ some u → t ≤ u) objs)

shown :
    (skip : Text) (objs : List Object) (r : Option Object)
    → IsFound skip objs none r
    → IsShown skip objs r
unfolding IsShown IsFound HasTime evict_time
shown skip objs none (f, a, h, p) = inl (refl, none_evictable skip objs a)
shown skip objs (some m) (f, a, (t, h), inl p) = ground (arith, p)
shown skip objs (some m) (f, a, (t, h), inr (n, p, c)) = inr (
  m,
  t,
  refl,
  ground (arith, p, c),
  ground (arith, h),
  ground (arith, h),
  not_older skip t objs
      (subst (λ b. All (λ (o : Object). NotBefore b (evict_time skip o)) objs) h a),
)

oldest_from-IsFound :
    (skip : Text) (os : List Object) (found : Option Object)
    → HasTime skip found
    → IsFound skip os found (oldest_from skip os found)
unfolding oldest_from IsFound IsChosen
oldest_from-IsFound skip [] found h = (NotBefore-refl (time_of skip found), tt, h, inl refl)
oldest_from-IsFound skip (o ∷ os) found h =
    let (has, not_before, at_o, from) = older_of-IsChosen skip o found h in
    let (f, all, t, place) = oldest_from-IsFound skip os (older_of skip o found) has in
    let r = time_of skip (oldest_from skip os (older_of skip o found)) in
    let n = time_of skip (older_of skip o found) in
    (
      NotBefore-trans r n (time_of skip found) f not_before,
      (NotBefore-trans r n (evict_time skip o) f at_o, all),
      t,
      placed o os found (older_of skip o found) (oldest_from skip os (older_of skip o found)) from
          place,
    )

-- The object that is evicted is one of the listed ones, is not the one to skip, has a time, and no
-- other such object is older; none is found only if there is no such object.
pub oldest_object_lem :
    (objs : List Object) (skip : Text)
    → ((oldest_object objs skip ≡ none) × All (λ (o : Object). evict_time skip o ≡ none) objs)
      ⊎ ((m : Object) × (t : ℕ) × (oldest_object objs skip ≡ some m)
          × (contains (keys objs) m.key ≡ true)
          × (text_eq m.key skip ≡ false)
          × (m.last_modified ≡ some t)
          × All (λ (o : Object). (u : ℕ) → evict_time skip o ≡ some u → t ≤ u) objs)
unfolding oldest_object IsShown HasTime
oldest_object_lem objs skip =
    shown skip objs (oldest_from skip objs none) (oldest_from-IsFound skip objs none tt)
