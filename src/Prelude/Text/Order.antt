-- ===== src/Prelude/Text/Order.antt =====
-- `sort.Strings`: the bytewise order of texts. Equal texts are the same value, so the sorted list
-- is determined by the multiset of its elements, whatever the algorithm.
use Prim.Native.Nat.{suc}
use mathlib.Core.Path.{◌≡◌, refl, ap₂, ◌∙◌}
use mathlib.Core.Logic.{◌⊎◌, ∥∥₁_elim}
use mathlib.Core.Bool.{Bool, true, false, ◌||◌}
use mathlib.Core.List.{List, [], ◌∷◌, Perm, Permᴰ}
use native.Mathlib.Omega.{arith}
use native.Mathlib.Nat.{ℕ_set}
use nomad_temporal_jobs.Prelude.Tests.{ltb, ◌==◌, if◌then◌else◌}
use nomad_temporal_jobs.Prelude.Text.Equality.{Text, text_eq, contains, times_key}

unfoldable pub text_leb : Text → Text → Bool
text_leb [] _ = true
text_leb (x ∷ xs) [] = false
text_leb (x ∷ xs) (y ∷ ys) =
    let rest = text_leb xs ys in if ltb x y then true else if x == y then rest else false

insert : Text → List Text → List Text
insert x [] = x ∷ []
insert x (y ∷ ys) = let rest = insert x ys in if text_leb x y then x ∷ y ∷ ys else y ∷ rest

unfoldable pub sort_strings : List Text → List Text
unfolding insert
sort_strings [] = []
sort_strings (x ∷ xs) = insert x (sort_strings xs)

text_leb_total : (s t : Text) → (text_leb s t ≡ true) ⊎ (text_leb t s ≡ true)
unfolding text_leb
text_leb_total [] t = ground arith
text_leb_total (x ∷ xs) [] = ground arith
text_leb_total (x ∷ xs) (y ∷ ys) = ground (arith, text_leb_total xs ys)

text_leb_antisymm : (s t : Text) → text_leb s t ≡ true → text_leb t s ≡ true → s ≡ t
unfolding text_leb
text_leb_antisymm [] [] h k = refl
text_leb_antisymm [] (y ∷ ys) h k = ground arith
text_leb_antisymm (x ∷ xs) [] h k = ground arith
text_leb_antisymm (x ∷ xs) (y ∷ ys) h k = ground (arith, text_leb_antisymm xs ys)

text_leb_trans : (s t u : Text) → text_leb s t ≡ true → text_leb t u ≡ true → text_leb s u ≡ true
unfolding text_leb
text_leb_trans [] t u h k = refl
text_leb_trans (x ∷ xs) [] u h k = ground arith
text_leb_trans (x ∷ xs) (y ∷ ys) [] h k = ground arith
text_leb_trans (x ∷ xs) (y ∷ ys) (z ∷ zs) h k = ground (arith, text_leb_trans xs ys zs)

-- two insertions commute, into a sorted list or not
insert_comm : (a b : Text) (l : List Text) → insert a (insert b l) ≡ insert b (insert a l)
unfolding insert
insert_comm a b [] = ground (arith, text_leb_total a b, text_leb_antisymm a b)
insert_comm a b (y ∷ ys) = ground (
  arith,
  insert_comm a b ys,
  text_leb_total a b,
  text_leb_antisymm a b,
  text_leb_trans a b y,
  text_leb_trans b a y,
)

texts_set : IsSet (List Text)
texts_set = hlevel ℕ_set

sort_strings-eq_of_permᴰ : {xs ys : List Text} → Permᴰ xs ys → sort_strings xs ≡ sort_strings ys
unfolding sort_strings
sort_strings-eq_of_permᴰ Permᴰ.nil = refl
sort_strings-eq_of_permᴰ (Permᴰ.cons e p) = ap₂ insert e (sort_strings-eq_of_permᴰ p)
sort_strings-eq_of_permᴰ (Permᴰ.swap {a' = a'} {b' = b'} {l = l} e f) =
    cc (e, f, insert_comm b' a' (sort_strings l))
sort_strings-eq_of_permᴰ (Permᴰ.trans p q) = sort_strings-eq_of_permᴰ p ∙ sort_strings-eq_of_permᴰ q

-- Sorting forgets the order.
pub sort_strings-eq_of_perm : {xs ys : List Text} → Perm xs ys → sort_strings xs ≡ sort_strings ys
sort_strings-eq_of_perm p = ∥∥₁_elim p (texts_set _ _) sort_strings-eq_of_permᴰ

-- Sorting keeps each text as often as it stands.
times_key-insert :
    (k x : Text) (xs : List Text)
    → times_key k (insert x xs) ≡ (if text_eq x k then suc (times_key k xs) else times_key k xs)
unfolding insert
times_key-insert k x [] = refl
times_key-insert k x (y ∷ ys) = ground (arith, times_key-insert k x ys)

pub times_key-sort_strings :
    (k : Text) (xs : List Text) → times_key k (sort_strings xs) ≡ times_key k xs
unfolding sort_strings
times_key-sort_strings k [] = refl
times_key-sort_strings k (x ∷ xs) =
    ground (arith, times_key-insert k x (sort_strings xs), times_key-sort_strings k xs)

contains-insert :
    (k x : Text) (xs : List Text) → contains (insert x xs) k ≡ (text_eq x k || contains xs k)
unfolding insert contains
contains-insert k x [] = refl
contains-insert k x (y ∷ ys) = ground (arith, contains-insert k x ys)

pub contains-sort_strings :
    (k : Text) (xs : List Text) → contains (sort_strings xs) k ≡ contains xs k
unfolding sort_strings contains
contains-sort_strings k [] = refl
contains-sort_strings k (x ∷ xs) =
    ground (arith, contains-insert k x (sort_strings xs), contains-sort_strings k xs)

-- Each text is followed by one that is not before it.
abbrev pub IsSorted : List Text → Type 0
IsSorted [] = Unit
IsSorted (x ∷ []) = Unit
IsSorted (x ∷ y ∷ xs) = (text_leb x y ≡ true) × IsSorted (y ∷ xs)

insert-IsSorted : (x : Text) (xs : List Text) → IsSorted xs → IsSorted (insert x xs)
unfolding insert
insert-IsSorted x [] h = tt
insert-IsSorted x (y ∷ []) h = ground (arith, text_leb_total x y)
insert-IsSorted x (y ∷ z ∷ zs) h =
    ground (arith, text_leb_total x y, text_leb_total x z, insert-IsSorted x (z ∷ zs) h.1)

pub sort_strings-IsSorted : (xs : List Text) → IsSorted (sort_strings xs)
unfolding sort_strings
sort_strings-IsSorted [] = tt
sort_strings-IsSorted (x ∷ xs) = insert-IsSorted x (sort_strings xs) (sort_strings-IsSorted xs)
