-- ===== src/Prelude/Text/Equality.antt =====
-- Texts, their equality test, and membership in a list of texts.
use Prim.Native.Nat.{ℕ, suc, ◌+◌}
use Prim.Native.Char.{code}
use Prim.Native.String.{String}
use mathlib.Core.Path.{◌≡◌, refl}
use mathlib.Core.Logic.{◌↔◌}
use mathlib.Core.Bool.{Bool, true, false, ◌&&◌, ◌||◌}
use mathlib.Core.List.{List, [], ◌∷◌, ◌++◌}
use native.Mathlib.Omega.{arith}
use nomad_temporal_jobs.Prelude.Tests.{◌==◌, if◌then◌else◌}

abbrev pub Text : Type 0
Text = List ℕ

abbrev pub codes : String → Text
codes String.[] = []
codes (String.◌∷◌ c s) = code c ∷ codes s

unfoldable pub text_eq : Text → Text → Bool
text_eq [] [] = true
text_eq (x ∷ xs) (y ∷ ys) = (x == y) && text_eq xs ys
text_eq _ _ = false

pub text_eq_iff : (s t : Text) → (text_eq s t ≡ true) ↔ (s ≡ t)
unfolding text_eq
text_eq_iff [] [] = ground arith
text_eq_iff [] (y ∷ ys) = ground arith
text_eq_iff (x ∷ xs) [] = ground arith
text_eq_iff (x ∷ xs) (y ∷ ys) = ground (arith, text_eq_iff xs ys)

pub text_eq_refl : (s : Text) → text_eq s s ≡ true
text_eq_refl s = (text_eq_iff s s).1 refl

-- `slices.Contains`, and the test `_, ok := set[key]`
unfoldable pub contains : List Text → Text → Bool
contains [] k = false
contains (x ∷ xs) k = text_eq x k || contains xs k

unfoldable pub is_empty : Text → Bool
is_empty [] = true
is_empty _ = false

-- A Go map used as a set of keys, in the order of insertion.
unfoldable pub add_key : List Text → Text → List Text
unfolding contains
add_key set k = if contains set k then set else set ++ (k ∷ [])

-- how often a key stands in a list
abbrev pub times_key : Text → List Text → ℕ
times_key k [] = 0
times_key k (x ∷ xs) = let rest = times_key k xs in if text_eq x k then suc rest else rest

-- Every key stands at most once.
abbrev pub IsKeySet : List Text → Type 0
IsKeySet set = (k : Text) → times_key k set ≡ (if contains set k then 1 else 0)

times_key-append :
    (k : Text) (xs ys : List Text) → times_key k (xs ++ ys) ≡ times_key k xs + times_key k ys
times_key-append k [] ys = omega arith
times_key-append k (x ∷ xs) ys = ground (arith, times_key-append k xs ys)

contains-append :
    (xs ys : List Text) (k : Text) → contains (xs ++ ys) k ≡ (contains xs k || contains ys k)
unfolding contains
contains-append [] ys k = refl
contains-append (x ∷ xs) ys k = ground (arith, contains-append xs ys k)

pub contains-add_key :
    (set : List Text) (k j : Text) → contains (add_key set k) j ≡ (text_eq k j || contains set j)
unfolding add_key
contains-add_key set k j = ground (arith, contains-append set (k ∷ []) j, text_eq_iff k j)

pub add_key-IsKeySet : (set : List Text) (k : Text) → IsKeySet set → IsKeySet (add_key set k)
unfolding add_key
add_key-IsKeySet set k h j =
    ground
      (arith, h j, contains-append set (k ∷ []) j, times_key-append j set (k ∷ []), text_eq_iff k j)
