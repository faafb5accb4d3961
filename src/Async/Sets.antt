-- ===== src/Async/Sets.antt =====
-- The sets of easy handles of src/async.cpp, std::set, as lists with no repetition.
use curlev.Prelude.{
  ℕ, suc, ◌+◌, Bool, true, false, ◌&&◌, ◌||◌, not, List, [], ◌∷◌, ◌++◌, ◌==◌, ◌≡◌, refl, arith,
  if◌then◌else◌, length,
}
use curlev.Prelude.Int.{ℤ}

unfoldable pub mem : ℕ → List ℕ → Bool
mem x [] = false
mem x (y ∷ ys) = x == y || mem x ys

unfoldable pub insert : ℕ → List ℕ → List ℕ
insert x xs = if mem x xs then xs else x ∷ xs

unfoldable pub erase : ℕ → List ℕ → List ℕ
erase x [] = []
erase x (y ∷ ys) = if x == y then erase x ys else y ∷ erase x ys

unfoldable pub no_dup : List ℕ → Bool
no_dup [] = true
no_dup (x ∷ xs) = not (mem x xs) && no_dup xs

pub mem-erase : (x y : ℕ) (ys : List ℕ) → mem x (erase y ys) ≡ (not (x == y) && mem x ys)
unfolding mem erase
mem-erase x y [] = ground arith
mem-erase x y (z ∷ zs) = ground (arith, mem-erase x y zs)

pub mem-insert : (x y : ℕ) (ys : List ℕ) → mem x (insert y ys) ≡ (x == y || mem x ys)
unfolding mem insert
mem-insert x y ys = ground arith

pub no_dup-erase : (x : ℕ) (xs : List ℕ) → no_dup xs ≡ true → no_dup (erase x xs) ≡ true
unfolding no_dup erase
no_dup-erase x [] h = refl
no_dup-erase x (y ∷ ys) h = ground (arith, no_dup-erase x ys, mem-erase y x ys)

pub no_dup-insert : (x : ℕ) (xs : List ℕ) → no_dup xs ≡ true → no_dup (insert x xs) ≡ true
unfolding no_dup insert
no_dup-insert x xs h = ground arith

erase_absent : (x : ℕ) (xs : List ℕ) → mem x xs ≡ false → length (erase x xs) ≡ length xs
unfolding mem erase
erase_absent x [] h = refl
erase_absent x (y ∷ ys) h = ground (arith, erase_absent x ys)

pub length-erase :
    (x : ℕ) (xs : List ℕ)
    → no_dup xs ≡ true
    → length xs ≡ length (erase x xs) + (if mem x xs then 1 else 0)
unfolding mem erase no_dup
length-erase x [] h = refl
length-erase x (y ∷ ys) h = ground (arith, length-erase x ys, erase_absent x ys)

pub length-insert :
    (x : ℕ) (xs : List ℕ) → mem x xs ≡ false → length (insert x xs) ≡ suc (length xs)
unfolding insert
length-insert x xs h = ground arith

-- How often a handle stands in a list, or among notifications.
unfoldable pub count : ℕ → List ℕ → ℕ
count x [] = 0
count x (y ∷ ys) = (if x == y then 1 else 0) + count x ys

unfoldable pub count_of : ℕ → List (ℕ × ℤ) → ℕ
count_of x [] = 0
count_of x ((y, code) ∷ js) = (if x == y then 1 else 0) + count_of x js

pub count_of-append :
    (x y : ℕ) (code : ℤ) (js : List (ℕ × ℤ))
    → count_of x (js ++ ((y, code) ∷ [])) ≡ count_of x js + (if x == y then 1 else 0)
unfolding count_of
count_of-append x y code [] = ground arith
count_of-append x y code ((z, c) ∷ js) = ground (arith, count_of-append x y code js)
