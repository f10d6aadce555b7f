-- ===== src/Schedule/Counting.antt =====
-- How often a team stands in a list, and that the circle method keeps it.
use league_app.Base.{
  ℕ, zero, suc, ◌+◌, ◌≤◌, ◌≡◌, refl, Bool, List, [], ◌∷◌, ◌++◌, length, ◌==◌, if◌then◌else◌, arith,
  ap, length-append,
}
use league_app.Schedule.Generate.{put_first, last_first, rotate, reverse}

abbrev pub one_if : Bool → ℕ
one_if b = if b then 1 else 0

abbrev pub count : ℕ → List ℕ → ℕ
count t [] = 0
count t (x ∷ xs) = one_if (x == t) + count t xs

abbrev pub take : ℕ → List ℕ → List ℕ
take zero xs = []
take (suc k) [] = []
take (suc k) (x ∷ xs) = x ∷ take k xs

pub count-append : (t : ℕ) (xs ys : List ℕ) → count t (xs ++ ys) ≡ count t xs + count t ys
count-append t [] ys = omega arith
count-append t (x ∷ xs) ys = omega (arith, count-append t xs ys)

count-put_first : (t x : ℕ) (xs : List ℕ) → count t (put_first x xs) ≡ one_if (x == t) + count t xs
count-put_first t x [] = refl
count-put_first t x (l ∷ ls) = omega arith

count-last_first :
    (t x : ℕ) (xs : List ℕ) → count t (last_first x xs) ≡ one_if (x == t) + count t xs
count-last_first t x [] = refl
count-last_first t x (y ∷ ys) =
    omega (arith, count-put_first t x (last_first y ys), count-last_first t y ys)

pub count-rotate : (t : ℕ) (xs : List ℕ) → count t (rotate xs) ≡ count t xs
unfolding rotate
count-rotate t [] = refl
count-rotate t (x ∷ []) = refl
count-rotate t (x ∷ (y ∷ ys)) = omega (arith, count-last_first t y ys)

length-put_first : (x : ℕ) (xs : List ℕ) → length (put_first x xs) ≡ suc (length xs)
length-put_first x [] = refl
length-put_first x (l ∷ ls) = refl

length-last_first : (x : ℕ) (xs : List ℕ) → length (last_first x xs) ≡ suc (length xs)
length-last_first x [] = refl
length-last_first x (y ∷ ys) =
    omega (arith, length-put_first x (last_first y ys), length-last_first y ys)

pub length-rotate : (xs : List ℕ) → length (rotate xs) ≡ length xs
unfolding rotate
length-rotate [] = refl
length-rotate (x ∷ []) = refl
length-rotate (x ∷ (y ∷ ys)) = omega (arith, length-last_first y ys)

length-reverse : (xs : List ℕ) → length (reverse xs) ≡ length xs
length-reverse [] = refl
length-reverse (x ∷ xs) = omega (arith, length-append (reverse xs) (x ∷ []), length-reverse xs)

-- A short front of an appended list lies in the first part.
take-append : (k : ℕ) (xs ys : List ℕ) → k ≤ length xs → take k (xs ++ ys) ≡ take k xs
take-append zero xs ys l = refl
take-append (suc k) [] ys l = ground arith
take-append (suc k) (x ∷ xs) ys l = ap (λ z. x ∷ z) (take-append k xs ys (omega (arith, l)))

count-take : (t k : ℕ) (xs : List ℕ) → count t (take k xs) ≤ count t xs
count-take t zero xs = omega arith
count-take t (suc k) [] = omega arith
count-take t (suc k) (x ∷ xs) = omega (arith, count-take t k xs)

count-reverse : (t : ℕ) (xs : List ℕ) → count t (reverse xs) ≡ count t xs
count-reverse t [] = refl
count-reverse t (x ∷ xs) = omega (arith, count-append t (reverse xs) (x ∷ []), count-reverse t xs)

-- The front of j places and the back of k do not overlap.
pub two_ends :
    (t j k : ℕ) (xs : List ℕ)
    → j + k ≤ length xs
    → count t (take j xs) + count t (take k (reverse xs)) ≤ count t xs
two_ends t zero k xs l = omega (arith, count-take t k (reverse xs), count-reverse t xs)
two_ends t (suc j) k [] l = ground arith
two_ends t (suc j) k (x ∷ xs) l =
    let e =
      ap (count t) (take-append k (reverse xs) (x ∷ []) (omega (arith, l, length-reverse xs))) in
    omega (arith, two_ends t j k xs (omega (arith, l)), e)
