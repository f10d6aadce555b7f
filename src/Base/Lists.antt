-- ===== src/Base/Lists.antt =====
-- Lists measured by native numbers, and tests over all or some of their elements.
use Prim.Native.Nat.{ℕ, zero, suc, ◌+◌}
use mathlib.Core.Path.{◌≡◌, refl, subst}
use mathlib.Core.Logic.{inl, inr}
use league_app.Base.Tests.{Bool-cases, of_some}
use mathlib.Core.Bool.{Bool, true, false, not, ◌&&◌, ◌||◌}
use mathlib.Core.Option.{Option, none, some}
use mathlib.Core.List.{List, [], ◌∷◌, ◌++◌, map}
use native.Mathlib.Omega.{arith}

module _ {ℓ} {A : Type ℓ} where
  abbrev pub length : List A → ℕ
  length [] = 0
  length (x ∷ xs) = suc (length xs)

  abbrev pub get_elem? : List A → ℕ → Option A
  get_elem? [] i = none
  get_elem? (x ∷ xs) zero = some x
  get_elem? (x ∷ xs) (suc i) = get_elem? xs i

  abbrev pub exists_in : (A → Bool) → List A → Bool
  exists_in p [] = false
  exists_in p (x ∷ xs) = p x || exists_in p xs

  abbrev pub keep_if : (A → Bool) → List A → List A
  keep_if p [] = []
  keep_if p (x ∷ xs) = let rest = keep_if p xs in elim (p x) [ true ↦ x ∷ rest | false ↦ rest ]

  abbrev pub forall_in : (A → Bool) → List A → Bool
  forall_in p [] = true
  forall_in p (x ∷ xs) = p x && forall_in p xs

  abbrev pub find_first : (A → Bool) → List A → Option A
  find_first p [] = none
  find_first p (x ∷ xs) = let rest = find_first p xs in elim (p x) [ true ↦ some x | false ↦ rest ]

  -- `UPDATE ... WHERE`
  abbrev pub update_all : (A → Bool) → (A → A) → List A → List A
  update_all p f [] = []
  update_all p f (x ∷ xs) =
      let rest = update_all p f xs in elim (p x) [ true ↦ f x ∷ rest | false ↦ x ∷ rest ]

  found_step :
      (p q : A → Bool) (y x : A) (all_rest : Bool) (rest : Option A)
      → (q y && all_rest) ≡ true
      → elim (p y) [ true ↦ some y | false ↦ rest ] ≡ some x
      → (all_rest ≡ true → rest ≡ some x → (p x ≡ true) × (q x ≡ true))
      → (p x ≡ true) × (q x ≡ true)
  found_step p q y x all_rest rest all e ih = elim (Bool-cases (p y)) [
    | inl t ↦
        let same : some y ≡ some x = ground arith in
        let z = of_some same in
        let qy : q y ≡ true = ground arith in
        (subst (λ k. p k ≡ true) z t, subst (λ k. q k ≡ true) z qy)
    | inr f ↦ ih (ground arith) (ground arith)
  ]

  -- What is found meets the test and stands in the list.
  pub found_meets :
      (p q : A → Bool) (xs : List A) (x : A)
      → forall_in q xs ≡ true
      → find_first p xs ≡ some x
      → (p x ≡ true) × (q x ≡ true)
  found_meets p q (y ∷ ys) x all e =
      found_step p q y x (forall_in q ys) _ all e (found_meets p q ys x)
  found_meets p q [] x all e = cc

  pub forall_in-append :
      (q : A → Bool) (xs ys : List A) → forall_in q (xs ++ ys) ≡ (forall_in q xs && forall_in q ys)
  forall_in-append q [] ys = refl
  forall_in-append q (x ∷ xs) ys = let e = forall_in-append q xs ys in ground arith

  -- An update keeps what each of its rows keeps.
  pub forall_in-update_all :
      (p : A → Bool) (f : A → A) (q : A → Bool) (xs : List A)
      → ((x : A) → q x ≡ true → q (f x) ≡ true)
      → forall_in q xs ≡ true
      → forall_in q (update_all p f xs) ≡ true
  forall_in-update_all p f q [] keep all = refl
  forall_in-update_all p f q (x ∷ xs) keep all =
      let k = keep x in let rest = forall_in-update_all p f q xs keep in ground arith

  -- An update that makes its rows meet a test that the others meet.
  pub forall_in-update_some :
      (p : A → Bool) (f : A → A) (q : A → Bool) (xs : List A)
      → ((x : A) → p x ≡ true → q (f x) ≡ true)
      → ((x : A) → p x ≡ false → q x ≡ true)
      → forall_in q (update_all p f xs) ≡ true
  forall_in-update_some p f q [] made other = refl
  forall_in-update_some p f q (x ∷ xs) made other =
      let m = made x in
      let o = other x in let rest = forall_in-update_some p f q xs made other in ground arith

  pub forall_in-keep_if :
      (p q : A → Bool) (xs : List A) → forall_in q xs ≡ true → forall_in q (keep_if p xs) ≡ true
  forall_in-keep_if p q [] all = refl
  forall_in-keep_if p q (x ∷ xs) all = let rest = forall_in-keep_if p q xs in ground arith

  -- Rows that an update moves stay among those that a test leaves out.
  pub keep_if-update_all :
      (q p : A → Bool) (f : A → A) (xs : List A)
      → ((x : A) → p x ≡ true → (q x ≡ false) × (q (f x) ≡ false))
      → keep_if q (update_all p f xs) ≡ keep_if q xs
  keep_if-update_all q p f [] out = refl
  keep_if-update_all q p f (x ∷ xs) out =
      let ih = keep_if-update_all q p f xs out in let o = out x in ground arith

  -- An update that does not touch a test leaves the number of rows that meet it.
  pub count-update_all :
      (q p : A → Bool) (f : A → A) (xs : List A)
      → ((x : A) → q (f x) ≡ q x)
      → length (keep_if q (update_all p f xs)) ≡ length (keep_if q xs)
  count-update_all q p f [] same = refl
  count-update_all q p f (x ∷ xs) same =
      let ih = count-update_all q p f xs same in let k = same x in ground arith

  -- One that makes its rows meet a test adds as many as it moves.
  pub count-update_more :
      (q p : A → Bool) (f : A → A) (xs : List A)
      → ((x : A) → p x ≡ true → (q x ≡ false) × (q (f x) ≡ true))
      → length (keep_if q (update_all p f xs)) ≡ length (keep_if q xs) + length (keep_if p xs)
  count-update_more q p f [] more = refl
  count-update_more q p f (x ∷ xs) more =
      let ih = count-update_more q p f xs more in let o = more x in ground arith

  -- A test on the rows that meet another, and on those that do not.
  pub forall_in-split :
      (q r : A → Bool) (xs : List A)
      → forall_in (λ x. not (q x) || r x) xs ≡ true
      → forall_in r (keep_if (λ x. not (q x)) xs) ≡ true
      → forall_in r xs ≡ true
  forall_in-split q r [] h g = refl
  forall_in-split q r (x ∷ xs) h g = let ih = forall_in-split q r xs in ground arith

  pub forall_in-implies :
      (q r : A → Bool) (xs : List A)
      → ((x : A) → q x ≡ true → r x ≡ true)
      → forall_in q xs ≡ true
      → forall_in r xs ≡ true
  forall_in-implies q r [] f h = refl
  forall_in-implies q r (x ∷ xs) f h =
      let ih = forall_in-implies q r xs f in let k = f x in ground arith

  pub forall_in-kept :
      (p q r : A → Bool) (xs : List A)
      → ((x : A) → p x ≡ true → q x ≡ true → r x ≡ true)
      → forall_in q xs ≡ true
      → forall_in r (keep_if p xs) ≡ true
  forall_in-kept p q r [] f h = refl
  forall_in-kept p q r (x ∷ xs) f h =
      let ih = forall_in-kept p q r xs f in let k = f x in ground arith

  pub exists_in-append :
      (p : A → Bool) (xs ys : List A) → exists_in p (xs ++ ys) ≡ (exists_in p xs || exists_in p ys)
  exists_in-append p [] ys = refl
  exists_in-append p (x ∷ xs) ys = let e = exists_in-append p xs ys in ground arith

  pub length-append : (xs ys : List A) → length (xs ++ ys) ≡ length xs + length ys
  length-append [] ys = omega arith
  length-append (x ∷ xs) ys = omega (arith, length-append xs ys)

module _ {ℓ} {A B : Type ℓ} (g : A → B) (p : A → Bool) (f : A → A) where
  pub map-update_all :
      (xs : List A) → ((x : A) → g (f x) ≡ g x) → map g (update_all p f xs) ≡ map g xs
  map-update_all [] same = refl
  map-update_all (x ∷ xs) same = let ih = map-update_all xs same in let k = same x in ground arith

module _ {ℓ} {A B : Type ℓ} (g h : A → B) (p : A → Bool) (f : A → A) where
  -- A column after an update, row by row.
  pub map-update_test :
      (xs : List A)
      → ((x : A) → p x ≡ true → g (f x) ≡ h x)
      → ((x : A) → p x ≡ false → g x ≡ h x)
      → map g (update_all p f xs) ≡ map h xs
  map-update_test [] made other = refl
  map-update_test (x ∷ xs) made other =
      let ih = map-update_test xs made other in let m = made x in let o = other x in ground arith

module _ {ℓ} {A B : Type ℓ} (g : A → B) where
  pub forall_in-map :
      (q : B → Bool) (r : A → Bool) (xs : List A)
      → ((x : A) → q (g x) ≡ r x)
      → forall_in q (map g xs) ≡ forall_in r xs
  forall_in-map q r [] same = refl
  forall_in-map q r (x ∷ xs) same =
      let ih = forall_in-map q r xs same in let k = same x in ground arith
