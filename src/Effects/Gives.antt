-- ===== src/Effects/Gives.antt =====
-- What a run gives: a statement about its result alone, from any database and whichever calls of
-- the driver fail.
use league_app.Base.{◌≡◌, refl, Bool, true, false, if◌then◌else◌}
use league_app.Effects.{Err, Result, ok, err, World, M, pure, ◌>>=◌, continue}
use league_app.Effects.Logic.{Ends}

pub record Gives {S A : Type 0} (Q : Result A → Type 0) (m : M S A) : Type 0 where
  pub given : (w : World S) → Q (m w).0

continue_given :
    {S A B : Type 0} (Q : Result A → Type 0) (R : Result B → Type 0) (k : B → M S A)
    (r : Result B × World S)
    → ((e : Err) → Q (err e))
    → ((b : B) → R (ok b) → Gives Q (k b))
    → R r.0
    → Q (continue k r).0
continue_given Q R k (ok b, w) errors h i = (h b i).given w
continue_given Q R k (err e, w) errors h i = errors e

module _ {S A : Type 0} (Q : Result A → Type 0) where
  pub Gives-pure : (a : A) → Q (ok a) → Gives {S = S} Q (pure a)
  Gives-pure a h = record { given = λ w. h }

  pub Gives-bind :
      {B : Type 0} (R : Result B → Type 0) (m : M S B) (k : B → M S A)
      → ((e : Err) → Q (err e))
      → Gives R m
      → ((b : B) → R (ok b) → Gives Q (k b))
      → Gives Q (m >>= k)
  unfolding ◌>>=◌
  Gives-bind R m k errors h g = record {
    given = λ w. continue_given Q R k (m w) errors g (h.given w);
  }

  -- Whatever the first part gives.
  pub Gives-then :
      {B : Type 0} (m : M S B) (k : B → M S A)
      → ((e : Err) → Q (err e))
      → ((b : B) → Gives Q (k b))
      → Gives Q (m >>= k)
  Gives-then m k errors g =
      Gives-bind (λ r. Unit {0}) m k errors (record { given = λ w. tt }) (λ b u. g b)

  pub Gives-if :
      (b : Bool) (m n : M S A)
      → (b ≡ true → Gives Q m)
      → (b ≡ false → Gives Q n)
      → Gives Q (if b then m else n)
  Gives-if true m n h g = h refl
  Gives-if false m n h g = g refl

  pub Gives-Ends : {s : S} (m : M S A) → Gives Q m → Ends s m (λ r d. Q r)
  Gives-Ends m h = record { run = λ w e. h.given w }
