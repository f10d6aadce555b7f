-- ===== src/Effects/Keeps.antt =====
-- What a run keeps: a statement about the database that holds after it, ended well or not and
-- whichever calls of the driver fail, if it holds before.
use league_app.Base.{
  subst, sym, refl, ℕ, ◌≡◌, ◌⊎◌, Bool, true, false, Option, none, some, if◌then◌else◌, Bool-cases,
  inl, inr,
}
use league_app.Effects.{
  Err, Result, ok, err, World, M, pure, throw, ◌>>=◌, fail_if, require, query, exec, run_tx, settle,
  tick, continue, clock, ignore, drop_error, map_err, map_result,
}
use league_app.Effects.Logic.{Ends}

pub record Keeps {S A : Type 0} (I : S → Type 0) (m : M S A) : Type 0 where
  pub kept : (w : World S) → I w.db → I (m w).1.db

continue_kept :
    {S A B : Type 0} (I : S → Type 0) (k : B → M S A) (r : Result B × World S)
    → ((b : B) → Keeps I (k b))
    → I r.1.db
    → I (continue k r).1.db
continue_kept I k (ok b, w) h i = (h b).kept w i
continue_kept I k (err e, w) h i = i

settle_kept :
    {S A : Type 0} (I : S → Type 0) (s : S) (r : Result A × World S)
    → I s
    → I r.1.db
    → I (settle s r).1.db
settle_kept I s (err e, v) before after = before
settle_kept I s (ok a, v) before after = elim (Bool-cases (v.fails v.calls)) [
  | inl bad ↦ rw bad before
  | inr good ↦ rw good after
]

drop_error_kept :
    {S : Type 0} (I : S → Type 0) (r : Result (Unit {0}) × World S)
    → I r.1.db
    → I (drop_error r).1.db
drop_error_kept I (ok a, w) i = i
drop_error_kept I (err e, w) i = i

map_result_kept :
    {S A : Type 0} (I : S → Type 0) (f : Err → Err) (r : Result A × World S)
    → I r.1.db
    → I (map_result f r).1.db
map_result_kept I f (ok a, w) i = i
map_result_kept I f (err e, w) i = i

module _ {S A : Type 0} {I : S → Type 0} where
  pub Keeps-pure : (a : A) → Keeps I (pure a)
  Keeps-pure a = record { kept = λ w i. i }

  pub Keeps-throw : (e : Err) → Keeps {A = A} I (throw e)
  Keeps-throw e = record { kept = λ w i. i }

  pub Keeps-query : (f : S → A) → Keeps I (query f)
  unfolding query
  Keeps-query f = record { kept = λ w i. go w i (Bool-cases (w.fails w.calls)) }
    where
      go :
          (w : World S)
          → I w.db
          → (w.fails w.calls ≡ true) ⊎ (w.fails w.calls ≡ false)
          → I (query f w).1.db
      go w i (inl bad) = rw bad i
      go w i (inr good) = rw good i

  pub Keeps-exec :
      (f : ℕ → S → A × S) → ((now : ℕ) (s : S) → I s → I (f now s).1) → Keeps I (exec f)
  unfolding exec
  Keeps-exec f h = record { kept = λ w i. go w i (Bool-cases (w.fails w.calls)) }
    where
      go :
          (w : World S)
          → I w.db
          → (w.fails w.calls ≡ true) ⊎ (w.fails w.calls ≡ false)
          → I (exec f w).1.db
      go w i (inl bad) = rw bad i
      go w i (inr good) = rw good (h w.now w.db i)

  pub Keeps-bind :
      {B : Type 0} (m : M S B) (k : B → M S A)
      → Keeps I m
      → ((b : B) → Keeps I (k b))
      → Keeps I (m >>= k)
  unfolding ◌>>=◌
  Keeps-bind m k h g = record { kept = λ w i. continue_kept I k (m w) g (h.kept w i) }

  pub Keeps-Ends : {s : S} (m : M S A) → Keeps I m → I s → Ends s m (λ r d. I d)
  Keeps-Ends m h i = record { run = λ w e. h.kept w (subst I (sym e) i) }

  pub Keeps-require : (o : Option A) (e : Err) → Keeps I (require o e)
  Keeps-require none e = record { kept = λ w i. i }
  Keeps-require (some a) e = record { kept = λ w i. i }

  -- With the value that a pointer holds.
  pub Keeps-require_bind :
      {B : Type 0} (o : Option B) (e : Err) (k : B → M S A)
      → ((b : B) → o ≡ some b → Keeps I (k b))
      → Keeps I (require o e >>= k)
  unfolding ◌>>=◌
  Keeps-require_bind none e k h = record { kept = λ w i. i }
  Keeps-require_bind (some b) e k h = record { kept = λ w i. (h b refl).kept w i }

  pub Keeps-if : (b : Bool) (m n : M S A) → Keeps I m → Keeps I n → Keeps I (if b then m else n)
  Keeps-if true m n h g = h
  Keeps-if false m n h g = g

  pub Keeps-run_tx : (m : M S A) → Keeps I m → Keeps I (run_tx m)
  unfolding run_tx
  Keeps-run_tx m h = record { kept = λ w i. go w i (Bool-cases (w.fails w.calls)) }
    where
      go :
          (w : World S)
          → I w.db
          → (w.fails w.calls ≡ true) ⊎ (w.fails w.calls ≡ false)
          → I (run_tx m w).1.db
      go w i (inl bad) = rw bad i
      go w i (inr good) = rw good (settle_kept I w.db (m (tick w)) i (h.kept (tick w) i))

  pub Keeps-map_err : (f : Err → Err) (m : M S A) → Keeps I m → Keeps I (map_err f m)
  unfolding map_err
  Keeps-map_err f m h = record { kept = λ w i. map_result_kept I f (m w) (h.kept w i) }

module _ {S : Type 0} {I : S → Type 0} where
  pub Keeps-clock : Keeps I clock
  unfolding clock
  Keeps-clock = record { kept = λ w i. i }

  pub Keeps-fail_if : (b : Bool) (e : Err) → Keeps I (fail_if b e)
  Keeps-fail_if true e = record { kept = λ w i. i }
  Keeps-fail_if false e = record { kept = λ w i. i }

  pub Keeps-ignore : (m : M S (Unit {0})) → Keeps I m → Keeps I (ignore m)
  unfolding ignore
  Keeps-ignore m h = record { kept = λ w i. drop_error_kept I (m w) (h.kept w i) }
