-- ===== src/Effects/Logic.antt =====
-- A logic for the services: what holds of the result and of the database in which a run ends, by
-- the database in which it begins, whichever calls of the driver fail.
use league_app.Base.{
  if◌then◌else◌, ℕ, ◌≡◌, refl, sym, subst, ◌⊎◌, inl, inr, Bool, true, false, Option, none, some,
  Bool-cases,
}
use league_app.Effects.{
  Err, infra, Result, ok, err, World, M, pure, throw, ◌>>=◌, ◌>>◌, fail_if, require, query,
  query_or, exec, run_tx, map_err, settle, map_result, tick, continue, clock, ignore, drop_error,
}

-- Every run of `m` from the database `s` ends in a result and a database that satisfy `P`.
pub record Ends {S A : Type 0} (s : S) (m : M S A) (P : Result A → S → Type 0) : Type 0 where
  pub run : (w : World S) → w.db ≡ s → P (m w).0 (m w).1.db

-- One statement for a value, another for an error.
abbrev pub Either : {A : Type 0} → Result A → (A → Type 0) → (Err → Type 0) → Type 0
Either (ok a) good bad = good a
Either (err x) good bad = bad x

settle_lem :
    {S A : Type 0} (s : S) (P : Result A → S → Type 0) (w : World S) (r : Result A × World S)
    → w.db ≡ s
    → P (err infra) s
    → Either r.0 (λ a. P (ok a) r.1.db) (λ x. P (err x) s)
    → P (settle w.db r).0 (settle w.db r).1.db
settle_lem s P w (err x, v) e failed h = subst (P (err x)) (sym e) h
settle_lem s P w (ok a, v) e failed h = elim (Bool-cases (v.fails v.calls)) [
  | inl bad ↦ rw bad (subst (P (err infra)) (sym e) failed)
  | inr good ↦ rw good h
]

map_result_lem :
    {S A : Type 0} (P : Result A → S → Type 0) (f : Err → Err) (r : Result A × World S)
    → Either r.0 (λ a. P (ok a) r.1.db) (λ x. P (err (f x)) r.1.db)
    → P (map_result f r).0 (map_result f r).1.db
map_result_lem P f (ok a, w) h = h
map_result_lem P f (err x, w) h = h

continue_lem :
    {S A B : Type 0} (P : Result A → S → Type 0) (k : B → M S A) (r : Result B × World S)
    → Either r.0 (λ b. Ends r.1.db (k b) P) (λ x. P (err x) r.1.db)
    → P (continue k r).0 (continue k r).1.db
continue_lem P k (ok b, w) h = h.run w refl
continue_lem P k (err x, w) h = h

pub Ends-fail_if_last :
    {S : Type 0} {s : S} {Q : Result (Unit {0}) → S → Type 0} (b : Bool) (x : Err)
    → (b ≡ true → Q (err x) s)
    → (b ≡ false → Q (ok tt) s)
    → Ends s (fail_if b x) Q
Ends-fail_if_last {Q} true x failed next = record {
  run = λ w e. subst (Q (err x)) (sym e) (failed refl);
}
Ends-fail_if_last {Q} false x failed next = record {
  run = λ w e. subst (Q (ok tt)) (sym e) (next refl);
}

-- What the first part of a run has to end in, for the rest `k` to end in `P`.
abbrev pub Rest : {S A B : Type 0} → (Result A → S → Type 0) → (B → M S A) → Result B → S → Type 0
Rest P k r d = Either r (λ b. Ends d (k b) P) (λ x. P (err x) d)

module _ {S A : Type 0} {s : S} {P : Result A → S → Type 0} where
  pub Ends-pure : {a : A} → P (ok a) s → Ends s (pure a) P
  Ends-pure {a} h = record { run = λ w e. subst (P (ok a)) (sym e) h }

  pub Ends-throw : {x : Err} → P (err x) s → Ends s (throw x) P
  Ends-throw {x} h = record { run = λ w e. subst (P (err x)) (sym e) h }

  pub Ends-query :
      {B : Type 0} (f : S → B) (k : B → M S A)
      → P (err infra) s
      → Ends s (k (f s)) P
      → Ends s (query f >>= k) P
  unfolding query ◌>>=◌
  Ends-query f k failed next = record { run = λ w e. go w e (Bool-cases (w.fails w.calls)) }
    where
      go :
          (w : World S)
          → w.db ≡ s
          → (w.fails w.calls ≡ true) ⊎ (w.fails w.calls ≡ false)
          → P ((query f >>= k) w).0 ((query f >>= k) w).1.db
      go w e (inl bad) = rw bad (subst (P (err infra)) (sym e) failed)
      go w e (inr good) = rw good (
          subst (λ d. P (k (f d) (tick w)).0 (k (f d) (tick w)).1.db) (sym e) (next.run (tick w) e))

  pub Ends-query_or :
      {B : Type 0} (z : B) (f : S → B) (k : B → M S A)
      → Ends s (k z) P
      → Ends s (k (f s)) P
      → Ends s (query_or z f >>= k) P
  unfolding query_or ◌>>=◌
  Ends-query_or z f k failed next = record { run = λ w e. go w e (Bool-cases (w.fails w.calls)) }
    where
      go :
          (w : World S)
          → w.db ≡ s
          → (w.fails w.calls ≡ true) ⊎ (w.fails w.calls ≡ false)
          → P ((query_or z f >>= k) w).0 ((query_or z f >>= k) w).1.db
      go w e (inl bad) = rw bad (failed.run (tick w) e)
      go w e (inr good) = rw good (
          subst (λ d. P (k (f d) (tick w)).0 (k (f d) (tick w)).1.db) (sym e) (next.run (tick w) e))

  pub Ends-exec :
      {B : Type 0} (f : ℕ → S → B × S) (k : B → M S A)
      → P (err infra) s
      → ((now : ℕ) → Ends (f now s).1 (k (f now s).0) P)
      → Ends s (exec f >>= k) P
  unfolding exec ◌>>=◌
  Ends-exec f k failed next = record { run = λ w e. go w e (Bool-cases (w.fails w.calls)) }
    where
      go :
          (w : World S)
          → w.db ≡ s
          → (w.fails w.calls ≡ true) ⊎ (w.fails w.calls ≡ false)
          → P ((exec f >>= k) w).0 ((exec f >>= k) w).1.db
      go w e (inl bad) = rw bad (subst (P (err infra)) (sym e) failed)
      go w e (inr good) = rw good ((subst after (sym e) (next w.now)).run _ refl)
        where
          after : S → Type 0
          after d = Ends (f w.now d).1 (k (f w.now d).0) P

  pub Ends-if :
      (b : Bool) (m n : M S A)
      → (b ≡ true → Ends s m P)
      → (b ≡ false → Ends s n P)
      → Ends s (if b then m else n) P
  Ends-if true m n h g = h refl
  Ends-if false m n h g = g refl

  pub Ends-clock : (k : ℕ → M S A) → ((now : ℕ) → Ends s (k now) P) → Ends s (clock >>= k) P
  unfolding clock ◌>>=◌
  Ends-clock k next = record { run = λ w e. (next w.now).run w e }

  pub Ends-fail_if :
      (b : Bool) (x : Err) (k : M S A)
      → (b ≡ true → P (err x) s)
      → (b ≡ false → Ends s k P)
      → Ends s (fail_if b x >> k) P
  unfolding ◌>>=◌
  Ends-fail_if true x k failed next = record {
    run = λ w e. subst (P (err x)) (sym e) (failed refl);
  }
  Ends-fail_if false x k failed next = record { run = λ w e. (next refl).run w e }

  pub Ends-require :
      {B : Type 0} (o : Option B) (x : Err) (k : B → M S A)
      → (o ≡ none → P (err x) s)
      → ((b : B) → o ≡ some b → Ends s (k b) P)
      → Ends s (require o x >>= k) P
  unfolding ◌>>=◌
  Ends-require none x k failed next = record {
    run = λ w e. subst (P (err x)) (sym e) (failed refl);
  }
  Ends-require (some b) x k failed next = record { run = λ w e. (next b refl).run w e }

  pub Ends-require_last :
      (o : Option A) (x : Err)
      → (o ≡ none → P (err x) s)
      → ((a : A) → o ≡ some a → P (ok a) s)
      → Ends s (require o x) P
  Ends-require_last none x failed next = Ends-throw (failed refl)
  Ends-require_last (some a) x failed next = Ends-pure (next a refl)

  pub Ends-exec_last :
      (f : ℕ → S → A × S)
      → P (err infra) s
      → ((now : ℕ) → P (ok (f now s).0) (f now s).1)
      → Ends s (exec f) P
  unfolding exec
  Ends-exec_last f failed next = record { run = λ w e. go w e (Bool-cases (w.fails w.calls)) }
    where
      go :
          (w : World S)
          → w.db ≡ s
          → (w.fails w.calls ≡ true) ⊎ (w.fails w.calls ≡ false)
          → P (exec f w).0 (exec f w).1.db
      go w e (inl bad) = rw bad (subst (P (err infra)) (sym e) failed)
      go w e (inr good) =
          rw good (subst (λ d. P (ok (f w.now d).0) (f w.now d).1) (sym e) (next w.now))

  -- What a transaction promises, if its body promises `P` after a commit, and the error that `P`
  -- tolerates on the untouched database otherwise.
  pub Ends-run_tx :
      (m : M S A)
      → P (err infra) s
      → Ends s m (λ r d. Either r (λ a. P (ok a) d) (λ x. P (err x) s))
      → Ends s (run_tx m) P
  unfolding run_tx
  Ends-run_tx m failed body = record { run = λ w e. go w e (Bool-cases (w.fails w.calls)) }
    where
      go :
          (w : World S)
          → w.db ≡ s
          → (w.fails w.calls ≡ true) ⊎ (w.fails w.calls ≡ false)
          → P (run_tx m w).0 (run_tx m w).1.db
      go w e (inl bad) = rw bad (subst (P (err infra)) (sym e) failed)
      go w e (inr good) = rw good (settle_lem s P w (m (tick w)) e failed (body.run (tick w) e))

  pub Ends-map_err :
      (f : Err → Err) (m : M S A)
      → Ends s m (λ r d. Either r (λ a. P (ok a) d) (λ x. P (err (f x)) d))
      → Ends s (map_err f m) P
  unfolding map_err
  Ends-map_err f m body = record { run = λ w e. map_result_lem P f (m w) (body.run w e) }

  pub Ends-bind :
      {B : Type 0} (m : M S B) (k : B → M S A) → Ends s m (Rest P k) → Ends s (m >>= k) P
  unfolding ◌>>=◌
  Ends-bind m k h = record { run = λ w e. continue_lem P k (m w) (h.run w e) }

drop_error_lem :
    {S : Type 0} (P : Result (Unit {0}) → S → Type 0) (r : Result (Unit {0}) × World S)
    → P (ok tt) r.1.db
    → P (drop_error r).0 (drop_error r).1.db
drop_error_lem P (ok a, w) h = h
drop_error_lem P (err e, w) h = h

-- A step whose error is dropped, and what its database satisfies either way.
pub Ends-ignore :
    {S : Type 0} {s : S} {P : Result (Unit {0}) → S → Type 0} (m : M S (Unit {0}))
    → Ends s m (λ r d. P (ok tt) d)
    → Ends s (ignore m) P
unfolding ignore
Ends-ignore {P} m h = record { run = λ w e. drop_error_lem P (m w) (h.run w e) }

-- A weaker promise.
pub Ends-mono :
    {S A : Type 0} {s : S} {m : M S A} {P Q : Result A → S → Type 0}
    → Ends s m P
    → ((r : Result A) (d : S) → P r d → Q r d)
    → Ends s m Q
Ends-mono {m} h f = record { run = λ w e. f (m w).0 (m w).1.db (h.run w e) }

pub Either-map :
    {A : Type 0} {G H : A → Type 0} (B : Err → Type 0) (r : Result A)
    → ((a : A) → G a → H a)
    → Either r G B
    → Either r H B
Either-map B (ok a) f h = f a h
Either-map B (err x) f h = h

-- What holds of a value that a run did give.
pub Either-ok :
    {A : Type 0} (G : A → Type 0) (B : Err → Type 0) (r : Result A) (a : A)
    → r ≡ ok a
    → Either r G B
    → G a
Either-ok G B r a e h = subst (λ x. Either x G B) e h

-- A run from a database that is the same one.
pub Ends-at :
    {S A : Type 0} {s d : S} {m : M S A} {P : Result A → S → Type 0}
    → d ≡ s
    → Ends s m P
    → Ends d m P
Ends-at {m} {P} e h = subst (λ x. Ends x m P) (sym e) h
