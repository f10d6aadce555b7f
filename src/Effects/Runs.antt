-- ===== src/Effects/Runs.antt =====
-- Runs in which no call of the driver fails: what they certainly give.
use league_app.Base.{ℕ, ◌≡◌, refl, sym, subst, Bool, true, false, Option, some, if◌then◌else◌}
use league_app.Effects.{
  Err, Result, ok, err, World, M, pure, ◌>>=◌, ◌>>◌, continue, fail_if, require, query, exec,
  run_tx, settle, tick,
}

abbrev pub NeverFails : {S : Type 0} → World S → Type 0
NeverFails w = (n : ℕ) → w.fails n ≡ false

-- A value and a database that satisfy `Q`, in a world in which still no call fails.
abbrev pub Reached : {S A : Type 0} → (A → S → Type 0) → Result A × World S → Type 0
Reached Q (ok a, w) = Q a w.db × NeverFails w
Reached Q (err e, w) = ⊥

-- From `s`, if no call fails, `m` gives a value.
pub record Runs {S A : Type 0} (s : S) (m : M S A) (Q : A → S → Type 0) : Type 0 where
  pub reach : (w : World S) → w.db ≡ s → NeverFails w → Reached Q (m w)

continue-Reached :
    {S A B : Type 0} (Q : A → S → Type 0) (R : B → S → Type 0) (k : B → M S A)
    (r : Result B × World S)
    → ((b : B) (d : S) → R b d → Runs d (k b) Q)
    → Reached R r
    → Reached Q (continue k r)
continue-Reached Q R k (ok b, w) h (x, calm) = (h b w.db x).reach w refl calm
continue-Reached Q R k (err e, w) h x = x

settle-Reached :
    {S A : Type 0} (Q : A → S → Type 0) (s : S) (r : Result A × World S)
    → Reached Q r
    → Reached Q (settle s r)
settle-Reached Q s (ok a, w) (x, calm) = rw (calm w.calls) (x, calm)
settle-Reached Q s (err e, w) x = x

module _ {S A : Type 0} {s : S} {Q : A → S → Type 0} where
  pub Runs-pure : {a : A} → Q a s → Runs s (pure a) Q
  Runs-pure {a} h = record { reach = λ w e calm. (subst (Q a) (sym e) h, calm) }

  pub Runs-query :
      {B : Type 0} (f : S → B) (k : B → M S A) → Runs s (k (f s)) Q → Runs s (query f >>= k) Q
  unfolding query ◌>>=◌
  Runs-query f k next = record {
    reach = λ w e calm.
        rw (calm w.calls)
          (subst (λ d. Reached Q (k (f d) (tick w))) (sym e) (next.reach (tick w) e calm));
  }

  pub Runs-exec :
      {B : Type 0} (f : ℕ → S → B × S) (k : B → M S A)
      → ((now : ℕ) → Runs (f now s).1 (k (f now s).0) Q)
      → Runs s (exec f >>= k) Q
  unfolding exec ◌>>=◌
  Runs-exec f k next = record {
    reach = λ w e calm. rw (calm w.calls) (
        (subst (λ d. Runs (f w.now d).1 (k (f w.now d).0) Q) (sym e) (next w.now)).reach _ refl
          calm);
  }

  pub Runs-fail_if :
      (b : Bool) (x : Err) (k : M S A) → b ≡ false → Runs s k Q → Runs s (fail_if b x >> k) Q
  unfolding ◌>>=◌
  Runs-fail_if b x k h next = record { reach = λ w e calm. rw h (next.reach w e calm) }

  pub Runs-require :
      {B : Type 0} (o : Option B) (x : Err) (k : B → M S A) (b : B)
      → o ≡ some b
      → Runs s (k b) Q
      → Runs s (require o x >>= k) Q
  unfolding ◌>>=◌
  Runs-require o x k b h next = record { reach = λ w e calm. rw h (next.reach w e calm) }

  pub Runs-if_true :
      (b : Bool) (m n : M S A) → b ≡ true → Runs s m Q → Runs s (if b then m else n) Q
  Runs-if_true b m n h next = rw h next

  pub Runs-if_false :
      (b : Bool) (m n : M S A) → b ≡ false → Runs s n Q → Runs s (if b then m else n) Q
  Runs-if_false b m n h next = rw h next

  pub Runs-run_tx : (m : M S A) → Runs s m Q → Runs s (run_tx m) Q
  unfolding run_tx
  Runs-run_tx m body = record {
    reach = λ w e calm.
        rw (calm w.calls) (settle-Reached Q w.db (m (tick w)) (body.reach (tick w) e calm));
  }

  pub Runs-bind :
      {B : Type 0} (R : B → S → Type 0) (m : M S B) (k : B → M S A)
      → Runs s m R
      → ((b : B) (d : S) → R b d → Runs d (k b) Q)
      → Runs s (m >>= k) Q
  unfolding ◌>>=◌
  Runs-bind R m k h next = record {
    reach = λ w e calm. continue-Reached Q R k (m w) next (h.reach w e calm);
  }

  -- A step that only reads, and the value that it reads.
  pub Runs-read :
      {B : Type 0} (b : B) (m : M S B) (k : B → M S A)
      → Runs s m (λ c d. (d ≡ s) × (c ≡ b))
      → Runs s (k b) Q
      → Runs s (m >>= k) Q
  Runs-read b m k h next =
      Runs-bind _ m k h (λ c d e.
        subst (λ x. Runs x (k c) Q) (sym e.0) (subst (λ y. Runs s (k y) Q) (sym e.1) next))
