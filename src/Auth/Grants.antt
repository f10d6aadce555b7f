-- ===== src/Auth/Grants.antt =====
-- What the tests of identity.go find among the assignments.
use league_app.Base.{
  ℕ, ◌≡◌, refl, Bool, true, false, ◌&&◌, Option, none, some, List, [], ◌∷◌, exists_in, ◌==◌, ◌↔◌,
  inl, inr, Bool-cases, ==_iff, arith, sym, subst, ◌∙◌, ap, of_some,
}
use league_app.Auth.Identity.{
  Identity, Assignment, RoleCode, system_admin, league_admin, is_system_role, is_league_role, is_id,
  is_system_admin, is_league_admin_for, is_any_league_admin,
}

-- A grant among the assignments.
pub data Holds : RoleCode → Option ℕ → List Assignment → Type 0 where
  first :
      {r : RoleCode} {l : Option ℕ} {a : Assignment} {rest : List Assignment}
      → a.role_code ≡ r
      → a.league_id ≡ l
      → Holds r l (a ∷ rest)
  later :
      {r : RoleCode} {l : Option ℕ} {a : Assignment} {rest : List Assignment}
      → Holds r l rest
      → Holds r l (a ∷ rest)

system_role : (r : RoleCode) → is_system_role r ≡ true → r ≡ system_admin
system_role system_admin e = refl
system_role league_admin e = ground arith

league_role : (r : RoleCode) → is_league_role r ≡ true → r ≡ league_admin
league_role system_admin e = ground arith
league_role league_admin e = refl

league_role_false : (r : RoleCode) → is_league_role r ≡ false → r ≡ league_admin → ⊥
league_role_false system_admin e h = ground arith
league_role_false league_admin e h = ground arith

the_id : (o : Option ℕ) (n : ℕ) → (is_id o n ≡ true) ↔ (o ≡ some n)
the_id none n = ground arith
the_id (some m) n = ground arith

-- A test that finds an assignment, against the grants that meet it.
found :
    (p : Assignment → Bool) (r : RoleCode) (gs : List Assignment)
    → ((a : Assignment) → p a ≡ true → a.role_code ≡ r)
    → exists_in p gs ≡ true
    → (l : Option ℕ) × Holds r l gs × ((a : Assignment) × (p a ≡ true) × (a.league_id ≡ l))
found p r [] h e = ground arith
found p r (a ∷ gs) h e = elim (Bool-cases (p a)) [
  | inl t ↦ (a.league_id, first (h a t) refl, (a, t, refl))
  | inr f ↦ let (l, g, b) = found p r gs h (ground arith) in (l, later g, b)
]

grant_found :
    (p : Assignment → Bool) (r : RoleCode) (l : Option ℕ) (gs : List Assignment)
    → ((a : Assignment) → a.role_code ≡ r → a.league_id ≡ l → p a ≡ true)
    → Holds r l gs
    → exists_in p gs ≡ true
grant_found p r l [] h g = elim g [ ]
grant_found p r l (a ∷ gs) h (first er el) = let t = h a er el in ground arith
grant_found p r l (a ∷ gs) h (later g) = let t = grant_found p r l gs h g in ground arith

and_true : (a b : Bool) → ((a && b) ≡ true) ↔ (a ≡ true) × (b ≡ true)
and_true a b = ground arith

pub system_iff :
    (id : Identity)
    → (is_system_admin id ≡ true) ↔ ((l : Option ℕ) × Holds system_admin l id.assignments)
unfolding is_system_admin
system_iff id = (
  λ e.
      let (l, g, b) =
        found (λ a. is_system_role a.role_code) system_admin id.assignments
          (λ a. system_role a.role_code) e in
      (l, g),
  λ h.
      grant_found (λ a. is_system_role a.role_code) system_admin h.0 id.assignments
        (λ a er el. ap is_system_role er) h.1,
)

pub founder_iff :
    (id : Identity)
    → (is_any_league_admin id ≡ true) ↔ ((l : Option ℕ) × Holds league_admin l id.assignments)
unfolding is_any_league_admin
founder_iff id = (
  λ e.
      let (l, g, b) =
        found (λ a. is_league_role a.role_code) league_admin id.assignments
          (λ a. league_role a.role_code) e in
      (l, g),
  λ h.
      grant_found (λ a. is_league_role a.role_code) league_admin h.0 id.assignments
        (λ a er el. ap is_league_role er) h.1,
)

pub league_iff :
    (id : Identity) (n : ℕ)
    → (is_league_admin_for id n ≡ true) ↔ Holds league_admin (some n) id.assignments
unfolding is_league_admin_for
league_iff id n = (
  λ e.
      let (l, g, (a, t, el)) =
        found (λ a. is_league_role a.role_code && is_id a.league_id n) league_admin id.assignments
          (λ a t.
            league_role a.role_code
              ((and_true (is_league_role a.role_code) (is_id a.league_id n)).0 t).0)
          e in
      subst (λ o. Holds league_admin o id.assignments)
        (sym el
          ∙ (the_id a.league_id n).0
              ((and_true (is_league_role a.role_code) (is_id a.league_id n)).0 t).1)
        g,
  λ h.
      grant_found (λ a. is_league_role a.role_code && is_id a.league_id n) league_admin (some n)
        id.assignments
        (λ a er el.
          (and_true (is_league_role a.role_code) (is_id a.league_id n)).1
            (ap is_league_role er, (the_id a.league_id n).1 el))
        h,
)

pub scoped_iff :
    (id : Identity) (o : Option ℕ)
    → (elim o [ none ↦ false | some l ↦ is_league_admin_for id l ] ≡ true)
      ↔ ((l : ℕ) × (o ≡ some l) × Holds league_admin (some l) id.assignments)
scoped_iff id none = (λ e. ground arith, λ h. ground arith)
scoped_iff id (some n) = (
  λ e. (n, refl, (league_iff id n).0 e),
  λ (l, e, g).
      (league_iff id n).1
        (subst (λ k. Holds league_admin (some k) id.assignments) (sym (of_some e)) g),
)

pub owner_iff :
    (p q : Option ℕ)
    → (elim p [ none ↦ false | some a ↦ elim q [ none ↦ false | some b ↦ a == b ] ] ≡ true)
      ↔ ((a : ℕ) × (p ≡ some a) × (q ≡ some a))
owner_iff none q = (λ e. ground arith, λ h. ground arith)
owner_iff (some a) none = (λ e. ground arith, λ h. ground arith)
owner_iff (some a) (some b) = (
  λ e. (a, refl, ap some (sym ((==_iff a b).0 e))),
  λ (c, e, f). (==_iff a b).1 (of_some e ∙ sym (of_some f)),
)
