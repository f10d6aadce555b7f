-- ===== src/Auth/Session/Resolving.antt =====
-- What a session token resolves to.
use league_app.Base.{
  ℕ, ◌+◌, ◌≤◌, ◌≡◌, ◌⊎◌, inl, inr, refl, String, Bool-cases, true, false, not, Option, none, some,
  List, is_set, if◌then◌else◌, arith,
}
use league_app.Effects.{Result, ok, err, World, tick, pure, ◌>>=◌, query, clock}
use league_app.Effects.Logic.{
  Ends, Rest, Ends-pure, Ends-query, Ends-exec_last, Ends-bind, Ends-if, Ends-ignore,
}
use league_app.Auth.Identity.{AuthMethod, Identity, Assignment}
use league_app.Auth.Session.Password.{Argon2Params, Packages}
use league_app.Auth.Session.Db.{AuthDb, UserRecord, Session}
use league_app.Auth.Session.Store.{
  get_by_id, get_by_token_hash, touch, put_touch, list_for_user, user_by_id, session_by_hash,
}
use league_app.Auth.Session.Service.{
  ResolvedSession, identity_of, build_identity, slide, resolve_session, resolve_found,
  resolve_current, resolve_user, is_over, slid, absolute_cap, session_idle_timeout,
}

-- The session with the hash counts at the time `now`, and so does its user.
pub record Counts (now : ℕ) (s : AuthDb) (h : String) : Type 0 where
  pub row : Session
  pub user : UserRecord
  pub found : session_by_hash h s ≡ some row
  pub unrevoked : is_set row.revoked_at ≡ false
  pub before_expiry : now ≤ row.expires_at
  pub before_cap : now ≤ absolute_cap row
  pub owner : user_by_id row.user_id s ≡ some user
  pub is_active : user.active ≡ true

-- At most the session's times were written.
abbrev pub Touched : (now : ℕ) (s : AuthDb) (h : String) → Counts now s h → AuthDb → Type 0
Touched now s h c d = (d ≡ s) ⊎ (d ≡ put_touch c.row.id now (slid now c.row) s)

-- The session that is given: the row, with an expiry that is ahead of now, an idle timeout away at
-- most, and never past the session's absolute cap.
pub record Given (now : ℕ) (s : AuthDb) (h : String) (c : Counts now s h) (rs : ResolvedSession)
    : Type 0 where
  pub same : rs.session ≡ record c.row { last_seen_at = now; expires_at = slid now c.row }
  pub who : rs.identity.user_id ≡ c.user.id
  pub active : rs.identity.active ≡ true
  pub ahead : now ≤ rs.session.expires_at
  pub idle : rs.session.expires_at ≤ now + session_idle_timeout
  pub capped : rs.session.expires_at ≤ absolute_cap rs.session

slid_bounds :
    (now : ℕ) (row : Session)
    → now ≤ absolute_cap row
    → (now ≤ slid now row)
      × (slid now row ≤ now + session_idle_timeout)
      × (slid now row ≤ absolute_cap row)
slid_bounds now row h = ground arith

not_over :
    (now : ℕ) (row : Session)
    → is_over now row ≡ false
    → (now ≤ row.expires_at) × (now ≤ absolute_cap row)
not_over now row h = ground arith

-- What a call ends in.
abbrev pub Outcome : ℕ → AuthDb → String → Result (Option ResolvedSession) → AuthDb → Type 0
Outcome now s h (ok none) d = d ≡ s
Outcome now s h (ok (some rs)) d = (c : Counts now s h) × Given now s h c rs × Touched now s h c d
Outcome now s h (err e) d = (d ≡ s) ⊎ ((c : Counts now s h) × Touched now s h c d)

-- The row that is given for `c`.
abbrev pub given_row : {now : ℕ} {s : AuthDb} {h : String} → Counts now s h → Session
given_row {now} c = record c.row { last_seen_at = now; expires_at = slid now c.row }

-- The session that is given for `c`, with the identity `i`.
abbrev pub given_session :
    {now : ℕ} {s : AuthDb} {h : String} → Counts now s h → Identity → ResolvedSession
given_session c i = record { identity = i; session = given_row c }

module _ (packages : Packages) (target : Argon2Params) (method : AuthMethod) where
  open packages use {sha256_hex}

  given_lem :
      (now : ℕ) (s : AuthDb) (h : String) (c : Counts now s h) (roles : List Assignment)
      → Given now s h c (given_session c (identity_of method c.user roles))
  given_lem now s h c roles =
      let b = slid_bounds now c.row c.before_cap in
      record {
        same = refl;
        who = refl;
        active = c.is_active;
        ahead = b.0;
        idle = b.1;
        capped = b.2;
      }

  identity_rule :
      (now : ℕ) (s d : AuthDb) (h : String) (c : Counts now s h)
      → Touched now s h c d
      → Ends d
          (build_identity method c.user)
          (Rest (Outcome now s h) (λ i. pure (some (given_session c i))))
  unfolding build_identity list_for_user
  identity_rule now s d h c t =
      Ends-query _ _ (inr (c, t)) (Ends-pure (Ends-pure (c, given_lem now s h c _, t)))

  slide_rule :
      (now : ℕ) (s : AuthDb) (h : String) (c : Counts now s h)
      → Ends s (slide packages target method now c.row c.user) (Outcome now s h)
  unfolding slide touch
  slide_rule now s h c = Ends-bind _ _ (
      Ends-ignore _ (
        Ends-exec_last _ (Ends-bind _ _ (identity_rule now s s h c (inl refl)))
          (λ written. Ends-bind _ _ (identity_rule now s _ h c (inr refl)))))

  user_rule :
      (s : AuthDb) (h : String) (row : Session) (now : ℕ) (o : Option UserRecord)
      → session_by_hash h s ≡ some row
      → is_set row.revoked_at ≡ false
      → is_over now row ≡ false
      → user_by_id row.user_id s ≡ o
      → Ends s (resolve_user packages target method now row o) (Outcome now s h)
  user_rule s h row now none f live on own = Ends-pure refl
  user_rule s h row now (some u) f live on own =
      Ends-if (not u.active) (pure none) (slide packages target method now row u)
        (λ idle. Ends-pure refl)
        λ active.
          let b = not_over now row on in
          slide_rule now s h (record {
            row = row;
            user = u;
            found = f;
            unrevoked = live;
            before_expiry = b.0;
            before_cap = b.1;
            owner = own;
            is_active = ground arith;
          })

  live_rule :
      (s : AuthDb) (h : String) (row : Session) (now : ℕ)
      → session_by_hash h s ≡ some row
      → is_set row.revoked_at ≡ false
      → Ends s
          (if is_over now row then pure none else resolve_current packages target method now row)
          (Outcome now s h)
  unfolding get_by_id
  live_rule s h row now f live =
      Ends-if (is_over now row) (pure none) (resolve_current packages target method now row)
        (λ over. Ends-pure refl)
        λ on.
          Ends-query (user_by_id row.user_id) (resolve_user packages target method now row)
            (inl refl) (user_rule s h row now (user_by_id row.user_id s) f live on refl)

  abbrev Found : String → Option Session → World AuthDb → Type 0
  Found h o w =
      Outcome w.now w.db h (resolve_found packages target method o w).0
        (resolve_found packages target method o w).1.db

  token_rule :
      (h : String) (o : Option Session) (w : World AuthDb)
      → session_by_hash h w.db ≡ o
      → Found h o w
  unfolding ◌>>=◌ clock
  token_rule h none w f = refl
  token_rule h (some row) w f = elim (Bool-cases (is_set row.revoked_at)) [
    | inl gone ↦ rw gone refl
    | inr live ↦ rw live ((live_rule w.db h row w.now f live).run w refl)
  ]

  -- A token resolves to the session with its hash only where that session is unrevoked, neither
  -- idle for too long nor older than its absolute lifetime, and of an active user; the session given
  -- then expires no earlier than now, an idle timeout away at most, and never past its absolute
  -- lifetime, and at most its two times were written. Where there is none, nothing was written; after
  -- an error of the driver at most those two times of a session that counts were.
  pub resolve_session_outcome :
      (token : String) (w : World AuthDb)
      → Outcome w.now w.db
          (sha256_hex token)
          (resolve_session packages target method token w).0
          (resolve_session packages target method token w).1.db
  unfolding resolve_session get_by_token_hash query ◌>>=◌
  resolve_session_outcome token w = elim (Bool-cases (w.fails w.calls)) [
    | inl bad ↦ rw bad (inl refl)
    | inr good ↦ rw good (token_rule (sha256_hex token) _ (tick w) refl)
  ]
