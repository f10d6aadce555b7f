-- ===== src/Auth/Session/Hashing.antt =====
-- A password against its own hash, and the cost of a stored hash.
use league_app.Base.{
  ℕ, ◌≤◌, ◌≡◌, refl, String, str_eq, Bool, Bool-cases, inl, inr, true, false, ◌&&◌, ◌||◌, Option,
  none, some, List, [], ◌∷◌, ◌==◌, arith, ap, ◌∙◌,
}
use league_app.Auth.Session.Password.{
  Argon2Params, Packages, Decoded, argon2_version, max_argon2_memory_kib, max_argon2_iterations,
  max_argon2_parallelism, max_argon2_salt_len, max_argon2_hash_len, hash_password, verify_decoded,
  is_weaker, verify_password, needs_rehash, decode_argon2_hash, decode_parts, out_of_range,
  with_lengths, with_params, with_version,
}

abbrev pub Within : ℕ → ℕ → Type 0
Within n most = (1 ≤ n) × (n ≤ most)

module _ (packages : Packages) where
  open packages use {
    Bytes, len, constant_time_compare, split, join, scan_version, print_version, scan_params,
    print_params, encode_base64, decode_base64, id_key,
  }

  -- What a hash of `p`'s cost has to be for the code to read it back.
  pub record Readable (p : Argon2Params) (salt hash : Bytes) : Type 0 where
    pub memory : Within p.memory max_argon2_memory_kib
    pub iterations : Within p.iterations max_argon2_iterations
    pub parallelism : Within p.parallelism max_argon2_parallelism
    pub salt_len : Within (len salt) max_argon2_salt_len
    pub hash_len : Within (len hash) max_argon2_hash_len

  in_range : (n most : ℕ) → Within n most → out_of_range packages n most ≡ false
  in_range n most h = ground arith

  with_lengths_lem :
      (p : Argon2Params) (salt hash : Bytes)
      → Readable p salt hash
      → with_lengths packages p.memory p.iterations p.parallelism (some salt) (some hash)
        ≡ some (record {
          memory = p.memory;
          iterations = p.iterations;
          parallelism = p.parallelism;
          salt = salt;
          hash = hash;
        })
  with_lengths_lem p salt hash r = rw (in_range _ _ r.salt_len, in_range _ _ r.hash_len) refl

  with_params_lem :
      (p : Argon2Params) (salt hash : Bytes) (s h : String)
      → decode_base64 s ≡ some salt
      → decode_base64 h ≡ some hash
      → Readable p salt hash
      → with_params packages (some (p.memory, p.iterations, p.parallelism)) s h
        ≡ some (record {
          memory = p.memory;
          iterations = p.iterations;
          parallelism = p.parallelism;
          salt = salt;
          hash = hash;
        })
  with_params_lem p salt hash s h es eh r =
      rw (in_range _ _ r.memory, in_range _ _ r.iterations, in_range _ _ r.parallelism, es, eh)
        (with_lengths_lem p salt hash r)

  abbrev pub derived : Argon2Params → String → Bytes → Bytes
  derived p password salt = id_key password salt p.iterations p.memory p.parallelism p.key_length

  -- The documented behaviour of the packages that the round trip stands on: what is printed scans
  -- and decodes back, the parts of a text without "$" inside them split apart again, a derived key
  -- has the length that was asked for, and equal byte strings compare equal.
  pub record RoundTrips (p : Argon2Params) (password : String) (salt : Bytes) : Type 0 where
    pub version : scan_version (print_version argon2_version) ≡ some argon2_version
    pub params :
        scan_params (print_params p.memory p.iterations p.parallelism)
        ≡ some (p.memory, p.iterations, p.parallelism)
    pub salt_text : decode_base64 (encode_base64 salt) ≡ some salt
    pub hash_text :
        decode_base64 (encode_base64 (derived p password salt)) ≡ some (derived p password salt)
    pub parts :
        split (
          join (
            ""
            ∷ "argon2id"
            ∷ print_version argon2_version
            ∷ print_params p.memory p.iterations p.parallelism
            ∷ encode_base64 salt
            ∷ encode_base64 (derived p password salt)
            ∷ []))
        ≡ ""
          ∷ "argon2id"
          ∷ print_version argon2_version
          ∷ print_params p.memory p.iterations p.parallelism
          ∷ encode_base64 salt
          ∷ encode_base64 (derived p password salt)
          ∷ []
    pub key_len : len (derived p password salt) ≡ p.key_length
    pub equal : constant_time_compare (derived p password salt) (derived p password salt) ≡ true

  decode-hash :
      (p : Argon2Params) (password : String) (salt : Bytes)
      → RoundTrips p password salt
      → Readable p salt (derived p password salt)
      → decode_argon2_hash packages (hash_password packages password p salt)
        ≡ some (record {
          memory = p.memory;
          iterations = p.iterations;
          parallelism = p.parallelism;
          salt = salt;
          hash = derived p password salt;
        })
  unfolding decode_argon2_hash hash_password
  decode-hash p password salt t r =
      rw (t.parts, t.version, t.params) (with_params_lem p salt _ _ _ t.salt_text t.hash_text r)

  -- A password verifies against the hash that was made of it, whatever its salt and its cost, where
  -- the cost is within the ceilings that the code puts on a stored hash, and that hash needs no
  -- rehash for the same cost.
  pub verify_password-hash_password :
      (p : Argon2Params) (password : String) (salt : Bytes)
      → RoundTrips p password salt
      → Readable p salt (derived p password salt)
      → (verify_password packages password (hash_password packages password p salt) ≡ some true)
        × (needs_rehash packages (hash_password packages password p salt) p ≡ some false)
  unfolding verify_password needs_rehash
  verify_password-hash_password p password salt t r =
      let e = decode-hash p password salt t r in
      (
        ap (verify_decoded packages password) e
            ∙ ap some (
                ap (constant_time_compare (derived p password salt))
                  (ap (id_key password salt p.iterations p.memory p.parallelism) t.key_len)
                ∙ t.equal),
        ap (is_weaker packages p) e ∙ ap some (ground arith),
      )

  -- The cost that a decoded hash asks for is positive and within the code's ceilings.
  abbrev pub IsAffordable : Option (Decoded packages) → Type 0
  IsAffordable none = Unit
  IsAffordable (some d) =
      Within d.memory max_argon2_memory_kib
      × Within d.iterations max_argon2_iterations
      × Within d.parallelism max_argon2_parallelism
      × Within (len d.salt) max_argon2_salt_len
      × Within (len d.hash) max_argon2_hash_len

  within :
      (n most : ℕ) (b : Bool)
      → out_of_range packages n most || b ≡ false
      → Within n most × (b ≡ false)
  within n most b h = ground arith

  in_bounds : (n most : ℕ) → out_of_range packages n most ≡ false → Within n most
  in_bounds n most h = ground arith

  with_lengths-IsAffordable :
      (m t p : ℕ) (salt hash : Option Bytes)
      → Within m max_argon2_memory_kib
      → Within t max_argon2_iterations
      → Within p max_argon2_parallelism
      → IsAffordable (with_lengths packages m t p salt hash)
  with_lengths-IsAffordable m t p (some salt) (some hash) hm ht hp =
      elim (Bool-cases (
        out_of_range packages (len salt) max_argon2_salt_len
        || out_of_range packages (len hash) max_argon2_hash_len)) [
          | inl bad ↦ rw bad tt
          | inr good ↦ let a = within _ _ _ good in rw good (hm, ht, hp, a.0, in_bounds _ _ a.1)
        ]
  with_lengths-IsAffordable m t p (some salt) none hm ht hp = tt
  with_lengths-IsAffordable m t p none hash hm ht hp = tt

  with_params-IsAffordable :
      (o : Option (ℕ × ℕ × ℕ)) (salt hash : String)
      → IsAffordable (with_params packages o salt hash)
  with_params-IsAffordable none salt hash = tt
  with_params-IsAffordable (some (m, t, p)) salt hash =
      elim (Bool-cases (
        out_of_range packages m max_argon2_memory_kib
        || (out_of_range packages t max_argon2_iterations
            || out_of_range packages p max_argon2_parallelism))) [
              | inl bad ↦ rw bad tt
              | inr good ↦
                  let a = within _ _ _ good in
                  let b = within _ _ _ a.1 in
                  rw good (
                    with_lengths-IsAffordable m t p (decode_base64 salt) (decode_base64 hash) a.0
                      b.0 (in_bounds _ _ b.1))
            ]

  with_version-IsAffordable :
      (o : Option ℕ) (params salt hash : String)
      → IsAffordable (with_version packages o params salt hash)
  with_version-IsAffordable none params salt hash = tt
  with_version-IsAffordable (some v) params salt hash = elim (Bool-cases (v == argon2_version)) [
    | inl same ↦ rw same (with_params-IsAffordable (scan_params params) salt hash)
    | inr other ↦ rw other tt
  ]

  decode_parts-IsAffordable : (ps : List String) → IsAffordable (decode_parts packages ps)
  decode_parts-IsAffordable [] = tt
  decode_parts-IsAffordable (a ∷ []) = tt
  decode_parts-IsAffordable (a ∷ b ∷ []) = tt
  decode_parts-IsAffordable (a ∷ b ∷ c ∷ []) = tt
  decode_parts-IsAffordable (a ∷ b ∷ c ∷ d ∷ []) = tt
  decode_parts-IsAffordable (a ∷ b ∷ c ∷ d ∷ e ∷ []) = tt
  decode_parts-IsAffordable (a ∷ b ∷ c ∷ d ∷ e ∷ f ∷ []) =
      elim (Bool-cases (str_eq a "" && str_eq b "argon2id")) [
        | inl good ↦ rw good (with_version-IsAffordable (scan_version c) d e f)
        | inr bad ↦ rw bad tt
      ]
  decode_parts-IsAffordable (a ∷ b ∷ c ∷ d ∷ e ∷ f ∷ g ∷ r) = tt

  -- Whatever text a password is verified against, every number that the derivation of the key is
  -- called with, read from that text, is positive and within the code's ceilings: a text that asks
  -- for more is refused before.
  pub decode_argon2_hash-IsAffordable :
      (encoded : String) → IsAffordable (decode_argon2_hash packages encoded)
  unfolding decode_argon2_hash
  decode_argon2_hash-IsAffordable encoded = decode_parts-IsAffordable (split encoded)
