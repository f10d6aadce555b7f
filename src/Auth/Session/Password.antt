-- ===== src/Auth/Session/Password.antt =====
-- backend/domains/auth/password.go and email.go. The packages that the code calls (argon2, base64,
-- rand, fmt, strings, regexp, sha256) are a parameter.
use league_app.Base.{
  ℕ, String, str_eq, Bool, not, ◌&&◌, ◌||◌, Option, none, some, List, [], ◌∷◌, ◌==◌, ltb,
  if◌then◌else◌,
}

pub record Argon2Params : Type 0 where
  pub memory : ℕ
  pub iterations : ℕ
  pub parallelism : ℕ
  pub salt_length : ℕ
  pub key_length : ℕ

abbrev pub argon2_version : ℕ
argon2_version = 19

abbrev pub max_argon2_memory_kib : ℕ
max_argon2_memory_kib = 1048576

abbrev pub max_argon2_iterations : ℕ
max_argon2_iterations = 50

abbrev pub max_argon2_parallelism : ℕ
max_argon2_parallelism = 16

abbrev pub max_argon2_salt_len : ℕ
max_argon2_salt_len = 128

abbrev pub max_argon2_hash_len : ℕ
max_argon2_hash_len = 256

-- `split` is `strings.Split(s, "$")` and `join` puts the parts together with "$";
-- `scan_version` is `Sscanf(s, "v=%d")` and `scan_params` is `Sscanf(s, "m=%d,t=%d,p=%d")`.
pub record Packages : Type 1 where
  pub Bytes : Type 0
  pub len : Bytes → ℕ
  pub constant_time_compare : Bytes → Bytes → Bool
  pub split : String → List String
  pub join : List String → String
  pub scan_version : String → Option ℕ
  pub print_version : ℕ → String
  pub scan_params : String → Option (ℕ × ℕ × ℕ)
  pub print_params : ℕ → ℕ → ℕ → String
  pub encode_base64 : Bytes → String
  pub decode_base64 : String → Option Bytes
  -- password, salt, iterations, memory, parallelism, key length
  pub id_key : String → Bytes → ℕ → ℕ → ℕ → ℕ → Bytes
  pub sha256_hex : String → String
  pub trim_space : String → String
  pub to_lower : String → String
  pub contains_space : String → Bool
  pub email_pattern : String → Bool

module _ (packages : Packages) where
  open packages use {
    Bytes, len, constant_time_compare, split, join, scan_version, print_version, scan_params,
    print_params, encode_base64, decode_base64, id_key, sha256_hex, trim_space, to_lower,
    contains_space, email_pattern,
  }

  -- With the salt that `rand.Read` gave.
  unfoldable pub hash_password : String → Argon2Params → Bytes → String
  hash_password password p salt =
      let hash = id_key password salt p.iterations p.memory p.parallelism p.key_length in
      join (
        ""
        ∷ "argon2id"
        ∷ print_version argon2_version
        ∷ print_params p.memory p.iterations p.parallelism
        ∷ encode_base64 salt
        ∷ encode_base64 hash
        ∷ [])

  pub record Decoded : Type 0 where
    pub memory : ℕ
    pub iterations : ℕ
    pub parallelism : ℕ
    pub salt : Bytes
    pub hash : Bytes

  abbrev pub out_of_range : ℕ → ℕ → Bool
  out_of_range n most = n == 0 || ltb most n

  abbrev pub with_lengths : ℕ → ℕ → ℕ → Option Bytes → Option Bytes → Option Decoded
  with_lengths m t p (some salt) (some hash) =
      if out_of_range (len salt) max_argon2_salt_len || out_of_range (len hash) max_argon2_hash_len
      then none
      else some (record { memory = m; iterations = t; parallelism = p; salt = salt; hash = hash })
  with_lengths m t p (some salt) none = none
  with_lengths m t p none hash = none

  abbrev pub with_params : Option (ℕ × ℕ × ℕ) → String → String → Option Decoded
  with_params none salt hash = none
  with_params (some (m, t, p)) salt hash =
      if out_of_range m max_argon2_memory_kib
        || (out_of_range t max_argon2_iterations || out_of_range p max_argon2_parallelism)
      then none
      else with_lengths m t p (decode_base64 salt) (decode_base64 hash)

  abbrev pub with_version : Option ℕ → String → String → String → Option Decoded
  with_version none params salt hash = none
  with_version (some v) params salt hash =
      if v == argon2_version then with_params (scan_params params) salt hash else none

  abbrev pub decode_parts : List String → Option Decoded
  decode_parts (p0 ∷ p1 ∷ p2 ∷ p3 ∷ p4 ∷ p5 ∷ []) =
      if str_eq p0 "" && str_eq p1 "argon2id" then with_version (scan_version p2) p3 p4 p5 else none
  decode_parts _ = none

  unfoldable pub decode_argon2_hash : String → Option Decoded
  decode_argon2_hash encoded = decode_parts (split encoded)

  abbrev pub candidate : String → Decoded → Bytes
  candidate password d = id_key password d.salt d.iterations d.memory d.parallelism (len d.hash)

  -- `none` is the error.
  abbrev pub verify_decoded : String → Option Decoded → Option Bool
  verify_decoded password none = none
  verify_decoded password (some d) = some (constant_time_compare d.hash (candidate password d))

  unfoldable pub verify_password : String → String → Option Bool
  verify_password password encoded = verify_decoded password (decode_argon2_hash encoded)

  abbrev pub is_weaker : Argon2Params → Option Decoded → Option Bool
  is_weaker target none = none
  is_weaker target (some d) = some (
      ltb d.memory target.memory
      || (ltb d.iterations target.iterations || ltb d.parallelism target.parallelism))

  unfoldable pub needs_rehash : String → Argon2Params → Option Bool
  needs_rehash encoded target = is_weaker target (decode_argon2_hash encoded)

  unfoldable pub normalize_email : String → Option String
  normalize_email raw =
      let lower = to_lower (trim_space raw) in
      if str_eq lower ""
      then none
      else if contains_space lower
      then none
      else if not (email_pattern lower)
      then none
      else some lower
