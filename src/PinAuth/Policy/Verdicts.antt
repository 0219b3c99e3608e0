-- ===== src/PinAuth/Policy/Verdicts.antt =====
-- crates/service/src/pin_auth.rs: what an answer of `verify_pin` says of the stored hash.
use palka.Base.{
  ℕ, ◌≡◌, ◌↔◌, subst, ap, ◌∙◌, Bool, true, false, some, ok, String, str_eq, str_eq_iff, arith,
}
use palka.PinAuth.Policy.{
  Argon2Library, matches, check_algorithm, check_parameters, check_presence, check_candidate,
  verify_pin, hash_pin,
}

module _ (lib : Argon2Library) where
  -- A parameter of the hash has a value.
  abbrev pub HasParameter : lib.PasswordHash → String → ℕ → Type 0
  HasParameter hash name n =
      (i : lib.Identifier) × (v : lib.Value) × (lib.identifier name ≡ ok i)
      × (lib.parameter hash i ≡ some v)
      × (lib.decimal v ≡ ok n)

  pub record MeetsPolicy (hash : lib.PasswordHash) : Type 0 where
    pub is_argon2id : lib.algorithm hash ≡ "argon2id"
    pub is_version_19 : lib.version hash ≡ some 19
    pub memory : HasParameter hash "m" 65536
    pub time : HasParameter hash "t" 3
    pub lanes : HasParameter hash "p" 4
    pub no_other : lib.parameter_count hash ≡ 3
    pub salted : lib.has_salt hash ≡ true
    pub hashed : lib.has_hash hash ≡ true

  check_algorithm-eq-ok :
      (hash : lib.PasswordHash) (u : Unit)
      → check_algorithm lib hash ≡ ok u
      → (lib.algorithm hash ≡ "argon2id") × (lib.version hash ≡ some 19)
  unfolding check_algorithm
  check_algorithm-eq-ok hash u h = ground (arith, str_eq_iff (lib.algorithm hash) "argon2id")

  check_presence-eq-ok :
      (hash : lib.PasswordHash) (u : Unit)
      → check_presence lib hash ≡ ok u
      → (lib.has_salt hash ≡ true) × (lib.has_hash hash ≡ true)
  unfolding check_presence
  check_presence-eq-ok hash u h = ground arith

  check_parameters-eq-ok :
      (hash : lib.PasswordHash) (u : Unit)
      → check_parameters lib hash ≡ ok u
      → HasParameter hash "m" 65536
        × HasParameter hash "t" 3
        × HasParameter hash "p" 4
        × (lib.parameter_count hash ≡ 3)
  unfolding check_parameters
  check_parameters-eq-ok hash u h = ground arith

  check_candidate-eq-true :
      (pin : String) (hash : lib.PasswordHash)
      → check_candidate lib pin hash ≡ ok true
      → (str_eq pin "" ≡ false)
        × (params : lib.Params) × (lib.new_params 65536 3 4 ≡ ok params)
        × (lib.verify_password (lib.new_argon2 lib.argon2id lib.v0x13 params) pin hash ≡ matches)
  unfolding check_candidate
  check_candidate-eq-true pin hash h = ground arith

  policy_complete :
      (hash : lib.PasswordHash)
      → MeetsPolicy hash
      → (check_algorithm lib hash ≡ ok tt)
        × (check_parameters lib hash ≡ ok tt)
        × (check_presence lib hash ≡ ok tt)
  unfolding check_algorithm check_parameters check_presence
  policy_complete hash h =
      (ground (arith, str_eq_iff (lib.algorithm hash) "argon2id"), ground arith, ground arith)

  Checked : String → String → lib.PasswordHash → Bool → Type 0
  Checked pin stored hash answer =
      (lib.parse stored ≡ ok hash)
      × (check_algorithm lib hash ≡ ok tt)
      × (check_parameters lib hash ≡ ok tt)
      × (check_presence lib hash ≡ ok tt)
      × (check_candidate lib pin hash ≡ ok answer)

  verify_pin-Checked :
      (pin stored : String) (answer : Bool)
      → verify_pin lib pin stored ≡ ok answer
      → (hash : lib.PasswordHash) × Checked pin stored hash answer
  unfolding verify_pin Checked
  verify_pin-Checked pin stored answer h = ground arith

  Checked-verify_pin :
      (pin stored : String) (hash : lib.PasswordHash) (answer : Bool)
      → Checked pin stored hash answer
      → verify_pin lib pin stored ≡ ok answer
  unfolding verify_pin Checked
  Checked-verify_pin pin stored hash answer h = ground arith

  Checked-MeetsPolicy :
      (pin stored : String) (hash : lib.PasswordHash) (answer : Bool)
      → Checked pin stored hash answer
      → MeetsPolicy hash
  unfolding Checked
  Checked-MeetsPolicy pin stored hash answer c =
      let a = check_algorithm-eq-ok hash tt c.1 in
      let b = check_parameters-eq-ok hash tt c.2 in
      let d = check_presence-eq-ok hash tt c.3 in
      record {
        is_argon2id = a.0;
        is_version_19 = a.1;
        memory = b.0;
        time = b.1;
        lanes = b.2;
        no_other = b.3;
        salted = d.0;
        hashed = d.1;
      }

  -- Any answer of `verify_pin`, yes or no, means that the stored text is a hash that meets the
  -- whole policy: a downgraded or altered hash is always an error.
  pub verify_pin-MeetsPolicy :
      (pin stored : String) (answer : Bool)
      → verify_pin lib pin stored ≡ ok answer
      → (hash : lib.PasswordHash) × (lib.parse stored ≡ ok hash) × MeetsPolicy hash
  unfolding Checked
  verify_pin-MeetsPolicy pin stored answer h =
      let (hash, c) = verify_pin-Checked pin stored answer h in
      (hash, c.0, Checked-MeetsPolicy pin stored hash answer c)

  -- `verify_pin` says yes exactly when the PIN is not empty, the stored text is a hash that meets
  -- the policy, and the library verifies the PIN against it under the fixed costs.
  pub verify_pin-eq-ok_iff :
      (pin stored : String)
      → (verify_pin lib pin stored ≡ ok true) ↔ (
          (str_eq pin "" ≡ false)
          × (hash : lib.PasswordHash) × (params : lib.Params) × (lib.parse stored ≡ ok hash)
          × MeetsPolicy hash
          × (lib.new_params 65536 3 4 ≡ ok params)
          × (lib.verify_password (lib.new_argon2 lib.argon2id lib.v0x13 params) pin hash ≡ matches))
  unfolding Checked check_candidate
  verify_pin-eq-ok_iff pin stored = (
    λ h.
        let (hash, c) = verify_pin-Checked pin stored true h in
        let policy = Checked-MeetsPolicy pin stored hash true c in
        let (nonempty, params, made, matched) = check_candidate-eq-true pin hash c.4 in
        (nonempty, hash, params, c.0, policy, made, matched),
    λ (nonempty, hash, params, parsed, policy, made, matched).
        let (a, b, d) = policy_complete hash policy in
        Checked-verify_pin pin stored hash true (parsed, a, b, d, ground arith),
  )

  -- What the library is relied on for. Parsing reads back what was printed. A hash records the name
  -- of the algorithm, the number of the version and the three costs that it was made with, whatever
  -- they are, and no other parameter; it has salt and output, and verifies for its password under
  -- the same settings. `Argon2id` is named "argon2id", and `V0x13` is version 19.
  pub record Hashes : Type 0 where
    pub name : lib.Algorithm → String
    pub number : lib.Version → ℕ
    pub name_argon2id : name lib.argon2id ≡ "argon2id"
    pub number_v0x13 : number lib.v0x13 ≡ 19
    pub parses_printed : (hash : lib.PasswordHash) → lib.parse (lib.print hash) ≡ ok hash
    pub records_settings :
        (a : lib.Algorithm) (v : lib.Version) (m t p : ℕ) (params : lib.Params) (pin : String)
        (salt : lib.Salt) (hash : lib.PasswordHash)
        → lib.new_params m t p ≡ ok params
        → lib.hash_password (lib.new_argon2 a v params) pin salt ≡ ok hash
        → (lib.algorithm hash ≡ name a)
          × (lib.version hash ≡ some (number v))
          × HasParameter hash "m" m
          × HasParameter hash "t" t
          × HasParameter hash "p" p
          × (lib.parameter_count hash ≡ 3)
    pub has_parts :
        (argon2 : lib.Argon2) (pin : String) (salt : lib.Salt) (hash : lib.PasswordHash)
        → lib.hash_password argon2 pin salt ≡ ok hash
        → (lib.has_salt hash ≡ true) × (lib.has_hash hash ≡ true)
    pub verifies_own :
        (argon2 : lib.Argon2) (pin : String) (salt : lib.Salt) (hash : lib.PasswordHash)
        → lib.hash_password argon2 pin salt ≡ ok hash
        → lib.verify_password argon2 pin hash ≡ matches

  hash_pin-eq-ok :
      (pin stored : String) (salt : lib.Salt)
      → hash_pin lib pin salt ≡ ok stored
      → (str_eq pin "" ≡ false)
        × (params : lib.Params) × (hash : lib.PasswordHash) × (lib.new_params 65536 3 4 ≡ ok params)
        × (lib.hash_password (lib.new_argon2 lib.argon2id lib.v0x13 params) pin salt ≡ ok hash)
        × (lib.print hash ≡ stored)
  hash_pin-eq-ok pin stored salt h = ground arith

  -- The settings that `hash_pin` chooses are those of the policy.
  hash_pin-MeetsPolicy :
      (params : lib.Params) (pin : String) (salt : lib.Salt) (hash : lib.PasswordHash)
      → Hashes
      → lib.new_params 65536 3 4 ≡ ok params
      → lib.hash_password (lib.new_argon2 lib.argon2id lib.v0x13 params) pin salt ≡ ok hash
      → MeetsPolicy hash
  hash_pin-MeetsPolicy params pin salt hash laws made hashed =
      let (a, v, m, t, p, count) =
        laws.records_settings lib.argon2id lib.v0x13 65536 3 4 params pin salt hash made hashed in
      let parts =
        laws.has_parts (lib.new_argon2 lib.argon2id lib.v0x13 params) pin salt hash hashed in
      record {
        is_argon2id = a ∙ laws.name_argon2id;
        is_version_19 = v ∙ ap some laws.number_v0x13;
        memory = m;
        time = t;
        lanes = p;
        no_other = count;
        salted = parts.0;
        hashed = parts.1;
      }

  -- When hashes record the settings they were made with and verify for their password, and print and
  -- parse undo each other, the settings that `hash_pin` chooses pass the policy of `verify_pin`: the
  -- PIN that a hash was made from is accepted against that hash.
  pub verify_pin-hash_pin :
      (pin stored : String) (salt : lib.Salt)
      → Hashes
      → hash_pin lib pin salt ≡ ok stored
      → verify_pin lib pin stored ≡ ok true
  verify_pin-hash_pin pin stored salt laws h =
      let (nonempty, params, hash, made, hashed, printed) = hash_pin-eq-ok pin stored salt h in
      let policy = hash_pin-MeetsPolicy params pin salt hash laws made hashed in
      let parsed = subst (λ t. lib.parse t ≡ ok hash) printed (laws.parses_printed hash) in
      let matched = laws.verifies_own _ pin salt hash hashed in
      (verify_pin-eq-ok_iff pin stored).1 (nonempty, hash, params, parsed, policy, made, matched)
