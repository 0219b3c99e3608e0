-- ===== src/PinAuth/Policy.antt =====
-- crates/service/src/pin_auth.rs: hashing a PIN, and checking one against a stored hash. The
-- crates `argon2` and `password_hash` are the fields of `Argon2Library`; their errors are the
-- texts they display.
pub mod Verdicts
use palka.Base.{
  ℕ, ◌+◌, ◌≡◌, Bool, true, false, not, Option, none, some, Result, ok, err, map_err, String, str_eq,
  if◌then◌else◌, ◌==◌,
}
use palka.Base.Results.{◌>>=◌, ◌>>◌, refuse_if, ok_or}
use palka.Base.Text.{◌<>◌, show_ℕ}

abbrev pub argon2_m_cost : ℕ
argon2_m_cost = 65536

abbrev pub argon2_t_cost : ℕ
argon2_t_cost = 3

abbrev pub argon2_p_cost : ℕ
argon2_p_cost = 4

pub data PinAuthError : Type 0 where
  empty_pin : PinAuthError
  malformed_hash policy_violation crypto : String → PinAuthError

unfoldable pub display_error : PinAuthError → String
display_error empty_pin = "PIN cannot be empty"
display_error (malformed_hash msg) = "Malformed PHC hash: " <> msg
display_error (policy_violation msg) = "PIN security policy violation: " <> msg
display_error (crypto msg) = "Cryptographic failure in PIN auth: " <> msg

-- `Error::Password` of `verify_password` is the answer that the password is wrong.
pub data Verdict : Type 0 where
  matches mismatch : Verdict
  broken : String → Verdict

-- `new_argon2` is `Argon2::new`; the algorithms and versions are the ones that the crate offers.
pub record Argon2Library : Type 1 where
  pub Algorithm : Type 0
  pub argon2d : Algorithm
  pub argon2i : Algorithm
  pub argon2id : Algorithm
  pub Version : Type 0
  pub v0x10 : Version
  pub v0x13 : Version
  pub Argon2 : Type 0
  pub PasswordHash : Type 0
  pub Identifier : Type 0
  pub Value : Type 0
  pub Params : Type 0
  pub Salt : Type 0
  pub parse : String → Result PasswordHash String
  pub print : PasswordHash → String
  pub algorithm : PasswordHash → String
  pub version : PasswordHash → Option ℕ
  pub identifier : String → Result Identifier String
  pub parameter : PasswordHash → Identifier → Option Value
  pub decimal : Value → Result ℕ String
  pub parameter_count : PasswordHash → ℕ
  pub has_salt : PasswordHash → Bool
  pub has_hash : PasswordHash → Bool
  pub new_params : ℕ → ℕ → ℕ → Result Params String
  pub new_argon2 : Algorithm → Version → Params → Argon2
  pub hash_password : Argon2 → String → Salt → Result PasswordHash String
  pub verify_password : Argon2 → String → PasswordHash → Verdict

module _ (lib : Argon2Library) where
  -- The salt is the one that `SaltString::generate` drew.
  abbrev pub hash_pin : String → lib.Salt → Result String PinAuthError
  hash_pin pin salt = do
    refuse_if (str_eq pin "") empty_pin
    params ← map_err crypto (lib.new_params argon2_m_cost argon2_t_cost argon2_p_cost)
    let argon2 = lib.new_argon2 lib.argon2id lib.v0x13 params
    hash ← map_err crypto (lib.hash_password argon2 pin salt)
    ok (lib.print hash)

  -- One parameter of the hash, present and a decimal.
  abbrev pub read_parameter : lib.PasswordHash → lib.Identifier → String → Result ℕ PinAuthError
  read_parameter hash ident name = do
    value ←
        ok_or (lib.parameter hash ident) (policy_violation ("Missing parameter '" <> name <> "'"))
    map_err (λ e. policy_violation ("Invalid parameter '" <> name <> "': " <> e))
        (lib.decimal value)

  abbrev pub version_is_19 : Option ℕ → Bool
  version_is_19 none = false
  version_is_19 (some v) = v == 19

  -- Steps 1 and 2 of `verify_pin`.
  unfoldable pub check_algorithm : lib.PasswordHash → Result Unit PinAuthError
  check_algorithm hash = do
    refuse_if (not (str_eq (lib.algorithm hash) "argon2id"))
        (policy_violation "Algorithm must be 'argon2id'")
    refuse_if (not (version_is_19 (lib.version hash)))
        (policy_violation "Argon2 version must be 'v=19'")

  -- Step 3.
  unfoldable pub check_parameters : lib.PasswordHash → Result Unit PinAuthError
  check_parameters hash = do
    m_ident ← map_err crypto (lib.identifier "m")
    t_ident ← map_err crypto (lib.identifier "t")
    p_ident ← map_err crypto (lib.identifier "p")
    m ← read_parameter hash m_ident "m"
    t ← read_parameter hash t_ident "t"
    p ← read_parameter hash p_ident "p"
    refuse_if (not (lib.parameter_count hash == 3)) (
        policy_violation (
          "Unexpected extra parameters in PHC string (found "
          <> show_ℕ (lib.parameter_count hash)
          <> ")"))
    refuse_if (not (m == argon2_m_cost)) (policy_violation "Memory cost must be 65536")
    refuse_if (not (t == argon2_t_cost)) (policy_violation "Time cost must be 3")
    refuse_if (not (p == argon2_p_cost)) (policy_violation "Parallelism cost must be 4")

  -- Step 4.
  unfoldable pub check_presence : lib.PasswordHash → Result Unit PinAuthError
  check_presence hash = do
    refuse_if (not (lib.has_salt hash)) (policy_violation "Missing salt in PHC")
    refuse_if (not (lib.has_hash hash)) (policy_violation "Missing hash in PHC")

  abbrev pub verdict_result : Verdict → Result Bool PinAuthError
  verdict_result matches = ok true
  verdict_result mismatch = ok false
  verdict_result (broken e) = err (crypto e)

  -- Steps 5 and 6.
  unfoldable pub check_candidate : String → lib.PasswordHash → Result Bool PinAuthError
  check_candidate pin hash =
      let checked =
        map_err crypto (lib.new_params argon2_m_cost argon2_t_cost argon2_p_cost) >>= λ params.
        verdict_result
          (lib.verify_password (lib.new_argon2 lib.argon2id lib.v0x13 params) pin hash) in
      if str_eq pin "" then ok false else checked

  unfoldable pub verify_pin : String → String → Result Bool PinAuthError
  verify_pin pin stored_phc = do
    hash ← map_err malformed_hash (lib.parse stored_phc)
    check_algorithm hash
    check_parameters hash
    check_presence hash
    check_candidate pin hash
