-- ===== src/Scenarios/Pin.antt =====
-- crates/service/src/pin_auth.rs: concrete PINs and lockouts.
use palka.Base.{
  ℕ, ◌+◌, ◌-◌, ◌/◌, ◌≤◌, ◌≡◌, ◌↔◌, sym, ap, ◌&&◌, ◌==◌, err, ◌⊎◌, refl, true, false, none, some,
  List, [], ◌∷◌, String, ok, str_eq, str_eq_iff, if◌then◌else◌, ltb, arith,
}
use palka.PinAuth.Lockout.{new_lockout, PinLockoutState, check_attempt, locked, allowed}
use palka.PinAuth.Lockout.Locking.{
  IsValid, fails, succeeds, after, after-IsValid, lockout_triggered-locks,
}
use palka.PinAuth.Lockout.Guessing.{evaluated, waiting, Climbs, evaluated-waits}
use palka.PinAuth.Policy.{
  Argon2Library, matches, mismatch, verify_pin, check_algorithm, check_parameters, check_presence,
  check_candidate,
}
use palka.PinAuth.Policy.Verdicts.{
  Hashes, MeetsPolicy, verify_pin-MeetsPolicy, verify_pin-eq-ok_iff, verify_pin-hash_pin,
}

-- A library that keeps the PIN as its own hash. It offers the algorithms 0, 1 and 2 and the versions
-- 16 and 19, and hashes with the last of each and one choice of the costs alone.
abbrev plain_library : Argon2Library
plain_library = record {
  Algorithm = ℕ;
  argon2d = 0;
  argon2i = 1;
  argon2id = 2;
  Version = ℕ;
  v0x10 = 16;
  v0x13 = 19;
  Argon2 = ℕ × ℕ;
  PasswordHash = String;
  Identifier = String;
  Value = ℕ;
  Params = Unit;
  Salt = Unit;
  parse = λ t. ok t;
  print = λ h. h;
  algorithm = λ h. "argon2id";
  version = λ h. some 19;
  identifier = λ name. ok name;
  parameter =
      λ h name. if str_eq name "m" then some 65536 else if str_eq name "t" then some 3 else some 4;
  decimal = λ v. ok v;
  parameter_count = λ h. 3;
  has_salt = λ h. true;
  has_hash = λ h. true;
  new_params =
      λ m t p. if (m == 65536) && (t == 3) && (p == 4) then ok tt else err "costs not supported";
  new_argon2 = λ a v params. (a, v);
  hash_password = λ argon2 pin salt.
      if (argon2.0 == 2) && (argon2.1 == 19) then ok pin else err "not supported";
  verify_password = λ argon2 pin h. if str_eq pin h then matches else mismatch;
}

abbrev plain_name : ℕ → String
plain_name a = if a == 2 then "argon2id" else if a == 1 then "argon2i" else "argon2d"

plain_settings :
    (a v m t p : ℕ) (params : Unit {0}) (pin : String) (salt : Unit {0}) (h : String)
    → plain_library.new_params m t p ≡ ok params
    → plain_library.hash_password (plain_library.new_argon2 a v params) pin salt ≡ ok h
    → (a ≡ 2) × (v ≡ 19) × (m ≡ 65536) × (t ≡ 3) × (p ≡ 4)
plain_settings a v m t p params pin salt h made hashed = ground arith

plain_own :
    (argon2 : ℕ × ℕ) (pin : String) (salt : Unit {0}) (h : String)
    → plain_library.hash_password argon2 pin salt ≡ ok h
    → plain_library.verify_password argon2 pin h ≡ matches
plain_own argon2 pin salt h hashed =
    let same : pin ≡ h = ground arith in ground (arith, str_eq_iff pin h)

plain_Hashes : Hashes plain_library
plain_Hashes = record {
  name = plain_name;
  number = λ v. v;
  name_argon2id = refl;
  number_v0x13 = refl;
  parses_printed = λ h. refl;
  records_settings = λ a v m t p params pin salt h made hashed.
      let (ea, ev, em, et, ep) = plain_settings a v m t p params pin salt h made hashed in
      (
        sym (ap plain_name ea),
        sym (ap some ev),
        ("m", 65536, refl, refl, sym (ap ok em)),
        ("t", 3, refl, refl, sym (ap ok et)),
        ("p", 4, refl, refl, sym (ap ok ep)),
        refl,
      );
  has_parts = λ argon2 pin salt h hashed. (refl, refl);
  verifies_own = plain_own;
}

accepts : verify_pin plain_library "1234" "1234" ≡ ok true
unfolding verify_pin check_algorithm check_parameters check_presence check_candidate
accepts = refl

refuses : verify_pin plain_library "9" "1234" ≡ ok false
unfolding verify_pin check_algorithm check_parameters check_presence check_candidate
refuses = refl

verify_pin-MeetsPolicy_example :
    (h : String) × (plain_library.parse "1234" ≡ ok h) × MeetsPolicy plain_library h
verify_pin-MeetsPolicy_example = verify_pin-MeetsPolicy plain_library "9" "1234" false refuses

verify_pin-eq-ok_iff_example : (verify_pin plain_library "1234" "1234" ≡ ok true) ↔ (
    (str_eq "1234" "" ≡ false)
    × (h : String) × (params : Unit {0}) × (plain_library.parse "1234" ≡ ok h)
    × MeetsPolicy plain_library h
    × (plain_library.new_params 65536 3 4 ≡ ok params)
    × (plain_library.verify_password (2, 19) "1234" h ≡ matches))
verify_pin-eq-ok_iff_example = verify_pin-eq-ok_iff plain_library "1234" "1234"

verify_pin-hash_pin_example : verify_pin plain_library "1234" "1234" ≡ ok true
verify_pin-hash_pin_example = verify_pin-hash_pin plain_library "1234" "1234" tt plain_Hashes refl

-- Three failures lock for 30 seconds; the failure at 10 is turned away.
abbrev guesses : List ℕ
guesses = 0 ∷ 1 ∷ 2 ∷ 10 ∷ 32 ∷ 33 ∷ 34 ∷ 94 ∷ []

guesses_climb : Climbs 0 guesses 94
unfolding Climbs
guesses_climb = ground arith

seven_guesses : evaluated new_lockout guesses ≡ 7
unfolding evaluated
seven_guesses = refl

evaluated-waits_example :
    (evaluated new_lockout guesses ≡ 0)
    ⊎ (0 + waiting ((evaluated new_lockout guesses - 1) / 3) ≤ 94)
evaluated-waits_example = evaluated-waits 0 94 guesses guesses_climb (omega arith)

after-IsValid_example :
    IsValid (after new_lockout (fails 0 ∷ fails 1 ∷ fails 2 ∷ succeeds ∷ fails 3 ∷ []))
after-IsValid_example = after-IsValid (fails 0 ∷ fails 1 ∷ fails 2 ∷ succeeds ∷ fails 3 ∷ [])

abbrev two_failures : PinLockoutState
two_failures = record { consecutive_failures = 2; lockout_level = 1; lockout_until = none }

abbrev locked_state : PinLockoutState
locked_state = record { consecutive_failures = 0; lockout_level = 2; lockout_until = some 160 }

lockout_triggered-locks_example :
    check_attempt locked_state 120
    ≡ (if ltb 120 (100 + 60) then locked (100 + 60 - 120) else allowed)
lockout_triggered-locks_example =
    lockout_triggered-locks two_failures locked_state 100 60 60 120 refl (omega arith)
