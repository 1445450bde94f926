-- ===== src/UserStore/Profiles.antt =====
-- internal/userstore/user.go: Load, Save, SetPIN, ClearPIN and VerifyPIN. The encoding of a text as
-- bytes, base64, HMAC-SHA-256 and the outcome of reading 16 random bytes are parameters. A negative
-- number of iterations, which VerifyPIN refuses like 0, is left out.
use Prim.Native.String
use anyauth.Base.{
  ℕ, String, Bool, true, false, not, ◌&&◌, Option, none, some, [], ◌∷◌, ◌==◌, ltb, eqb,
  if◌then◌else◌, length, reject, first_error, is_some, Result, ok, err, diverged, ◌>>=◌, ◌>>◌,
  check,
}
use anyauth.UserStore.Derive.{Bytes, pbkdf2}

pub record Verifier : Type 0 where
  pub algorithm : String
  pub iterations : ℕ
  pub salt : String
  pub hash : String

pub record Profile : Type 0 where
  pub version : ℕ
  pub sub : String
  pub name : String
  pub email : String
  pub pin_verifier : Option Verifier

pub data Error : Type 0 where
  sub_required pin_too_short pin_too_long no_randomness invalid_iterations invalid_base64 : Error
  unsupported_algorithm : String → Error
  unreadable_file unwritable_file : Error

pub data Content : Type 0 where
  absent unreadable : Content
  stored : Profile → Content

pub record Disk : Type 0 where
  pub content : Content
  pub writable : Bool

abbrev pub default_profile : Profile
default_profile = record {
  version = 1;
  sub = "local-user";
  name = "Local User";
  email = "local.user@anyauth.local";
  pin_verifier = none;
}

-- The defaults and the check that Load and Save share.
unfoldable pub complete : Profile → Result Error Profile
complete p = do
  let p₁ = if eqb p.version 0 then record p { version = 1 } else p
  check (reject (p₁.sub == "") sub_required)
  ok (if p₁.name == "" then record p₁ { name = p₁.sub } else p₁)

unfoldable pub load : Content → Result Error Profile
load absent = ok default_profile
load unreadable = err unreadable_file
load (stored p) = complete p

abbrev pub write : Result Error Profile → Disk → Result Error (Unit {0}) × Disk
write (err e) d = (err e, d)
write diverged d = (diverged, d)
write (ok p) d =
    if d.writable then (ok tt, record d { content = stored p }) else (err unwritable_file, d)

unfoldable pub save : Profile → Disk → Result Error (Unit {0}) × Disk
save p d = write (complete p) d

-- The end of SetPIN and ClearPIN.
abbrev pub saved : Profile → Result Error (Unit {0}) × Disk → Result Error Profile × Disk
saved p (ok u, d) = (ok p, d)
saved p (err e, d) = (err e, d)
saved p (diverged, d) = (diverged, d)

abbrev pub save_loaded : Disk → Result Error Profile → Result Error Profile × Disk
save_loaded d (ok p) = saved p (save p d)
save_loaded d (err e) = (err e, d)
save_loaded d diverged = (diverged, d)

unfoldable pub clear_pin : Disk → Result Error Profile × Disk
clear_pin d = save_loaded d (load d.content >>= λ p. ok (record p { pin_verifier = none }))

unfoldable pub validate_pin : String → Option Error
validate_pin pin = first_error (
    reject (ltb (String.len pin) 6) pin_too_short
    ∷ reject (ltb 128 (String.len pin)) pin_too_long
    ∷ [])

abbrev pub has_pin : Profile → Bool
has_pin p = is_some p.pin_verifier

abbrev pub default_iterations : ℕ
default_iterations = 210000

abbrev pub default_key_length : ℕ
default_key_length = 32

-- What the package uses of the libraries of Go.
pub record Library : Type 0 where
  pub bytes_of : String → Bytes
  pub encode : Bytes → String
  pub decode : String → Option Bytes
  pub hmac_sha256 : Bytes → Bytes → Bytes

-- The bytes of a SHA-256 digest.
abbrev pub digest_length : ℕ
digest_length = 32

-- subtle.ConstantTimeCompare(x, y) == 1
unfoldable pub same_bytes : Bytes → Bytes → Bool
same_bytes [] [] = true
same_bytes [] (y ∷ ys) = false
same_bytes (x ∷ xs) [] = false
same_bytes (x ∷ xs) (y ∷ ys) = eqb x y && same_bytes xs ys

abbrev pub decoded : Option Bytes → Result Error Bytes
decoded none = err invalid_base64
decoded (some bs) = ok bs

module _ (lib : Library) where
  abbrev pub derive : String → Bytes → ℕ → ℕ → Bytes
  derive pin salt iterations key_length =
      pbkdf2 (lib.hmac_sha256 (lib.bytes_of pin)) digest_length salt iterations key_length

  -- NewPINVerifier
  abbrev pub new_pin_verifier : Option Bytes → String → Result Error Verifier
  new_pin_verifier none pin = err no_randomness
  new_pin_verifier (some salt) pin = ok (record {
    algorithm = "pbkdf2-sha256";
    iterations = default_iterations;
    salt = lib.encode salt;
    hash = lib.encode (derive pin salt default_iterations default_key_length);
  })

  -- SetPIN up to the call of Save.
  unfoldable pub plan_pin : Option Bytes → String → Content → Result Error Profile
  plan_pin random pin c = do
    check (validate_pin pin)
    p ← load c
    v ← new_pin_verifier random pin
    ok (record p { pin_verifier = some v })

  unfoldable pub set_pin : Option Bytes → String → Disk → Result Error Profile × Disk
  set_pin random pin d = save_loaded d (plan_pin random pin d.content)

  unfoldable pub verify_with : Verifier → String → Result Error Bool
  verify_with v pin = do
    check (reject (not (v.algorithm == "pbkdf2-sha256")) (unsupported_algorithm v.algorithm))
    check (reject (eqb v.iterations 0) invalid_iterations)
    salt ← decoded (lib.decode v.salt)
    want ← decoded (lib.decode v.hash)
    ok (same_bytes (derive pin salt v.iterations (length want)) want)

  abbrev pub verify_option : Option Verifier → String → Result Error Bool
  verify_option none pin = ok true
  verify_option (some v) pin = verify_with v pin

  unfoldable pub verify_pin : Profile → String → Result Error Bool
  verify_pin p pin = verify_option p.pin_verifier pin
