-- ===== src/UserStore/Pins.antt =====
-- Setting and verifying the PIN (internal/userstore/user.go).
use Prim.Native.String
use anyauth.Base.{
  ℕ, ◌≤◌, ◌<◌, String, ◌≡◌, refl, ap, ◌∙◌, ◌↔◌, inl, inr, true, false, Option, none, some, [], ◌∷◌,
  ◌==◌, arith, eqb, Bool-cases, Option-cases, length, Result, ok, err, diverged, Result-cases,
  eq_iff,
}
use anyauth.UserStore.Derive.{Bytes, take, pbkdf2}
use anyauth.UserStore.Blocks.{length-pbkdf2}
use anyauth.UserStore.Profiles.{
  Verifier, Profile, default_profile, Error, Content, absent, unreadable, stored, Disk, complete,
  load, save, save_loaded, validate_pin, Library, digest_length, default_iterations,
  default_key_length, same_bytes, derive, new_pin_verifier, plan_pin, set_pin, verify_with,
  verify_pin,
}

-- What the package relies on of base64 and of HMAC-SHA-256.
pub record Documented (lib : Library) : Type 0 where
  pub decode-encode : (bs : Bytes) → lib.decode (lib.encode bs) ≡ some bs
  pub digests : (key m : Bytes) → length (lib.hmac_sha256 key m) ≡ digest_length

same_bytes_iff : (xs ys : Bytes) → (same_bytes xs ys ≡ true) ↔ (xs ≡ ys)
unfolding same_bytes
same_bytes_iff [] [] = (λ h. refl, λ h. refl)
same_bytes_iff [] (y ∷ ys) = (λ h. cc, λ h. cc)
same_bytes_iff (x ∷ xs) [] = (λ h. cc, λ h. cc)
same_bytes_iff (x ∷ xs) (y ∷ ys) = ground (arith, same_bytes_iff xs ys)

validate_pin_lem :
    (pin : String) → validate_pin pin ≡ none → (6 ≤ String.len pin) × (String.len pin ≤ 128)
unfolding validate_pin
validate_pin_lem pin h = ground arith

-- A profile that Load leaves as it is.
abbrev IsComplete : Profile → Type 0
IsComplete p = (eqb p.version 0 ≡ false) × (p.sub == "" ≡ false) × (p.name == "" ≡ false)

complete_fixed : (p : Profile) → IsComplete p → complete p ≡ ok p
unfolding complete
complete_fixed p (v, s, n) = rw (v, s, n) refl

load-IsComplete : (c : Content) (p : Profile) → load c ≡ ok p → IsComplete p
unfolding load complete
load-IsComplete absent p h =
    let same : p ≡ default_profile = ground arith in rw same (refl, refl, refl)
load-IsComplete unreadable p h = cc
load-IsComplete (stored q) p h = ground arith

save_loaded_lem :
    (d d' : Disk) (m : Result Error Profile) (p : Profile)
    → save_loaded d m ≡ (ok p, d')
    → (m ≡ ok p) × ((q : Profile) × (complete p ≡ ok q) × (d'.content ≡ stored q))
unfolding save
save_loaded_lem d d' (err e) p h = absurd (ground arith)
save_loaded_lem d d' diverged p h = absurd (ground arith)
save_loaded_lem d d' (ok p₁) p h = elim (Result-cases (complete p₁)) [
  | inr other ↦ absurd (ground arith)
  | inl (q, fine) ↦ elim (Bool-cases d.writable) [
    | inr bad ↦ absurd (ground arith)
    | inl good ↦ (ground arith, (q, ground arith, ground arith))
  ]
]

module _ (lib : Library) where
  plan_pin_lem :
      (random : Option Bytes) (pin : String) (c : Content) (p : Profile)
      → plan_pin lib random pin c ≡ ok p
      → (validate_pin pin ≡ none)
        × ((old : Profile) × (load c ≡ ok old)
            × ((v : Verifier) × (new_pin_verifier lib random pin ≡ ok v)
                × (p ≡ record old { pin_verifier = some v })))
  unfolding plan_pin
  plan_pin_lem random pin c p h = elim (Option-cases (validate_pin pin)) [
    | inr (e, bad) ↦ absurd (ground arith)
    | inl fine ↦ elim (Result-cases (load c)) [
      | inr other ↦ absurd (ground arith)
      | inl (old, loaded) ↦ elim (Result-cases (new_pin_verifier lib random pin)) [
        | inr other ↦ absurd (ground arith)
        | inl (v, made) ↦ (fine, (old, loaded, (v, made, ground arith)))
      ]
    ]
  ]

  module _ (laws : Documented lib) where
    length-derive :
        (pin : String) (salt : Bytes) (iterations n : ℕ)
        → length (derive lib pin salt iterations n) ≡ n
    length-derive pin salt iterations n =
        (length-pbkdf2 (lib.hmac_sha256 (lib.bytes_of pin)) salt digest_length
          (laws.digests (lib.bytes_of pin)) iterations n (omega arith)).1

    -- A new verifier accepts the PINs from which the same key is derived.
    new_pin_verifier-verify_with :
        (salt : Bytes) (pin other : String) (v : Verifier)
        → new_pin_verifier lib (some salt) pin ≡ ok v
        → verify_with lib v other
          ≡ ok (
              same_bytes
                (derive lib other salt default_iterations default_key_length)
                (derive lib pin salt default_iterations default_key_length))
    unfolding verify_with
    new_pin_verifier-verify_with salt pin other v h =
        let key = derive lib pin salt default_iterations default_key_length in
        let made : v ≡ (record {
          algorithm = "pbkdf2-sha256";
          iterations = default_iterations;
          salt = lib.encode salt;
          hash = lib.encode key;
        }) =
          ground arith in
        rw
          (
            made,
            laws.decode-encode salt,
            laws.decode-encode key,
            length-derive pin salt default_iterations default_key_length,
          )
          refl

    -- After SetPIN the profile returned is the one that Load returns; it differs from the one of
    -- before in the verifier alone; the PIN has 6 to 128 bytes; and VerifyPIN accepts this PIN, and
    -- another one exactly if the same key is derived from it and the salt.
    pub set_pin-verify_pin :
        (random : Option Bytes) (pin : String) (d d' : Disk) (p : Profile)
        → set_pin lib random pin d ≡ (ok p, d')
        → (6 ≤ String.len pin)
          × (String.len pin ≤ 128)
          × (load d'.content ≡ ok p)
          × ((old : Profile) × (load d.content ≡ ok old)
              × (p ≡ record old { pin_verifier = p.pin_verifier }))
          × (verify_pin lib p pin ≡ ok true)
          × ((salt : Bytes) × (random ≡ some salt)
              × ((other : String)
                  → (verify_pin lib p other ≡ ok true) ↔ (
                      derive lib other salt default_iterations default_key_length
                      ≡ derive lib pin salt default_iterations default_key_length)))
    unfolding set_pin
    set_pin-verify_pin none pin d d' p h =
        let (planned, written) = save_loaded_lem d d' (plan_pin lib none pin d.content) p h in
        let (fine, (old, loaded, (v, made, is))) = plan_pin_lem none pin d.content p planned in
        absurd (ground (arith, made))
    set_pin-verify_pin (some salt) pin d d' p h =
        let (planned, (q, done, put)) =
          save_loaded_lem d d' (plan_pin lib (some salt) pin d.content) p h in
        let (fine, (old, loaded, (v, made, is))) =
          plan_pin_lem (some salt) pin d.content p planned in
        let whole = load-IsComplete d.content old loaded in
        let kept : complete p ≡ ok p =
          rw is (complete_fixed (record old { pin_verifier = some v }) whole) in
        let same : q ≡ p = ground (arith, done, kept) in
        let verdict : (other : String)
            → verify_pin lib p other
              ≡ ok (
                  same_bytes (derive lib other salt default_iterations default_key_length)
                    (derive lib pin salt default_iterations default_key_length)) =
          λ other.
            rw is (unfold verify_pin in (new_pin_verifier-verify_with salt pin other v made)) in
        let (short, long) = validate_pin_lem pin fine in
        (
          short,
          long,
          rw (put, same) (unfold load in kept),
          (old, loaded, rw is refl),
          verdict pin ∙ ap ok ((same_bytes_iff _ _).1 refl),
          (
            salt,
            refl,
            λ other. (
              λ yes_. (same_bytes_iff _ _).0 (ground (arith, yes_, verdict other)),
              λ keys. verdict other ∙ ap ok ((same_bytes_iff _ _).1 keys),
            ),
          ),
        )

  -- A stored hash of no bytes is met by every PIN.
  verify_with_empty :
      (v : Verifier) (salt : Bytes) (pin : String)
      → v.algorithm ≡ "pbkdf2-sha256"
      → 0 < v.iterations
      → lib.decode v.salt ≡ some salt
      → lib.decode v.hash ≡ some []
      → verify_with lib v pin ≡ ok true
  unfolding verify_with pbkdf2 take same_bytes
  verify_with_empty v salt pin a i s e = ground (arith, eq_iff v.algorithm "pbkdf2-sha256")
