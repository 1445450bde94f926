-- ===== src/UserStore/Examples.antt =====
-- A PIN is set for the default profile; the theorems at this run. Bytes are encoded in unary, and
-- every digest is 32 zeros.
use Prim.Native.Char.{Char, code}
use Prim.Native.String
use anyauth.Base.{
  ℕ, zero, suc, ◌+◌, ◌-◌, ◌/◌, ◌≤◌, String, ◌≡◌, refl, ap, ◌∙◌, ◌↔◌, true, Option, none, some, [],
  ◌∷◌, arith, eqb, if◌then◌else◌, length, ok,
}
use anyauth.UserStore.Derive.{
  Bytes, take, xor_into, counter, iterate, derive_block, derive_blocks, pbkdf2,
}
use anyauth.UserStore.Blocks.{blocks_from, pbkdf2-blocks_from}
use anyauth.UserStore.Profiles.{
  Profile, default_profile, absent, stored, Disk, complete, load, save, validate_pin, Library,
  default_iterations, default_key_length, derive, plan_pin, set_pin, verify_pin,
}
use anyauth.UserStore.Pins.{Documented, set_pin-verify_pin}

abbrev tick : Char
tick = "i"

abbrev stop : Char
stop = ","

unary : ℕ → String → String
unary zero rest = String.◌∷◌ stop rest
unary (suc n) rest = String.◌∷◌ tick (unary n rest)

encode : Bytes → String
encode [] = ""
encode (b ∷ bs) = unary b (encode bs)

abbrev prepend : ℕ → Option Bytes → Option Bytes
prepend n none = none
prepend n (some bs) = some (n ∷ bs)

decode_from : ℕ → String → Option Bytes
decode_from n String.[] = some []
decode_from n (String.◌∷◌ c s) =
    let more = decode_from (suc n) s in
    let next = prepend n (decode_from 0 s) in if eqb (code c) 105 then more else next

decode_from-unary :
    (n b : ℕ) (rest : String) → decode_from n (unary b rest) ≡ prepend (n + b) (decode_from 0 rest)
unfolding decode_from unary
decode_from-unary n zero rest = ap (λ (k : ℕ). prepend k (decode_from 0 rest)) (omega arith)
decode_from-unary n (suc b) rest =
    decode_from-unary (suc n) b rest ∙ ap (λ (k : ℕ). prepend k (decode_from 0 rest)) (omega arith)

decode_encode : (bs : Bytes) → decode_from 0 (encode bs) ≡ some bs
unfolding encode
decode_encode [] = unfold decode_from in refl
decode_encode (b ∷ bs) =
    decode_from-unary 0 b (encode bs)
    ∙ ap (prepend (0 + b)) (decode_encode bs)
    ∙ ap (λ (k : ℕ). some (k ∷ bs)) (omega arith)

zeros : ℕ → Bytes
zeros zero = []
zeros (suc n) = 0 ∷ zeros n

length-zeros : (n : ℕ) → length (zeros n) ≡ n
unfolding zeros
length-zeros zero = refl
length-zeros (suc n) = ap suc (length-zeros n)

abbrev lib : Library
lib = record {
  bytes_of = λ s. String.len s ∷ [];
  encode = encode;
  decode = decode_from 0;
  hmac_sha256 = λ key m. zeros 32;
}

lib-Documented : Documented lib
lib-Documented = record { decode-encode = decode_encode; digests = λ key m. length-zeros 32 }

abbrev salt : Bytes
salt = 7 ∷ 8 ∷ []

abbrev guarded : Profile
guarded = record default_profile {
  pin_verifier = some (record {
    algorithm = "pbkdf2-sha256";
    iterations = default_iterations;
    salt = encode salt;
    hash = encode (derive lib "123456" salt default_iterations default_key_length);
  });
}

abbrev before_disk : Disk
before_disk = record { content = absent; writable = true }

abbrev after_disk : Disk
after_disk = record { content = stored guarded; writable = true }

sets : set_pin lib (some salt) "123456" before_disk ≡ (ok guarded, after_disk)
unfolding set_pin plan_pin validate_pin load save complete
sets = refl

set_pin-verify_pin_example :
    (6 ≤ String.len "123456")
    × (String.len "123456" ≤ 128)
    × (load after_disk.content ≡ ok guarded)
    × ((old : Profile) × (load before_disk.content ≡ ok old)
        × (guarded ≡ record old { pin_verifier = guarded.pin_verifier }))
    × (verify_pin lib guarded "123456" ≡ ok true)
    × ((s : Bytes) × (some salt ≡ some s)
        × ((other : String)
            → (verify_pin lib guarded other ≡ ok true) ↔ (
                derive lib other s default_iterations default_key_length
                ≡ derive lib "123456" s default_iterations default_key_length)))
set_pin-verify_pin_example =
    set_pin-verify_pin lib lib-Documented (some salt) "123456" before_disk after_disk guarded sets

-- Two blocks of 2 bytes for a key of 3, the digest being the first byte and the length of what is
-- digested.
abbrev toy_mac : Bytes → Bytes
toy_mac [] = 1 ∷ 0 ∷ []
toy_mac (b ∷ bs) = b ∷ length bs ∷ []

two_blocks : pbkdf2 toy_mac 2 (9 ∷ []) 2 3 ≡ 0 ∷ 5 ∷ 0 ∷ []
unfolding pbkdf2 derive_blocks derive_block iterate xor_into counter take
two_blocks = refl

toy_digests : (m : Bytes) → length (toy_mac m) ≡ 2
toy_digests [] = refl
toy_digests (b ∷ bs) = refl

pbkdf2-blocks_from_example :
    pbkdf2 toy_mac 2 (9 ∷ []) 2 3
    ≡ take 3 (blocks_from toy_mac (9 ∷ []) (2 - 1) 1 ((3 + 2 - 1) / 2))
pbkdf2-blocks_from_example = pbkdf2-blocks_from toy_mac (9 ∷ []) 2 2 3
