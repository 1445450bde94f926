-- ===== src/UserStore/Derive.antt =====
-- internal/userstore/user.go: pbkdf2. Bytes are numbers; the HMAC under a password is the parameter
-- `mac`, whose digests have `hash_length` bytes. Where `t` and `u` differ in length, which digests do
-- not, the source would panic.
use Prim.Native.Nat.{bit_xor, ◌%◌}
use anyauth.Base.{ℕ, zero, suc, ◌+◌, ◌-◌, ◌/◌, List, [], ◌∷◌, ◌++◌}

abbrev pub Bytes : Type 0
Bytes = List ℕ

-- `output[:n]`
unfoldable pub take : ℕ → Bytes → Bytes
take zero bs = []
take (suc n) [] = []
take (suc n) (b ∷ bs) = b ∷ take n bs

-- `for j := range t { t[j] ^= u[j] }`
unfoldable pub xor_into : Bytes → Bytes → Bytes
xor_into [] u = []
xor_into (x ∷ t) [] = x ∷ t
xor_into (x ∷ t) (y ∷ u) = bit_xor x y ∷ xor_into t u

-- `binary.BigEndian.PutUint32(counter[:], uint32(block))`
unfoldable pub counter : ℕ → Bytes
counter block =
    (block / 16777216) % 256 ∷ (block / 65536) % 256 ∷ (block / 256) % 256 ∷ block % 256 ∷ []

module _ (mac : Bytes → Bytes) where
  -- The inner loop, with the rounds that are left.
  unfoldable pub iterate : ℕ → Bytes → Bytes → Bytes
  iterate zero u t = t
  iterate (suc n) u t = let u' = mac u in iterate n u' (xor_into t u')

  -- The body of the outer loop.
  unfoldable pub derive_block : Bytes → ℕ → ℕ → Bytes
  derive_block salt iterations block =
      let u = mac (salt ++ counter block) in iterate (iterations - 1) u u

  -- The outer loop, with the blocks that are left.
  unfoldable pub derive_blocks : Bytes → ℕ → ℕ → ℕ → Bytes → Bytes
  derive_blocks salt iterations zero block output = output
  derive_blocks salt iterations (suc n) block output =
      derive_blocks salt iterations n (block + 1) (output ++ derive_block salt iterations block)

  unfoldable pub pbkdf2 : ℕ → Bytes → ℕ → ℕ → Bytes
  pbkdf2 hash_length salt iterations key_length =
      let blocks = (key_length + hash_length - 1) / hash_length in
      take key_length (derive_blocks salt iterations blocks 1 [])
