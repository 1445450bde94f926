-- ===== src/UserStore/Blocks.antt =====
-- pbkdf2 of internal/userstore/user.go against the definition of PBKDF2 in RFC 8018, and its length.
use mathlib.Core.List.{append-nil, append_assoc}
use anyauth.Base.{
  ℕ, zero, suc, ◌+◌, ◌-◌, ◌*◌, ◌/◌, ◌≤◌, ◌<◌, ◌≡◌, refl, sym, ap, ◌∙◌, [], ◌∷◌, ◌++◌, arith, length,
}
use anyauth.UserStore.Derive.{
  Bytes, take, xor_into, counter, iterate, derive_block, derive_blocks, pbkdf2,
}

length-append : (xs ys : Bytes) → length (xs ++ ys) ≡ length xs + length ys
length-append [] ys = omega arith
length-append (x ∷ xs) ys = omega (arith, length-append xs ys)

length-take : (n : ℕ) (bs : Bytes) → n ≤ length bs → length (take n bs) ≡ n
unfolding take
length-take zero bs h = refl
length-take (suc n) [] h = absurd (omega arith)
length-take (suc n) (b ∷ bs) h = omega (arith, length-take n bs)

length-xor_into : (t u : Bytes) → length (xor_into t u) ≡ length t
unfolding xor_into
length-xor_into [] u = refl
length-xor_into (x ∷ t) [] = refl
length-xor_into (x ∷ t) (y ∷ u) = omega (arith, length-xor_into t u)

module _ (mac : Bytes → Bytes) (salt : Bytes) where
  -- U_(j+1) of the RFC for a block.
  abbrev pub u_at : ℕ → ℕ → Bytes
  u_at block zero = mac (salt ++ counter block)
  u_at block (suc j) = mac (u_at block j)

  -- U_1 xor ... xor U_(c+1).
  abbrev pub xor_upto : ℕ → ℕ → Bytes
  xor_upto block zero = u_at block zero
  xor_upto block (suc c) = xor_into (xor_upto block c) (u_at block (suc c))

  -- T_b || T_(b+1) || ... with n blocks.
  abbrev pub blocks_from : ℕ → ℕ → ℕ → Bytes
  blocks_from c block zero = []
  blocks_from c block (suc n) = xor_upto block c ++ blocks_from c (suc block) n

  iterate-xor_upto :
      (block n j : ℕ) → iterate mac n (u_at block j) (xor_upto block j) ≡ xor_upto block (j + n)
  unfolding iterate
  iterate-xor_upto block zero j = ap (xor_upto block) (omega arith)
  iterate-xor_upto block (suc n) j =
      iterate-xor_upto block n (suc j) ∙ ap (xor_upto block) (omega arith)

  derive_block-xor_upto :
      (iterations block : ℕ)
      → derive_block mac salt iterations block ≡ xor_upto block (iterations - 1)
  unfolding derive_block
  derive_block-xor_upto iterations block =
      iterate-xor_upto block (iterations - 1) zero ∙ ap (xor_upto block) (omega arith)

  derive_blocks-blocks_from :
      (iterations n block : ℕ) (output : Bytes)
      → derive_blocks mac salt iterations n block output
        ≡ output ++ blocks_from (iterations - 1) block n
  unfolding derive_blocks
  derive_blocks-blocks_from iterations zero block output = sym (append-nil output)
  derive_blocks-blocks_from iterations (suc n) block output =
      derive_blocks-blocks_from iterations n (block + 1) _
      ∙ append_assoc output (derive_block mac salt iterations block) _
      ∙ ap (λ (bs : Bytes). output ++ bs)
          (ap
              (λ (b : ℕ).
                derive_block mac salt iterations block ++ blocks_from (iterations - 1) b n)
              (omega arith)
            ∙ ap (λ (t : Bytes). t ++ blocks_from (iterations - 1) (suc block) n)
                (derive_block-xor_upto iterations block))

  -- pbkdf2 computes the key of RFC 8018: of the blocks T_1, T_2, ..., as many as the key needs, with
  -- T_i the exclusive or of U_1, ..., U_c, where U_1 is the HMAC of the salt and the block's number
  -- and each other U that of the one before it, the first bytes, as many as asked for.
  pub pbkdf2-blocks_from :
      (hash_length iterations key_length : ℕ)
      → pbkdf2 mac hash_length salt iterations key_length
        ≡ take key_length
            (blocks_from (iterations - 1) 1 ((key_length + hash_length - 1) / hash_length))
  unfolding pbkdf2
  pbkdf2-blocks_from hash_length iterations key_length =
      ap (take key_length) (derive_blocks-blocks_from iterations _ 1 [])

  module _ (hash_length : ℕ) (digests : (m : Bytes) → length (mac m) ≡ hash_length) where
    length-xor_upto : (block c : ℕ) → length (xor_upto block c) ≡ hash_length
    length-xor_upto block zero = digests (salt ++ counter block)
    length-xor_upto block (suc c) =
        length-xor_into (xor_upto block c) (u_at block (suc c)) ∙ length-xor_upto block c

    length-blocks_from : (c block n : ℕ) → length (blocks_from c block n) ≡ n * hash_length
    length-blocks_from c block zero = omega arith
    length-blocks_from c block (suc n) = grind (
      arith,
      length-append (xor_upto block c) (blocks_from c (suc block) n),
      length-xor_upto block c,
      length-blocks_from c (suc block) n,
    )

    enough_blocks :
        (n : ℕ) → 0 < hash_length → n ≤ (n + hash_length - 1) / hash_length * hash_length
    enough_blocks n h = grind arith

    -- If each HMAC has the hash's length, which is not 0, the key has the length asked for, so
    -- that the slice of the output is within its bounds.
    pub length-pbkdf2 :
        (iterations key_length : ℕ)
        → 0 < hash_length
        → (key_length
            ≤ length (
                derive_blocks mac salt iterations
                  ((key_length + hash_length - 1) / hash_length)
                  1
                  []))
          × (length (pbkdf2 mac hash_length salt iterations key_length) ≡ key_length)
    length-pbkdf2 iterations key_length h =
        let n = (key_length + hash_length - 1) / hash_length in
        let enough : key_length ≤ length (blocks_from (iterations - 1) 1 n) =
          rw (length-blocks_from (iterations - 1) 1 n) (enough_blocks key_length h) in
        (
          rw (derive_blocks-blocks_from iterations n 1 []) enough,
          rw (pbkdf2-blocks_from hash_length iterations key_length)
              (length-take key_length _ enough),
        )
