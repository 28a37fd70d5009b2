-- ===== src/Dhcrypto/Padding.antt =====
-- internal/dhcrypto/dhcrypto.go: what is padded and encrypted comes back.
use secrets_dispatcher.Prelude.{
  ℕ, zero, suc, ◌+◌, ◌-◌, ◌%◌, ◌<◌, ◌≡◌, refl, ap, ap₂, ◌∙◌, true, false, some, List, [], ◌∷◌, ◌++◌,
  eqb, all, replicate, length, is_empty, arith, length-append, length-replicate, take-append,
  drop-append,
}
use secrets_dispatcher.Dhcrypto.{
  Ciphers, CipherLaws, Session, block_size, pkcs7_pad, pkcs7_unpad, last_byte, encrypt, decrypt,
  valid_key,
}

last_byte-append : (xs : List ℕ) (n v : ℕ) → last_byte (xs ++ replicate (suc n) v) ≡ v
last_byte-append [] zero v = refl
last_byte-append [] (suc n) v = last_byte-append [] n v
last_byte-append (x ∷ []) n v = last_byte-append [] n v
last_byte-append (x ∷ y ∷ xs) n v = last_byte-append (y ∷ xs) n v

all-replicate : (n v : ℕ) → all (eqb v) (replicate n v) ≡ true
all-replicate zero v = refl
all-replicate (suc n) v = ground (arith, all-replicate n v)

is_empty-append : (xs : List ℕ) (n v : ℕ) → is_empty (xs ++ replicate (suc n) v) ≡ false
is_empty-append [] n v = refl
is_empty-append (x ∷ xs) n v = refl

-- The unpadding of a text with `suc n` bytes of that value behind it.
unpads :
    (xs : List ℕ) (n : ℕ)
    → n < 16
    → (length xs + suc n) % 16 ≡ 0
    → pkcs7_unpad (xs ++ replicate (suc n) (suc n)) block_size ≡ some xs
unfolding pkcs7_unpad
unpads xs n small whole =
    let len =
      length-append xs (replicate (suc n) (suc n))
      ∙ ap (λ k. length xs + k) (length-replicate (suc n) (suc n)) in
    let start : length (xs ++ replicate (suc n) (suc n)) - suc n ≡ length xs = omega (arith, len) in
    rw
      (
        last_byte-append xs n (suc n),
        is_empty-append xs n (suc n),
        start,
        drop-append xs (replicate (suc n) (suc n)),
        take-append xs (replicate (suc n) (suc n)),
        all-replicate (suc n) (suc n),
      )
      (ground (arith, len))

pub pkcs7_unpad-pad : (xs : List ℕ) → pkcs7_unpad (pkcs7_pad xs block_size) block_size ≡ some xs
unfolding pkcs7_pad
pkcs7_unpad-pad xs =
    ap₂ (λ a b. pkcs7_unpad (xs ++ replicate a b) block_size)
      (let e : 16 - length xs % 16 ≡ suc (15 - length xs % 16) = omega arith in e)
      (let e : (16 - length xs % 16) % 256 ≡ suc (15 - length xs % 16) = omega arith in e)
    ∙ unpads xs (15 - length xs % 16) (omega arith) (omega arith)

length-pkcs7_pad :
    (xs : List ℕ) → length (pkcs7_pad xs block_size) ≡ length xs + (16 - length xs % 16)
unfolding pkcs7_pad
length-pkcs7_pad xs =
    length-append xs (replicate (16 - length xs % 16) ((16 - length xs % 16) % 256))
    ∙ ap (λ n. length xs + n) (length-replicate (16 - length xs % 16) ((16 - length xs % 16) % 256))

-- Padding always adds something, and makes whole blocks.
pkcs7_pad-whole :
    (xs : List ℕ)
    → (length (pkcs7_pad xs block_size) % 16 ≡ 0) × (0 < length (pkcs7_pad xs block_size))
pkcs7_pad-whole xs = omega (arith, length-pkcs7_pad xs)

nonempty : (xs : List ℕ) → 0 < length xs → is_empty xs ≡ false
nonempty [] h = absurd (omega arith)
nonempty (x ∷ xs) h = refl

-- A secret that one end of a session encrypts is what the other end decrypts with the same key,
-- whatever its length, the empty secret too; the two calls do not fail, if the random source gives a
-- block of bytes and the key has 16 bytes.
pub decrypt-encrypt :
    (c : Ciphers) (s : Session) (iv text : List ℕ)
    → CipherLaws c
    → length s.key ≡ 16
    → length iv ≡ 16
    → (ciphertext : List ℕ) × (encrypt c s (some iv) text ≡ some (ciphertext, iv))
      × (decrypt c s iv ciphertext ≡ some text)
unfolding encrypt decrypt
decrypt-encrypt c s iv text laws k i =
    let padded = pkcs7_pad text block_size in
    let sealed = c.encrypt_blocks s.key iv padded in
    let len = laws.keeps_length s.key iv padded in
    let whole = pkcs7_pad-whole text in
    let valid : valid_key s.key ≡ true = ground arith in
    (
      sealed,
      rw valid refl,
      rw
          (
            valid,
            i,
            len,
            whole.0,
            nonempty sealed (omega (arith, len, whole.1)),
            laws.decrypts s.key iv padded whole.0,
          )
          (pkcs7_unpad-pad text),
    )
