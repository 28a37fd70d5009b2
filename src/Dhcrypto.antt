-- ===== src/Dhcrypto.antt =====
-- internal/dhcrypto/dhcrypto.go: the key agreement and the encryption of secrets on a session. Bytes
-- are numbers, and `math/big` is written out. AES-CBC on whole blocks and HKDF are the fields of
-- `Ciphers`.
pub mod Agreement
pub mod Padding
pub mod Tests
use secrets_dispatcher.Prelude.{
  ℕ, zero, suc, ◌+◌, ◌-◌, ◌*◌, ◌/◌, ◌%◌, ◌≡◌, ◌≢◌, Bool, true, false, not, ◌&&◌, ◌||◌, Option, none,
  some, List, [], ◌∷◌, ◌++◌, eqb, leb, ltb, all, take, drop, replicate, length, is_empty,
  if◌then◌else◌,
}

-- `cipher.NewCBCEncrypter(block, iv).CryptBlocks`, its inverse, and the first 16 bytes of
-- `hkdf.New(sha256.New, ikm, nil, nil)`.
pub record Ciphers : Type 0 where
  pub encrypt_blocks : List ℕ → List ℕ → List ℕ → List ℕ
  pub decrypt_blocks : List ℕ → List ℕ → List ℕ → List ℕ
  pub hkdf : List ℕ → List ℕ

abbrev pub block_size : ℕ
block_size = 16

-- What the code relies on: on whole blocks, decryption undoes encryption under the same key and IV and
-- keeps the length, and the key has the length of an AES-128 key.
pub record CipherLaws (c : Ciphers) : Type 0 where
  pub decrypts :
      (key iv text : List ℕ)
      → length text % block_size ≡ 0
      → c.decrypt_blocks key iv (c.encrypt_blocks key iv text) ≡ text
  pub keeps_length : (key iv text : List ℕ) → length (c.encrypt_blocks key iv text) ≡ length text
  pub key_length : (ikm : List ℕ) → length (c.hkdf ikm) ≡ 16

abbrev pub modulus_len : ℕ
modulus_len = 128

-- The prime of RFC 2409, section 6.2.
unfoldable pub dh_prime : ℕ
dh_prime =
    0xFFFFFFFFFFFFFFFFC90FDAA22168C234C4C6628B80DC1CD129024E088A67CC74020BBEA63B139B22514A08798E3404DDEF9519B3CD3A431B302B0A6DF25F14374FE1356D6D51C245E485B576625E7EC6F44C42E9A637ED6B0BFF5CB6F406B7EDEE386BFB5A899FA5AE9F24117C4B1FE649286651ECE65381FFFFFFFFFFFFFFFF

-- `new(big.Int).Exp(base, e, p)`.
unfoldable pub mod_exp : ℕ → ℕ → ℕ → ℕ
mod_exp base zero p = 1 % p
mod_exp base (suc e) p = base * mod_exp base e p % p

-- `SetBytes`: big-endian.
unfoldable pub set_bytes : ℕ → List ℕ → ℕ
set_bytes acc [] = acc
set_bytes acc (b ∷ bs) = set_bytes (acc * 256 + b) bs

-- `Bytes`: no leading zero. The number itself is fuel enough.
unfoldable pub bytes_of : ℕ → ℕ → List ℕ
bytes_of zero n = []
bytes_of (suc f) n = let rest = bytes_of f (n / 256) ++ n % 256 ∷ [] in if eqb n 0 then [] else rest

unfoldable pub left_pad : List ℕ → ℕ → List ℕ
left_pad b size = if leb size (length b) then b else replicate (size - length b) 0 ++ b

pub record KeyPair : Type 0 where
  pub priv : ℕ
  pub public : List ℕ

pub record Session : Type 0 where
  pub key : List ℕ

-- `newKeyPair`, with the generator 2.
unfoldable pub new_key_pair : ℕ → KeyPair
unfolding mod_exp bytes_of left_pad
new_key_pair priv =
    let pub_ = mod_exp 2 priv dh_prime in
    record { priv = priv; public = left_pad (bytes_of pub_ pub_) modulus_len }

-- `n` is what `rand.Int` returns, below the prime less 2; none is its error.
unfoldable pub generate_key_pair : Option ℕ → Option KeyPair
unfolding new_key_pair
generate_key_pair none = none
generate_key_pair (some n) = some (new_key_pair (n + 2))

abbrev pub out_of_range : ℕ → Bool
out_of_range peer = ltb peer 2 || leb (dh_prime - 1) peer

unfoldable pub derive : Ciphers → KeyPair → List ℕ → Option Session
unfolding mod_exp bytes_of left_pad set_bytes
derive c kp peer_public =
    let peer = set_bytes 0 peer_public in
    let shared = mod_exp peer kp.priv dh_prime in
    if out_of_range peer
    then none
    else some (record { key = c.hkdf (left_pad (bytes_of shared shared) modulus_len) })

-- The byte of the padding is `byte(pad)`.
unfoldable pub pkcs7_pad : List ℕ → ℕ → List ℕ
pkcs7_pad text size = let pad = size - length text % size in text ++ replicate pad (pad % 256)

-- `data[len(data)-1]`, where there is one.
abbrev pub last_byte : List ℕ → ℕ
last_byte [] = 0
last_byte (b ∷ []) = b
last_byte (b ∷ c ∷ bs) = last_byte (c ∷ bs)

unfoldable pub pkcs7_unpad : List ℕ → ℕ → Option (List ℕ)
pkcs7_unpad text size =
    let pad = last_byte text in
    let start = length text - pad in
    if is_empty text || not (eqb (length text % size) 0)
    then none
    else if eqb pad 0 || ltb size pad
    then none
    else if all (eqb pad) (drop start text)
    then some (take start text)
    else none

-- `aes.NewCipher` takes keys of 16, 24 and 32 bytes.
abbrev pub valid_key : List ℕ → Bool
valid_key key = eqb (length key) 16 || eqb (length key) 24 || eqb (length key) 32

-- The ciphertext and the IV. `iv` is what the random source gives; none is its error.
unfoldable pub encrypt : Ciphers → Session → Option (List ℕ) → List ℕ → Option (List ℕ × List ℕ)
unfolding pkcs7_pad
encrypt c s none plaintext = none
encrypt c s (some iv) plaintext =
    if valid_key s.key
    then some (c.encrypt_blocks s.key iv (pkcs7_pad plaintext block_size), iv)
    else none

unfoldable pub decrypt : Ciphers → Session → List ℕ → List ℕ → Option (List ℕ)
unfolding pkcs7_unpad
decrypt c s iv ciphertext =
    if not (valid_key s.key)
    then none
    else if not (eqb (length iv) block_size)
    then none
    else if is_empty ciphertext || not (eqb (length ciphertext % block_size) 0)
    then none
    else pkcs7_unpad (c.decrypt_blocks s.key iv ciphertext) block_size
