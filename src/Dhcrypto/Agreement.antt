-- ===== src/Dhcrypto/Agreement.antt =====
-- internal/dhcrypto/dhcrypto.go: the two ends of a session derive the same key.
use native.Mathlib.Nat.{mod-add-div, add-mul-mod_self_left, mul_comm, mul_assoc}
use secrets_dispatcher.Prelude.{
  ℕ, zero, suc, ◌+◌, ◌-◌, ◌*◌, ◌/◌, ◌%◌, ◌≤◌, ◌≡◌, refl, sym, ap, ◌∙◌, true, false, none, some,
  List, [], ◌∷◌, ◌++◌, eqb, leb, length, replicate, arith, Bool-cases, inl, inr,
}
use secrets_dispatcher.Dhcrypto.{
  Ciphers, CipherLaws, KeyPair, Session, mod_exp, set_bytes, bytes_of, left_pad, new_key_pair,
  derive, dh_prime, out_of_range, modulus_len,
}

set_bytes-append :
    (acc : ℕ) (xs ys : List ℕ) → set_bytes acc (xs ++ ys) ≡ set_bytes (set_bytes acc xs) ys
unfolding set_bytes
set_bytes-append acc [] ys = refl
set_bytes-append acc (x ∷ xs) ys = set_bytes-append (acc * 256 + x) xs ys

set_bytes-bytes_of : (f n : ℕ) → n ≤ f → set_bytes 0 (bytes_of f n) ≡ n
unfolding bytes_of set_bytes
set_bytes-bytes_of zero n h = omega arith
set_bytes-bytes_of (suc f) n h = elim (Bool-cases (eqb n 0)) [
  | inl e ↦ rw e (ground arith)
  | inr e ↦ rw e (
      set_bytes-append 0 (bytes_of f (n / 256)) (n % 256 ∷ [])
      ∙ ground (arith, set_bytes-bytes_of f (n / 256)))
]

set_bytes-zeros : (k : ℕ) (xs : List ℕ) → set_bytes 0 (replicate k 0 ++ xs) ≡ set_bytes 0 xs
unfolding set_bytes
set_bytes-zeros zero xs = refl
set_bytes-zeros (suc k) xs = set_bytes-zeros k xs

set_bytes-left_pad : (xs : List ℕ) (size : ℕ) → set_bytes 0 (left_pad xs size) ≡ set_bytes 0 xs
unfolding left_pad
set_bytes-left_pad xs size = elim (Bool-cases (leb size (length xs))) [
  | inl e ↦ rw e refl
  | inr e ↦ rw e (set_bytes-zeros (size - length xs) xs)
]

-- The number that a public key is sent as can be read back.
pub set_bytes-encoded : (n : ℕ) → set_bytes 0 (left_pad (bytes_of n n) modulus_len) ≡ n
set_bytes-encoded n =
    set_bytes-left_pad (bytes_of n n) modulus_len ∙ set_bytes-bytes_of n n (omega arith)

module _ (p : ℕ) where
  mod-mul : (x y : ℕ) → x % p * y % p ≡ x * y % p
  mod-mul x y =
      sym (add-mul-mod_self_left (x % p * y) p (x / p * y))
      ∙ ap (λ n. n % p) (grind (arith, ap (λ (t : ℕ). t * y) (mod-add-div x p)))

  mul-mod : (x y : ℕ) → x * (y % p) % p ≡ x * y % p
  mul-mod x y = ap (λ n. n % p) (mul_comm x (y % p)) ∙ mod-mul y x ∙ ap (λ n. n % p) (mul_comm y x)

  mod-mod : (x : ℕ) → x % p % p ≡ x % p
  mod-mod x = ap (λ n. n % p) (omega arith) ∙ mod-mul x 1 ∙ ap (λ n. n % p) (omega arith)

  exp-mod : (g e : ℕ) → mod_exp g e p % p ≡ mod_exp g e p
  unfolding mod_exp
  exp-mod g zero = mod-mod 1
  exp-mod g (suc e) = mod-mod (g * mod_exp g e p)

  exp-suc : (g e : ℕ) → mod_exp g (suc e) p ≡ g * mod_exp g e p % p
  unfolding mod_exp
  exp-suc g e = refl

  exp-zero : (g : ℕ) → mod_exp g 0 p ≡ 1 % p
  unfolding mod_exp
  exp-zero g = refl

  exp-add : (g a b : ℕ) → mod_exp g (a + b) p ≡ mod_exp g a p * mod_exp g b p % p
  exp-add g zero b =
      ap (λ n. mod_exp g n p) (let e : 0 + b ≡ b = omega arith in e)
      ∙ sym (exp-mod g b)
      ∙ ap (λ n. n % p) (let e : mod_exp g b p ≡ 1 * mod_exp g b p = omega arith in e)
      ∙ sym (mod-mul 1 (mod_exp g b p))
      ∙ unfold mod_exp in refl
  exp-add g (suc a) b =
      ap (λ n. mod_exp g n p) (let e : suc a + b ≡ suc (a + b) = omega arith in e)
      ∙ exp-suc g (a + b)
      ∙ ap (λ n. g * n % p) (exp-add g a b)
      ∙ mul-mod g (mod_exp g a p * mod_exp g b p)
      ∙ ap (λ n. n % p) (sym (mul_assoc g (mod_exp g a p) (mod_exp g b p)))
      ∙ sym (mod-mul (g * mod_exp g a p) (mod_exp g b p))
      ∙ ap (λ n. n * mod_exp g b p % p) (sym (exp-suc g a))

  exp-mul : (g a b : ℕ) → mod_exp (mod_exp g a p) b p ≡ mod_exp g (a * b) p
  exp-mul g a zero =
      exp-zero (mod_exp g a p)
      ∙ sym (exp-zero g)
      ∙ ap (λ n. mod_exp g n p) (let e : 0 ≡ a * 0 = omega arith in e)
  exp-mul g a (suc b) =
      exp-suc (mod_exp g a p) b
      ∙ ap (λ n. mod_exp g a p * n % p) (exp-mul g a b)
      ∙ sym (exp-add g a (a * b))
      ∙ ap (λ n. mod_exp g n p) (let e : a + a * b ≡ a * suc b = grind arith in e)

  -- Exponents can be applied in either order.
  exp_comm : (g a b : ℕ) → mod_exp (mod_exp g a p) b p ≡ mod_exp (mod_exp g b p) a p
  exp_comm g a b = exp-mul g a b ∙ ap (λ n. mod_exp g n p) (mul_comm a b) ∙ sym (exp-mul g b a)

-- The number that a key pair's public key stands for.
abbrev pub public_number : ℕ → ℕ
public_number priv = mod_exp 2 priv dh_prime

public_lem : (priv : ℕ) → set_bytes 0 (new_key_pair priv).public ≡ public_number priv
unfolding new_key_pair
public_lem priv = set_bytes-encoded (public_number priv)

abbrev session_of : Ciphers → ℕ → Session
session_of c shared = record { key = c.hkdf (left_pad (bytes_of shared shared) modulus_len) }

derive_known :
    (c : Ciphers) (kp : KeyPair) (bytes : List ℕ) (n : ℕ)
    → set_bytes 0 bytes ≡ n
    → out_of_range n ≡ false
    → derive c kp bytes ≡ some (session_of c (mod_exp n kp.priv dh_prime))
unfolding derive
derive_known c kp bytes n e ok = rw (e, ok) refl

priv_lem : (priv : ℕ) → (new_key_pair priv).priv ≡ priv
unfolding new_key_pair
priv_lem priv = refl

derive_lem :
    (c : Ciphers) (a b : ℕ)
    → out_of_range (public_number b) ≡ false
    → derive c (new_key_pair a) (new_key_pair b).public
      ≡ some (session_of c (mod_exp (public_number b) a dh_prime))
derive_lem c a b ok =
    derive_known c (new_key_pair a) (new_key_pair b).public (public_number b) (public_lem b) ok
    ∙ ap (λ n. some (session_of c (mod_exp (public_number b) n dh_prime))) (priv_lem a)

-- Both ends of a session derive, and the same session key, each from its own private exponent and the
-- public key that the other sends, if the two public keys are not degenerate.
pub derive_agree :
    (c : Ciphers) (a b : ℕ)
    → out_of_range (public_number a) ≡ false
    → out_of_range (public_number b) ≡ false
    → (s : Session) × (derive c (new_key_pair a) (new_key_pair b).public ≡ some s)
      × (derive c (new_key_pair b) (new_key_pair a).public ≡ some s)
derive_agree c a b p q = (
  session_of c (mod_exp (public_number b) a dh_prime),
  derive_lem c a b q,
  derive_lem c b a p ∙ ap (λ n. some (session_of c n)) (exp_comm dh_prime 2 a b),
)

degenerate :
    (c : Ciphers) (kp : KeyPair) (bytes : List ℕ)
    → out_of_range (set_bytes 0 bytes) ≡ true
    → derive c kp bytes ≡ none
unfolding derive
degenerate c kp bytes e = rw e refl

-- A derived key has the length that the cipher takes.
pub derive-key_length :
    (c : Ciphers) (kp : KeyPair) (bytes : List ℕ) (s : Session)
    → CipherLaws c
    → derive c kp bytes ≡ some s
    → length s.key ≡ 16
derive-key_length c kp bytes s laws e = elim (Bool-cases (out_of_range (set_bytes 0 bytes))) [
  | inl f ↦ absurd (cc (degenerate c kp bytes f))
  | inr f ↦
      let shared = mod_exp (set_bytes 0 bytes) kp.priv dh_prime in
      let same : session_of c shared ≡ s = cc (derive_known c kp bytes _ refl f) in
      sym (ap (λ (t : Session). length t.key) same)
      ∙ laws.key_length (left_pad (bytes_of shared shared) modulus_len)
]
