-- ===== src/Dhcrypto/Tests.antt =====
-- Examples of internal/dhcrypto.
use secrets_dispatcher.Prelude.{◌≡◌, refl, false, none, [], ◌∷◌, replicate, length}
use secrets_dispatcher.Dhcrypto.{
  Ciphers, CipherLaws, Session, out_of_range, mod_exp, dh_prime, pkcs7_pad, pkcs7_unpad,
}
use secrets_dispatcher.Dhcrypto.Agreement.{public_number}

-- Ciphers that meet the laws: blocks stay as they are, and every key is zero.
abbrev pub plain_ciphers : Ciphers
plain_ciphers = record {
  encrypt_blocks = λ key iv text. text;
  decrypt_blocks = λ key iv text. text;
  hkdf = λ ikm. replicate 16 0;
}

pub plain_ciphers-CipherLaws : CipherLaws plain_ciphers
plain_ciphers-CipherLaws = record {
  decrypts = λ key iv text whole. refl;
  keeps_length = λ key iv text. refl;
  key_length = λ ikm. refl;
}

abbrev pub zero_session : Session
zero_session = record { key = replicate 16 0 }

pads : (pkcs7_unpad (7 ∷ 8 ∷ []) 16 ≡ none) × (length (pkcs7_pad (replicate 16 1) 16) ≡ 32)
unfolding pkcs7_unpad pkcs7_pad
pads = (refl, refl)

pub not_degenerate :
    (out_of_range (public_number 3) ≡ false) × (out_of_range (public_number 5) ≡ false)
unfolding mod_exp dh_prime
not_degenerate = (refl, refl)
