-- ===== src/Proxy/Session/Transcode.antt =====
-- internal/proxy/session.go with internal/dhcrypto: secrets pass from the plain upstream session to the
-- client's session and back unchanged, and the client can read them.
use secrets_dispatcher.Prelude.{
  ℕ, ◌+◌, ◌%◌, String, ◌≡◌, refl, ap, ◌∙◌, false, Option, none, some, List, [], ◌∷◌, eq_refl,
  length,
}
use secrets_dispatcher.Prelude.Dict.{get, get-insert}
use secrets_dispatcher.Dbus.{Secret, algorithm_dh}
use secrets_dispatcher.Dhcrypto.{
  Ciphers, CipherLaws, Session, new_key_pair, generate_key_pair, derive, decrypt, out_of_range,
}
use secrets_dispatcher.Dhcrypto.Padding.{decrypt-encrypt}
use secrets_dispatcher.Dhcrypto.Agreement.{public_number, derive_agree, derive-key_length}
use secrets_dispatcher.Proxy.Upstream.{Variant, bytes_value, answered, Result, ok, Call}
use secrets_dispatcher.Proxy.Session.{
  SessionManager, SessionEntry, create_session, create_negotiated, negotiate, add_session,
  for_client, for_upstream, forwarded, encode_with, decode_with, decode_entry, u64, session_path,
  open_session_call,
}

-- The parameters of a forwarded secret: none on an encrypted session.
abbrev pub kept_parameters : Option Session → List ℕ → List ℕ
kept_parameters none parameters = parameters
kept_parameters (some s) parameters = []

-- The session has an AES-128 key.
abbrev pub KeyFits : Option Session → Type 0
KeyFits none = Unit
KeyFits (some s) = length s.key ≡ 16

transcodes :
    (c : Ciphers) (remote local : String) (secret : Secret) (iv : List ℕ)
    → CipherLaws c
    → length iv ≡ 16
    → (o : Option Session) → KeyFits o
    → (sealed : Secret) × (encode_with o c (some iv) remote secret ≡ some sealed)
      × (sealed.session ≡ remote)
      × (decode_with o c local sealed
          ≡ forwarded
              (record secret { session = local; parameters = kept_parameters o secret.parameters }))
transcodes c remote local secret iv laws i none fits =
    (record secret { session = remote }, refl, refl, refl)
transcodes c remote local secret iv laws i (some s) fits =
    let (ciphertext, e, d) = decrypt-encrypt c s iv secret.value laws fits i in
    (
      record secret { session = remote; value = ciphertext; parameters = iv },
      rw (e, encode_with) refl,
      refl,
      rw (d, decode_with) refl,
    )

-- A secret that is prepared for the client of a known session and comes back from the client is
-- forwarded with the value it had, under the path of the upstream session, whether or not the session
-- is encrypted, if the random source gives a block of bytes and the key has 16 bytes.
pub for_upstream-client :
    (c : Ciphers) (m : SessionManager) (remote : String) (entry : SessionEntry) (secret : Secret)
    (iv : List ℕ)
    → CipherLaws c
    → get remote m.sessions ≡ some entry
    → KeyFits entry.cipher
    → length iv ≡ 16
    → (sealed : Secret) × (for_client c (some iv) m remote secret ≡ some sealed)
      × (sealed.session ≡ remote)
      × (for_upstream c m sealed
          ≡ forwarded (record secret {
            session = entry.local;
            parameters = kept_parameters entry.cipher secret.parameters;
          }))
unfolding for_client for_upstream
for_upstream-client c m remote entry secret iv laws known fits i =
    let (sealed, e, f, g) = transcodes c remote entry.local secret iv laws i entry.cipher fits in
    (sealed, rw known e, f, ap (λ r. decode_entry (get r m.sessions) c sealed) f ∙ rw known g)

negotiated :
    (c : Ciphers) (n : ℕ) (client_pub : List ℕ) (s : Session)
    → derive c (new_key_pair (n + 2)) client_pub ≡ some s
    → negotiate c (some n) algorithm_dh (bytes_value client_pub)
      ≡ ok (bytes_value (new_key_pair (n + 2)).public, some s)
unfolding negotiate generate_key_pair
negotiated c n client_pub s e = rw (e, negotiate) refl

-- The session that a successful negotiation is entered as.
entered :
    (m : SessionManager) (local : String) (cipher : Option Session)
    → get (session_path ((m.counter + 1) % u64)) (add_session m local cipher).0.sessions
      ≡ some (record { local = local; cipher = cipher })
unfolding add_session
entered m local cipher =
    let path = session_path ((m.counter + 1) % u64) in
    get-insert path path (record { local = local; cipher = cipher }) m.sessions
    ∙ rw (eq_refl path) refl

create-negotiated :
    (c : Ciphers) (n : ℕ) (client_pub : List ℕ) (s : Session) (m : SessionManager)
    (upstream : Variant) (local : String)
    → derive c (new_key_pair (n + 2)) client_pub ≡ some s
    → create_session c (some n) (answered (upstream, local)) m algorithm_dh (bytes_value client_pub)
      ≡ (
        (add_session m local (some s)).0,
        open_session_call ∷ [],
        ok (bytes_value (new_key_pair (n + 2)).public, (add_session m local (some s)).1),
      )
unfolding create_session
create-negotiated c n client_pub s m upstream local e =
    ap (λ r. create_negotiated r (answered (upstream, local)) m) (negotiated c n client_pub s e)

path_of :
    (m : SessionManager) (local : String) (cipher : Option Session)
    → (add_session m local cipher).1 ≡ session_path ((m.counter + 1) % u64)
unfolding add_session
path_of m local cipher = refl

-- A client opens an encrypted session with its key pair: it gets the proxy's public key, derives a
-- session key from it, and decrypts with this key a secret that the proxy prepares for its session.
-- The two public keys must not be degenerate, the upstream must open its session, and the random source
-- must give a block of bytes.
pub negotiated_readable :
    (c : Ciphers) (m : SessionManager) (a n : ℕ) (upstream : Variant) (local : String)
    (secret : Secret) (iv : List ℕ)
    → CipherLaws c
    → out_of_range (public_number a) ≡ false
    → out_of_range (public_number (n + 2)) ≡ false
    → length iv ≡ 16
    → (s : Session) × (sealed : Secret) × (derive c (new_key_pair a) (new_key_pair (n + 2)).public
        ≡ some s)
      × ((create_session c
            (some n)
            (answered (upstream, local))
            m
            algorithm_dh
            (bytes_value (new_key_pair a).public)).2
          ≡ ok (bytes_value (new_key_pair (n + 2)).public, session_path ((m.counter + 1) % u64)))
      × (for_client c
            (some iv)
            (create_session c
              (some n)
              (answered (upstream, local))
              m
              algorithm_dh
              (bytes_value (new_key_pair a).public)).0
            (session_path ((m.counter + 1) % u64))
            secret
          ≡ some sealed)
      × (decrypt c s sealed.parameters sealed.value ≡ some secret.value)
unfolding for_client
negotiated_readable c m a n upstream local secret iv laws p q i =
    let (s, client, proxy) = derive_agree c a (n + 2) p q in
    let (ciphertext, e, d) =
      decrypt-encrypt c s iv secret.value laws (derive-key_length c _ _ s laws client) i in
    let made = create-negotiated c n (new_key_pair a).public s m upstream local proxy in
    (
      s,
      record secret {
        session = session_path ((m.counter + 1) % u64);
        value = ciphertext;
        parameters = iv;
      },
      client,
      ap (λ (r : SessionManager × List Call × Result (Variant × String)). r.2) made
          ∙ ap (λ path. ok (bytes_value (new_key_pair (n + 2)).public, path))
              (path_of m local (some s)),
      rw (made, entered m local (some s), e, encode_with) refl,
      d,
    )
