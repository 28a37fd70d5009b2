-- ===== src/Proxy/UnitPath.antt =====
-- internal/proxy/unitpath.go: the name of a systemd unit from its D-Bus object path, over bytes.
use secrets_dispatcher.Prelude.{
  Bool-cases, inl, inr, ap, ◌∙◌, ℕ, ◌+◌, ◌-◌, ◌*◌, ◌/◌, ◌%◌, ◌<◌, ◌≡◌, refl, Bool, true, false,
  ◌&&◌, ◌||◌, Option, none, some, List, [], ◌∷◌, ◌++◌, arith, leb, eqb, if◌then◌else◌, All,
}
use secrets_dispatcher.Text.{codes}

-- `hexValue`
unfoldable pub hex_value : ℕ → Option ℕ
hex_value c =
    if leb b'0' c && leb c b'9'
    then some (c - b'0')
    else if leb b'a' c && leb c b'f'
    then some (c - b'a' + 10)
    else if leb b'A' c && leb c b'F'
    then some (c - b'A' + 10)
    else none

-- `decodeHex` of the two characters; `high<<4 | low` of two digits is their sum.
unfoldable pub decode_hex : ℕ → ℕ → Option ℕ
decode_hex a b = elim (hex_value a) [
  | none ↦ none
  | some high ↦ elim (hex_value b) [ none ↦ none | some low ↦ some (high * 16 + low) ]
]

-- `decodeDBusPath`: an underscore with two characters behind it may be an escape.
unfoldable pub decode_dbus_path : List ℕ → List ℕ
decode_dbus_path [] = []
decode_dbus_path (c ∷ []) = c ∷ []
decode_dbus_path (c ∷ a ∷ []) = c ∷ a ∷ []
decode_dbus_path (c ∷ a ∷ b ∷ rest) = elim (if eqb c b'_' then decode_hex a b else none) [
  | some decoded ↦ decoded ∷ decode_dbus_path rest
  | none ↦ c ∷ decode_dbus_path (a ∷ b ∷ rest)
]

-- What follows a prefix.
unfoldable pub cut : List ℕ → List ℕ → Option (List ℕ)
cut [] s = some s
cut (p ∷ ps) [] = none
cut (p ∷ ps) (c ∷ s) = if eqb p c then cut ps s else none

abbrev pub unit_prefix : List ℕ
unit_prefix = codes "/org/freedesktop/systemd1/unit/"

unfoldable pub decode_unit_path : List ℕ → List ℕ
unfolding cut decode_dbus_path
decode_unit_path path = elim (cut unit_prefix path) [
  | none ↦ []
  | some encoded ↦ decode_dbus_path encoded
]

-- What systemd's documentation says of a unit's path (`bus_label_escape`): every byte of the name but an
-- ASCII letter or digit, and a digit in front too, becomes an underscore and two lower-case hex digits;
-- the empty name becomes an underscore. `escape` is for what follows the first byte.
abbrev pub hex_digit : ℕ → ℕ
hex_digit n = if leb n 9 then n + b'0' else n - 10 + b'a'

abbrev pub is_plain : ℕ → Bool
is_plain c = (leb b'0' c && leb c b'9') || (leb b'a' c && leb c b'z') || (leb b'A' c && leb c b'Z')

unfoldable pub escape : List ℕ → List ℕ
escape [] = []
escape (c ∷ s) =
    let rest = escape s in
    if is_plain c then c ∷ rest else b'_' ∷ hex_digit (c / 16) ∷ hex_digit (c % 16) ∷ rest

hex_value-digit : (n : ℕ) → n < 16 → hex_value (hex_digit n) ≡ some n
unfolding hex_value
hex_value-digit n h = ground arith

decode_hex-byte : (c : ℕ) → c < 256 → decode_hex (hex_digit (c / 16)) (hex_digit (c % 16)) ≡ some c
unfolding decode_hex
decode_hex-byte c h =
    rw (hex_value-digit (c / 16) (omega arith), hex_value-digit (c % 16) (omega arith), decode_hex)
      (ap some (omega arith))

plain-ne-underscore : (c : ℕ) → is_plain c ≡ true → eqb c b'_' ≡ false
plain-ne-underscore c h = ground arith

-- A plain byte is copied, whatever follows it.
decode-plain :
    (c : ℕ) (s : List ℕ) → is_plain c ≡ true → decode_dbus_path (c ∷ s) ≡ c ∷ decode_dbus_path s
unfolding decode_dbus_path
decode-plain c [] h = refl
decode-plain c (a ∷ []) h = refl
decode-plain c (a ∷ b ∷ rest) h = rw (plain-ne-underscore c h, decode_dbus_path)

decode-escaped :
    (a b v : ℕ) (rest : List ℕ)
    → decode_hex a b ≡ some v
    → decode_dbus_path (b'_' ∷ a ∷ b ∷ rest) ≡ v ∷ decode_dbus_path rest
unfolding decode_dbus_path
decode-escaped a b v rest h = rw (h, decode_dbus_path)

-- Decoding gives back every name that the bus has escaped.
pub decode-escape : (s : List ℕ) → All (λ c. c < 256) s → decode_dbus_path (escape s) ≡ s
unfolding escape
decode-escape [] h = unfold decode_dbus_path in refl
decode-escape (c ∷ s) h = elim (Bool-cases (is_plain c)) [
  | inl e ↦ rw e (decode-plain c (escape s) e ∙ ap (◌∷◌ c) (decode-escape s h.1))
  | inr e ↦ rw e (
      decode-escaped (hex_digit (c / 16)) (hex_digit (c % 16)) c (escape s) (decode_hex-byte c h.0)
      ∙ ap (◌∷◌ c) (decode-escape s h.1))
]

abbrev pub is_letter : ℕ → Bool
is_letter c = (leb b'a' c && leb c b'z') || (leb b'A' c && leb c b'Z')

pub bus_label_escape : List ℕ → List ℕ
bus_label_escape [] = b'_' ∷ []
bus_label_escape (c ∷ s) =
    if is_letter c then c ∷ escape s else b'_' ∷ hex_digit (c / 16) ∷ hex_digit (c % 16) ∷ escape s

-- The path that systemd makes for a unit whose name is a sequence of bytes, one at least, is read back to
-- that name, a digit in front included; of the path for the empty name the underscore is left.
pub decode_unit_path-escape :
    (c : ℕ) (name : List ℕ)
    → All (λ b. b < 256) (c ∷ name)
    → (decode_unit_path (unit_prefix ++ bus_label_escape (c ∷ name)) ≡ c ∷ name)
      × (decode_unit_path (unit_prefix ++ bus_label_escape []) ≡ codes "_")
unfolding decode_unit_path bus_label_escape
decode_unit_path-escape c name h = (
  elim (Bool-cases (is_letter c)) [
    | inl e ↦
        rw e (decode-plain c (escape name) (ground arith) ∙ ap (◌∷◌ c) (decode-escape name h.1))
    | inr e ↦ rw e (
        decode-escaped (hex_digit (c / 16)) (hex_digit (c % 16)) c (escape name)
          (decode_hex-byte c h.0)
        ∙ ap (◌∷◌ c) (decode-escape name h.1))
  ],
  refl,
)
