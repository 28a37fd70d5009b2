-- ===== src/Text/Decimal.antt =====
-- The verb %d of Go's package fmt on a natural number, and that it loses nothing.
use Prim.Native.String
use secrets_dispatcher.Prelude.{
  ℕ, suc, zero, ◌+◌, ◌-◌, ◌*◌, ◌/◌, ◌%◌, ◌<◌, String, ◌≡◌, refl, sym, ap, ◌∙◌, List, [], ◌∷◌, ◌++◌,
  eqb, leb, all, Bool, true, ◌&&◌, ltb, if◌then◌else◌, arith, Bool-cases, inl, inr, ltb→lt,
}
use secrets_dispatcher.Text.{codes, codes-append}

digit : ℕ → String
digit d =
    if eqb d 0
    then "0"
    else if eqb d 1
    then "1"
    else if eqb d 2
    then "2"
    else if eqb d 3
    then "3"
    else if eqb d 4
    then "4"
    else if eqb d 5
    then "5"
    else if eqb d 6
    then "6"
    else if eqb d 7
    then "7"
    else if eqb d 8
    then "8"
    else "9"

-- The fuel is the number itself and one more.
digits : ℕ → ℕ → String
digits zero n = ""
digits (suc f) n =
    let rest = String.◌++◌ (digits f (n / 10)) (digit (n % 10)) in
    if ltb n 10 then digit n else rest

unfoldable pub decimal : ℕ → String
unfolding digits digit
decimal n = digits (suc n) n

-- The number that decimal digits stand for.
value : ℕ → List ℕ → ℕ
value acc [] = acc
value acc (c ∷ cs) = value (acc * 10 + (c - b'0')) cs

value-append : (acc : ℕ) (xs ys : List ℕ) → value acc (xs ++ ys) ≡ value (value acc xs) ys
unfolding value
value-append acc [] ys = refl
value-append acc (x ∷ xs) ys = value-append (acc * 10 + (x - b'0')) xs ys

codes-digit : (d : ℕ) → d < 10 → codes (digit d) ≡ (48 + d) ∷ []
unfolding digit
codes-digit zero h = refl
codes-digit (suc zero) h = refl
codes-digit (suc (suc zero)) h = refl
codes-digit (suc (suc (suc zero))) h = refl
codes-digit (suc (suc (suc (suc zero)))) h = refl
codes-digit (suc (suc (suc (suc (suc zero))))) h = refl
codes-digit (suc (suc (suc (suc (suc (suc zero)))))) h = refl
codes-digit (suc (suc (suc (suc (suc (suc (suc zero))))))) h = refl
codes-digit (suc (suc (suc (suc (suc (suc (suc (suc zero)))))))) h = refl
codes-digit (suc (suc (suc (suc (suc (suc (suc (suc (suc zero))))))))) h = refl
codes-digit (suc (suc (suc (suc (suc (suc (suc (suc (suc (suc d)))))))))) h = absurd (omega arith)

value-digit : (acc d : ℕ) → d < 10 → value acc (codes (digit d)) ≡ acc * 10 + d
unfolding value
value-digit acc d h = rw (codes-digit d h) (omega arith)

value-digits : (f n : ℕ) → n < f → value 0 (codes (digits f n)) ≡ n
unfolding digits
value-digits zero n h = absurd (omega arith)
value-digits (suc f) n h = elim (Bool-cases (ltb n 10)) [
  | inl small ↦ rw small (value-digit 0 n (ltb→lt n 10 small) ∙ omega arith)
  | inr large ↦ rw large (
      ap (value 0) (codes-append (digits f (n / 10)) (digit (n % 10)))
      ∙ value-append 0 (codes (digits f (n / 10))) (codes (digit (n % 10)))
      ∙ value-digit (value 0 (codes (digits f (n / 10)))) (n % 10) (omega arith)
      ∙ ground (arith, value-digits f (n / 10)))
]

-- The number can be read back.
pub read_decimal : String → ℕ
read_decimal s = value 0 (codes s)

pub read_decimal-decimal : (n : ℕ) → read_decimal (decimal n) ≡ n
unfolding read_decimal decimal
read_decimal-decimal n = value-digits (suc n) n (omega arith)

-- Different numbers are written differently.
pub decimal_inj : (m n : ℕ) → decimal m ≡ decimal n → m ≡ n
decimal_inj m n e = sym (read_decimal-decimal m) ∙ ap read_decimal e ∙ read_decimal-decimal n

abbrev pub is_digit : ℕ → Bool
is_digit c = leb 48 c && leb c 57

all-append :
    (xs ys : List ℕ)
    → all is_digit xs ≡ true
    → all is_digit ys ≡ true
    → all is_digit (xs ++ ys) ≡ true
all-append [] ys h k = k
all-append (x ∷ xs) ys h k = ground (arith, all-append xs ys)

digit-is_digit : (d : ℕ) → d < 10 → all is_digit (codes (digit d)) ≡ true
digit-is_digit d h = rw (codes-digit d h) (ground arith)

digits-is_digit : (f n : ℕ) → all is_digit (codes (digits f n)) ≡ true
unfolding digits
digits-is_digit zero n = refl
digits-is_digit (suc f) n = elim (Bool-cases (ltb n 10)) [
  | inl small ↦ rw small (digit-is_digit n (ltb→lt n 10 small))
  | inr large ↦ rw large (
      rw (codes-append (digits f (n / 10)) (digit (n % 10))) (
        all-append (codes (digits f (n / 10))) (codes (digit (n % 10))) (digits-is_digit f (n / 10))
          (digit-is_digit (n % 10) (omega arith))))
]

pub decimal-is_digit : (n : ℕ) → all is_digit (codes (decimal n)) ≡ true
unfolding decimal
decimal-is_digit n = digits-is_digit (suc n) n

test_decimal : decimal 1207 ≡ "1207"
unfolding decimal
test_decimal = refl
