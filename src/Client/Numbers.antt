-- ===== src/Client/Numbers.antt =====
-- Decimal numbers in server/src/states/transaction.c: `number_of_digits`, and the `%d` of `sprintf`
-- and `atoi` of the C library, on which it relies.
use tp_protos.Base.{
  ℕ, zero, suc, ◌+◌, ◌-◌, ◌*◌, ◌/◌, ◌%◌, ◌^◌, ◌≤◌, ◌<◌, ◌≡◌, refl, sym, ap, ◌∙◌, Bool, true, false,
  ◌&&◌, ◌||◌, [], ◌∷◌, arith, ltb, leb, ◌==◌, if◌then◌else◌, Bool-cases, inl, inr, length, Text, ℤ,
  pos, negsuc, Outcome, ok, fault, ltb→lt,
}

-- The loop of `number_of_digits`; `fuel` is at least the number, which a division makes smaller.
count_digits : ℕ → ℕ → ℕ
count_digits zero n = 0
count_digits (suc fuel) n = let rest = count_digits fuel (n / 10) in if n == 0 then 0 else suc rest

-- `number_of_digits(n)` of an `int` that is not negative.
unfoldable pub number_of_digits : ℕ → ℕ
unfolding count_digits
number_of_digits n = if n == 0 then 1 else count_digits n n

-- The digits of `n` in front of `after`.
print_digits : ℕ → ℕ → Text → Text
print_digits zero n after = (b'0' + n % 10) ∷ after
print_digits (suc fuel) n after =
    let more = print_digits fuel (n / 10) ((b'0' + n % 10) ∷ after) in
    if ltb n 10 then (b'0' + n) ∷ after else more

-- `sprintf` of `%d`
unfoldable pub decimal : ℕ → Text
unfolding print_digits
decimal n = print_digits n n []

abbrev is_digit : ℕ → Bool
is_digit c = leb b'0' c && leb c b'9'

-- The value of the digits at the front, behind digits of value `n`.
unfoldable pub read_digits : ℕ → Text → ℕ
read_digits n [] = n
read_digits n (c ∷ s) =
    let rest = read_digits (n * 10 + (c - b'0')) s in if is_digit c then rest else n

-- `isspace` in the C locale.
abbrev is_space : ℕ → Bool
is_space c = (c == b' ') || (leb 9 c && leb c 13)

unfoldable pub skip_spaces : Text → Text
skip_spaces [] = []
skip_spaces (c ∷ s) = let rest = skip_spaces s in if is_space c then rest else c ∷ s

-- A value of more than an `int` is undefined.
abbrev pub signed : Bool → ℕ → Outcome ℤ
signed false n = if ltb n (2 ^ 31) then ok (pos n) else fault
signed true zero = ok (pos 0)
signed true (suc n) = if ltb n (2 ^ 31) then ok (negsuc n) else fault

abbrev pub read_signed : Text → Outcome ℤ
read_signed [] = ok (pos 0)
read_signed (c ∷ s) =
    if c == b'-'
    then signed true (read_digits 0 s)
    else if c == b'+'
    then signed false (read_digits 0 s)
    else signed false (read_digits 0 (c ∷ s))

-- `atoi(s)`
unfoldable pub atoi : Text → Outcome ℤ
unfolding read_digits skip_spaces
atoi s = read_signed (skip_spaces s)

count_digits_zero : (fuel : ℕ) → count_digits fuel 0 ≡ 0
unfolding count_digits
count_digits_zero zero = refl
count_digits_zero (suc fuel) = refl

read_digit :
    (a d : ℕ) (s : Text) → d < 10 → read_digits a ((b'0' + d) ∷ s) ≡ read_digits (a * 10 + d) s
unfolding read_digits
read_digit a d s h =
    let v : a * 10 + (b'0' + d - b'0') ≡ a * 10 + d = omega arith in
    let yes_digit : is_digit (b'0' + d) ≡ true = ground arith in rw (yes_digit, v)

length-print_digits :
    (fuel n : ℕ) (after : Text)
    → n ≤ fuel
    → length (print_digits fuel n after)
      ≡ (if n == 0 then 1 else count_digits fuel n) + length after
unfolding print_digits count_digits
length-print_digits zero n after h = ground arith
length-print_digits (suc fuel) n after h = elim (Bool-cases (ltb n 10)) [
  | inl small ↦
      let none_left : n / 10 ≡ 0 = ground arith in
      rw (small, none_left, count_digits_zero fuel) (ground arith)
  | inr large ↦
      let below : n / 10 ≤ fuel = ground arith in
      let rest = length-print_digits fuel (n / 10) ((b'0' + n % 10) ∷ after) below in
      ground (arith, rest)
]

-- `number_of_digits` is the number of characters that `%d` prints.
pub length-decimal : (n : ℕ) → length (decimal n) ≡ number_of_digits n
unfolding decimal number_of_digits
length-decimal n = length-print_digits n n [] (omega arith) ∙ omega arith

read_digits-print_digits :
    (fuel n : ℕ) (after : Text)
    → n ≤ fuel
    → read_digits 0 (print_digits fuel n after) ≡ read_digits n after
unfolding print_digits read_digits
read_digits-print_digits zero n after h = ground arith
read_digits-print_digits (suc fuel) n after h = elim (Bool-cases (ltb n 10)) [
  | inl small ↦
      let below : n < 10 = ltb→lt n 10 small in
      let same : 0 * 10 + n ≡ n = omega arith in
      let step : read_digits 0 ((b'0' + n) ∷ after) ≡ read_digits (0 * 10 + n) after =
        read_digit 0 n after below in
      rw small (step ∙ ap (λ x. read_digits x after) same)
  | inr large ↦
      let same : n / 10 * 10 + n % 10 ≡ n = omega arith in
      let below : n / 10 ≤ fuel = ground arith in
      let digit : n % 10 < 10 = omega arith in
      rw large (
        read_digits-print_digits fuel (n / 10) ((b'0' + n % 10) ∷ after) below
        ∙ read_digit (n / 10) (n % 10) after digit
        ∙ ap (λ x. read_digits x after) same)
]

print_digits_head :
    (fuel n : ℕ) (after : Text)
    → n ≤ fuel
    → (d : ℕ) × (s : Text) × (print_digits fuel n after ≡ (b'0' + d) ∷ s) × (d < 10)
unfolding print_digits
print_digits_head zero n after h = (n % 10, after, refl, omega arith)
print_digits_head (suc fuel) n after h = elim (Bool-cases (ltb n 10)) [
  | inl small ↦ (n, after, rw small, ltb→lt n 10 small)
  | inr large ↦
      let (d, s, e, b) = print_digits_head fuel (n / 10) ((b'0' + n % 10) ∷ after) (ground arith) in
      (d, s, rw large e, b)
]

-- What `%d` prints starts with a digit, and is read back as digits.
pub decimal_head : (n : ℕ) → (d : ℕ) × (s : Text) × (decimal n ≡ (b'0' + d) ∷ s) × (d < 10)
unfolding decimal
decimal_head n = print_digits_head n n [] (omega arith)

pub read_digits-decimal : (n : ℕ) → read_digits 0 (decimal n) ≡ n
unfolding decimal read_digits
read_digits-decimal n = read_digits-print_digits n n [] (omega arith)

-- A digit is no space.
pub skip_spaces_digit : (d : ℕ) (s : Text) → d < 10 → skip_spaces ((b'0' + d) ∷ s) ≡ (b'0' + d) ∷ s
unfolding skip_spaces
skip_spaces_digit d s b = let mark : is_space (b'0' + d) ≡ false = ground arith in rw mark

read_signed_digit :
    (d : ℕ) (s : Text)
    → d < 10
    → read_signed ((b'0' + d) ∷ s) ≡ signed false (read_digits 0 ((b'0' + d) ∷ s))
read_signed_digit d s b =
    let minus : ((b'0' + d) == b'-') ≡ false = ground arith in
    let plus : ((b'0' + d) == b'+') ≡ false = ground arith in rw (minus, plus)

-- `atoi` reads back the number of an `int` that is not negative as `%d` prints it.
pub atoi-decimal : (n : ℕ) → n < 2 ^ 31 → atoi (decimal n) ≡ ok (pos n)
unfolding atoi
atoi-decimal n h =
    let (d, s, e, b) = decimal_head n in
    let v = read_digits-decimal n in
    let fits : ltb n (2 ^ 31) ≡ true = ground arith in
    ap atoi e
    ∙ ap read_signed (skip_spaces_digit d s b)
    ∙ read_signed_digit d s b
    ∙ ap (λ x. signed false (read_digits 0 x)) (sym e)
    ∙ ap (signed false) v
    ∙ rw fits
