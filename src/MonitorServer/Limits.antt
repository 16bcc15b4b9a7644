-- ===== src/MonitorServer/Limits.antt =====
-- The values that MAXUSERS and MAXCONNS set.
use tp_protos.Base.{
  ℕ, zero, suc, ◌+◌, ◌-◌, ◌%◌, ◌^◌, ◌≤◌, ◌<◌, min, ◌≡◌, sym, ap, ◌∙◌, true, false, Option, none,
  some, ◌∷◌, ◌==◌, ltb, arith, Bool-cases, inl, inr, ℤ, pos, negsuc, length, Text, is_some, ◌||◌,
}
use tp_protos.Client.Numbers.{
  decimal, decimal_head, read_digits, read_digits-decimal, skip_spaces_digit,
}
use tp_protos.MonitorServer.Commands.{to_int, long_of, read_long, positive, strtol, handle_setter}

to_int_bound : (z : ℤ) (n : ℕ) → to_int z ≡ pos n → n < 2 ^ 31
unfolding to_int
to_int_bound (pos k) n e = ground (arith, e)
to_int_bound (negsuc k) n e = ground (arith, e)

positive_bound : (z : ℤ) (n : ℕ) → positive z ≡ some n → (1 ≤ n) × (z ≡ pos n)
positive_bound (negsuc k) n e = ground arith
positive_bound (pos zero) n e = ground arith
positive_bound (pos (suc k)) n e = ground (arith, e)

-- A value that is set is positive, and fits an `int`.
pub handle_setter_bounds :
    (a b : Option Text) (n : ℕ) → handle_setter a b ≡ some n → (1 ≤ n) × (n < 2 ^ 31)
unfolding handle_setter
handle_setter_bounds none b n e = ground arith
handle_setter_bounds (some a) b n e = elim (Bool-cases (is_some b || (length a == 0))) [
  | inl bad ↦ ground (arith, e, bad)
  | inr good ↦
      let value : positive (to_int (strtol a)) ≡ some n = sym (rw good) ∙ e in
      let (l, z) = positive_bound (to_int (strtol a)) n value in (l, to_int_bound (strtol a) n z)
]

read_long_digit :
    (d : ℕ) (s : Text)
    → d < 10
    → read_long ((b'0' + d) ∷ s) ≡ long_of false (read_digits 0 ((b'0' + d) ∷ s))
read_long_digit d s b =
    let minus : ((b'0' + d) == b'-') ≡ false = ground arith in
    let plus : ((b'0' + d) == b'+') ≡ false = ground arith in rw (minus, plus)

strtol-decimal : (n : ℕ) → n < 2 ^ 31 → strtol (decimal n) ≡ pos n
unfolding strtol
strtol-decimal n h =
    let (d, s, e, b) = decimal_head n in
    let fits : min n (2 ^ 63 - 1) ≡ n = omega arith in
    ap strtol e
    ∙ ap read_long (skip_spaces_digit d s b)
    ∙ read_long_digit d s b
    ∙ ap (λ x. long_of false (read_digits 0 x)) (sym e)
    ∙ ap (long_of false) (read_digits-decimal n)
    ∙ ap pos fits

-- The number of a positive `int` is the value that its decimal form sets.
pub handle_setter-decimal :
    (n : ℕ) → 1 ≤ n → n < 2 ^ 31 → handle_setter (some (decimal n)) none ≡ some n
unfolding handle_setter to_int
handle_setter-decimal n l h =
    let (d, s, e, b) = decimal_head n in
    let value = strtol-decimal n h in
    let some_text : (length (decimal n) == 0) ≡ false = rw e (ground arith) in
    let word : n % 2 ^ 32 ≡ n = omega arith in
    let small : ltb n (2 ^ 31) ≡ true = ground arith in
    let positive : (n == 0) ≡ false = ground arith in rw (some_text, value, word, small, positive)
