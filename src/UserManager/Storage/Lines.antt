-- ===== src/UserManager/Storage/Lines.antt =====
-- `parse_line` and `fgets` on the lines that `save_users` writes.
use tp_protos.Base.{
  ℕ, ◌+◌, ◌-◌, ◌≤◌, ◌<◌, ◌≡◌, inl, inr, refl, Bool, true, false, ◌||◌, none, some, [], ◌∷◌, ◌++◌,
  arith, ltb, ◌==◌, Bool-cases, length, Text,
}
use tp_protos.UserManager.{max_username_length, max_password_length, delimiter}
use tp_protos.UserManager.Storage.{
  is_end, is_blank, head_byte, skip_blanks, scan_token, parse_line, line_room, fgets_lines,
}

-- A token that the file can hold: no byte ends it or is skipped before it.
abbrev pub AllPlain : Text → Type 0
AllPlain [] = Unit {0}
AllPlain (c ∷ s) = (is_end c ≡ false) × (is_blank c ≡ false) × AllPlain s

abbrev pub has_newline : Text → Bool
has_newline [] = false
has_newline (c ∷ s) = (c == 10) || has_newline s

-- A token is found up to the byte that ends it, if it is short enough.
scan_token_lem :
    (limit n : ℕ) (s rest : Text)
    → AllPlain s
    → is_end (head_byte rest) ≡ true
    → n + length s ≤ limit
    → scan_token limit n (s ++ rest) ≡ (s, rest, n + length s)
unfolding scan_token
scan_token_lem limit n [] [] a e h = ground arith
scan_token_lem limit n [] (c ∷ rest) a e h = ground arith
scan_token_lem limit n (c ∷ s) rest a e h =
    ground (arith, scan_token_lem limit (n + 1) s rest a.2 e (omega arith))

-- A longer token is cut off with the count past the limit.
scan_token_long :
    (limit n : ℕ) (s rest : Text)
    → AllPlain s
    → n ≤ limit + 1
    → limit < n + length s
    → limit < (scan_token limit n (s ++ rest)).2
unfolding scan_token
scan_token_long limit n [] [] a k h = ground arith
scan_token_long limit n [] (c ∷ rest) a k h = ground arith
scan_token_long limit n (c ∷ s) rest a k h = elim (Bool-cases (ltb limit n)) [
  | inl over ↦ ground arith
  | inr under ↦ ground (arith, scan_token_long limit (n + 1) s rest a.2)
]

skip_blanks_lem : (s rest : Text) → AllPlain s → 1 ≤ length s → skip_blanks (s ++ rest) ≡ s ++ rest
unfolding skip_blanks
skip_blanks_lem [] rest a h = absurd (omega arith)
skip_blanks_lem (c ∷ s) rest a h = ground (arith, a.1)

head_plain : (s rest : Text) → AllPlain s → 1 ≤ length s → is_end (head_byte (s ++ rest)) ≡ false
head_plain [] rest a h = absurd (omega arith)
head_plain (c ∷ s) rest a h = a.0

module _ (name password rest : Text) (p : AllPlain name) (q : AllPlain password)
    (nonempty : 1 ≤ length name) where
  abbrev pub line : Text
  line = name ++ (delimiter ∷ (password ++ 10 ∷ rest))

  -- The line that `save_users` writes is read back if both parts are shorter than the limits.
  pub parse_line_short :
      1 ≤ length password
      → length name < max_username_length
      → length password < max_password_length
      → parse_line line ≡ some (name, password)
  unfolding parse_line
  parse_line_short one short short' = ground (
    arith,
    skip_blanks_lem name (delimiter ∷ (password ++ 10 ∷ rest)) p nonempty,
    scan_token_lem max_username_length 1 name (delimiter ∷ (password ++ 10 ∷ rest)) p refl,
    head_plain name (delimiter ∷ (password ++ 10 ∷ rest)) p nonempty,
    skip_blanks_lem password (10 ∷ rest) q one,
    scan_token_lem max_password_length 1 password (10 ∷ rest) q refl,
    head_plain password (10 ∷ rest) q one,
  )

  -- A username of the full length that `user_manager_create_user` admits is not read back.
  pub parse_line_full : length name ≡ max_username_length → parse_line line ≡ none
  unfolding parse_line
  parse_line_full full = ground (
    arith,
    skip_blanks_lem name (delimiter ∷ (password ++ 10 ∷ rest)) p nonempty,
    scan_token_long max_username_length 1 name (delimiter ∷ (password ++ 10 ∷ rest)) p (omega arith)
        (omega arith),
    head_plain name (delimiter ∷ (password ++ 10 ∷ rest)) p nonempty,
  )

-- `fgets` gives one line that fits into the buffer whole.
pub fgets_lines_lem :
    (left : ℕ) (l rest : Text)
    → has_newline l ≡ false
    → length l < left
    → fgets_lines left (l ++ 10 ∷ rest) ≡ (l ++ 10 ∷ []) ∷ fgets_lines line_room rest
unfolding fgets_lines
fgets_lines_lem left [] rest h k = refl
fgets_lines_lem left (c ∷ l) rest h k = ground (arith, fgets_lines_lem (left - 1) l rest)

pub newline-plain : (s t : Text) → AllPlain s → has_newline (s ++ t) ≡ has_newline t
newline-plain [] t a = refl
newline-plain (c ∷ s) t a = ground (arith, a.0, newline-plain s t a.2)
