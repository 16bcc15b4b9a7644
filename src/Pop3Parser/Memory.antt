-- ===== src/Pop3Parser/Memory.antt =====
-- The array `line` as memory: what a run of writes leaves inside and outside its place.
use tp_protos.Base.{
  ℕ, zero, suc, ◌+◌, ◌≤◌, ◌<◌, ◌≡◌, refl, ap, ap₂, ◌∙◌, List, [], ◌∷◌, ◌++◌, arith, length,
  length-set, window-set, window-cons, get_or-set_self, set, take, drop, get_or,
}

-- The bytes `ys` written from index `i` on.
abbrev pub blit : List ℕ → ℕ → List ℕ → List ℕ
blit xs i [] = xs
blit xs i (y ∷ ys) = blit (set xs i y) (suc i) ys

-- `n` bytes from offset `p`.
abbrev pub bytes_at : List ℕ → ℕ → ℕ → List ℕ
bytes_at xs p n = take n (drop p xs)

pub length-blit : (xs ys : List ℕ) (i : ℕ) → length (blit xs i ys) ≡ length xs
length-blit xs [] i = refl
length-blit xs (y ∷ ys) i = length-blit (set xs i y) ys (suc i) ∙ length-set xs i y

-- A write outside a place leaves it as it was.
pub bytes_at-set_below :
    (xs : List ℕ) (p n i v : ℕ) → i < p → bytes_at (set xs i v) p n ≡ bytes_at xs p n
bytes_at-set_below [] p n i v h = refl
bytes_at-set_below (x ∷ xs) zero n i v h = elim h [ ]
bytes_at-set_below (x ∷ xs) (suc p) n zero v h = refl
bytes_at-set_below (x ∷ xs) (suc p) n (suc i) v h = bytes_at-set_below xs p n i v (omega arith)

take-set_above : (xs : List ℕ) (n i v : ℕ) → n ≤ i → take n (set xs i v) ≡ take n xs
take-set_above [] n i v h = refl
take-set_above (x ∷ xs) zero i v h = refl
take-set_above (x ∷ xs) (suc n) zero v h = absurd (omega arith)
take-set_above (x ∷ xs) (suc n) (suc i) v h = ap (◌∷◌ x) (take-set_above xs n i v (omega arith))

pub bytes_at-set_above :
    (xs : List ℕ) (p n i v : ℕ) → p + n ≤ i → bytes_at (set xs i v) p n ≡ bytes_at xs p n
bytes_at-set_above [] p n i v h = refl
bytes_at-set_above (x ∷ xs) zero n i v h = take-set_above (x ∷ xs) n i v (omega arith)
bytes_at-set_above (x ∷ xs) (suc p) n zero v h = absurd (omega arith)
bytes_at-set_above (x ∷ xs) (suc p) n (suc i) v h = bytes_at-set_above xs p n i v (omega arith)

pub bytes_at-blit_above :
    (xs ys : List ℕ) (p n i : ℕ) → p + n ≤ i → bytes_at (blit xs i ys) p n ≡ bytes_at xs p n
bytes_at-blit_above xs [] p n i h = refl
bytes_at-blit_above xs (y ∷ ys) p n i h =
    bytes_at-blit_above (set xs i y) ys p n (suc i) (omega arith) ∙ bytes_at-set_above xs p n i y h

get_or-set_above : (xs : List ℕ) (i j v d : ℕ) → i < j → get_or (set xs j v) i d ≡ get_or xs i d
get_or-set_above [] i j v d h = refl
get_or-set_above (x ∷ xs) i zero v d h = elim h [ ]
get_or-set_above (x ∷ xs) zero (suc j) v d h = refl
get_or-set_above (x ∷ xs) (suc i) (suc j) v d h = get_or-set_above xs i j v d (omega arith)

get_or-blit_above : (xs ys : List ℕ) (i j d : ℕ) → i < j → get_or (blit xs j ys) i d ≡ get_or xs i d
get_or-blit_above xs [] i j d h = refl
get_or-blit_above xs (y ∷ ys) i j d h =
    get_or-blit_above (set xs j y) ys i (suc j) d (omega arith) ∙ get_or-set_above xs i j y d h

-- A run of writes that stays inside the array puts its bytes in their place.
pub bytes_at-blit :
    (xs ys : List ℕ) (i : ℕ)
    → i + length ys ≤ length xs
    → bytes_at (blit xs i ys) i (length ys) ≡ ys
bytes_at-blit xs [] i h = refl
bytes_at-blit xs (y ∷ ys) i h =
    rw
      (window-cons (blit (set xs i y) (suc i) ys) i (length ys) 0
        (omega (arith, length-blit (set xs i y) ys (suc i), length-set xs i y)))
      (ap₂ ◌∷◌
        (get_or-blit_above (set xs i y) ys i (suc i) 0 (omega arith)
          ∙ get_or-set_self xs i y 0 (omega arith))
        (bytes_at-blit (set xs i y) ys (suc i) (omega (arith, length-set xs i y))))

module _ (xs ys zs : List ℕ) (n m u t : ℕ) where
  abbrev written : List ℕ
  written = blit (set (blit xs 0 ys) u 0) t zs

  abbrev name_ended : List ℕ
  name_ended = set (set written (t + m) 0) n 0

  -- The memory after a command `ys` of length `n` with an argument `zs` of length `m`: the letters
  -- of the command, a terminator at `u`, the argument at `t`, and the terminators that the end of
  -- the line writes.
  abbrev pub two_strings : List ℕ
  two_strings = set name_ended (t + m) 0

  length-written : length written ≡ length xs
  length-written =
      length-blit (set (blit xs 0 ys) u 0) zs t
      ∙ length-set (blit xs 0 ys) u 0
      ∙ length-blit xs ys 0

  pub length-two_strings : length two_strings ≡ length xs
  length-two_strings =
      length-set name_ended (t + m) 0
      ∙ length-set (set written (t + m) 0) n 0
      ∙ length-set written (t + m) 0
      ∙ length-written

  -- Both are C strings there, where their places do not overlap.
  pub two_strings_lem :
      length ys ≡ n
      → length zs ≡ m
      → n ≤ u
      → n < t
      → t + m < length xs
      → (bytes_at two_strings 0 (suc n) ≡ ys ++ 0 ∷ [])
        × (bytes_at two_strings t (suc m) ≡ zs ++ 0 ∷ [])
  two_strings_lem e f h i j = (first, second)
    where
      first : bytes_at two_strings 0 (suc n) ≡ ys ++ 0 ∷ []
      first =
          bytes_at-set_above name_ended 0 (suc n) (t + m) 0 (omega arith)
          ∙ window-set (set written (t + m) 0) 0 n n 0 (omega arith)
              (omega (arith, length-set written (t + m) 0, length-written))
          ∙ ap (λ l. l ++ 0 ∷ [])
              (bytes_at-set_above written 0 n (t + m) 0 (omega arith)
                ∙ bytes_at-blit_above (set (blit xs 0 ys) u 0) zs 0 n t (omega arith)
                ∙ bytes_at-set_above (blit xs 0 ys) 0 n u 0 (omega arith)
                ∙ rw (← e) (bytes_at-blit xs ys 0 (omega arith)))

      second : bytes_at two_strings t (suc m) ≡ zs ++ 0 ∷ []
      second =
          window-set name_ended t m (t + m) 0 refl (
            omega (
              arith,
              length-set (set written (t + m) 0) n 0,
              length-set written (t + m) 0,
              length-written,
            ))
          ∙ ap (λ l. l ++ 0 ∷ [])
              (bytes_at-set_below (set written (t + m) 0) t m n 0 i
                ∙ bytes_at-set_above written t m (t + m) 0 (omega arith)
                ∙ rw (← f) (
                    bytes_at-blit (set (blit xs 0 ys) u 0) zs t
                      (omega (arith, length-set (blit xs 0 ys) u 0, length-blit xs ys 0))))
