-- ===== src/Pop3Parser/Arguments.antt =====
-- What the POP3 parser makes of a whole command line: no argument, one argument, or two.
use tp_protos.Base.{
  ℕ, suc, ◌+◌, ◌≤◌, ◌<◌, ◌≡◌, ◌∙◌, false, Option, some, List, [], ◌∷◌, ◌++◌, arith, ◌==◌, length,
  length-set, length-map, set, tolower,
}
use tp_protos.Parser.{
  ParserEvent, parsing, done, max_command_len, max_arg_len, consume, consume_all, line_size,
}
use tp_protos.Pop3Parser.{
  append_to_arg, increment_argc, goto_first_arg, in_newline, parser_start, parser_processing_comand,
  parser_processing_args, parser_in_cr, parser_in_newline,
}
use tp_protos.Pop3Parser.Memory.{
  blit, bytes_at, length-blit, two_strings, two_strings_lem, length-two_strings,
}
use tp_protos.Pop3Parser.Commands.{
  AllToken, lower, ready, parser_at, in_command, consume_all-cons, command_name,
}

-- The event with `m` letters of the argument at offset `t`, behind a command of `k` letters.
abbrev pub in_argument : List ℕ → ℕ → ℕ → ℕ → ℕ → Option ℕ → ℕ → ParserEvent
in_argument line k at t m q argc = record {
  parsing_status = parsing;
  has_errors = false;
  line = line;
  line_len = at;
  cmd = some 0;
  cmd_len = k;
  args = some t ∷ q ∷ [];
  args_len = m ∷ 0 ∷ [];
  argc = argc;
}

module _ (line : List ℕ) (k at : ℕ) where
  -- A space behind the command ends its string and starts the first argument.
  pub space_after_command :
      (l₀ : List ℕ) (a₀ : ℕ) (p q : Option ℕ)
      → at < 255
      → at < length line
      → consume (parser_at parser_processing_comand (in_command (ready l₀ a₀ p q) line k at)) b' '
        ≡ some (
            parser_at parser_processing_args
              (in_argument (set line at 0) k (suc at) (suc at) 0 q 0))
  unfolding consume goto_first_arg
  space_after_command l₀ a₀ p q h i = ground arith

  next_argument_letter :
      (t m c : ℕ) (q : Option ℕ)
      → (c == b' ') ≡ false
      → (c == 13) ≡ false
      → m < 251
      → t + m < length line
      → at < 255
      → consume (parser_at parser_processing_args (in_argument line k at t m q 0)) c
        ≡ some (
            parser_at parser_processing_args
              (in_argument (set line (t + m) (tolower c)) k (suc at) t (suc m) q 0))
  unfolding consume append_to_arg
  next_argument_letter t m c q f g h i j = ground arith

  -- A carriage return behind the argument ends its string.
  return_after_argument :
      (t m : ℕ) (q : Option ℕ)
      → at < 255
      → at < length line
      → consume (parser_at parser_processing_args (in_argument line k at t m q 0)) 13
        ≡ some
            (parser_at parser_in_cr (in_argument (set line at 0) k (suc at) t m (some (suc at)) 1))
  unfolding consume increment_argc
  return_after_argument t m q h i = ground arith

  newline_after_argument :
      (t m : ℕ) (q : Option ℕ)
      → k < length line
      → t + m < length line
      → consume (parser_at parser_in_cr (in_argument line k at t m q 1)) 10
        ≡ some (
            parser_at parser_in_newline
              (record (in_argument (set (set line k 0) (t + m) 0) k at t m q 1) {
                parsing_status = done;
              }))
  unfolding consume in_newline
  newline_after_argument t m q h i = ground (arith, length-set line k 0)

pub argument_letters :
    (s rest line : List ℕ) (k at t m : ℕ) (q : Option ℕ)
    → AllToken s
    → m + length s ≤ 251
    → t + m + length s ≤ length line
    → at + length s < 256
    → consume_all (parser_at parser_processing_args (in_argument line k at t m q 0)) (s ++ rest)
      ≡ consume_all
          (parser_at parser_processing_args
            (in_argument (blit line (t + m) (lower s)) k (at + length s) t (m + length s) q 0))
          rest
argument_letters [] rest line k at t m q a h i j =
    let x : m + 0 ≡ m = omega arith in let y : at + 0 ≡ at = omega arith in rw (x, y)
argument_letters (c ∷ s) rest line k at t m q a h i j =
    let x : m + suc (length s) ≡ suc m + length s = omega arith in
    let y : at + suc (length s) ≡ suc at + length s = omega arith in
    let z : suc (t + m) ≡ t + suc m = omega arith in
    consume_all-cons _ c (s ++ rest)
      (next_argument_letter line k at t m c q a.0 a.1 (omega arith) (omega arith) (omega arith))
    ∙ argument_letters s rest (set line (t + m) (tolower c)) k (suc at) t (suc m) q a.2
        (omega arith) (omega (arith, length-set line (t + m) (tolower c))) (omega arith)
    ∙ rw (x, y, ← z)

module _ (arg line : List ℕ) (n u : ℕ) (l₀ : List ℕ) (a₀ : ℕ) (p q : Option ℕ) (b : AllToken arg)
    (fit : length arg ≤ 251) (big : 258 ≤ length line) (small : n ≤ u)
    (room : u + length arg + 2 < 256) where
  abbrev after_letters : List ℕ
  after_letters = blit (set line u 0) (suc u) (lower arg)

  length-after_letters : length after_letters ≡ length line
  length-after_letters = length-blit (set line u 0) (lower arg) (suc u) ∙ length-set line u 0

  -- From the space behind the command to the end of the line.
  rest_of_line :
      consume_all
        (parser_at parser_processing_comand (in_command (ready l₀ a₀ p q) line n u))
        (b' ' ∷ (arg ++ (13 ∷ 10 ∷ [])))
      ≡ some (
          parser_at parser_in_newline (record {
            parsing_status = done;
            has_errors = false;
            line = set (set (set after_letters (suc u + length arg) 0) n 0) (suc u + length arg) 0;
            line_len = suc (suc u + length arg);
            cmd = some 0;
            cmd_len = n;
            args = some (suc u) ∷ some (suc (suc u + length arg)) ∷ [];
            args_len = length arg ∷ 0 ∷ [];
            argc = 1;
          }))
  unfolding consume_all
  rest_of_line =
      consume_all-cons _ b' ' (arg ++ (13 ∷ 10 ∷ []))
        (space_after_command line n u l₀ a₀ p q (omega arith) (omega arith))
      ∙ argument_letters arg (13 ∷ 10 ∷ []) (set line u 0) n (suc u) (suc u) 0 q b (omega arith)
          (omega (arith, length-set line u 0)) (omega arith)
      ∙ rw (x, y)
          (consume_all-cons _ 13 (10 ∷ []) (
              return_after_argument after_letters n (suc u + length arg) (suc u) (length arg) q
                (omega arith) (omega (arith, length-after_letters)))
            ∙ consume_all-cons _ 10 [] (
                newline_after_argument (set after_letters (suc u + length arg) 0) n
                  (suc (suc u + length arg)) (suc u) (length arg) (some (suc (suc u + length arg)))
                  (omega
                    (arith, length-after_letters, length-set after_letters (suc u + length arg) 0))
                  (omega (
                    arith,
                    length-after_letters,
                    length-set after_letters (suc u + length arg) 0,
                  ))))
    where
      x : suc u + 0 ≡ suc u
      x = omega arith

      y : 0 + length arg ≡ length arg
      y = omega arith

-- The bytes of a command line with one argument.
abbrev pub line_with_argument : List ℕ → List ℕ → List ℕ
line_with_argument name arg = name ++ (b' ' ∷ (arg ++ (13 ∷ 10 ∷ [])))

-- A command line of a name of at most four bytes and one argument, where `line_len` stands so that
-- nothing passes 255, is parsed with no error to the end: the name is the C string at `cmd` and the
-- argument the one at `args[0]`, both in lower case, and `args_len` and `argc` say so.
pub one_argument :
    (c : ℕ) (s arg line : List ℕ) (at : ℕ) (p q : Option ℕ)
    → AllToken (c ∷ s)
    → AllToken arg
    → length (c ∷ s) ≤ max_command_len
    → length arg ≤ max_arg_len
    → length line ≡ line_size
    → at + length (c ∷ s) + length arg + 2 < 256
    → let n = length (c ∷ s) in
      let t = suc (at + n) in
      (l : List ℕ) × (consume_all
          (parser_at parser_start (ready line at p q))
          (line_with_argument (c ∷ s) arg)
        ≡ some (
            parser_at parser_in_newline (record {
              parsing_status = done;
              has_errors = false;
              line = l;
              line_len = suc (t + length arg);
              cmd = some 0;
              cmd_len = n;
              args = some t ∷ some (suc (t + length arg)) ∷ [];
              args_len = length arg ∷ 0 ∷ [];
              argc = 1;
            })))
      × (bytes_at l 0 (suc n) ≡ lower (c ∷ s) ++ 0 ∷ [])
      × (bytes_at l t (suc (length arg)) ≡ lower arg ++ 0 ∷ [])
      × (length l ≡ line_size)
one_argument c s arg line at p q a b short fit size room =
    let n = length (c ∷ s) in
    let u = at + n in
    let t = suc u in
    let name = lower (c ∷ s) in
    let (first, second) =
      two_strings_lem line name (lower arg) n (length arg) u t (length-map tolower (c ∷ s))
        (length-map tolower arg) (omega arith) (omega arith) (omega arith) in
    (
      two_strings line name (lower arg) n (length arg) u t,
      command_name c s (b' ' ∷ (arg ++ (13 ∷ 10 ∷ []))) line at p q a short (omega arith)
            (omega arith)
          ∙ rest_of_line arg (blit line 0 name) n u line at p q b (omega arith)
              (omega (arith, length-blit line name 0)) (omega arith) (omega arith),
      first,
      second,
      length-two_strings line name (lower arg) n (length arg) u t ∙ size,
    )
