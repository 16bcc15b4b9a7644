-- ===== src/Pop3Parser/Errors.antt =====
-- Command lines that the POP3 parser does not take: a name that is too long, and a second argument.
use tp_protos.Base.{
  ℕ, suc, ◌+◌, ◌≤◌, ◌<◌, ◌≡◌, inl, inr, refl, ap, ◌∙◌, true, false, Option, none, some, List, [],
  ◌∷◌, ◌++◌, arith, ◌==◌, Option-cases, length, length-set, window-set, length-map, set, tolower,
}
use tp_protos.Parser.{
  ParserEvent, done, Parser, max_command_len, max_arg_len, consume, consume_all, line_size,
}
use tp_protos.Pop3Parser.{
  append_to_command, append_to_arg, increment_argc, in_cr, in_newline, parser_start,
  parser_processing_comand, parser_processing_args, parser_in_newline,
}
use tp_protos.Pop3Parser.Memory.{blit, bytes_at, length-blit, bytes_at-blit}
use tp_protos.Pop3Parser.Commands.{
  AllToken, lower, ready, parser_at, in_command, consume_all-cons, command_name,
}
use tp_protos.Pop3Parser.Arguments.{in_argument, space_after_command, argument_letters}

-- The end of a line behind a command of `k` letters.
end_of_command :
    (e : ParserEvent) (line : List ℕ) (k at : ℕ)
    → e.argc ≡ 0
    → k < length line
    → consume_all (parser_at parser_processing_comand (in_command e line k at)) (13 ∷ 10 ∷ [])
      ≡ some (
          parser_at parser_in_newline
            (record (in_command e (set line k 0) k at) { parsing_status = done }))
unfolding consume_all consume in_cr in_newline
end_of_command e line k at h i = ground arith

-- A command line of a name of at most four bytes and no argument is parsed with no error to the
-- end: the name is the C string at `cmd`, in lower case, `argc` is 0 and `args` is as it was before.
pub no_argument :
    (c : ℕ) (s line : List ℕ) (at : ℕ) (p q : Option ℕ)
    → AllToken (c ∷ s)
    → length (c ∷ s) ≤ max_command_len
    → length line ≡ line_size
    → at + length (c ∷ s) < 256
    → let n = length (c ∷ s) in
      (l : List ℕ) × (consume_all
          (parser_at parser_start (ready line at p q))
          ((c ∷ s) ++ (13 ∷ 10 ∷ []))
        ≡ some (
            parser_at parser_in_newline
              (record (ready l (at + n) p q) { cmd_len = n; parsing_status = done })))
      × (bytes_at l 0 (suc n) ≡ lower (c ∷ s) ++ 0 ∷ [])
no_argument c s line at p q a short size room =
    let n = length (c ∷ s) in
    let name = lower (c ∷ s) in
    let stored : bytes_at (blit line 0 name) 0 n ≡ name =
      rw (← length-map tolower (c ∷ s))
        (bytes_at-blit line name 0 (omega (arith, length-map tolower (c ∷ s)))) in
    (
      set (blit line 0 name) n 0,
      command_name c s (13 ∷ 10 ∷ []) line at p q a short (omega arith) room
          ∙ end_of_command (ready line at p q) (blit line 0 name) n (at + n) refl
              (omega (arith, length-blit line name 0)),
      window-set (blit line 0 name) 0 n n 0 (omega arith) (omega (arith, length-blit line name 0))
          ∙ ap (λ l. l ++ 0 ∷ []) stored,
    )

-- The letters behind the fourth are dropped, with `has_errors` set.
extra_letter :
    (e : ParserEvent) (line : List ℕ) (c at : ℕ)
    → (c == b' ') ≡ false
    → (c == 13) ≡ false
    → consume (parser_at parser_processing_comand (in_command e line 4 at)) c
      ≡ some (
          parser_at parser_processing_comand
            (in_command (record e { has_errors = true }) line 4 at))
unfolding consume append_to_command
extra_letter e line c at h i = ground arith

extra_letters :
    (s rest : List ℕ) (e : ParserEvent) (line : List ℕ) (at : ℕ)
    → AllToken s
    → consume_all
        (parser_at parser_processing_comand (in_command (record e { has_errors = true }) line 4 at))
        (s ++ rest)
      ≡ consume_all
          (parser_at parser_processing_comand
            (in_command (record e { has_errors = true }) line 4 at))
          rest
extra_letters [] rest e line at a = refl
extra_letters (c ∷ s) rest e line at a =
    consume_all-cons _ c (s ++ rest)
      (extra_letter (record e { has_errors = true }) line c at a.0 a.1)
    ∙ extra_letters s rest e line at a.2

-- A command name longer than four bytes is parsed to the end of its line with `has_errors` set, and
-- no byte of it is written past the fourth.
pub long_command :
    (c d : ℕ) (s t line : List ℕ) (at : ℕ) (p q : Option ℕ)
    → AllToken (c ∷ s)
    → AllToken (d ∷ t)
    → length (c ∷ s) ≡ max_command_len
    → length line ≡ line_size
    → at + max_command_len < 256
    → consume_all
        (parser_at parser_start (ready line at p q))
        ((c ∷ s) ++ ((d ∷ t) ++ (13 ∷ 10 ∷ [])))
      ≡ some (
          parser_at parser_in_newline
            (record (ready (set (blit line 0 (lower (c ∷ s))) 4 0) (at + 4) p q) {
              cmd_len = 4;
              has_errors = true;
              parsing_status = done;
            }))
long_command c d s t line at p q a b four size room =
    let name = lower (c ∷ s) in
    let e = ready line at p q in
    command_name c s ((d ∷ t) ++ (13 ∷ 10 ∷ [])) line at p q a (omega arith) (omega arith)
      (omega arith)
    ∙ rw four (
        consume_all-cons _ d (t ++ (13 ∷ 10 ∷ []))
          (extra_letter e (blit line 0 name) d (at + 4) b.0 b.1)
        ∙ extra_letters t (13 ∷ 10 ∷ []) e (blit line 0 name) (at + 4) b.2
        ∙ end_of_command (record e { has_errors = true }) (blit line 0 name) 4 (at + 4) refl
            (omega (arith, length-blit line name 0)))

-- What stays true while the second argument is read: `argc` is 1, and `args` has two entries.
abbrev InSecond : Option ParserEvent → Type 0
InSecond none = Unit {0}
InSecond (some e) = (e.argc ≡ 1) × (length e.args ≡ 2)

append_to_arg-InSecond :
    (e : ParserEvent) (c : ℕ) → InSecond (some e) → InSecond (append_to_arg e c)
unfolding append_to_arg
append_to_arg-InSecond e c h = ground arith

argument_letter :
    (e : ParserEvent) (c : ℕ)
    → (c == b' ') ≡ false
    → (c == 13) ≡ false
    → consume (parser_at parser_processing_args e) c ≡ (elim (append_to_arg e c) [
      | none ↦ none
      | some e' ↦ some (parser_at parser_processing_args e')
    ])
unfolding consume
argument_letter e c h i = ground arith

-- The end of the second argument sets `args[2]`, which is not there.
end_of_second :
    (e : ParserEvent) → InSecond (some e) → consume (parser_at parser_processing_args e) 13 ≡ none
unfolding consume increment_argc
end_of_second e h = ground arith

consume_all-none :
    (p : Parser) (c : ℕ) (cs : List ℕ) → consume p c ≡ none → consume_all p (c ∷ cs) ≡ none
unfolding consume_all
consume_all-none p c cs h = rw (h, consume_all)

second_argument :
    (s rest : List ℕ) (e : ParserEvent)
    → AllToken s
    → InSecond (some e)
    → consume_all (parser_at parser_processing_args e) (s ++ (13 ∷ rest)) ≡ none
second_argument [] rest e a h = consume_all-none _ 13 rest (end_of_second e h)
second_argument (c ∷ s) rest e a h = elim (Option-cases (append_to_arg e c)) [
  | inl gone ↦ consume_all-none _ c (s ++ (13 ∷ rest)) (argument_letter e c a.0 a.1 ∙ rw gone)
  | inr (e', more) ↦
      consume_all-cons _ c (s ++ (13 ∷ rest)) (argument_letter e c a.0 a.1 ∙ rw more)
      ∙ second_argument s rest e' a.2 (rw more at (append_to_arg-InSecond e c h))
]

second_space :
    (line : List ℕ) (k at t m : ℕ) (q : Option ℕ)
    → at < 255
    → at < length line
    → consume (parser_at parser_processing_args (in_argument line k at t m q 0)) b' '
      ≡ some (
          parser_at parser_processing_args
            (in_argument (set line at 0) k (suc at) t m (some (suc at)) 1))
unfolding consume increment_argc
second_space line k at t m q h i = ground arith

-- A command line of a name of at most four bytes and two arguments, the first of at most 251, all of
-- token characters, where `line_len` stands so that nothing passes 255, makes the parser write
-- outside the array `args`, whatever the second argument is and whatever follows the line, although
-- `MAX_ARG_COUNT` is 2.
pub two_arguments :
    (c : ℕ) (s arg arg' rest line : List ℕ) (at : ℕ) (p q : Option ℕ)
    → AllToken (c ∷ s)
    → AllToken arg
    → AllToken arg'
    → length (c ∷ s) ≤ max_command_len
    → length arg ≤ max_arg_len
    → length line ≡ line_size
    → at + length (c ∷ s) + length arg + 2 < 256
    → consume_all
        (parser_at parser_start (ready line at p q))
        ((c ∷ s) ++ (b' ' ∷ (arg ++ (b' ' ∷ (arg' ++ (13 ∷ rest))))))
      ≡ none
two_arguments c s arg arg' rest line at p q a b b' short fit size room =
    let n = length (c ∷ s) in
    let u = at + n in
    let name = lower (c ∷ s) in
    let tail : List ℕ = b' ' ∷ (arg' ++ (13 ∷ rest)) in
    let l₁ = set (blit line 0 name) u 0 in
    command_name c s (b' ' ∷ (arg ++ tail)) line at p q a short (omega arith) (omega arith)
    ∙ consume_all-cons _ b' ' (arg ++ tail) (
        space_after_command (blit line 0 name) n u line at p q (omega arith)
          (omega (arith, length-blit line name 0)))
    ∙ argument_letters arg tail l₁ n (suc u) (suc u) 0 q b (omega arith)
        (omega (arith, length-set (blit line 0 name) u 0, length-blit line name 0)) (omega arith)
    ∙ consume_all-cons _ b' ' (arg' ++ (13 ∷ rest)) (
        second_space (blit l₁ (suc u + 0) (lower arg)) n (suc u + length arg) (suc u)
          (0 + length arg) q (omega arith)
          (omega (
            arith,
            length-blit l₁ (lower arg) (suc u + 0),
            length-set (blit line 0 name) u 0,
            length-blit line name 0,
          )))
    ∙ second_argument arg' rest _ b' (refl, refl)
