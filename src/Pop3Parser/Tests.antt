-- ===== src/Pop3Parser/Tests.antt =====
-- Command lines, and the theorems about the parser at them.
use tp_protos.Base.{
  ℕ, suc, ◌+◌, ◌≡◌, refl, false, Option, none, some, List, [], ◌∷◌, ◌++◌, arith, length, take,
  replicate, codes, tolower,
}
use mathlib.Core.Option
use tp_protos.Parser.{done, consume, consume_all, line_size, init}
use tp_protos.Pop3Parser.{
  pop3_configuration, parser_start, parser_in_newline, append_to_command, append_to_arg,
  goto_first_arg, increment_argc, in_cr, in_newline,
}
use tp_protos.Pop3Parser.Memory.{bytes_at}
use tp_protos.Pop3Parser.Commands.{AllToken, lower, ready, parser_at}
use tp_protos.Pop3Parser.Arguments.{line_with_argument, one_argument}
use tp_protos.Pop3Parser.Errors.{two_arguments}

abbrev blank : List ℕ
blank = replicate line_size 0

user_Ana :
    Option.map
      (λ p. take 9 p.event.line)
      (consume_all (init pop3_configuration) (codes "USER Ana" ++ 13 ∷ 10 ∷ []))
    ≡ some (codes "user" ++ 0 ∷ (codes "ana" ++ 0 ∷ []))
unfolding consume_all init consume append_to_command append_to_arg goto_first_arg increment_argc
    in_cr in_newline tolower
user_Ana = refl

user_token : AllToken (codes "user")
user_token = (refl, refl, (refl, refl, (refl, refl, (refl, refl, tt))))

ana_token : AllToken (codes "Ana")
ana_token = (refl, refl, (refl, refl, (refl, refl, tt)))

one_argument_example :
    let c : ℕ = b'u' in
    let s : List ℕ = codes "ser" in
    let arg : List ℕ = codes "Ana" in
    let line : List ℕ = blank in
    let at : ℕ = 0 in
    let p : Option ℕ = none in
    let q : Option ℕ = none in
    let n = length (c ∷ s) in
    let t = suc (at + n) in
    (l : List ℕ) × (consume_all
        (parser_at parser_start (ready line at p q))
        (line_with_argument (c ∷ s) arg)
      ≡ some (
          parser_at parser_in_newline (record {
            parsing_status = done;
            has_errors = false;
            line = l;
            line_len = suc (t + length arg);
            cmd = some 0;
            cmd_len = n;
            args = some t ∷ some (suc (t + length arg)) ∷ [];
            args_len = length arg ∷ 0 ∷ [];
            argc = 1;
          })))
    × (bytes_at l 0 (suc n) ≡ lower (c ∷ s) ++ 0 ∷ [])
    × (bytes_at l t (suc (length arg)) ≡ lower arg ++ 0 ∷ [])
    × (length l ≡ line_size)
one_argument_example =
    one_argument b'u' (codes "ser") (codes "Ana") blank 0 none none user_token ana_token
      (omega arith) (omega arith) refl (omega arith)

two_arguments_example :
    let c : ℕ = b'u' in
    let s : List ℕ = codes "ser" in
    let arg : List ℕ = codes "Ana" in
    let arg' : List ℕ = codes "Ana" in
    let rest : List ℕ = [] in
    let line : List ℕ = blank in
    let at : ℕ = 0 in
    let p : Option ℕ = none in
    let q : Option ℕ = none in
    consume_all
      (parser_at parser_start (ready line at p q))
      ((c ∷ s) ++ (b' ' ∷ (arg ++ (b' ' ∷ (arg' ++ (13 ∷ rest))))))
    ≡ none
two_arguments_example =
    two_arguments b'u' (codes "ser") (codes "Ana") (codes "Ana") [] blank 0 none none user_token
      ana_token ana_token (omega arith) (omega arith) refl (omega arith)
