-- ===== src/Pop3Parser/Commands.antt =====
-- The POP3 parser over the letters of a command's name.
use tp_protos.Base.{
  ℕ, suc, ◌+◌, ◌≤◌, ◌<◌, ◌≡◌, ◌∙◌, false, Option, none, some, List, [], ◌∷◌, ◌++◌, map, arith, ◌==◌,
  length, length-set, set, replicate, tolower,
}
use tp_protos.Parser.{ParserEvent, parsing, Parser, consume, consume_all, line_size, init}
use tp_protos.Pop3Parser.{
  append_to_command, pop3_configuration, parser_start, parser_processing_comand,
}
use tp_protos.Pop3Parser.Memory.{blit}

-- Bytes that a token of a command may have: neither a space nor a carriage return.
abbrev pub AllToken : List ℕ → Type 0
AllToken [] = Unit {0}
AllToken (c ∷ s) = (c == b' ') ≡ false × ((c == 13) ≡ false) × AllToken s

-- The letters as the parser stores them.
abbrev pub lower : List ℕ → List ℕ
lower s = map tolower s

-- The parser before a command: `at` is where `line_len` stands, and `p` and `q` are what `args`
-- points to. `line_len` is 0 at first only; `pop3_parser_reset_event` leaves it.
abbrev pub ready : List ℕ → ℕ → Option ℕ → Option ℕ → ParserEvent
ready line at p q = record {
  parsing_status = parsing;
  has_errors = false;
  line = line;
  line_len = at;
  cmd = some 0;
  cmd_len = 0;
  args = p ∷ q ∷ [];
  args_len = 0 ∷ 0 ∷ [];
  argc = 0;
}

abbrev pub parser_at : ℕ → ParserEvent → Parser
parser_at s e = record { conf = pop3_configuration; state = s; event = e }

pub consume_all-cons :
    (p : Parser) (c : ℕ) (cs : List ℕ) {p' : Parser}
    → consume p c ≡ some p'
    → consume_all p (c ∷ cs) ≡ consume_all p' cs
unfolding consume_all
consume_all-cons p c cs h = rw (h, consume_all)

-- The event with `k` letters of a command in `line`.
abbrev pub in_command : ParserEvent → List ℕ → ℕ → ℕ → ParserEvent
in_command e line k at = record e { line = line; line_len = at; cmd = some 0; cmd_len = k }

append_letter :
    (e : ParserEvent) (line : List ℕ) (c k at : ℕ)
    → k < 4
    → k < length line
    → at < 255
    → append_to_command (in_command e line k at) c
      ≡ some (in_command e (set line k (tolower c)) (suc k) (suc at))
unfolding append_to_command
append_letter e line c k at h i j = ground arith

next_letter :
    (e : ParserEvent) (line : List ℕ) (c k at : ℕ)
    → (c == b' ') ≡ false
    → (c == 13) ≡ false
    → k < 4
    → k < length line
    → at < 255
    → consume (parser_at parser_processing_comand (in_command e line k at)) c
      ≡ some (
          parser_at parser_processing_comand
            (in_command e (set line k (tolower c)) (suc k) (suc at)))
unfolding consume
next_letter e line c k at f g h i j = ground (arith, append_letter e line c k at h i j)

first_letter :
    (e : ParserEvent) (line : List ℕ) (c k at : ℕ)
    → k < 4
    → k < length line
    → at < 255
    → consume (parser_at parser_start (in_command e line k at)) c
      ≡ some (
          parser_at parser_processing_comand
            (in_command e (set line k (tolower c)) (suc k) (suc at)))
unfolding consume
first_letter e line c k at h i j = ground (arith, append_letter e line c k at h i j)

command_letters :
    (s rest : List ℕ) (e : ParserEvent) (line : List ℕ) (k at : ℕ)
    → AllToken s
    → k + length s ≤ 4
    → 4 ≤ length line
    → at + length s < 256
    → consume_all (parser_at parser_processing_comand (in_command e line k at)) (s ++ rest)
      ≡ consume_all
          (parser_at parser_processing_comand
            (in_command e (blit line k (lower s)) (k + length s) (at + length s)))
          rest
command_letters [] rest e line k at a h i j =
    let x : k + 0 ≡ k = omega arith in let y : at + 0 ≡ at = omega arith in rw (x, y)
command_letters (c ∷ s) rest e line k at a h i j =
    let x : k + suc (length s) ≡ suc k + length s = omega arith in
    let y : at + suc (length s) ≡ suc at + length s = omega arith in
    consume_all-cons _ c (s ++ rest)
      (next_letter e line c k at a.0 a.1 (omega arith) (omega arith) (omega arith))
    ∙ command_letters s rest e (set line k (tolower c)) (suc k) (suc at) a.2 (omega arith)
        (omega (arith, length-set line k (tolower c))) (omega arith)
    ∙ rw (x, y)

-- The letters of a command are stored in lower case from the start of `line` on.
pub command_name :
    (c : ℕ) (s rest line : List ℕ) (at : ℕ) (p q : Option ℕ)
    → AllToken (c ∷ s)
    → length (c ∷ s) ≤ 4
    → 4 ≤ length line
    → at + length (c ∷ s) < 256
    → consume_all (parser_at parser_start (ready line at p q)) ((c ∷ s) ++ rest)
      ≡ consume_all
          (parser_at parser_processing_comand (
            in_command
              (ready line at p q)
              (blit line 0 (lower (c ∷ s)))
              (length (c ∷ s))
              (at + length (c ∷ s))))
          rest
command_name c s rest line at p q a h i j =
    let x : suc (length s) ≡ 1 + length s = omega arith in
    let y : at + suc (length s) ≡ suc at + length s = omega arith in
    consume_all-cons _ c (s ++ rest)
      (first_letter (ready line at p q) line c 0 at (omega arith) (omega arith) (omega arith))
    ∙ command_letters s rest (ready line at p q) (set line 0 (tolower c)) 1 (suc at) a.2
        (omega arith) (omega (arith, length-set line 0 (tolower c))) (omega arith)
    ∙ rw (y, x)

-- `parser_init` leaves `cmd` NULL; the first byte sets it, so that a fresh parser takes a line as
-- one that is ready with `line_len` 0.
pub init-ready :
    (c : ℕ) (cs : List ℕ)
    → consume_all (init pop3_configuration) (c ∷ cs)
      ≡ consume_all (parser_at parser_start (ready (replicate line_size 0) 0 none none)) (c ∷ cs)
unfolding consume_all init consume append_to_command
init-ready c cs = ground arith
