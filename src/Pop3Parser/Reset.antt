-- ===== src/Pop3Parser/Reset.antt =====
-- `pop3_parser_reset_event` between two commands, and what it leaves behind.
use tp_protos.Base.{
  ℕ, zero, suc, ◌+◌, ◌≤◌, ◌<◌, ◌≡◌, refl, ◌∙◌, false, Option, none, some, List, [], ◌∷◌, ◌++◌,
  arith, length, length-set, get_or-set_self, set, get_or, replicate, tolower,
}
use tp_protos.Parser.{
  ParserEvent, done, Parser, max_command_len, max_arg_len, consume, consume_all, line_size, reset,
}
use tp_protos.Pop3Parser.{
  append_to_arg, goto_first_arg, reset_event, zero_bytes, zero_through, parser_start,
  parser_processing_args, parser_in_newline,
}
use tp_protos.Pop3Parser.Memory.{blit, length-blit}
use tp_protos.Pop3Parser.Commands.{AllToken, lower, ready, parser_at, command_name}
use tp_protos.Pop3Parser.Arguments.{in_argument, line_with_argument, one_argument}

-- Bytes inside the array are cleared.
zero_bytes_lem :
    (k i : ℕ) (e : ParserEvent)
    → i + k ≤ length e.line
    → zero_bytes k i e ≡ some (record e { line = blit e.line i (replicate k 0) })
unfolding zero_bytes
zero_bytes_lem zero i e h = refl
zero_bytes_lem (suc k) i e h = ground (
  arith,
  zero_bytes_lem k (suc i) (record e { line = set e.line i 0 }),
  length-set e.line i 0,
  zero_bytes_lem k (i + 1) (record e { line = set e.line i 0 }),
)

zero_through_lem :
    (p n : ℕ) (e : ParserEvent)
    → p + n ≤ length e.line
    → zero_through (some p) n e ≡ some (record e { line = blit e.line p (replicate n 0) })
zero_through_lem p zero e h = refl
zero_through_lem p (suc n) e h = zero_bytes_lem (suc n) p e h

-- The event at the end of a line with one argument.
abbrev pub finished : List ℕ → ℕ → ℕ → ℕ → ℕ → ℕ → ParserEvent
finished line at n t t' m = record {
  parsing_status = done;
  has_errors = false;
  line = line;
  line_len = at;
  cmd = some 0;
  cmd_len = n;
  args = some t ∷ some t' ∷ [];
  args_len = m ∷ 0 ∷ [];
  argc = 1;
}

abbrev wiped : List ℕ → ℕ → ℕ → ℕ → List ℕ
wiped line n t m = blit (blit line t (replicate m 0)) 0 (replicate n 0)

reset_finished :
    (line : List ℕ) (at n t t' m : ℕ)
    → n ≤ length line
    → t + m ≤ length line
    → reset_event (finished line at n t t' m) ≡ some (ready (wiped line n t m) at (some 0) (some 0))
unfolding reset_event
reset_finished line at n t t' m h i = ground (
  arith,
  zero_through_lem t m (finished line at n t t' m) i,
  zero_through_lem 0 n (record (finished (blit line t (replicate m 0)) at n 0 0 0) {
    argc = 0;
    args = some 0 ∷ some 0 ∷ [];
  }),
  length-blit line (replicate m 0) t,
)

-- What `states_common_read` does behind a command: `parser_reset` and `pop3_parser_reset_event`.
unfoldable pub reset_for_next : Parser → Option Parser
reset_for_next p = elim (reset_event p.event) [
  | none ↦ none
  | some e ↦ some (record (reset p) { event = e })
]

-- After a command with one argument the parser is ready for the next one, but for `line_len`, which
-- is not reset: the lengths of the name and of the argument and their two terminators stay counted
-- in it, and the place of the next argument moves up by as much.
pub line_len_accumulates :
    (c : ℕ) (s arg line : List ℕ) (at : ℕ) (p q : Option ℕ)
    → AllToken (c ∷ s)
    → AllToken arg
    → length (c ∷ s) ≤ max_command_len
    → length arg ≤ max_arg_len
    → length line ≡ line_size
    → at + length (c ∷ s) + length arg + 2 < 256
    → (parsed : Parser) × (l : List ℕ) × (consume_all
          (parser_at parser_start (ready line at p q))
          (line_with_argument (c ∷ s) arg)
        ≡ some parsed)
      × (reset_for_next parsed
          ≡ some (
              parser_at parser_start
                (ready l (at + length (c ∷ s) + length arg + 2) (some 0) (some 0))))
      × (length l ≡ line_size)
unfolding reset_for_next reset
line_len_accumulates c s arg line at p q a b short fit size room =
    let n = length (c ∷ s) in
    let m = length arg in
    let t = suc (at + n) in
    let (l, parsed, _, _, kept) = one_argument c s arg line at p q a b short fit size room in
    let e : suc (t + m) ≡ at + n + m + 2 = omega arith in
    (
      parser_at parser_in_newline (finished l (suc (t + m)) n t (suc (t + m)) m),
      wiped l n t m,
      parsed,
      rw
          (
            reset_finished l (suc (t + m)) n t (suc (t + m)) m (omega arith) (omega arith),
            reset_for_next,
          )
          (rw e),
      length-blit (blit l t (replicate m 0)) (replicate n 0) 0
          ∙ length-blit l (replicate m 0) t
          ∙ kept,
    )

-- Once `line_len` and the name come to 255, the terminator behind the name wraps `line_len` to 0:
-- the argument is stored over the command, whose first byte becomes the argument's.
pub argument_overwrites_command :
    (c d : ℕ) (s line : List ℕ) (at : ℕ) (p q : Option ℕ)
    → AllToken (c ∷ s)
    → AllToken (d ∷ [])
    → length (c ∷ s) ≤ max_command_len
    → length line ≡ line_size
    → at + length (c ∷ s) ≡ 255
    → (after : Parser) × (consume_all
          (parser_at parser_start (ready line at p q))
          ((c ∷ s) ++ (b' ' ∷ d ∷ []))
        ≡ some after)
      × (after.event.cmd ≡ some 0)
      × (get_or after.event.line 0 0 ≡ tolower d)
unfolding consume_all consume goto_first_arg append_to_arg
argument_overwrites_command c d s line at p q a b short size full =
    let n = length (c ∷ s) in
    let l₁ = blit line 0 (lower (c ∷ s)) in
    let l₂ = set l₁ 255 0 in
    (
      parser_at parser_processing_args (in_argument (set l₂ 0 (tolower d)) n 1 0 1 q 0),
      command_name c s (b' ' ∷ d ∷ []) line at p q a short (omega arith) (omega arith)
          ∙ rw full (ground (arith, length-blit line (lower (c ∷ s)) 0, length-set l₁ 255 0)),
      refl,
      get_or-set_self l₂ 0 (tolower d) 0
          (omega (arith, length-set l₁ 255 0, length-blit line (lower (c ∷ s)) 0)),
    )
