-- ===== src/Pop3Parser.antt =====
-- server/src/pop3-parser.c: the states and the actions of the parser of POP3 commands.
pub mod Memory
pub mod Commands
pub mod Arguments
pub mod Errors
pub mod Reset
mod Tests
use tp_protos.Base.{
  ℕ, zero, suc, ◌+◌, true, false, Option, none, some, [], ◌∷◌, ltb, ◌==◌, if◌then◌else◌, length,
  set, get_or, get_elem?, tolower,
}
use tp_protos.Parser.{
  ParserEvent, parsing, done, Transition, Configuration, any, u8, max_command_len, max_arg_len,
  max_arg_count,
}

-- `*(ret->line + i) = c`; undefined outside the array.
abbrev pub poke : ParserEvent → ℕ → ℕ → Option ParserEvent
poke e i c = if ltb i (length e.line) then some (record e { line = set e.line i c }) else none

-- The event with `cmd` at the start of `line`, if it was NULL.
abbrev pub with_cmd : ParserEvent → ParserEvent
with_cmd e = elim e.cmd [ none ↦ record e { cmd = some 0 } | some p ↦ e ]

abbrev pub cmd_pointer : ParserEvent → ℕ
cmd_pointer e = elim e.cmd [ none ↦ 0 | some p ↦ p ]

unfoldable pub append_to_command : ParserEvent → ℕ → Option ParserEvent
append_to_command ret c =
    let e = with_cmd ret in
    if e.cmd_len == max_command_len
    then some (record e { has_errors = true })
    else elim (poke e (cmd_pointer ret + e.cmd_len) (tolower c)) [
      | none ↦ none
      | some e' ↦ some (record e' { cmd_len = u8 (e.cmd_len + 1); line_len = u8 (e.line_len + 1) })
    ]

-- `args[i]` and `args_len[i]`, if `i` is inside the arrays and the pointer is not NULL.
abbrev pub arg_at : ParserEvent → ℕ → Option (ℕ × ℕ)
arg_at e i = elim (get_elem? e.args i) [
  | none ↦ none
  | some none ↦ none
  | some (some p) ↦ elim (get_elem? e.args_len i) [ none ↦ none | some n ↦ some (p, n) ]
]

unfoldable pub append_to_arg : ParserEvent → ℕ → Option ParserEvent
append_to_arg ret c = elim (get_elem? ret.args_len ret.argc) [
  | none ↦ none
  | some n ↦
      if n == max_arg_len
      then some (record ret { has_errors = true })
      else elim (arg_at ret ret.argc) [
        | none ↦ none
        | some (p, _) ↦ elim (poke ret (p + n) (tolower c)) [
          | none ↦ none
          | some e ↦ some (record e {
            args_len = set ret.args_len ret.argc (u8 (n + 1));
            line_len = u8 (ret.line_len + 1);
          })
        ]
      ]
]

-- `args[i] = &line[line_len]`, where `i` must be inside the array.
abbrev pub point_arg : ParserEvent → ℕ → Option ParserEvent
point_arg e i =
    if ltb i (length e.args)
    then some (record e { args = set e.args i (some e.line_len) })
    else none

-- `line[line_len++] = '\0'`
abbrev pub terminate : ParserEvent → Option ParserEvent
terminate e = elim (poke e e.line_len 0) [
  | none ↦ none
  | some e' ↦ some (record e' { line_len = u8 (e.line_len + 1) })
]

unfoldable pub increment_argc : ParserEvent → ℕ → Option ParserEvent
increment_argc ret c =
    if ret.argc == max_arg_count
    then some (record ret { has_errors = true })
    else elim (terminate ret) [
      | none ↦ none
      | some e ↦ point_arg (record e { argc = u8 (ret.argc + 1) }) (u8 (ret.argc + 1))
    ]

unfoldable pub goto_first_arg : ParserEvent → ℕ → Option ParserEvent
goto_first_arg ret c = elim (terminate ret) [ none ↦ none | some e ↦ point_arg e ret.argc ]

unfoldable pub in_cr : ParserEvent → ℕ → Option ParserEvent
in_cr ret c = some ret

-- The loop of `in_newline` over the arguments from `i` on, `left` of them.
end_args : ℕ → ℕ → ParserEvent → Option ParserEvent
end_args zero i e = some e
end_args (suc left) i e = elim (arg_at e i) [
  | none ↦ none
  | some (p, n) ↦ elim (poke e (p + n) 0) [ none ↦ none | some e' ↦ end_args left (i + 1) e' ]
]

unfoldable pub in_newline : ParserEvent → ℕ → Option ParserEvent
unfolding end_args
in_newline ret c = elim ret.cmd [
  | none ↦ none
  | some p ↦ elim (poke ret (p + ret.cmd_len) 0) [
    | none ↦ none
    | some e ↦ elim (end_args ret.argc 0 e) [
      | none ↦ none
      | some e' ↦ some (record e' { parsing_status = done })
    ]
  ]
]

-- `for (j = 0; j < n; j++) p[j] = '\0'`, from `i` on with `left` to go.
unfoldable pub zero_bytes : ℕ → ℕ → ParserEvent → Option ParserEvent
zero_bytes zero i e = some e
zero_bytes (suc left) i e = elim (poke e i 0) [ none ↦ none | some e' ↦ zero_bytes left (i + 1) e' ]

-- `for (j = 0; j < n; j++) p[j] = '\0'` through a pointer that may be NULL.
abbrev pub zero_through : Option ℕ → ℕ → ParserEvent → Option ParserEvent
zero_through p zero e = some e
zero_through none (suc n) e = none
zero_through (some p) (suc n) e = zero_bytes (suc n) p e

-- One round of the loop of `pop3_parser_reset_event`.
pub reset_arg : ℕ → ParserEvent → Option ParserEvent
reset_arg i e = elim (get_elem? e.args i) [
  | none ↦ none
  | some p ↦ elim (zero_through p (get_or e.args_len i 0) e) [
    | none ↦ none
    | some e' ↦ some (record e' { args = set e.args i (some 0); args_len = set e.args_len i 0 })
  ]
]

-- `pop3_parser_reset_event(event)`
unfoldable pub reset_event : ParserEvent → Option ParserEvent
unfolding reset_arg zero_bytes
reset_event e = elim (reset_arg 0 e) [
  | none ↦ none
  | some e₁ ↦ elim (reset_arg 1 e₁) [
    | none ↦ none
    | some e₂ ↦ elim (zero_through e₂.cmd e₂.cmd_len (record e₂ { argc = 0 })) [
      | none ↦ none
      | some e₃ ↦
          some
            (record e₃ { cmd = some 0; cmd_len = 0; parsing_status = parsing; has_errors = false })
    ]
  ]
]

unfoldable pub reset_all : ParserEvent → ℕ → Option ParserEvent
unfolding reset_event
reset_all ret c = reset_event ret

-- `parser_states_t`
abbrev pub parser_start : ℕ
parser_start = 0

abbrev pub parser_processing_comand : ℕ
parser_processing_comand = 1

abbrev pub parser_processing_args : ℕ
parser_processing_args = 2

abbrev pub parser_in_cr : ℕ
parser_in_cr = 3

abbrev pub parser_in_newline : ℕ
parser_in_newline = 4

abbrev row : ℕ → ℕ → (ParserEvent → ℕ → Option ParserEvent) → Transition
row c s f = record { when = c; dest_state = s; action = f }

-- `pop3_parser_configuration`
abbrev pub pop3_configuration : Configuration
pop3_configuration = record {
  transitions_for_states =
      (row any parser_processing_comand append_to_command ∷ [])
      ∷ (row b' ' parser_processing_args goto_first_arg
          ∷ row 13 parser_in_cr in_cr
          ∷ row any parser_processing_comand append_to_command
          ∷ [])
      ∷ (row b' ' parser_processing_args increment_argc
          ∷ row 13 parser_in_cr increment_argc
          ∷ row any parser_processing_args append_to_arg
          ∷ [])
      ∷ (row 10 parser_in_newline in_newline ∷ row any parser_start reset_all ∷ [])
      ∷ (row any parser_start reset_all ∷ [])
      ∷ [];
  start_state = parser_start;
}
