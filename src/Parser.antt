-- ===== src/Parser.antt =====
-- server/src/parser.c with server/include/parser.h: the state machine that consumes a command byte
-- by byte. A pointer into `line` is its offset there, or none for NULL. `none` as a result is
-- behaviour that C leaves undefined: an access outside an array, or through NULL.
use tp_protos.Base.{
  ℕ, ◌+◌, ◌-◌, ◌%◌, Bool, false, Option, none, some, List, [], ◌∷◌, leb, ◌==◌, if◌then◌else◌,
  get_elem?, replicate,
}

abbrev pub max_command_len : ℕ
max_command_len = 4

abbrev pub max_arg_len : ℕ
max_arg_len = 255 - max_command_len

abbrev pub max_arg_count : ℕ
max_arg_count = 2

-- The size of `line`.
abbrev pub line_size : ℕ
line_size = max_command_len + 1 + max_arg_len + max_arg_count

-- `uint8_t`
abbrev pub u8 : ℕ → ℕ
u8 n = n % 256

pub data ParsingStatus : Type 0 where
  parsing done : ParsingStatus

-- `struct parser_event`; `next` is only ever NULL.
pub record ParserEvent : Type 0 where
  pub parsing_status : ParsingStatus
  pub has_errors : Bool
  pub line : List ℕ
  pub line_len : ℕ
  pub cmd : Option ℕ
  pub cmd_len : ℕ
  pub args : List (Option ℕ)
  pub args_len : List ℕ
  pub argc : ℕ

-- `struct parser_transition`: `when` is a byte or `any`.
pub record Transition : Type 0 where
  pub when : ℕ
  pub dest_state : ℕ
  pub action : ParserEvent → ℕ → Option ParserEvent

abbrev pub any : ℕ
any = 256

-- `struct parser_configuration`: the transitions of each state, their counts being the lengths.
pub record Configuration : Type 0 where
  pub transitions_for_states : List (List Transition)
  pub start_state : ℕ

-- `parserCDT`
pub record Parser : Type 0 where
  pub conf : Configuration
  pub state : ℕ
  pub event : ParserEvent

-- An event as `calloc` clears it.
abbrev pub cleared_event : ParserEvent
cleared_event = record {
  parsing_status = parsing;
  has_errors = false;
  line = replicate line_size 0;
  line_len = 0;
  cmd = none;
  cmd_len = 0;
  args = none ∷ none ∷ [];
  args_len = 0 ∷ 0 ∷ [];
  argc = 0;
}

-- `parser_init(conf)`
unfoldable pub init : Configuration → Parser
init conf = record { conf = conf; state = conf.start_state; event = cleared_event }

-- Whether a transition's `when` takes the byte.
abbrev pub matches : ℕ → Transition → Bool
matches c t = if leb t.when 255 then c == t.when else t.when == any

-- The loop of `parser_consume`: the first transition that matches.
unfoldable pub find_transition : ℕ → List Transition → Option Transition
find_transition c [] = none
find_transition c (t ∷ ts) = if matches c t then some t else find_transition c ts

-- The action of a transition, and the state that it leads to.
abbrev pub take_transition : Parser → ℕ → Option Transition → Option Parser
take_transition p c none = some p
take_transition p c (some t) = elim (t.action p.event c) [
  | none ↦ none
  | some e ↦ some (record p { event = e; state = t.dest_state })
]

-- `parser_consume(p, c)`
unfoldable pub consume : Parser → ℕ → Option Parser
unfolding find_transition
consume p c = elim (get_elem? p.conf.transitions_for_states p.state) [
  | none ↦ none
  | some ts ↦ take_transition p c (find_transition c ts)
]

-- `parser_reset(p)`
unfoldable pub reset : Parser → Parser
reset p = record p { state = p.conf.start_state }

-- The bytes of an input, one call of `parser_consume` after the other.
unfoldable pub consume_all : Parser → List ℕ → Option Parser
consume_all p [] = some p
consume_all p (c ∷ cs) = elim (consume p c) [ none ↦ none | some p' ↦ consume_all p' cs ]
