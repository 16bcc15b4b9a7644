-- ===== src/Client/Commands.antt =====
-- server/src/states/commands.c with server/include/commands.h, the tables of commands of
-- authorization.c and transaction.c, and from states-common.c the search for a command in the input.
pub mod Input
pub mod Handlers
pub mod Maildrop
pub mod Tables
pub mod Search
use tp_protos.Base.{
  ℕ, zero, suc, ◌-◌, Bool, true, false, Option, none, some, List, [], ◌∷◌, ◌==◌, if◌then◌else◌,
  codes, Text, drop, get_or, Outcome, ok, fault, ◌>>=◌,
}
use tp_protos.Buffer.{Buffer, can_read, read}
use tp_protos.Parser.{Parser, ParserEvent, parsing, done, consume, max_command_len}
use tp_protos.Client.{Client, Server, State, with_client, defined_value}
use tp_protos.Client.Responses
use tp_protos.Client.Listing.{free_allocated_response, handle_stat, handle_list}
use tp_protos.Client.Authorization.{Environment, answer, handle_user, handle_pass}
use tp_protos.Client.Authorization.{
  handle_capa as authorization_capa, handle_quit as authorization_quit,
}
use tp_protos.Client.Transaction.{
  handle_retr, handle_dele, handle_noop, handle_rset, handle_capa, handle_quit,
}

-- What a handler is given for `arg1` and `arg1_len`. The bytes of the argument are read by the
-- handler only: reading may be undefined.
pub record Argument : Type 0 where
  pub text : Outcome (Option Text)
  pub size : ℕ

-- `struct command`. No handler looks at a second argument.
pub record Command : Type 0 where
  pub name : Text
  pub command_handler : Environment → Argument → Server → Outcome (Server × State)

-- `strncmp(s, p, n) == 0` of a C string and memory that is read up to the first difference.
unfoldable pub strncmp_eq : ℕ → Text → List ℕ → Outcome Bool
strncmp_eq zero s p = ok true
strncmp_eq (suc n) s [] = fault
strncmp_eq (suc n) [] (d ∷ p) = ok (d == 0)
strncmp_eq (suc n) (c ∷ s) (d ∷ p) =
    let rest = strncmp_eq n s p in if c == d then rest else ok false

-- The loop of `get_command`, with `cmd` the memory that the pointer of that name points to.
unfoldable pub search_command : List Command → List ℕ → Outcome (Option Command)
unfolding strncmp_eq
search_command [] cmd = ok none
search_command (c ∷ cs) cmd = strncmp_eq max_command_len c.name cmd >>= λ same. elim same [
  | true ↦ ok (some c)
  | false ↦ search_command cs cmd
]

-- `get_command`
unfoldable pub get_command : ParserEvent → List Command → Outcome (Option Command)
unfolding search_command
get_command e commands = elim e.cmd [
  | none ↦ elim commands [ [] ↦ ok none | c ∷ cs ↦ fault ]
  | some p ↦ search_command commands (drop p e.line)
]

-- The C string at the start of the memory; undefined where no terminator follows.
unfoldable pub c_string : List ℕ → Outcome Text
c_string [] = fault
c_string (c ∷ cs) = if c == 0 then ok [] else (c_string cs >>= λ s. ok (c ∷ s))

abbrev pub c_string_at : List ℕ → Option ℕ → Outcome (Option Text)
c_string_at line none = ok none
c_string_at line (some p) = c_string (drop p line) >>= λ s. ok (some s)

-- `args[0]` and `args_len[0]` of an event.
unfoldable pub argument : ParserEvent → Argument
unfolding c_string
argument e = record {
  text = c_string_at e.line (get_or e.args 0 none);
  size = get_or e.args_len 0 0;
}

abbrev pub follow : Argument → (Text → Outcome (Server × State)) → Outcome (Server × State)
follow a next = a.text >>= λ t. defined_value t >>= next

-- `commands` of authorization.c
abbrev pub authorization_commands : List Command
authorization_commands =
    record {
      name = codes "user";
      command_handler = λ env a s. a.text >>= λ t. handle_user env t a.size s;
    }
    ∷ record {
      name = codes "pass";
      command_handler = λ env a s. a.text >>= λ t. handle_pass env t s;
    }
    ∷ record { name = codes "capa"; command_handler = λ env a s. authorization_capa s }
    ∷ record { name = codes "quit"; command_handler = λ env a s. authorization_quit s }
    ∷ []

-- `commands` of transaction.c
abbrev pub transaction_commands : List Command
transaction_commands =
    record { name = codes "stat"; command_handler = λ env a s. handle_stat env.malloc s }
    ∷ record {
      name = codes "list";
      command_handler = λ env a s. follow a (λ t. handle_list env.maildrop env.malloc t s);
    }
    ∷ record {
      name = codes "retr";
      command_handler = λ env a s. follow a (λ t. handle_retr env.maildrop env.stream_ends t s);
    }
    ∷ record { name = codes "dele"; command_handler = λ env a s. follow a (λ t. handle_dele t s) }
    ∷ record { name = codes "noop"; command_handler = λ env a s. handle_noop s }
    ∷ record { name = codes "rset"; command_handler = λ env a s. handle_rset s }
    ∷ record { name = codes "capa"; command_handler = λ env a s. handle_capa s }
    ∷ record { name = codes "quit"; command_handler = λ env a s. handle_quit s }
    ∷ []

-- `unknown_command_handler`
unfoldable pub unknown_command_handler : Server → Outcome (Server × State)
unknown_command_handler s = defined_value s.client.current >>= λ here.
    answer Responses.unknown here (with_client (free_allocated_response s.client) s)

-- `unknown_command`
abbrev pub unknown_command : Command
unknown_command = record {
  name = codes "UNKNOWN";
  command_handler = λ env a s. unknown_command_handler s;
}

-- A parser behind its byte: `done` where the loop stops.
abbrev pub stops : Parser → Bool
stops p = elim p.event.parsing_status [ parsing ↦ false | done ↦ true ]

-- The loop of `states_common_buffer_find_command` up to a command that is complete, for `fuel` bytes
-- that are left at most. The parser and the buffer afterwards, and whether a command is complete.
unfoldable pub parse_input : ℕ → Parser → Buffer → Outcome (Parser × Buffer × Bool)
unfolding consume
parse_input zero p b = ok (p, b, false)
parse_input (suc fuel) p b = elim (can_read b) [
  | false ↦ ok (p, b, false)
  | true ↦ defined_value (read b) >>= λ r. defined_value (consume p r.0) >>= λ p'. elim (stops p') [
    | true ↦ ok (p', r.1, true)
    | false ↦ parse_input fuel p' r.1
  ]
]

-- What the loop returns for a complete command.
unfoldable pub command_of : ParserEvent → List Command → Outcome Command
command_of e commands =
    if e.has_errors
    then ok unknown_command
    else (get_command e commands >>= λ found. elim found [
      | none ↦ ok unknown_command
      | some c ↦ ok c
    ])

-- `states_common_buffer_find_command`: NULL is none. `parser_event` is that of the parser.
unfoldable pub find_command : List Command → Server → Outcome (Server × Option Command)
unfolding parse_input command_of
find_command commands s = do
  let c = s.client
  r ← parse_input (c.buffer_in.write_at - c.buffer_in.read_at) c.parser c.buffer_in
  let s' = with_client (record c { parser = r.0; buffer_in = r.1 }) s
  elim r.2 [
    | false ↦ ok (s', none)
    | true ↦ command_of r.0.event commands >>= λ command. ok (s', some command)
  ]
