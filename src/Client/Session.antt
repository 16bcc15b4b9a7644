-- ===== src/Client/Session.antt =====
-- The events of a session: from server/src/states/states-common.c the read and the write handler of
-- AUTHORIZATION and TRANSACTION, close-connection.c, and the table of states with the handlers of
-- the selector in server/src/pop3.c.
pub mod Flow
pub mod Writing
pub mod Streaming
pub mod Retrieval
pub mod Finishing
pub mod Delivered
use tp_protos.Base.{
  ℕ, zero, suc, ◌+◌, ◌-◌, Bool, true, false, not, Option, none, some, List, [], ◌∷◌, ◌==◌,
  if◌then◌else◌, take, length, ℤ, pos, Outcome, ok, ◌>>=◌,
}
use tp_protos.Buffer.{Buffer, can_read, can_write, write, write_adv, write_ptr}
use tp_protos.Parser.{reset}
use tp_protos.Pop3Parser.{reset_event}
use tp_protos.Client.{
  Client, Stream, Server, State, error, close_connection, op_read, op_write, with_client,
  defined_value,
}
use tp_protos.Client.Responses
use tp_protos.Client.Output.{write_response, response_byte, after_send}
use tp_protos.Client.Authorization.{Environment}
use tp_protos.Client.Commands.{Command, argument, find_command}

-- What a handler that is called finds outside: what the commands call, the bytes that `recv`
-- returns (none for -1), what `send` returns, and whether `selector_set_interest_key` succeeds.
pub record Event : Type 0 where
  pub env : Environment
  pub received : Option (List ℕ)
  pub sent : ℤ
  pub registered : Bool

-- `parser_reset` and `pop3_parser_reset_event`
unfoldable pub reset_parser : Server → Outcome Server
reset_parser s = defined_value (reset_event s.client.parser.event) >>= λ e.
    ok (with_client (record s.client { parser = record (reset s.client.parser) { event = e } }) s)

abbrev pub run_command : Environment → Command → Server → Outcome (Server × State)
run_command env command s = command.command_handler env (argument s.client.parser.event) s

-- `memory[at ..] = bytes`
unfoldable pub copy_in : List ℕ → ℕ → List ℕ → List ℕ
copy_in [] i bytes = []
copy_in (x ∷ xs) (suc i) bytes = x ∷ copy_in xs i bytes
copy_in (x ∷ xs) zero [] = x ∷ xs
copy_in (x ∷ xs) zero (c ∷ bytes) = c ∷ copy_in xs zero bytes

-- `states_common_read` behind a command that is complete: its handler runs, and only then is the
-- interest set.
unfoldable pub command_read : Event → Command → Server → Outcome (Server × State)
unfolding reset_parser
command_read ev command s = run_command ev.env command s >>= λ r.
    if ev.registered
    then (reset_parser (record r.0 { interest = op_write }) >>= λ s'. ok (s', r.1))
    else ok (r.0, error)

-- `states_common_read` from `buffer_write_adv` on, with the bytes in the buffer at its write pointer.
unfoldable pub bytes_received :
    Event → List Command → List ℕ → State → Server → Outcome (Server × State)
unfolding copy_in command_read
bytes_received ev commands bytes here s = do
  let b = s.client.buffer_in
  let filled = record b { storage = copy_in b.storage b.write_at bytes }
  b' ← defined_value (write_adv filled (pos (length bytes)))
  r ← find_command commands (with_client (record s.client { buffer_in = b' }) s)
  elim r.1 [ none ↦ ok (r.0, here) | some command ↦ command_read ev command r.0 ]

-- `states_common_read`: `recv` gives at most as many bytes as are free.
unfoldable pub common_read : List Command → Event → Server → Outcome (Server × State)
unfolding bytes_received
common_read commands ev s = do
  here ← defined_value s.client.current
  free ← defined_value (write_ptr s.client.buffer_in)
  elim ev.received [
    | none ↦ ok (s, error)
    | some bytes ↦ elim (take free.1 bytes) [
      | [] ↦ ok (s, close_connection)
      | c ∷ cs ↦ bytes_received ev commands (c ∷ cs) here s
    ]
  ]

-- The loop of `states_common_file_write` for `fuel` free bytes at most: the buffer, the stream and
-- `*dim`, and whether -1 is returned. A byte 255 in a `char` equals EOF.
unfoldable pub file_write : ℕ → Buffer → Stream → ℕ → Outcome (Buffer × Stream × ℕ × Bool)
file_write zero b f dim = ok (b, f, dim, false)
file_write (suc fuel) b f dim = elim (can_write b) [
  | false ↦ ok (b, f, dim, false)
  | true ↦ elim f.rest [
    | [] ↦ ok (b, record f { eof = f.ends }, dim, not f.ends)
    | c ∷ cs ↦ elim (c == 255) [
      | true ↦ ok (b, record f { rest = cs }, dim, false)
      | false ↦
          defined_value (write b c) >>= λ b'. file_write fuel b' (record f { rest = cs }) (dim + 1)
    ]
  ]
]

-- The terminator behind a message of which the last bytes are in the buffer.
abbrev pub with_terminator : Client → Outcome Client
with_terminator c = write_response (record c {
  response_is_allocated = false;
  response = some Responses.dot_crlf;
  response_index = 0;
})

-- The client behind `states_common_file_write`, and behind `pclose`, which makes the pointer useless.
abbrev pub file_read : Buffer × Stream × ℕ × Bool → Client → Client
file_read w c = record c { buffer_out = w.0; message_file = some w.1; response_index = w.2 }

abbrev pub stream_closed : Client → Client
stream_closed c = record c { message_file = none; writing_from_file = false }

-- `states_common_write` behind `states_common_file_write`.
unfoldable pub file_written : State → Buffer × Stream × ℕ × Bool → Server → Outcome (Server × State)
file_written here w s =
    let c = file_read w s.client in
    elim w.3 [
      | true ↦ ok (with_client c s, error)
      | false ↦ elim w.1.eof [
        | false ↦ ok (with_client c s, here)
        | true ↦ elim (can_read w.0) [
          | true ↦ with_terminator (stream_closed c) >>= λ c'. ok (with_client c' s, here)
          | false ↦ ok (with_client (stream_closed c) s, here)
        ]
      ]
    ]

-- `states_common_write` where nothing is left to send.
unfoldable pub next_command : Event → List Command → State → Server → Outcome (Server × State)
unfolding reset_parser
next_command ev commands here s = find_command commands s >>= λ r. elim r.1 [
  | none ↦ if ev.registered then ok (record r.0 { interest = op_read }, here) else ok (r.0, error)
  | some command ↦ run_command ev.env command r.0 >>= λ q. reset_parser q.0 >>= λ s'. ok (s', q.1)
]

-- `buffer_can_read(...) || (!writing_from_file && response[response_index] != '\0')`
abbrev pub response_left : Client → Outcome Bool
response_left c =
    if can_read c.buffer_out
    then ok true
    else if c.writing_from_file
    then ok false
    else (response_byte c >>= λ b. ok (not (b == 0)))

-- `writing_from_file && !feof(message_file)`: the stream to go on with.
abbrev pub open_stream : Client → Outcome (Option Stream)
open_stream c =
    if c.writing_from_file
    then (defined_value c.message_file >>= λ f. ok (if f.eof then none else some f))
    else ok none

-- `states_common_write` where the response has left: the stream to go on with, if there is one.
abbrev pub file_or_command :
    Event → List Command → State → Server → Option Stream → Outcome (Server × State)
file_or_command ev commands here s (some f) =
    let b = s.client.buffer_out in
    file_write (b.limit - b.write_at) b f s.client.response_index >>= λ w. file_written here w s
file_or_command ev commands here s none = next_command ev commands here s

-- `states_common_write` behind the test of whether there is more of the response.
abbrev pub more_or_file : Event → List Command → State → Server → Bool → Outcome (Server × State)
more_or_file ev commands here s true = write_response s.client >>= λ c. ok (with_client c s, here)
more_or_file ev commands here s false =
    open_stream s.client >>= λ f. file_or_command ev commands here s f

-- `states_common_write` behind `buffer_read_adv`.
unfoldable pub response_sent : Event → List Command → State → Server → Outcome (Server × State)
unfolding file_write file_written next_command
response_sent ev commands here s =
    response_left s.client >>= λ more. more_or_file ev commands here s more

-- `states_common_write` behind `send`.
abbrev pub after_sending : Event → List Command → State → Server × Bool → Outcome (Server × State)
after_sending ev commands here r =
    if r.1 then response_sent ev commands here r.0 else ok (r.0, error)

-- `states_common_write`
unfoldable pub common_write : List Command → Event → Server → Outcome (Server × State)
unfolding response_sent
common_write commands ev s = defined_value s.client.current >>= λ here.
    after_send ev.sent s >>= λ r. after_sending ev commands here r
