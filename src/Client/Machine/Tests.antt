-- ===== src/Client/Machine/Tests.antt =====
-- Sessions that are accepted, run and closed, and the theorems about them at such sessions.
use tp_protos.Base.{
  ◌≡◌, ◌≢◌, ◌≤◌, ◌<◌, refl, true, false, some, [], ◌∷◌, ◌++◌, arith, replicate, codes, enoent,
  einval, err, pos, has_char, ok, ℕ, ◌+◌, List, set, length, subst,
}
use tp_protos.Buffer.{Buffer, read_ptr, read_adv, write, init as buffer_init}
use tp_protos.Buffer.Bounds.{IsValid}
use tp_protos.Parser.{init as parser_init}
use tp_protos.Pop3Parser.{pop3_configuration}
use tp_protos.MessageManager.{MessageManager, System, get_message_content, message_index}
use tp_protos.Monitor.{add_connection}
use tp_protos.Client.{
  Client, Server, greeting, transaction, op_read, new_client, buffer_size, fresh_buffer,
}
use tp_protos.Client.Samples.{start_client, one_user, idle_monitor, server}
use tp_protos.Client.Responses
use tp_protos.Client.Output.{
  count_bytes, greeting_on_arrival, write_response, greeting_write, after_send,
}
use tp_protos.Client.Transaction.{retr_number}
use tp_protos.Client.Commands.{parse_input, transaction_commands}
use tp_protos.Client.Commands.Input.{parse_bytes, seen, parse_input_lem}
use tp_protos.Client.Session.{Event}
use tp_protos.Client.Session.Retrieval.{retrieved}
use tp_protos.Client.Session.Delivered.{run_writes, retr_delivered}
use tp_protos.Client.Machine.{client_write, server_accept, started, client_machine, client_states}
use tp_protos.StateMachine.{init, handle_first, run_current, jump}
use tp_protos.Client.Machine.Arrival.{IsSession}
use tp_protos.Client.Machine.Reach.{
  Reach, accepted, next, Called, writes, calls, reachable-IsSession, reachable_finds_handler,
  accepted_below_max,
}

abbrev one_message : MessageManager
one_message = record {
  maildrop_path = codes "mail/ana/";
  message_data_array =
      record { message_number = 1; message_size = 4; marked_for_deletion = false } ∷ [];
  message_filename_array = codes "1" ∷ [];
  message_array_size = 1;
  total_message_size = 4;
  message_count = 1;
}

-- Every stream has the bytes of "hola".
abbrev posix : System
posix = record {
  malloc = λ _. true;
  stat = λ _. err enoent;
  opendir = λ _. ok [];
  remove = λ _. true;
  popen = λ _. ok (codes "hola");
}

abbrev event : Event
event = record {
  env = record {
    calloc = true;
    maildrop = posix;
    monitor_malloc = λ _. true;
    malloc = true;
    stream_ends = true;
    now = 7;
  };
  received = some (codes "x");
  sent = pos 1;
  registered = true;
}

-- The session of a connection, and the server before it.
abbrev connected : Server
connected = record (server new_client) { monitor = add_connection idle_monitor }

accepted_connection :
    server_accept event true true (pos 7) (server start_client) ≡ ok (started connected 7)
unfolding server_accept init client_machine client_states new_client
accepted_connection = refl

connected-Reach : Reach connected
connected-Reach =
    accepted event true true (pos 7) (server start_client) 7 connected accepted_connection

-- The socket takes the first seven bytes of the greeting.
abbrev seven_sent : Event
seven_sent = record event { sent = pos 7 }

-- A session whose buffers lie over `bytes`, and the buffer that has the greeting.
abbrev over : List ℕ → ℕ → ℕ → Buffer
over bytes r w = record { storage = bytes; limit = buffer_size; read_at = r; write_at = w }

abbrev session_over : List ℕ → Server
session_over bytes =
    record (server
      (record start_client { buffer_in = over bytes 0 0; buffer_out = over bytes 0 0 })) {
        monitor = add_connection idle_monitor;
      }

put : List ℕ → ℕ → List ℕ → List ℕ
put bytes i [] = bytes
put bytes i (c ∷ cs) = put (set bytes i c) (i + 1) cs

abbrev greeted : List ℕ → Server
greeted bytes = record (session_over bytes) {
  client = record start_client {
    current = some greeting;
    response = some Responses.greeting;
    response_index = length Responses.greeting;
    buffer_in = over bytes 0 0;
    buffer_out = over (put bytes 0 Responses.greeting) 7 (length Responses.greeting);
  };
  monitor = count_bytes (pos 7) (add_connection idle_monitor);
}

session_over-greeted :
    (bytes : List ℕ) → client_write seven_sent (session_over bytes) ≡ ok (greeted bytes)
unfolding client_write client_machine client_states put handle_first greeting_on_arrival
    write_response write run_current greeting_write after_send read_ptr read_adv jump
session_over-greeted bytes = refl

abbrev zeros : List ℕ
zeros = replicate buffer_size 0

connected-over : connected ≡ session_over zeros
unfolding new_client fresh_buffer parser_init buffer_init
connected-over = refl

over_sends : Called (session_over zeros) (client_write seven_sent (session_over zeros))
over_sends = writes seven_sent refl refl

greeted-Reach : Reach (greeted zeros)
greeted-Reach =
    next (subst Reach connected-over connected-Reach)
      (calls (greeted zeros) over_sends (session_over-greeted zeros))

reachable-IsSession_example : IsSession (greeted zeros)
reachable-IsSession_example = reachable-IsSession (greeted zeros) greeted-Reach

connected_writes : Called connected (client_write event connected)
unfolding new_client
connected_writes = writes event refl refl

reachable_finds_handler_example : client_write event connected ≢ err einval
reachable_finds_handler_example =
    reachable_finds_handler connected (client_write event connected) einval connected-Reach
      connected_writes

accepted_below_max_example :
    (1 < 500) × (connected.monitor.metrics.current_conns ≤ 500) × (one_user ≡ one_user)
accepted_below_max_example =
    accepted_below_max event true true (pos 7) (server start_client) 7 connected accepted_connection

-- "noop", its line end, and the start of a command behind it.
abbrev piped_buffer : Buffer
piped_buffer = record {
  storage = codes "noop" ++ 13 ∷ 10 ∷ codes "qu";
  limit = 8;
  read_at = 0;
  write_at = 8;
}

parse_input_lem_example :
    seen (parse_input 8 (parser_init pop3_configuration) piped_buffer)
    ≡ parse_bytes (parser_init pop3_configuration) (codes "noop" ++ 13 ∷ 10 ∷ codes "qu")
parse_input_lem_example =
    parse_input_lem 8 (parser_init pop3_configuration) piped_buffer (omega arith) (omega arith)

abbrev retr_client : Client
retr_client = record start_client {
  current = some transaction;
  message_manager = some one_message;
  buffer_out = record { storage = replicate 40 0; limit = 40; read_at = 0; write_at = 0 };
}

retr_IsValid : IsValid retr_client.buffer_out
retr_IsValid = omega arith

hola_opened : get_message_content posix (some one_message) (pos 1) ≡ ok (codes "hola", 4)
unfolding get_message_content message_index
hola_opened = refl

retr_delivered_example :
    (s₁ : Server) × (retr_number posix true (pos 1) (server retr_client) ≡ ok (s₁, transaction))
    × ((s₂ : Server) × (run_writes event transaction_commands (replicate 40 0) s₁ []
          ≡ ok (s₂, retrieved (codes "hola")))
        × (s₂.interest ≡ op_read))
unfolding has_char
retr_delivered_example =
    retr_delivered event transaction_commands posix 0 4 (codes "hola") (replicate 40 0)
      (server retr_client) hola_opened refl refl refl retr_IsValid refl refl (omega arith) refl
      (omega arith) (omega arith) refl (omega arith)
