-- ===== src/Client.antt =====
-- server/src/pop3.c with server/include/pop3.h: `struct client` and the states of a session, and
-- what the handlers of the states work on: the client, the users and the monitor. The children are
-- the files of server/src/states/.
pub mod Responses
pub mod Numbers
pub mod Output
pub mod Authorization
pub mod Listing
pub mod Transaction
pub mod Commands
pub mod Session
pub mod Machine
pub mod Samples
mod Tests
use tp_protos.Base.{
  ℕ, Bool, false, Option, none, some, List, [], Text, Outcome, ok, fault, replicate,
}
use tp_protos.Buffer.{Buffer, init}
use tp_protos.Parser.{Parser, init as parser_init}
use tp_protos.Pop3Parser.{pop3_configuration}
use tp_protos.MessageManager.{MessageManager}
use tp_protos.UserManager.{UserManager}
use tp_protos.Monitor.{Monitor}

-- `states_t`
pub data State : Type 0 where
  greeting authorization transaction update error close_connection : State

-- The `FILE` of a message: the bytes that are left, whether they are followed by the end of the file
-- or by a read error, and what `feof` returns.
pub record Stream : Type 0 where
  pub rest : List ℕ
  pub ends : Bool
  pub eof : Bool

-- `struct client`. `current` is `state_machine.current`.
pub record Client : Type 0 where
  pub current : Option State
  pub parser : Parser
  pub response_index : ℕ
  pub response : Option Text
  pub user : Option Text
  pub closed : Bool
  pub authenticated : Bool
  pub response_is_allocated : Bool
  pub buffer_in : Buffer
  pub buffer_out : Buffer
  pub message_file : Option Stream
  pub writing_from_file : Bool
  pub message_manager : Option MessageManager

-- What a client waits for in the selector.
pub data Interest : Type 0 where
  op_noop op_read op_write : Interest

-- One client, with the static state that its handlers reach.
pub record Server : Type 0 where
  pub client : Client
  pub users : UserManager
  pub monitor : Monitor
  pub interest : Interest

abbrev pub with_client : Client → Server → Server
with_client c s = record s { client = c }

-- A failed `assert`, or NULL followed.
abbrev pub defined_value {ℓ} : {A : Type ℓ} → Option A → Outcome A
defined_value none = fault
defined_value (some a) = ok a

-- `BUFFSIZE`
abbrev pub buffer_size : ℕ
buffer_size = 65536

abbrev cleared_buffer : Buffer
cleared_buffer = record { storage = []; limit = 0; read_at = 0; write_at = 0 }

pub fresh_buffer : Buffer
fresh_buffer = init cleared_buffer buffer_size (replicate buffer_size 0)

-- The client that `pop3_server_accept` registers.
unfoldable pub new_client : Client
new_client = record {
  current = none;
  parser = parser_init pop3_configuration;
  response_index = 0;
  response = none;
  user = none;
  closed = false;
  authenticated = false;
  response_is_allocated = false;
  buffer_in = fresh_buffer;
  buffer_out = fresh_buffer;
  message_file = none;
  writing_from_file = false;
  message_manager = none;
}
