-- ===== src/MonitorServer.antt =====
-- server/src/monitor-server.c with server/include/monitor-server.h: the connections of the protocol by
-- which the server is administered. The children are monitor-commands.c and monitor-parser.c.
pub mod Commands
pub mod Request
pub mod Connection
pub mod Words
pub mod Texts
pub mod Access
pub mod Limits
pub mod Users
pub mod Collecting
mod Tests
use tp_protos.Base.{ℕ, ◌+◌, Bool, Option, some, List, Text, Outcome, ok, ◌>>=◌}
use tp_protos.Buffer.{Buffer}
use tp_protos.UserManager.{UserManager, System}
use tp_protos.Monitor.{Monitor}
use tp_protos.Client.{Interest, defined_value}
use tp_protos.Client.Output.{response_write}

abbrev pub monitor_max_token_len : ℕ
monitor_max_token_len = 40

abbrev pub monitor_max_command_len : ℕ
monitor_max_command_len = 11

abbrev pub monitor_max_arg_len : ℕ
monitor_max_arg_len = 40

-- `MAX_REQUEST_LENGTH`
abbrev pub max_request_length : ℕ
max_request_length =
    monitor_max_token_len + 1 + monitor_max_command_len + 1 + monitor_max_arg_len + 1
    + monitor_max_arg_len + 1

-- `struct monitor_client`
pub record MonitorClient : Type 0 where
  pub response_index : ℕ
  pub response : Option Text
  pub request : List ℕ
  pub request_index : ℕ
  pub finished_request : Bool
  pub closed : Bool
  pub response_is_allocated : Bool
  pub buffer_in : Buffer
  pub buffer_out : Buffer

-- One client of the monitor, with the static state that its requests reach.
pub record Service : Type 0 where
  pub client : MonitorClient
  pub users : UserManager
  pub monitor : Monitor
  pub interest : Interest

abbrev pub with_client : MonitorClient → Service → Service
with_client c s = record s { client = c }

-- What a request calls outside the server: the system calls of the user manager, whether the memory
-- of a response and that of `monitor_get_logs` is there, and `strftime` of `localtime`.
pub record Environment : Type 0 where
  pub system : System
  pub malloc : Bool
  pub logs_malloc : Bool
  pub logs_realloc : ℕ → Bool
  pub format : ℕ → Text

-- `write_response_in_buffer` of monitor-commands.c, the same loop as `states_common_response_write`.
abbrev pub write_response_in_buffer : Buffer → Text → ℕ → Option (Buffer × ℕ)
write_response_in_buffer = response_write

-- How every handler ends: a response with its index at 0, and the first of its bytes written.
unfoldable pub answer : Text → Bool → Service → Outcome Service
answer response allocated s =
    defined_value (write_response_in_buffer s.client.buffer_out response 0) >>= λ r. ok (
      with_client
        (record s.client {
          response = some response;
          response_is_allocated = allocated;
          buffer_out = r.0;
          response_index = r.1;
        })
        s)
