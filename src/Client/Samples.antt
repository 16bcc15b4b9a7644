-- ===== src/Client/Samples.antt =====
-- A session with empty buffers of eight bytes, and one user, for the tests.
use tp_protos.Base.{false, none, some, [], ◌∷◌, replicate, codes}
use tp_protos.Buffer.{Buffer}
use tp_protos.Parser.{init as parser_init}
use tp_protos.Pop3Parser.{pop3_configuration}
use tp_protos.UserManager.{User, UserManager}
use tp_protos.Monitor.{Monitor}
use tp_protos.Client.{Client, Server, op_write}

abbrev pub empty_buffer : Buffer
empty_buffer = record { storage = replicate 8 0; limit = 8; read_at = 0; write_at = 0 }

abbrev pub start_client : Client
start_client = record {
  current = none;
  parser = parser_init pop3_configuration;
  response_index = 0;
  response = none;
  user = none;
  closed = false;
  authenticated = false;
  response_is_allocated = false;
  buffer_in = empty_buffer;
  buffer_out = empty_buffer;
  message_file = none;
  writing_from_file = false;
  message_manager = none;
}

abbrev pub ana : User
ana = record { username = codes "ana"; password = some (codes "x1"); is_locked = false }

abbrev pub one_user : UserManager
one_user = record { user_list = ana ∷ []; user_count = 1; maildrop_parent_path = codes "mail/" }

abbrev pub idle_monitor : Monitor
idle_monitor = record {
  metrics = record { historic_conns = 1; current_conns = 1; bytes_transf = 0 };
  config = record { max_users = 500; max_conns = 500 };
  logs = [];
}

abbrev pub server : Client → Server
server c = record { client = c; users = one_user; monitor = idle_monitor; interest = op_write }
