-- ===== src/Client/Tests.antt =====
-- A session with an output buffer of eight bytes, and the theorems about sessions at it.
use tp_protos.Base.{
  ◌≡◌, Text, refl, true, false, none, some, [], ◌∷◌, ◌++◌, arith, replicate, codes, strcmp_eq,
  has_char, enoent, eacces, ok, err,
}
use tp_protos.Buffer.{Buffer}
use tp_protos.Buffer.Bounds.{IsValid}
use tp_protos.Buffer.Refine.{contents}
use tp_protos.UserManager.{login, get_user, lock}
use tp_protos.UserManager.Locks.{locked}
use tp_protos.Monitor.{Monitor, add_log}
use tp_protos.MessageManager.{MessageManager, System, create}
use tp_protos.Client.{Client, Server, authorization, transaction, error, with_client}
use tp_protos.Client.Samples.{empty_buffer, start_client, ana, one_user, idle_monitor, server}
use tp_protos.Client.Responses
use tp_protos.Client.Output.{response_write, greeting_on_arrival}
use tp_protos.Client.Output.Write.{response_write_lem}
use tp_protos.Client.Output.Delivery.{Sending}
use tp_protos.Client.Output.Rounds.{run_greeting, greeting_delivered}
use tp_protos.Client.Authorization.{Environment, maildrop_path, handle_pass, close_connection_of}
use tp_protos.Client.Authorization.Refusing.{Refusal}
use tp_protos.Client.Authorization.Locking.{
  handle_pass_lem, handle_pass_leaks_lock, handle_pass_refused,
}

-- "+OK" in the buffer, and " POP3 SERVER READY" still to come.
abbrev half_buffer : Buffer
half_buffer = record {
  storage = codes "+OK" ++ replicate 5 0;
  limit = 8;
  read_at = 0;
  write_at = 3;
}

empty-IsValid : IsValid empty_buffer
empty-IsValid = omega arith

half-IsValid : IsValid half_buffer
half-IsValid = omega arith

response_write_lem_example :
    (b' : Buffer) × (response_write half_buffer Responses.greeting 3 ≡ some (b', 8))
    × IsValid b'
    × (contents b' ≡ codes "+OK POP3")
    × (b'.limit ≡ 8)
unfolding has_char
response_write_lem_example =
    response_write_lem half_buffer Responses.greeting 3 half-IsValid refl (omega arith)

abbrev greeting_client : Client
greeting_client = record start_client {
  response = some Responses.greeting;
  response_index = 3;
  buffer_out = half_buffer;
}

half-Sending : Sending Responses.greeting Responses.greeting [] greeting_client
unfolding has_char
half-Sending = record {
  has = refl;
  plain = refl;
  valid = half-IsValid;
  inside = omega arith;
  whole = refl;
  limit = omega arith;
}

abbrev bye_client : Client
bye_client = record start_client {
  response = some Responses.update_quit_success;
  response_index = 3;
  buffer_out = half_buffer;
}

bye-Sending : Sending Responses.update_quit_success Responses.update_quit_success [] bye_client
unfolding has_char
bye-Sending = record {
  has = refl;
  plain = refl;
  valid = half-IsValid;
  inside = omega arith;
  whole = refl;
  limit = omega arith;
}

greeting_delivered_example :
    (c : Client) × (greeting_on_arrival start_client ≡ ok c)
    × ((s' : Server) × (run_greeting (replicate 23 1) (with_client c (server start_client)) []
          ≡ ok (s', authorization, Responses.greeting)))
greeting_delivered_example =
    greeting_delivered (replicate 23 1) (server start_client) empty-IsValid refl refl (omega arith)
      (omega arith)

abbrev no_mail : MessageManager
no_mail = record {
  maildrop_path = maildrop_path ++ codes "ana/";
  message_data_array = [];
  message_filename_array = [];
  message_array_size = 0;
  total_message_size = 0;
  message_count = 0;
}

-- The maildrops are directories with no entry, or are missing.
abbrev posix : System
posix = record {
  malloc = λ _. true;
  stat = λ _. ok (record { is_dir = true; st_size = 4096 });
  opendir = λ _. ok [];
  remove = λ _. true;
  popen = λ _. ok [];
}

abbrev environment : Environment
environment = record {
  calloc = true;
  maildrop = posix;
  monitor_malloc = λ _. true;
  malloc = true;
  stream_ends = true;
  now = 7;
}

abbrev no_maildrop : Environment
no_maildrop = record environment { maildrop = record posix { stat = λ _. err enoent } }

abbrev ana_client : Client
ana_client = record start_client { user = some (codes "ana") }

ana_logs_in : (login (some (codes "ana")) (some (codes "x1")) one_user).1 ≡ ok tt
unfolding login get_user strcmp_eq
ana_logs_in = refl

ana_refused : (login (some (codes "ana")) (some (codes "x2")) one_user).1 ≡ err eacces
unfolding login get_user strcmp_eq
ana_refused = refl

mail_opened : create posix (codes "ana") maildrop_path ≡ ok no_mail
unfolding create
mail_opened = refl

mail_missing : create no_maildrop.maildrop (codes "ana") maildrop_path ≡ err enoent
unfolding create
mail_missing = refl

abbrev logged : Monitor
logged = record idle_monitor { logs = record { username = codes "ana"; date_hour = 7 } ∷ [] }

ana_recorded : add_log (λ _. true) 7 (some (codes "ana")) idle_monitor ≡ ok logged
unfolding add_log
ana_recorded = refl

handle_pass_lem_example :
    (s' : Server) × (handle_pass environment (some (codes "x1")) (server ana_client)
      ≡ ok (s', transaction))
    × (locked (codes "ana") s'.users ≡ true)
    × (s'.client.authenticated ≡ true)
    × (s'.client.user ≡ some (codes "ana"))
    × (s'.client.message_manager ≡ some no_mail)
    × (s'.client.response ≡ some Responses.pass_success)
    × (s'.monitor ≡ logged)
handle_pass_lem_example =
    handle_pass_lem environment (codes "ana") (codes "x1") no_mail logged (server ana_client)
      empty-IsValid refl ana_logs_in mail_opened ana_recorded

handle_pass_leaks_lock_example :
    (s' : Server) × (handle_pass no_maildrop (some (codes "x1")) (server ana_client)
      ≡ ok (s', error))
    × (locked (codes "ana") (close_connection_of s').users ≡ true)
handle_pass_leaks_lock_example =
    handle_pass_leaks_lock no_maildrop (codes "ana") (codes "x1") enoent (server ana_client) refl
      refl ana_logs_in mail_missing

handle_pass_refused_example :
    (s' : Server) × (text : Text) × (handle_pass environment (some (codes "x2")) (server ana_client)
      ≡ ok (s', authorization))
    × (s'.users ≡ one_user)
    × (s'.monitor ≡ idle_monitor)
    × (s'.client.user ≡ none)
    × (s'.client.authenticated ≡ false)
    × (s'.client.response ≡ some text)
    × Refusal one_user (some (codes "ana")) (some (codes "x2")) text
handle_pass_refused_example =
    handle_pass_refused environment (some (codes "x2")) eacces (server ana_client) empty-IsValid
      ana_refused

abbrev ana_session : Server
ana_session = record (server (record ana_client { authenticated = true })) {
  users = record one_user { user_list = lock true ana ∷ [] };
}
