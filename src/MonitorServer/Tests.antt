-- ===== src/MonitorServer/Tests.antt =====
-- A client of the monitor with buffers of eight bytes, and the theorems about the protocol at it.
use tp_protos.Base.{
  ◌^◌, ◌≤◌, ◌<◌, ◌≡◌, refl, Bool, true, false, none, some, [], ◌∷◌, arith, codes, replicate, Text,
  has_char, ok, fault,
}
use mathlib.Core.List.Memᴰ
use tp_protos.Buffer.Bounds.{IsValid}
use tp_protos.UserManager.{System, create_user}
use tp_protos.Client.{op_read}
use tp_protos.Client.Samples.{empty_buffer, one_user, idle_monitor}
use tp_protos.Client.Numbers.{decimal, number_of_digits, skip_spaces, read_digits}
use tp_protos.MonitorServer.{MonitorClient, Service, Environment, max_request_length}
use tp_protos.MonitorServer.Commands.{handle_deluser, metrics_response, handle_setter}
use tp_protos.MonitorServer.Request.{authorization_token, read_words, parse_client_request}
use tp_protos.MonitorServer.Words.{IsWord, join_words, read_words-join_words}
use tp_protos.MonitorServer.Texts.{metrics_text, metrics_response_lem}
use tp_protos.MonitorServer.Access.{Answered, command_request_lem}
use tp_protos.MonitorServer.Connection.{accumulate}
use tp_protos.MonitorServer.Collecting.{IsCollecting, HasEnded, accumulate_lem}
use tp_protos.MonitorServer.Limits.{handle_setter_bounds}
use tp_protos.MonitorServer.Users.{adduser_request, result_line, Created, adduser_request_lem}

-- Every call succeeds.
abbrev posix : System
posix = record {
  malloc = λ _. true;
  mkdir = λ _. true;
  rename = λ _ _. true;
  opendir = λ _. some [];
  lstat = λ _. some true;
  unlink = λ _. true;
  rmdir = λ _. true;
}

abbrev environment : Environment
environment = record {
  system = posix;
  malloc = true;
  logs_malloc = true;
  logs_realloc = λ _. true;
  format = λ _. [];
}

abbrev start : Service
start = record {
  client = record {
    response_index = 0;
    response = none;
    request = replicate max_request_length 0;
    request_index = 0;
    finished_request = false;
    closed = false;
    response_is_allocated = false;
    buffer_in = empty_buffer;
    buffer_out = empty_buffer;
  };
  users = one_user;
  monitor = idle_monitor;
  interest = op_read;
}

empty_buffer-IsValid : IsValid empty_buffer
empty_buffer-IsValid = omega arith

abbrev bob : Text
bob = codes "bob"

abbrev pass : Text
pass = codes "zz"

bob-IsWord : IsWord bob
unfolding has_char
bob-IsWord = (refl, omega arith)

pass-IsWord : IsWord pass
unfolding has_char
pass-IsWord = (refl, omega arith)

read_words-join_words_example : read_words 4 (join_words (bob ∷ pass ∷ [])) ≡ some (bob ∷ pass ∷ [])
read_words-join_words_example =
    read_words-join_words (bob ∷ pass ∷ []) 4 (bob-IsWord, (pass-IsWord, tt)) (omega arith)

command_request_lem_example :
    parse_client_request environment
      (join_words (authorization_token ∷ codes "DELUSER" ∷ bob ∷ []))
      start
    ≡ handle_deluser environment (some bob) none start
command_request_lem_example =
    command_request_lem environment
      (record { name = codes "DELUSER"; command_handler = handle_deluser }) (bob ∷ []) start
      (Memᴰ.tail (Memᴰ.head refl)) (bob-IsWord, tt) (omega arith)

adduser_request_lem_example :
    let r = create_user posix 500 (some bob) (some pass) one_user in
    (s' : Service) × (parse_client_request environment (adduser_request bob pass) start ≡ ok s')
    × Answered (result_line r.1) (record start { users = r.0 }) s'
    × Created posix 500 bob pass one_user r
adduser_request_lem_example =
    adduser_request_lem environment bob pass start bob-IsWord pass-IsWord empty_buffer-IsValid

metrics_response_lem_example : metrics_response 3 12 40960 ≡ ok (metrics_text 3 12 40960)
metrics_response_lem_example =
    metrics_response_lem 3 12 40960 (omega arith) (omega arith) (omega arith)

handle_setter_bounds_example : (1 ≤ 250) × (250 < 2 ^ 31)
unfolding handle_setter skip_spaces read_digits
handle_setter_bounds_example = handle_setter_bounds (some (codes "250")) none 250 refl

-- "a" and a line end are there to be read.
abbrev line_end : MonitorClient
line_end = record start.client {
  buffer_in = record empty_buffer { storage = 97 ∷ 13 ∷ 10 ∷ replicate 5 0; write_at = 3 };
}

line_end-IsCollecting : IsCollecting line_end
line_end-IsCollecting = record { array = refl; inside = omega arith; valid = omega arith }

accumulate_lem_example :
    (r : MonitorClient × Bool) × (accumulate 3 line_end ≡ ok r) × IsCollecting r.0 × HasEnded r
accumulate_lem_example = accumulate_lem 3 line_end line_end-IsCollecting (omega arith)

-- The counters that fit an `unsigned`, but no `int`, are written behind the end of the memory.
overflowing_metrics : metrics_response 1 1 4294967295 ≡ fault
unfolding metrics_response decimal number_of_digits
overflowing_metrics = refl

-- A maximum that is no `int` wraps.
wrapped_maximum : handle_setter (some (codes "4294967297")) none ≡ some 1
unfolding handle_setter skip_spaces read_digits
wrapped_maximum = refl
