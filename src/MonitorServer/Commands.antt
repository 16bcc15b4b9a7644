-- ===== src/MonitorServer/Commands.antt =====
-- server/src/monitor-commands.c: the handlers of the commands, and their table.
use tp_protos.Base.{
  ℕ, zero, suc, ◌+◌, ◌-◌, ◌%◌, ◌^◌, min, Bool, true, false, Option, none, some, List, [], ◌∷◌, ◌++◌,
  ◌==◌, ltb, ◌||◌, if◌then◌else◌, codes, Text, strcmp_eq, length, take, ℤ, pos, negsuc, Outcome, ok,
  err, fault, ◌>>=◌, is_some,
}
use tp_protos.UserManager.{
  UserManager, create_user, delete_user, change_username, change_password, get_usernames,
}
use tp_protos.Monitor.{Monitor, set_max_users, set_max_conns, get_logs, unsigned_mod}
use tp_protos.Client.Numbers.{number_of_digits, decimal, skip_spaces, read_digits}
use tp_protos.Client.Listing.{sprintf_at}
use tp_protos.Client.Responses.{crlf, dot_crlf}
use tp_protos.MonitorServer.{Service, Environment, answer, monitor_max_command_len}

abbrev pub err_line : Text
err_line = codes "ERR" ++ crlf

abbrev pub ok_line : Text
ok_line = codes "OK" ++ crlf

abbrev pub refuse : Service → Outcome Service
refuse = answer err_line false

-- What the handlers answer that change the users.
abbrev pub users_changed : UserManager × Outcome (Unit {0}) → Service → Outcome Service
users_changed (m, ok _) s = answer ok_line false (record s { users = m })
users_changed (m, err _) s = answer err_line false (record s { users = m })
users_changed (m, fault) s = fault

-- `len == 0` of an argument whose length is 0 where it is NULL.
abbrev pub is_empty : Option Text → Bool
is_empty none = true
is_empty (some t) = length t == 0

-- `handle_adduser`; the limit of users is that of the monitor.
unfoldable pub handle_adduser : Environment → Option Text → Option Text → Service → Outcome Service
handle_adduser env arg1 arg2 s =
    if is_empty arg1 || is_empty arg2
    then refuse s
    else users_changed (create_user env.system s.monitor.config.max_users arg1 arg2 s.users) s

-- `handle_deluser`
unfoldable pub handle_deluser : Environment → Option Text → Option Text → Service → Outcome Service
handle_deluser env arg1 unused s =
    if is_empty arg1 then refuse s else users_changed (delete_user env.system arg1 s.users) s

-- `handle_updatepass`
unfoldable pub handle_updatepass :
    Environment → Option Text → Option Text → Service → Outcome Service
handle_updatepass env arg1 arg2 s =
    if is_empty arg1 || is_empty arg2
    then refuse s
    else users_changed (change_password env.system arg1 arg2 s.users) s

-- `handle_updatename`
unfoldable pub handle_updatename :
    Environment → Option Text → Option Text → Service → Outcome Service
handle_updatename env arg1 arg2 s =
    if is_empty arg1 || is_empty arg2
    then refuse s
    else users_changed (change_username env.system arg1 arg2 s.users) s

-- The loop of `handle_listusers` that adds up the memory for its response.
unfoldable pub users_length : List Text → ℕ → ℕ
users_length [] n = n
users_length (u ∷ us) n = users_length us (n + length u + 2 + 1)

-- The loop that writes them: `strcat` of a name and of a line end.
unfoldable pub write_users : ℕ → List Text → Text → Outcome Text
unfolding sprintf_at
write_users size [] text = ok text
write_users size (u ∷ us) text =
    sprintf_at size text u >>= λ t. sprintf_at size t crlf >>= λ t'. write_users size us t'

-- The response of LISTUSERS.
unfoldable pub users_response : List Text → Outcome Text
unfolding sprintf_at users_length write_users
users_response us =
    let size = users_length us 0 + length ok_line + length dot_crlf + 1 in
    sprintf_at size [] ok_line >>= λ start.
    write_users size us start >>= λ text. sprintf_at size text dot_crlf

-- The test of the handlers that take no argument.
abbrev pub has_arguments : Option Text → Option Text → Bool
has_arguments a b = is_some a || is_some b

-- A response in memory of its own, or the refusal if there is none.
abbrev pub answer_allocated : Bool → Outcome Text → Service → Outcome Service
answer_allocated malloc text s = if malloc then (text >>= λ t. answer t true s) else refuse s

abbrev pub users_listed : Environment → Outcome (List Text) → Service → Outcome Service
users_listed env (ok us) s = answer_allocated env.malloc (users_response us) s
users_listed env (err _) s = refuse s
users_listed env fault s = fault

-- `handle_listusers`
unfoldable pub handle_listusers :
    Environment → Option Text → Option Text → Service → Outcome Service
handle_listusers env a b s =
    if has_arguments a b then refuse s else users_listed env (get_usernames env.system s.users) s

-- `number_of_digits` of an unsigned counter, which is converted to `int`: a negative `int` has the
-- digits of its absolute value.
unfoldable pub digits_as_int : ℕ → ℕ
digits_as_int n = if ltb n (2 ^ 31) then number_of_digits n else number_of_digits (unsigned_mod - n)

-- The response of METRICS.
unfoldable pub metrics_response : ℕ → ℕ → ℕ → Outcome Text
unfolding sprintf_at digits_as_int
metrics_response current historical bytes =
    let size =
      length ok_line
      + 2
      + digits_as_int current
      + 2
      + digits_as_int historical
      + 2
      + digits_as_int bytes
      + 2
      + length dot_crlf
      + 1 in
    sprintf_at size [] (
      ok_line
      ++ (decimal current
          ++ (crlf ++ (decimal historical ++ (crlf ++ (decimal bytes ++ (crlf ++ dot_crlf)))))))

-- `handle_metrics`
unfoldable pub handle_metrics : Environment → Option Text → Option Text → Service → Outcome Service
handle_metrics env a b s =
    let m = s.monitor.metrics in
    if has_arguments a b
    then refuse s
    else answer_allocated env.malloc
        (metrics_response m.current_conns m.historic_conns m.bytes_transf) s

-- The response of LOGS.
unfoldable pub logs_response : Text → Outcome Text
unfolding sprintf_at
logs_response logs =
    let size = length logs + length ok_line + length dot_crlf + 1 in
    sprintf_at size [] ok_line >>= λ t. sprintf_at size t logs >>= λ t'. sprintf_at size t' dot_crlf

abbrev pub logs_listed : Environment → Outcome (Option Text) → Service → Outcome Service
logs_listed env (ok (some logs)) s = answer_allocated env.malloc (logs_response logs) s
logs_listed env (ok none) s = refuse s
logs_listed env (err _) s = refuse s
logs_listed env fault s = fault

-- `handle_logs`
unfoldable pub handle_logs : Environment → Option Text → Option Text → Service → Outcome Service
handle_logs env a b s =
    if has_arguments a b
    then refuse s
    else logs_listed env (get_logs env.logs_malloc env.logs_realloc env.format s.monitor) s

-- The conversion of a `long` to an `int`.
unfoldable pub to_int : ℤ → ℤ
to_int (pos n) = let w = n % 2 ^ 32 in if ltb w (2 ^ 31) then pos w else negsuc (2 ^ 32 - w - 1)
to_int (negsuc n) = let w = n % 2 ^ 32 in if ltb w (2 ^ 31) then negsuc w else pos (2 ^ 32 - w - 1)

-- `strtol(s, NULL, 10)` of the C library, which stops at the bounds of a `long`.
abbrev pub long_of : Bool → ℕ → ℤ
long_of false n = pos (min n (2 ^ 63 - 1))
long_of true zero = pos 0
long_of true (suc n) = negsuc (min n (2 ^ 63 - 1))

abbrev pub read_long : Text → ℤ
read_long [] = pos 0
read_long (c ∷ s) =
    if c == b'-'
    then long_of true (read_digits 0 s)
    else if c == b'+'
    then long_of false (read_digits 0 s)
    else long_of false (read_digits 0 (c ∷ s))

unfoldable pub strtol : Text → ℤ
strtol s = read_long (skip_spaces s)

-- The test `value <= 0` of `handle_setter`.
abbrev pub positive : ℤ → Option ℕ
positive (negsuc n) = none
positive (pos n) = if n == 0 then none else some n

-- `handle_setter`: the value, if it is positive.
unfoldable pub handle_setter : Option Text → Option Text → Option ℕ
unfolding strtol to_int
handle_setter none b = none
handle_setter (some a) b =
    if is_some b || (length a == 0) then none else positive (to_int (strtol a))

abbrev pub monitor_changed : (ℕ → Monitor → Monitor) → Option ℕ → Service → Outcome Service
monitor_changed set none s = refuse s
monitor_changed set (some n) s = answer ok_line false (record s { monitor = set n s.monitor })

-- `handle_maxusers`
unfoldable pub handle_maxusers : Environment → Option Text → Option Text → Service → Outcome Service
unfolding handle_setter
handle_maxusers env a b s = monitor_changed set_max_users (handle_setter a b) s

-- `handle_maxconns`
unfoldable pub handle_maxconns : Environment → Option Text → Option Text → Service → Outcome Service
unfolding handle_setter
handle_maxconns env a b s = monitor_changed set_max_conns (handle_setter a b) s

-- `error_handler`
unfoldable pub error_handler : Environment → Option Text → Option Text → Service → Outcome Service
error_handler env a b s = refuse s

-- `struct monitor_command`
pub record MonitorCommand : Type 0 where
  pub name : Text
  pub command_handler : Environment → Option Text → Option Text → Service → Outcome Service

-- `monitor_commands`
abbrev pub monitor_commands : List MonitorCommand
monitor_commands =
    record { name = codes "ADDUSER"; command_handler = handle_adduser }
    ∷ record { name = codes "DELUSER"; command_handler = handle_deluser }
    ∷ record { name = codes "UPDATEPASS"; command_handler = handle_updatepass }
    ∷ record { name = codes "UPDATENAME"; command_handler = handle_updatename }
    ∷ record { name = codes "LISTUSERS"; command_handler = handle_listusers }
    ∷ record { name = codes "METRICS"; command_handler = handle_metrics }
    ∷ record { name = codes "LOGS"; command_handler = handle_logs }
    ∷ record { name = codes "MAXUSERS"; command_handler = handle_maxusers }
    ∷ record { name = codes "MAXCONNS"; command_handler = handle_maxconns }
    ∷ []

abbrev pub unknown_command : MonitorCommand
unknown_command = record { name = codes "ERR"; command_handler = error_handler }

-- The loop of `get_monitor_command`: `strncmp` compares the first `monitor_max_command_len` bytes.
unfoldable pub find_monitor_command : List MonitorCommand → Text → MonitorCommand
find_monitor_command [] command = unknown_command
find_monitor_command (c ∷ cs) command =
    if strcmp_eq (take monitor_max_command_len command) (take monitor_max_command_len c.name)
    then c
    else find_monitor_command cs command

-- `get_monitor_command`
unfoldable pub get_monitor_command : Text → MonitorCommand
unfolding find_monitor_command
get_monitor_command command = find_monitor_command monitor_commands command

-- `handle_unauthorized`
unfoldable pub handle_unauthorized : Environment → Service → Outcome Service
unfolding error_handler
handle_unauthorized env s = error_handler env none none s
