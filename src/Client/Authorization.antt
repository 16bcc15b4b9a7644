-- ===== src/Client/Authorization.antt =====
-- server/src/states/authorization.c: the handlers of USER, PASS, CAPA and QUIT before a login, and
-- from server/src/pop3.c how a session ends.
pub mod Locking
pub mod Refusing
use tp_protos.Base.{
  ℕ, Bool, true, false, Option, none, some, ◌==◌, if◌then◌else◌, codes, Text, take, Errno, einval,
  enoent, ebusy, eacces, Outcome, ok, err, fault, ◌>>=◌,
}
use tp_protos.UserManager.{login, logout}
use tp_protos.Monitor.{Monitor, add_log, remove_connection}
use tp_protos.MessageManager.{MessageManager, System, create}
use tp_protos.Client.{
  Client, Server, State, authorization, transaction, error, close_connection, with_client,
  defined_value,
}
use tp_protos.Client.Output.{write_response}
use tp_protos.Client.Responses

-- What the handlers call outside the server: whether `calloc` succeeds, the calls of the message
-- manager, the `malloc`s of the monitor and of a response, whether a message is read without an
-- error, and the time.
pub record Environment : Type 0 where
  pub calloc : Bool
  pub maildrop : System
  pub monitor_malloc : ℕ → Bool
  pub malloc : Bool
  pub stream_ends : Bool
  pub now : ℕ

-- `MAILDROP_PATH`
abbrev pub maildrop_path : Text
maildrop_path = codes "./server/data/maildrops/"

-- A response, its index at 0, and the first of its bytes written; the session goes to `next`.
unfoldable pub answer : Text → State → Server → Outcome (Server × State)
answer response next s =
    write_response (record s.client { response_index = 0; response = some response }) >>= λ c.
    ok (with_client c s, next)

abbrev pub not_allocated : Server → Server
not_allocated s = with_client (record s.client { response_is_allocated = false }) s

abbrev pub named : Option Text → Server → Server
named user s = with_client (record s.client { user = user }) s

-- `handle_user`: the argument as a C string or NULL, and its length as the parser counted it. A
-- NULL from `calloc` is written through.
unfoldable pub handle_user : Environment → Option Text → ℕ → Server → Outcome (Server × State)
unfolding answer
handle_user env user user_len s = elim s.client.user [
  | some u ↦ answer Responses.user_already_specified authorization (not_allocated s)
  | none ↦
      if user_len == 0
      then answer Responses.user authorization (not_allocated s)
      else if env.calloc
      then (defined_value user >>= λ u.
          answer Responses.user authorization (not_allocated (named (some (take user_len u)) s)))
      else fault
]

-- The answer to a login that failed.
abbrev pub pass_response : Errno → Text
pass_response eacces = Responses.pass_invalid_password
pass_response ebusy = Responses.pass_busy
pass_response enoent = Responses.pass_no_such_user
pass_response einval = Responses.pass_no_user
pass_response _ = Responses.pass_error

abbrev pub session_opened : MessageManager → Server → Server
session_opened manager s =
    with_client
      (record s.client {
        message_manager = some manager;
        response = some Responses.pass_success;
        response_index = 0;
        authenticated = true;
        response_is_allocated = false;
      })
      s

-- `handle_pass` from `monitor_add_log` on, which returned the first argument.
abbrev pub log_recorded : Outcome Monitor → Server → Outcome (Server × State)
log_recorded (ok m) s = answer Responses.pass_success transaction (record s { monitor = m })
log_recorded (err e) s = ok (s, error)
log_recorded fault s = fault

-- `message_manager_create(client_data->user, MAILDROP_PATH)`; `user` is not NULL behind a login.
abbrev pub open_maildrop : Environment → Option Text → Outcome MessageManager
open_maildrop env none = fault
open_maildrop env (some user) = create env.maildrop user maildrop_path

-- `handle_pass` from `message_manager_create` on, which returned the second argument. NULL ends the
-- session.
abbrev pub maildrop_opened :
    Environment → Outcome MessageManager → Server → Outcome (Server × State)
maildrop_opened env (ok manager) s =
    log_recorded (add_log env.monitor_malloc env.now s.client.user s.monitor)
      (session_opened manager s)
maildrop_opened env (err e) s =
    ok (with_client (record s.client { message_manager = none; response_index = 0 }) s, error)
maildrop_opened env fault s = fault

-- `handle_pass` from `user_manager_login` on, which returned the second argument.
abbrev pub logged_in : Environment → Outcome (Unit {0}) → Server → Outcome (Server × State)
logged_in env (ok _) s = maildrop_opened env (open_maildrop env s.client.user) s
logged_in env (err e) s = answer (pass_response e) authorization (named none s)
logged_in env fault s = fault

-- `handle_pass`
unfoldable pub handle_pass : Environment → Option Text → Server → Outcome (Server × State)
unfolding answer
handle_pass env pass s =
    let r = login s.client.user pass s.users in logged_in env r.1 (record s { users = r.0 })

-- `handle_capa`
unfoldable pub handle_capa : Server → Outcome (Server × State)
unfolding answer
handle_capa s = answer Responses.auth_capa authorization (not_allocated s)

-- `handle_quit`
unfoldable pub handle_quit : Server → Outcome (Server × State)
unfolding answer
handle_quit s = answer Responses.auth_quit close_connection (not_allocated s)

-- The part of `pop3_client_close` before `close_connection`; what `user_manager_logout` returns is
-- not looked at, and no state has an `on_departure`.
unfoldable pub log_out : Server → Server
log_out s =
    if s.client.authenticated then record s { users = (logout s.client.user s.users).0 } else s

-- `close_connection` of pop3.c. Its `selector_unregister_fd` calls `pop3_client_close` again,
-- which logs out and then finds `closed` set.
unfoldable pub close_connection_of : Server → Server
unfolding log_out
close_connection_of s =
    if s.client.closed
    then s
    else (let s₁ = log_out (with_client (record s.client { closed = true }) s) in
        record s₁ {
          client = record s₁.client {
            response_is_allocated = false;
            user = none;
            message_manager = none;
          };
          monitor = remove_connection s₁.monitor;
        })

-- `pop3_client_close`
unfoldable pub client_close : Server → Server
unfolding log_out close_connection_of
client_close s = close_connection_of (log_out s)
