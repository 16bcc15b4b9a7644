-- ===== src/Client/Authorization/Locking.antt =====
-- A session and the lock of its maildrop: PASS takes it, the end of the session gives it back.
use tp_protos.Base.{
  ℕ, ◌+◌, ◌-◌, min, ◌≡◌, refl, true, false, Option, none, some, arith, length, has_char, Text, ok,
  err, Errno,
}
use tp_protos.Buffer.{Buffer}
use tp_protos.Buffer.Bounds.{IsValid}
use tp_protos.UserManager.{UserManager, login}
use tp_protos.UserManager.Locks.{locked, login-locked}
use tp_protos.Monitor.{Monitor, add_log}
use tp_protos.MessageManager.{MessageManager, create}
use tp_protos.Client.{Server, State, authorization, transaction, error, with_client}
use tp_protos.Client.Output.{write_response}
use tp_protos.Client.Output.Write.{response_write_lem}
use tp_protos.Client.Responses
use tp_protos.Client.Authorization.Refusing.{Refusal, login-Refusal, pass_response_plain}
use tp_protos.Client.Authorization.{
  Environment, maildrop_path, session_opened, answer, handle_pass, pass_response, log_out,
  close_connection_of,
}

-- The server with a response of which the first `i` bytes are in the buffer `b`.
abbrev pub answered : Text → ℕ → Buffer → Server → Server
answered response i b s =
    with_client (record s.client { response = some response; response_index = i; buffer_out = b }) s

pub answer_lem :
    (response : Text) (next : State) (s : Server)
    → IsValid s.client.buffer_out
    → has_char 0 response ≡ false
    → (b : Buffer) × (answer response next s
        ≡ ok (
          answered response
              (min (s.client.buffer_out.limit - s.client.buffer_out.write_at) (length response))
              b
              s,
          next,
        ))
      × IsValid b
unfolding answer write_response
answer_lem response next s v z =
    let n = min (s.client.buffer_out.limit - s.client.buffer_out.write_at) (length response) in
    let (b, e, v', t, l) = response_write_lem s.client.buffer_out response 0 v z (omega arith) in
    let same : 0
          + min (s.client.buffer_out.limit - s.client.buffer_out.write_at) (length response - 0)
        ≡ n =
      omega arith in
    (b, rw (e, same), v')

-- From a valid output buffer, with a password accepted, a maildrop opened and the login recorded:
-- PASS leaves the session in TRANSACTION, authenticated, with its maildrop locked, the messages
-- loaded and the login logged.
pub handle_pass_lem :
    (env : Environment) (name pass : Text) (manager : MessageManager) (m : Monitor) (s : Server)
    → IsValid s.client.buffer_out
    → s.client.user ≡ some name
    → (login (some name) (some pass) s.users).1 ≡ ok tt
    → create env.maildrop name maildrop_path ≡ ok manager
    → add_log env.monitor_malloc env.now (some name) s.monitor ≡ ok m
    → (s' : Server) × (handle_pass env (some pass) s ≡ ok (s', transaction))
      × (locked name s'.users ≡ true)
      × (s'.client.authenticated ≡ true)
      × (s'.client.user ≡ some name)
      × (s'.client.message_manager ≡ some manager)
      × (s'.client.response ≡ some Responses.pass_success)
      × (s'.monitor ≡ m)
unfolding handle_pass has_char
handle_pass_lem env name pass manager m s v u l c a =
    let s₁ = session_opened manager (record s {
      client = record s.client { user = some name };
      users = (login (some name) (some pass) s.users).0;
      monitor = m;
    }) in
    let (b, e, v') = answer_lem Responses.pass_success transaction s₁ v refl in
    let n =
      min (s.client.buffer_out.limit - s.client.buffer_out.write_at)
        (length Responses.pass_success) in
    (
      answered Responses.pass_success n b s₁,
      rw (u, l, c, a) e,
      login-locked name pass s.users l,
      refl,
      refl,
      refl,
      refl,
      refl,
    )

close-unauthenticated :
    (s : Server) → s.client.authenticated ≡ false → (close_connection_of s).users ≡ s.users
unfolding close_connection_of log_out
close-unauthenticated s a = ground arith

login_err :
    (user pass : Option Text) (m : UserManager) (code : Errno)
    → (login user pass m).1 ≡ err code
    → (login user pass m).0 ≡ m
unfolding login
login_err none pass m code h = refl
login_err (some name) none m code h = refl
login_err (some name) (some pass) m code h = ground (arith, h)

-- If the maildrop cannot be opened, PASS of a session that was not authenticated ends the session
-- with an error although the login has locked the maildrop, and the end of the session does not
-- unlock it: the user stays locked.
pub handle_pass_leaks_lock :
    (env : Environment) (name pass : Text) (code : Errno) (s : Server)
    → s.client.user ≡ some name
    → s.client.authenticated ≡ false
    → (login (some name) (some pass) s.users).1 ≡ ok tt
    → create env.maildrop name maildrop_path ≡ err code
    → (s' : Server) × (handle_pass env (some pass) s ≡ ok (s', error))
      × (locked name (close_connection_of s').users ≡ true)
unfolding handle_pass close_connection_of log_out
handle_pass_leaks_lock env name pass code s u a l c =
    let s₁ = record s {
      client = record s.client { user = some name; message_manager = none; response_index = 0 };
      users = (login (some name) (some pass) s.users).0;
    } in
    (s₁, rw (u, l, c), rw (close-unauthenticated s₁ a) (login-locked name pass s.users l))

-- PASS with a login that is refused, from a valid output buffer, changes no user and nothing of the
-- monitor, forgets the name, and answers the text that `responses.h` has for what is wrong: no user or
-- password given, an unknown user, a wrong password, or a locked maildrop.
pub handle_pass_refused :
    (env : Environment) (pass : Option Text) (code : Errno) (s : Server)
    → IsValid s.client.buffer_out
    → (login s.client.user pass s.users).1 ≡ err code
    → (s' : Server) × (text : Text) × (handle_pass env pass s ≡ ok (s', authorization))
      × (s'.users ≡ s.users)
      × (s'.monitor ≡ s.monitor)
      × (s'.client.user ≡ none)
      × (s'.client.authenticated ≡ s.client.authenticated)
      × (s'.client.response ≡ some text)
      × Refusal s.users s.client.user pass text
unfolding handle_pass
handle_pass_refused env pass code s v l =
    let s₁ = record s {
      client = record s.client { user = none };
      users = (login s.client.user pass s.users).0;
    } in
    let n =
      min (s.client.buffer_out.limit - s.client.buffer_out.write_at)
        (length (pass_response code)) in
    let (b, e, v') =
      answer_lem (pass_response code) authorization s₁ v (pass_response_plain code) in
    (
      answered (pass_response code) n b s₁,
      pass_response code,
      rw l e,
      login_err s.client.user pass s.users code l,
      refl,
      refl,
      refl,
      refl,
      login-Refusal s.client.user pass s.users code l,
    )
