-- ===== src/MonitorServer/Access.antt =====
-- Who may run a command of the monitor, and which command a request runs.
use tp_protos.Base.{
  ℕ, zero, suc, ◌+◌, ◌-◌, ◌≤◌, min, ◌≡◌, refl, ap, ◌∙◌, Bool, false, Option, none, some, List, [],
  ◌∷◌, ◌++◌, arith, Text, strcmp_eq, strcmp_eq_refl, has_char, length, take, ok,
}
use mathlib.Core.List.{Memᴰ}
use tp_protos.Buffer.Bounds.{IsValid}
use tp_protos.Buffer.Refine.{contents}
use tp_protos.Client.Output.{response_write}
use tp_protos.Client.Output.Write.{response_write_lem}
use tp_protos.MonitorServer.{Service, Environment, with_client, answer}
use tp_protos.MonitorServer.Commands.{
  MonitorCommand, monitor_commands, get_monitor_command, find_monitor_command,
}
use tp_protos.MonitorServer.Request.{
  authorization_token, max_words, dispatch, run_request, parse_client_request,
}
use tp_protos.MonitorServer.Words.{join_words, IsWord, AreWords, read_words-join_words}

-- How a client stands behind an answer: the response in place, and the front of it in the buffer.
pub record Answered (text : Text) (s s' : Service) : Type 0 where
  pub users : s'.users ≡ s.users
  pub monitor : s'.monitor ≡ s.monitor
  pub response : s'.client.response ≡ some text
  pub valid : IsValid s'.client.buffer_out
  pub index :
      s'.client.response_index
      ≡ min (s.client.buffer_out.limit - s.client.buffer_out.write_at) (length text)
  pub written :
      contents s'.client.buffer_out
      ≡ contents s.client.buffer_out ++ take s'.client.response_index text

-- A response without NUL is written from its start, as far as the buffer has room.
pub answer_lem :
    (response : Text) (allocated : Bool) (s : Service)
    → has_char 0 response ≡ false
    → IsValid s.client.buffer_out
    → (s' : Service) × (answer response allocated s ≡ ok s') × Answered response s s'
unfolding answer
answer_lem response allocated s z v =
    let (b', e, v', t, l) = response_write_lem s.client.buffer_out response 0 v z (omega arith) in
    let k = min (s.client.buffer_out.limit - s.client.buffer_out.write_at) (length response) in
    let same : 0
          + min (s.client.buffer_out.limit - s.client.buffer_out.write_at) (length response - 0)
        ≡ k =
      omega arith in
    let moved : response_write s.client.buffer_out response 0 ≡ some (b', k) =
      e ∙ ap (λ x. some (b', x)) same in
    let behind : contents b' ≡ contents s.client.buffer_out ++ take k response =
      t ∙ ap (λ x. contents s.client.buffer_out ++ take x response) (omega arith) in
    (
      with_client
          (record s.client {
            response = some response;
            response_is_allocated = allocated;
            buffer_out = b';
            response_index = k;
          })
          s,
      rw moved,
      record {
        users = refl;
        monitor = refl;
        response = refl;
        valid = v';
        index = refl;
        written = behind;
      },
    )

-- The words behind a first one.
abbrev behind : Text → Option (List Text) → Option (List Text)
behind token none = none
behind token (some ws) = some (token ∷ ws)

-- Entries of the table whose names are words, by which they are found.
abbrev AreFound : List MonitorCommand → Type 0
AreFound [] = Unit
AreFound (c ∷ cs) = IsWord c.name × (get_monitor_command c.name ≡ c) × AreFound cs

monitor_commands-AreFound : AreFound monitor_commands
unfolding get_monitor_command find_monitor_command strcmp_eq has_char
monitor_commands-AreFound = (
  (refl, omega arith),
  refl,
  (
    (refl, omega arith),
    refl,
    (
      (refl, omega arith),
      refl,
      (
        (refl, omega arith),
        refl,
        (
          (refl, omega arith),
          refl,
          (
            (refl, omega arith),
            refl,
            (
              (refl, omega arith),
              refl,
              ((refl, omega arith), refl, ((refl, omega arith), refl, tt)),
            ),
          ),
        ),
      ),
    ),
  ),
)

found_by_name :
    (cs : List MonitorCommand) (c : MonitorCommand)
    → AreFound cs
    → Memᴰ c cs
    → IsWord c.name × (get_monitor_command c.name ≡ c)
found_by_name [] c h m = elim m [ ]
found_by_name (d ∷ cs) c (w, e, h) (Memᴰ.head same) = rw same (w, e)
found_by_name (d ∷ cs) c (w, e, h) (Memᴰ.tail m) = found_by_name cs c h m

token-IsWord : IsWord authorization_token
unfolding has_char
token-IsWord = (refl, omega arith)

-- The arguments that the handler of a command is called with.
abbrev pub argument : ℕ → List Text → Option Text
argument i [] = none
argument zero (a ∷ rest) = some a
argument (suc i) (a ∷ rest) = argument i rest

dispatch_lem :
    (env : Environment) (c : MonitorCommand) (args : List Text) (s : Service)
    → get_monitor_command c.name ≡ c
    → length args ≤ 2
    → dispatch env (c.name ∷ args) s ≡ c.command_handler env (argument 0 args) (argument 1 args) s
dispatch_lem env c [] s e l = ap (λ x. x.command_handler env none none s) e
dispatch_lem env c (a ∷ []) s e l = ap (λ x. x.command_handler env (some a) none s) e
dispatch_lem env c (a ∷ b ∷ []) s e l = ap (λ x. x.command_handler env (some a) (some b) s) e
dispatch_lem env c (a ∷ b ∷ d ∷ rest) s e l = absurd (omega arith)

-- The token, the name of a command of the table, and at most two arguments, with a space between
-- them: the request runs the handler of the command on the arguments.
pub command_request_lem :
    (env : Environment) (c : MonitorCommand) (args : List Text) (s : Service)
    → Memᴰ c monitor_commands
    → AreWords args
    → length args ≤ 2
    → parse_client_request env (join_words (authorization_token ∷ c.name ∷ args)) s
      ≡ c.command_handler env (argument 0 args) (argument 1 args) s
unfolding parse_client_request
command_request_lem env c args s m h l =
    let (word, found) = found_by_name monitor_commands c monitor_commands-AreFound m in
    let token : IsWord authorization_token = token-IsWord in
    let right = strcmp_eq_refl authorization_token in
    let read =
      read_words-join_words (authorization_token ∷ c.name ∷ args) max_words (token, (word, h))
        (omega (arith, l)) in
    ap (λ x. run_request env x s) read ∙ rw right (dispatch_lem env c args s found l)
