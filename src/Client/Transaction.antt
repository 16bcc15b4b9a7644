-- ===== src/Client/Transaction.antt =====
-- server/src/states/transaction.c: the handlers of RETR, DELE, NOOP, RSET, CAPA and QUIT, and
-- `update_on_arrival` of server/src/states/update.c.
pub mod Deletion
mod Tests
use tp_protos.Base.{
  ℕ, zero, suc, Bool, true, false, some, List, [], Text, ℤ, pos, negsuc, Errno, einval, enoent, eio,
  Outcome, ok, err, fault, ◌>>=◌,
}
use tp_protos.MessageManager.{
  MessageManager, System, get_message_content, delete_message, reset_deleted_flag,
  delete_marked_messages,
}
use tp_protos.Client.{Client, Stream, Server, State, transaction, update, with_client}
use tp_protos.Client.Numbers.{atoi}
use tp_protos.Client.Authorization.{answer}
use tp_protos.Client.Responses
use tp_protos.Client.Listing.{free_allocated_response, prepared}

abbrev pub retr_failure : Errno → Text
retr_failure einval = Responses.retr_invalid_param
retr_failure enoent = Responses.retr_no_such_msg
retr_failure _ = Responses.retr_error

-- The `FILE` that `popen` returned.
abbrev pub opened : List ℕ → Bool → Stream
opened file ends = record { rest = file; ends = ends; eof = false }

-- `handle_retr` from `message_manager_get_message_content` on, which returned the second argument:
-- the stream is left to the write handler.
abbrev pub content_found : Bool → Outcome (List ℕ × ℕ) → Server → Outcome (Server × State)
content_found ends (ok file) s = answer Responses.retr_success transaction (
    with_client
      (record s.client { writing_from_file = true; message_file = some (opened file.0 ends) }) s)
content_found ends (err e) s = answer (retr_failure e) transaction s
content_found ends fault s = fault

-- `handle_retr` behind `atoi`.
unfoldable pub retr_number : System → Bool → ℤ → Server → Outcome (Server × State)
retr_number sys ends (negsuc n) s = answer Responses.retr_invalid_param transaction s
retr_number sys ends (pos zero) s = answer Responses.retr_invalid_param transaction s
retr_number sys ends (pos (suc n)) s =
    content_found ends (get_message_content sys s.client.message_manager (pos (suc n))) s

-- `handle_retr`; `ends` is whether the stream is read without an error.
unfoldable pub handle_retr : System → Bool → Text → Server → Outcome (Server × State)
unfolding retr_number
handle_retr sys ends arg s = atoi arg >>= λ n. retr_number sys ends n (prepared s)

abbrev pub dele_failure : Errno → Text
dele_failure einval = Responses.dele_no_such_msg
dele_failure enoent = Responses.dele_msg_already_deleted
dele_failure _ = Responses.dele_error

abbrev pub with_manager : MessageManager → Server → Server
with_manager m s = with_client (record s.client { message_manager = some m }) s

-- `handle_dele` from `message_manager_delete_message` on, which returned the first argument.
abbrev pub deleted : Outcome MessageManager → Server → Outcome (Server × State)
deleted (ok m) s = answer Responses.dele_success transaction (with_manager m s)
deleted (err e) s = answer (dele_failure e) transaction s
deleted fault s = fault

-- `handle_dele` behind `atoi`. It answers the text of LIST for a number that is not positive.
unfoldable pub dele_number : ℤ → Server → Outcome (Server × State)
dele_number (negsuc n) s = answer Responses.list_invalid_param transaction s
dele_number (pos zero) s = answer Responses.list_invalid_param transaction s
dele_number (pos (suc n)) s = deleted (delete_message s.client.message_manager (pos (suc n))) s

-- `handle_dele`
unfoldable pub handle_dele : Text → Server → Outcome (Server × State)
unfolding dele_number
handle_dele arg s = atoi arg >>= λ n. dele_number n (prepared s)

-- `handle_noop`
unfoldable pub handle_noop : Server → Outcome (Server × State)
handle_noop s = answer Responses.noop transaction (prepared s)

-- `handle_rset` from `message_manager_reset_deleted_flag` on, which returned the first argument.
abbrev pub flags_reset : Outcome MessageManager → Server → Outcome (Server × State)
flags_reset (ok m) s = answer Responses.rset transaction (with_manager m s)
flags_reset (err e) s = answer Responses.rset transaction s
flags_reset fault s = fault

-- `handle_rset`
unfoldable pub handle_rset : Server → Outcome (Server × State)
handle_rset s = flags_reset (reset_deleted_flag s.client.message_manager) (prepared s)

-- `handle_capa`
unfoldable pub handle_capa : Server → Outcome (Server × State)
handle_capa s = answer Responses.transaction_capa transaction (prepared s)

-- `handle_quit`
unfoldable pub handle_quit : Server → Outcome (Server × State)
handle_quit s = ok (
  with_client (free_allocated_response (record s.client { writing_from_file = false })) s,
  update,
)

-- What `update_on_arrival` answers.
abbrev pub update_response : Outcome (Unit {0}) → Text
update_response (ok _) = Responses.update_quit_success
update_response (err eio) = Responses.update_quit_err_some_mails
update_response (err _) = Responses.update_quit_err_no_mails
update_response fault = []

-- `update_on_arrival`: the server, and the paths handed to `remove`.
unfoldable pub update_on_arrival : System → Server → Outcome (Server × List Text)
update_on_arrival sys s = delete_marked_messages sys s.client.message_manager >>= λ r.
    answer (update_response r.1) update
      (with_client (record s.client { response_is_allocated = false }) s)
    >>= λ a. ok (a.0, r.0)
