-- ===== src/Client/Output.antt =====
-- server/src/states/: how a response leaves, byte by byte through `buffer_out`:
-- `states_common_response_write`, greeting.c and update.c.
pub mod Write
pub mod Delivery
pub mod Rounds
use tp_protos.Base.{
  ℕ, zero, suc, ◌+◌, Bool, true, false, not, ◌&&◌, Option, none, some, List, [], ◌∷◌, ℤ, pos,
  negsuc, leb, ◌==◌, if◌then◌else◌, length, drop, get_or, Text, Outcome, ok, err, fault, ◌>>=◌,
  ◌>>◌, defined,
}
use tp_protos.Buffer.{Buffer, can_read, can_write, read_ptr, read_adv, write}
use tp_protos.Monitor.{Monitor, add_bytes}
use tp_protos.MessageManager
use tp_protos.Client.{
  Client, Server, State, greeting, authorization, update, error, close_connection, with_client,
  op_read, defined_value,
}
use tp_protos.Client.Responses

-- The loop of `states_common_response_write` over the bytes from `*dim` on.
write_rest : Buffer → List ℕ → ℕ → Option (Buffer × ℕ)
write_rest b [] dim = some (b, dim)
write_rest b (c ∷ cs) dim =
    if can_write b && not (c == 0)
    then elim (write b c) [ none ↦ none | some b' ↦ write_rest b' cs (dim + 1) ]
    else some (b, dim)

-- `states_common_response_write(buffer, response, dim)`: the buffer and `*dim` afterwards; none
-- where an `assert` fails or a byte behind the terminator is read.
unfoldable pub response_write : Buffer → Text → ℕ → Option (Buffer × ℕ)
unfolding write_rest
response_write b response dim =
    if leb dim (length response) then write_rest b (drop dim response) dim else none

-- The call that every handler makes with the fields of the client.
unfoldable pub write_response : Client → Outcome Client
unfolding response_write
write_response c = do
  response ← defined_value c.response
  r ← defined_value (response_write c.buffer_out response c.response_index)
  ok (record c { buffer_out = r.0; response_index = r.1 })

-- `client_data->response[client_data->response_index]`, the terminator included.
abbrev pub response_byte : Client → Outcome ℕ
response_byte c = do
  response ← defined_value c.response
  defined (leb c.response_index (length response))
  ok (get_or response c.response_index 0)

-- `buffer_can_read(&client_data->buffer_out) || response[response_index] != '\0'`
abbrev pub more_to_send : Client → Outcome Bool
more_to_send c =
    if can_read c.buffer_out then ok true else (response_byte c >>= λ b. ok (not (b == 0)))

-- The counter keeps its value if `monitor_add_bytes` refuses a negative count.
abbrev pub count_bytes : ℤ → Monitor → Monitor
count_bytes n m = elim (add_bytes n m) [ ok m' ↦ m' | err e ↦ m | fault ↦ m ]

-- The start of the write handlers: `send` returned `sent`. None is the return of ERROR.
unfoldable pub after_send : ℤ → Server → Outcome (Server × Bool)
after_send sent s = do
  let counted = record s { monitor = count_bytes sent s.monitor }
  _ ← defined_value (read_ptr s.client.buffer_out)
  elim sent [
    | negsuc n ↦ ok (counted, false)
    | pos zero ↦ ok (counted, false)
    | pos (suc n) ↦ defined_value (read_adv s.client.buffer_out (pos (suc n))) >>= λ b.
        ok (with_client (record s.client { buffer_out = b }) counted, true)
  ]

-- `greeting_on_arrival`
unfoldable pub greeting_on_arrival : Client → Outcome Client
greeting_on_arrival c =
    write_response (record c { response_index = 0; response = some Responses.greeting })

-- `greeting_write` and `update_write` from the call of `buffer_can_read` on: the bytes sent, what
-- is left of the response is written, or the session moves on.
unfoldable pub greeting_sent : Bool → Server → Bool → Outcome (Server × State)
greeting_sent registered s false = ok (s, error)
greeting_sent registered s true = more_to_send s.client >>= λ more.
    if more
    then (write_response s.client >>= λ c. ok (with_client c s, greeting))
    else if registered
    then ok (record s { interest = op_read }, authorization)
    else ok (s, error)

-- `greeting_write`; `registered` is whether `selector_set_interest_key` succeeds.
unfoldable pub greeting_write : ℤ → Bool → Server → Outcome (Server × State)
unfolding greeting_sent
greeting_write sent registered s = after_send sent s >>= λ r. greeting_sent registered r.0 r.1

unfoldable pub update_sent : Server → Bool → Outcome (Server × State)
update_sent s false = ok (s, error)
update_sent s true = more_to_send s.client >>= λ more.
    if more
    then (write_response s.client >>= λ c. ok (with_client c s, update))
    else ok (s, close_connection)

-- `update_write`
unfoldable pub update_write : ℤ → Server → Outcome (Server × State)
unfolding update_sent
update_write sent s = after_send sent s >>= λ r. update_sent r.0 r.1
