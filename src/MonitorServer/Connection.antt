-- ===== src/MonitorServer/Connection.antt =====
-- server/src/monitor-server.c: what the selector calls for a client of the monitor.
use tp_protos.Base.{
  ℕ, zero, suc, ◌+◌, ◌-◌, Bool, true, false, not, ◌&&◌, Option, none, some, List, [], ◌∷◌, ◌==◌,
  ◌||◌, ltb, leb, if◌then◌else◌, set, get_or, take, length, replicate, ℤ, pos, negsuc, Outcome, ok,
  fault, ◌>>=◌,
}
use tp_protos.Buffer.{can_read, read, write_ptr, read_ptr, write_adv, read_adv}
use tp_protos.Client.{op_noop, op_read, op_write, defined_value, fresh_buffer}
use tp_protos.Client.Commands.{c_string}
use tp_protos.Client.Session.{copy_in}
use tp_protos.Client.Machine.{selector_initial_elements}
use tp_protos.MonitorServer.{
  MonitorClient, Service, Environment, with_client, max_request_length, write_response_in_buffer,
}
use tp_protos.MonitorServer.Request.{parse_client_request}

-- The client that `monitor_server_accept` registers.
pub new_client : MonitorClient
new_client = record {
  response_index = 0;
  response = none;
  request = replicate max_request_length 0;
  request_index = 0;
  finished_request = false;
  closed = false;
  response_is_allocated = false;
  buffer_in = fresh_buffer;
  buffer_out = fresh_buffer;
}

-- `monitor_client_close_connection`; its `selector_unregister_fd` calls it again, to no effect.
unfoldable pub close_connection : Service → Service
close_connection s = if s.client.closed then s else record s {
  client = record s.client {
    closed = true;
    response = if s.client.response_is_allocated then none else s.client.response;
    response_is_allocated = false;
  };
  interest = op_noop;
}

-- `request[request_index - 2]`: in front of the array there is the last byte of the pointer
-- `response`, which is NULL while a request is read.
abbrev pub byte_before : List ℕ → ℕ → ℕ
byte_before request zero = 0
byte_before request (suc i) = get_or request i 0

-- A byte at the end of the request, which a line end finishes: both of its bytes become terminators.
unfoldable pub add_byte : ℕ → MonitorClient → MonitorClient
add_byte c m =
    let i = m.request_index in
    let request = set m.request i c in
    if (byte_before request i == 13) && (c == 10)
    then record m {
      request = set (set request (i - 1) 0) i 0;
      request_index = i + 1;
      finished_request = true;
    }
    else record m { request = request; request_index = i + 1 }

-- The loop of `monitor_client_read` for `fuel` bytes at most: the client, and whether the request is
-- too long.
unfoldable pub accumulate : ℕ → MonitorClient → Outcome (MonitorClient × Bool)
unfolding add_byte
accumulate zero m = ok (m, false)
accumulate (suc fuel) m = elim (not m.finished_request && can_read m.buffer_in) [
  | false ↦ ok (m, false)
  | true ↦ elim (leb max_request_length m.request_index) [
    | true ↦ ok (m, true)
    | false ↦ defined_value (read m.buffer_in) >>= λ r.
        accumulate fuel (add_byte r.0 (record m { buffer_in = r.1 }))
  ]
]

-- `monitor_client_read` behind the loop; `registered` is whether `selector_set_interest_key` succeeds.
abbrev pub request_read : Environment → Bool → MonitorClient × Bool → Service → Outcome Service
request_read env registered (m, true) s = ok (close_connection (with_client m s))
request_read env registered (m, false) s =
    if m.finished_request
    then (c_string m.request >>= λ line. parse_client_request env line (with_client m s) >>= λ t.
        ok (if registered then record t { interest = op_write } else close_connection t))
    else ok (with_client m s)

abbrev pub bytes_received : Environment → Bool → List ℕ → Service → Outcome Service
bytes_received env registered [] s = ok (close_connection s)
bytes_received env registered (c ∷ cs) s =
    let b = s.client.buffer_in in
    let filled = record b { storage = copy_in b.storage b.write_at (c ∷ cs) } in
    defined_value (write_adv filled (pos (length (c ∷ cs)))) >>= λ b'.
    accumulate (b'.write_at - b'.read_at) (record s.client { buffer_in = b' }) >>= λ r.
    request_read env registered r s

-- `monitor_client_read`: `recv` returned at most as many bytes as are free, or -1.
unfoldable pub client_read : Environment → Option (List ℕ) → Bool → Service → Outcome Service
unfolding accumulate
client_read env received registered s = defined_value (write_ptr s.client.buffer_in) >>= λ free.
    elim received [
      | none ↦ ok (close_connection s)
      | some bytes ↦ bytes_received env registered (take free.1 bytes) s
    ]

-- `monitor_client_write` behind `buffer_read_adv`.
abbrev pub response_sent : Service → Outcome Service
response_sent s =
    let c = s.client in
    defined_value c.response >>= λ response.
    if can_read c.buffer_out || not (get_or response c.response_index 0 == 0)
    then (defined_value (write_response_in_buffer c.buffer_out response c.response_index) >>= λ r.
        ok (with_client (record c { buffer_out = r.0; response_index = r.1 }) s))
    else ok (close_connection s)

-- `monitor_client_write`: `send` returned `sent`.
unfoldable pub client_write : ℤ → Service → Outcome Service
client_write sent s = defined_value (read_ptr s.client.buffer_out) >>= λ offered. elim sent [
  | negsuc n ↦ ok (close_connection s)
  | pos zero ↦ ok (close_connection s)
  | pos (suc n) ↦ defined_value (read_adv s.client.buffer_out (pos (suc n))) >>= λ b.
      response_sent (with_client (record s.client { buffer_out = b }) s)
]

-- `monitor_server_accept`: `accept` returned `sd`, `calloc` is whether it succeeds, which is not
-- tested, and `registered` whether `selector_register` does. None is a connection that is not kept.
unfoldable pub server_accept : Bool → Bool → ℤ → Service → Outcome (Option Service)
server_accept calloc registered (negsuc n) s = ok none
server_accept calloc registered (pos n) s =
    if ltb selector_initial_elements n
    then ok none
    else if calloc
    then ok
        (if registered then some (record s { client = new_client; interest = op_read }) else none)
    else fault
