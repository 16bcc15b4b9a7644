-- ===== src/Client/Machine.antt =====
-- server/src/pop3.c: the state machine of a session, what the selector calls for its socket, and how
-- a connection is accepted; with close-connection.c.
pub mod Arrival
pub mod Turns
pub mod Invariant
pub mod Reach
mod Tests
use tp_protos.Base.{
  ℕ, Bool, true, false, Option, none, some, List, [], ◌∷◌, ltb, leb, if◌then◌else◌, ℤ, pos, negsuc,
  Outcome, ok, fault, ◌>>=◌, ◌==◌,
}
use tp_protos.Monitor.{add_connection}
use tp_protos.StateMachine.{
  StateDefinition, StateMachine, init, handler_read, handler_write, handler_block,
}
use tp_protos.Client.{
  Server, State, greeting, authorization, transaction, update, error, close_connection, op_noop,
  op_write, new_client, with_client,
}
use tp_protos.Client.Output.{greeting_on_arrival, greeting_write, update_write}
use tp_protos.Client.Authorization.{client_close, close_connection_of}
use tp_protos.Client.Transaction.{update_on_arrival}
use tp_protos.Client.Commands.{authorization_commands, transaction_commands}
use tp_protos.Client.Session.{Event, common_read, common_write}

-- The number of a state in the `enum`.
abbrev pub state_index : State → ℕ
state_index greeting = 0
state_index authorization = 1
state_index transaction = 2
state_index update = 3
state_index error = 4
state_index close_connection = 5

-- The state of a number, `error` for one that no state has.
abbrev pub state_at : ℕ → State
state_at n =
    if n == 0
    then greeting
    else if n == 1
    then authorization
    else if n == 2
    then transaction
    else if n == 3
    then update
    else if n == 5
    then close_connection
    else error

abbrev pub numbered : Outcome (Server × State) → Outcome (Server × ℕ)
numbered r = r >>= λ p. ok (p.0, state_index p.1)

-- `selector_unregister_fd` of the session's socket: it calls `pop3_client_close`, and takes the
-- socket out of the selector. That call does so too, and the sets of the selector are not followed here.
abbrev unregistered : Server → Server
unregistered s = record (client_close s) { interest = op_noop }

-- `close_connection_on_arrival`
unfoldable pub close_connection_on_arrival : Server → Outcome Server
close_connection_on_arrival s = ok (unregistered s)

-- `client_states` of pop3.c, for what the handlers find outside.
unfoldable pub client_states : Event → List (StateDefinition Server)
unfolding close_connection_on_arrival
client_states ev =
    record {
      state = state_index greeting;
      on_arrival = some (λ s. greeting_on_arrival s.client >>= λ c. ok (with_client c s));
      on_departure = none;
      on_read_ready = none;
      on_write_ready = some (λ s. numbered (greeting_write ev.sent ev.registered s));
      on_block_ready = none;
    }
    ∷ record {
      state = state_index authorization;
      on_arrival = none;
      on_departure = none;
      on_read_ready = some (λ s. numbered (common_read authorization_commands ev s));
      on_write_ready = some (λ s. numbered (common_write authorization_commands ev s));
      on_block_ready = none;
    }
    ∷ record {
      state = state_index transaction;
      on_arrival = none;
      on_departure = none;
      on_read_ready = some (λ s. numbered (common_read transaction_commands ev s));
      on_write_ready = some (λ s. numbered (common_write transaction_commands ev s));
      on_block_ready = none;
    }
    ∷ record {
      state = state_index update;
      on_arrival = some (λ s. update_on_arrival ev.env.maildrop s >>= λ r. ok r.0);
      on_departure = none;
      on_read_ready = none;
      on_write_ready = some (λ s. numbered (update_write ev.sent s));
      on_block_ready = none;
    }
    ∷ record {
      state = state_index error;
      on_arrival = none;
      on_departure = none;
      on_read_ready = none;
      on_write_ready = none;
      on_block_ready = none;
    }
    ∷ record {
      state = state_index close_connection;
      on_arrival = some close_connection_on_arrival;
      on_departure = none;
      on_read_ready = none;
      on_write_ready = none;
      on_block_ready = none;
    }
    ∷ []

abbrev index_of : Option State → Option ℕ
index_of none = none
index_of (some s) = some (state_index s)

abbrev state_of : Option ℕ → Option State
state_of none = none
state_of (some i) = some (state_at i)

-- The `state_machine` of a client.
unfoldable pub client_machine : Event → StateMachine Server
unfolding client_states
client_machine ev = record {
  initial = state_index greeting;
  states = client_states ev;
  max_state = state_index close_connection;
  current = λ s. index_of s.client.current;
  with_current = λ i s. with_client (record s.client { current = state_of i }) s;
}

-- What `pop3_client_read`, `_write` and `_block` do with the state that the machine returns.
abbrev pub ended : Server × ℕ → Server
ended r =
    if r.1 == state_index error
    then record (close_connection_of r.0) { interest = op_noop }
    else r.0

-- `pop3_client_read`
unfoldable pub client_read : Event → Server → Outcome Server
unfolding client_machine
client_read ev s = handler_read (client_machine ev) s >>= λ r. ok (ended r)

-- `pop3_client_write`
unfoldable pub client_write : Event → Server → Outcome Server
unfolding client_machine
client_write ev s = handler_write (client_machine ev) s >>= λ r. ok (ended r)

-- `pop3_client_block`
unfoldable pub client_block : Event → Server → Outcome Server
unfolding client_machine
client_block ev s = handler_block (client_machine ev) s >>= λ r. ok (ended r)

-- `SELECTOR_INITIAL_ELEMENTS`, which is `FD_SETSIZE`.
abbrev pub selector_initial_elements : ℕ
selector_initial_elements = 1024

-- How `pop3_server_accept` ends: the descriptor is closed (a negative one to no effect), nothing is
-- done, or a session starts.
pub data Accepted : Type 0 where
  refused : ℤ → Accepted
  failed : Accepted
  started : Server → ℕ → Accepted

-- `pop3_server_accept` behind `selector_register`.
abbrev pub registration : Bool → ℕ → Server → Accepted
registration true sd s =
    started (record s { interest = op_write; monitor = add_connection s.monitor }) sd
registration false sd s = refused (pos sd)

-- `pop3_server_accept` behind `calloc`.
abbrev pub accept_client : Event → Bool → ℕ → Server → Outcome Accepted
accept_client ev registered sd s =
    init (client_machine ev) (record s { client = new_client }) >>= λ s'.
    ok (registration registered sd s')

-- `pop3_server_accept`: `accept` returned `sd`, `calloc` is whether it succeeds, and `registered`
-- whether `selector_register` does. The users and the monitor are those of `s`.
unfoldable pub server_accept : Event → Bool → Bool → ℤ → Server → Outcome Accepted
unfolding client_machine
server_accept ev calloc registered sd s =
    if leb s.monitor.config.max_conns s.monitor.metrics.current_conns
    then ok (refused sd)
    else elim sd [
      | negsuc n ↦ ok failed
      | pos n ↦
          if ltb selector_initial_elements n
          then ok (refused (pos n))
          else if calloc
          then accept_client ev registered n s
          else fault
    ]
