-- ===== src/Lib.antt =====
-- A verification library for the POP3 server: the server's own data structures and protocol logic
-- as executable functions, with the theorems that make them correct.
--
-- The program. server/src/server.c opens the sockets and runs the selector of
-- server/src/selector.c. server/src/pop3.c accepts a client and keeps its struct client: two byte
-- buffers (server/src/buffer.c), a command parser (server/src/parser.c, configured by
-- server/src/pop3-parser.c), and a state machine (server/src/state-machine.c) whose states are in
-- server/src/states/. Their handlers log in and out of the user list (server/src/user-manager.c),
-- and read and delete the messages of a maildrop (server/src/message-manager.c). A second protocol,
-- over TCP too (server/src/monitor-server.c, monitor-parser.c and monitor-commands.c) administers
-- the users and reads the counters of server/src/monitor.c; monitor/ is its command-line client.
--
-- The files.
--   Base            what the others share: Boolean tests over the native naturals, lists as C
--                   arrays, int, the results of C calls, characters and C strings.
--   Buffer          server/src/buffer.c. A pointer into the data is its offset, a failed assert is
--                   none. Bounds and Refine hold the invariant and the view of a buffer as a queue.
--   MessageManager  server/src/message-manager.c, one function per message_manager_* function.
--                   Totals is about marking and the totals, Create about loading a maildrop,
--                   Update about RSET, the final removal and the listing.
--   UserManager     server/src/user-manager.c, one function per user_manager_* function; its child
--                   Storage is the users file. Accounts has the invariant, Names what is listed,
--                   Locks and Exclusion the lock of a maildrop, Storage/RoundTrip saving and
--                   loading.
--   Parser          server/src/parser.c and server/include/parser.h: parser_init, parser_consume and
--                   parser_reset over the tables of a configuration.
--   Pop3Parser      server/src/pop3-parser.c: the actions, the table and the reset of an event.
--                   Memory, Commands, Arguments, Errors and Reset are about whole lines of input.
--   Monitor         server/src/monitor.c: the counters, the limits and the log. Counters is about the
--                   counts over a run, Logs about the array that monitor_get_logs grows.
--   StateMachine    server/src/state-machine.c: the engine over a table of states and handlers.
--   Client          server/src/pop3.c with server/include/pop3.h: struct client, and Server, which is
--                   one client with the users, the monitor and the interest in the selector.
--   Client/Responses      server/include/responses.h.
--   Client/Output         states_common_response_write, greeting.c, and update_write of update.c, all
--                         in server/src/states/. Write, Delivery and Rounds are about how a response
--                         leaves.
--   Client/Authorization  server/src/states/authorization.c, and close_connection and
--                         pop3_client_close of pop3.c. Locking is about the lock of a session,
--                         Refusing about the answer to a login that is refused.
--   Client/Numbers        number_of_digits of transaction.c, with the %d of sprintf and atoi.
--   Client/Listing        STAT and LIST of server/src/states/transaction.c; Texts is about the memory
--                         of their responses.
--   Client/Transaction    the other commands of transaction.c, and update_on_arrival of update.c.
--                         Deletion is about DELE and what UPDATE removes.
--   Client/Commands       commands.c, the two tables of commands, and from states-common.c the search
--                         for a command in the input. Input is about that loop; Handlers, Maildrop,
--                         Tables and Search are about what each handler leaves of a session.
--   Client/Session        states_common_read and states_common_write of states-common.c. Flow and
--                         Writing are about the states that they lead to; Streaming, Retrieval,
--                         Finishing and Delivered about a message on its way out.
--   Client/Machine        the table of states of pop3.c with what the selector calls, and
--                         pop3_server_accept. Arrival, Turns and Invariant are about one event, Reach
--                         about all sessions that arise.
--   MonitorServer   server/src/monitor-server.c with its header: a client of the monitor, and Service,
--                   which is one such client with the users, the monitor and its interest.
--   MonitorServer/Commands    monitor-commands.c: the handlers and their table. Texts is about the
--                             memory of the responses, Limits about the values that are set, Users
--                             about LISTUSERS and ADDUSER.
--   MonitorServer/Request     monitor-parser.c: the words of a request, and the command that it runs.
--                             Words is about the splitting, Access about who runs what.
--   MonitorServer/Connection  what the selector calls: accept, read, write and close. Collecting is
--                             about the loop that collects a request.
--   Selector        server/src/selector.c: the table of descriptors, over a type of handlers. Capacity is
--                   about how it grows, Table about what it holds, Registering, Interests and
--                   Unregistering about the calls that change it. Iteration is handle_iteration
--                   and handle_block_notifications, Rounds about one round.
--
-- Conventions. A C function that returns -1 or NULL and sets errno is a function into Outcome:
-- ok a, err e, or fault for what C leaves undefined. Where a function changes the state and may
-- fail, it returns both. In Buffer and the parsers an access outside an array is none. A C string
-- is the list of its bytes without the terminator. An int is a natural or a negative number that is
-- checked against 2 ^ 31 where the code adds; unsigned counters and uint8_t fields wrap.
--
-- Parameters. The calls of the file system, malloc and popen are fields of the records System and
-- Environment: whether the n-th malloc of a call succeeds, the entries of a directory, and so on.
-- What send, recv and selector_set_interest_key return is a field of the record Event. strftime of
-- localtime is a function from times to texts.
--
-- Fuel. The loops run over an array, a directory, a line or the bytes of a file, and are structural
-- recursion over it. The two loops over the digits of a number have the number itself as fuel,
-- which is enough since each division by ten makes it smaller (Client/Numbers). The search for a
-- command has the bytes of the input buffer as fuel, the copy of a message the free bytes of the
-- output buffer, and the loop that collects a request of the monitor the bytes of its input buffer;
-- the loop over the bits of a capacity has the number itself.
--
-- Aborts. A call of abort() in the state machine is an error of its own, so that a theorem can
-- exclude it where undefined behaviour of the parsers is not excluded.
--
-- Not modelled. Sockets, signals, select(2) and the wake-up of blocked threads; the logger; the
-- calls around a round of the selector, of which a session keeps its own interest; the client
-- program of the monitor. Releasing memory is not modelled, but what a use after free or a missing
-- terminator would read is fault. The zeros that strtok_r leaves in a request are not kept, as
-- nothing reads the request again.
pub mod Base
pub mod Buffer
pub mod MessageManager
pub mod UserManager
pub mod Parser
pub mod Pop3Parser
pub mod Monitor
pub mod StateMachine
pub mod Client
pub mod MonitorServer
pub mod Selector
