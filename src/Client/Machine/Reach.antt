-- ===== src/Client/Machine/Reach.antt =====
-- The sessions that arise from an accepted connection, by the calls of the selector and by what
-- other sessions and the monitor's clients do to the users and to the monitor in between.
use tp_protos.Base.{
  Option, none, some, Text, ok-injective, ℕ, ◌≤◌, ◌<◌, ◌≡◌, ◌≢◌, refl, sym, ap, ◌∙◌, subst, Bool,
  true, false, inl, inr, Bool-cases, ℤ, pos, negsuc, leb, ltb, arith, Outcome, ok, err, fault,
  ◌>>=◌, Errno, Returns, if◌then◌else◌,
}
use tp_protos.UserManager.{UserManager}
use tp_protos.UserManager.Exclusion.{Holds, Holds-locked}
use tp_protos.Monitor.{Monitor, add_connection}
use tp_protos.StateMachine.{init}
use tp_protos.Client.{
  Server, State, greeting, authorization, transaction, update, error, close_connection, op_read,
  op_write, new_client,
}
use tp_protos.Client.Authorization.{client_close}
use tp_protos.Client.Commands.Handlers.{View, view, IsLoggedIn, IsLocked}
use tp_protos.Client.Session.{Event}
use tp_protos.Client.Machine.{
  refused, failed, started, client_machine, client_states, client_read, client_write, server_accept,
  accept_client, registration, selector_initial_elements,
}
use tp_protos.Client.Machine.Arrival.{Open, IsSession, client_close-closed}
use tp_protos.Client.Machine.Invariant.{client_write-IsSession, client_read-IsSession}

-- What the selector calls for an open session, by its interest, and the result.
pub data Called (s : Server) : Outcome Server → Type 0 where
  reads :
      (ev : Event) → s.client.closed ≡ false → s.interest ≡ op_read → Called s (client_read ev s)
  writes :
      (ev : Event) → s.client.closed ≡ false → s.interest ≡ op_write → Called s (client_write ev s)

-- A call of the selector that returns, the close of the selector, or a change of what the sessions
-- share: by requests that do not release the lock of the user, once the session is authenticated.
pub data Step (s : Server) : Server → Type 0 where
  calls : {r : Outcome Server} (t : Server) → Called s r → r ≡ ok t → Step s t
  closes : Step s (client_close s)
  others :
      (users : UserManager) (monitor : Monitor)
      → ((name : Text)
          → s.client.authenticated ≡ true
          → s.client.user ≡ some name
          → Holds name s.users users)
      → Step s (record s { users = users; monitor = monitor })

pub data Reach : Server → Type 0 where
  accepted :
      (ev : Event) (calloc registered : Bool) (sd : ℤ) (s : Server) (n : ℕ) (t : Server)
      → server_accept ev calloc registered sd s ≡ ok (started t n)
      → Reach t
  next : {s t : Server} → Reach s → Step s t → Reach t

returned :
    {A : Type 0} (P : A → Type 0) (call : Outcome A) (a : A) → Returns P call → call ≡ ok a → P a
returned P call a h e = subst (Returns P) e h

init_client :
    (ev : Event) (s : Server)
    → init (client_machine ev) (record s { client = new_client })
      ≡ ok (record s { client = new_client })
unfolding init client_machine client_states new_client
init_client ev s = refl

-- The session that a connection starts.
abbrev first_session : Server → Server
first_session s = record s {
  client = new_client;
  interest = op_write;
  monitor = add_connection s.monitor;
}

registration_started :
    (registered : Bool) (n m : ℕ) (s t : Server)
    → registration registered n (record s { client = new_client }) ≡ started t m
    → t ≡ first_session s
registration_started true n m s t e = cc
registration_started false n m s t e = cc

refused_started : (sd : ℤ) (t : Server) (n : ℕ) → refused sd ≡ started t n → ⊥
refused_started sd t n e = cc

accept_client-started :
    (ev : Event) (registered : Bool) (n m : ℕ) (s t : Server)
    → accept_client ev registered n s ≡ ok (started t m)
    → t ≡ first_session s
accept_client-started ev registered n m s t e = registration_started registered n m s t (
    ok-injective
      (sym (ap (λ x. x >>= λ s'. ok (registration registered n s')) (init_client ev s)) ∙ e))

failed_started : (t : Server) (n : ℕ) → failed ≡ started t n → ⊥
failed_started t n e = cc

allocated_started :
    (ev : Event) (calloc registered : Bool) (n m : ℕ) (s t : Server)
    → (if calloc then accept_client ev registered n s else fault) ≡ ok (started t m)
    → t ≡ first_session s
allocated_started ev true registered n m s t e = accept_client-started ev registered n m s t e
allocated_started ev false registered n m s t e = cc

by_descriptor :
    (ev : Event) (calloc registered : Bool) (sd : ℤ) (s : Server) (n : ℕ) (t : Server)
    → leb s.monitor.config.max_conns s.monitor.metrics.current_conns ≡ false
    → server_accept ev calloc registered sd s ≡ ok (started t n)
    → t ≡ first_session s
unfolding server_accept
by_descriptor ev calloc registered (negsuc k) s n t h e =
    let no : server_accept ev calloc registered (negsuc k) s ≡ ok failed = rw h in
    absurd (failed_started t n (ok-injective (sym no ∙ e)))
by_descriptor ev calloc registered (pos k) s n t h e =
    elim (Bool-cases (ltb selector_initial_elements k)) [
      | inl g ↦
          let no : server_accept ev calloc registered (pos k) s ≡ ok (refused (pos k)) =
            rw (h, g) in
          absurd (refused_started (pos k) t n (ok-injective (sym no ∙ e)))
      | inr g ↦
          let go : server_accept ev calloc registered (pos k) s
              ≡ (if calloc then accept_client ev registered k s else fault) =
            rw (h, g) in
          allocated_started ev calloc registered k n s t (sym go ∙ e)
    ]

started_lem :
    (ev : Event) (calloc registered : Bool) (sd : ℤ) (s : Server) (n : ℕ) (t : Server)
    → server_accept ev calloc registered sd s ≡ ok (started t n)
    → (t ≡ first_session s) × (s.monitor.metrics.current_conns < s.monitor.config.max_conns)
unfolding server_accept
started_lem ev calloc registered sd s n t e =
    elim (Bool-cases (leb s.monitor.config.max_conns s.monitor.metrics.current_conns)) [
      | inl h ↦
          let full : server_accept ev calloc registered sd s ≡ ok (refused sd) = rw h in
          absurd (refused_started sd t n (ok-injective (sym full ∙ e)))
      | inr h ↦ (by_descriptor ev calloc registered sd s n t h e, ground arith)
    ]

true_or_false : (b : Bool) → b ≡ true → b ≡ false → ⊥
true_or_false b h k = cc

first-IsSession : (s : Server) → IsSession (first_session s)
unfolding new_client
first-IsSession s = inr (refl, (refl, refl))

-- Requests that do not release the lock of the user keep a session logged in.
kept-IsLoggedIn :
    (user : Option Text) (v : View) (users : UserManager)
    → v.user ≡ user
    → ((name : Text) → v.authenticated ≡ true → v.user ≡ some name → Holds name v.users users)
    → IsLoggedIn v
    → IsLoggedIn (record v { users = users })
kept-IsLoggedIn none v users e hold (a, l, m) = absurd (subst (λ x. IsLocked x v.users) e l)
kept-IsLoggedIn (some name) v users e hold (a, l, m) = (
  a,
  subst (λ x. IsLocked x users) (sym e)
      (Holds-locked name (subst (λ x. IsLocked x v.users) e l) (hold name a e)),
  m,
)

kept-Open :
    (o : Option State) (v : View) (users : UserManager)
    → ((name : Text) → v.authenticated ≡ true → v.user ≡ some name → Holds name v.users users)
    → Open o v
    → Open o (record v { users = users })
kept-Open none v users hold h = h
kept-Open (some greeting) v users hold h = h
kept-Open (some authorization) v users hold h = h
kept-Open (some transaction) v users hold h = kept-IsLoggedIn v.user v users refl hold h
kept-Open (some update) v users hold (h, w) = (kept-IsLoggedIn v.user v users refl hold h, w)
kept-Open (some error) v users hold h = h
kept-Open (some close_connection) v users hold h = h

others-IsSession :
    (s : Server) (users : UserManager) (monitor : Monitor)
    → ((name : Text)
        → s.client.authenticated ≡ true
        → s.client.user ≡ some name
        → Holds name s.users users)
    → IsSession s
    → IsSession (record s { users = users; monitor = monitor })
others-IsSession s users monitor hold (inl h) = inl h
others-IsSession s users monitor hold (inr (c, h)) =
    inr (c, kept-Open s.client.current (view s) users hold h)

of_Open :
    (s : Server)
    → IsSession s
    → s.client.closed ≡ false
    → (s.client.closed ≡ false) × Open s.client.current (view s)
of_Open s (inl h) c = absurd (true_or_false s.client.closed h c)
of_Open s (inr h) c = h

Called-IsSession :
    (s : Server) (r : Outcome Server) → IsSession s → Called s r → Returns IsSession r
Called-IsSession s r h (reads ev c i) = client_read-IsSession ev s c ((of_Open s h c).1) i
Called-IsSession s r h (writes ev c i) = client_write-IsSession ev s c ((of_Open s h c).1) i

Step-IsSession : (s t : Server) → IsSession s → Step s t → IsSession t
Step-IsSession s t h (calls {r = r} u c e) = returned IsSession r u (Called-IsSession s r h c) e
Step-IsSession s _ h closes = inl (client_close-closed s)
Step-IsSession s _ h (others users monitor hold) = others-IsSession s users monitor hold h

-- Every session that arises keeps the invariant: as long as it is open, nobody is authenticated in
-- GREETING and AUTHORIZATION, and in TRANSACTION and UPDATE it is authenticated, the maildrop of its
-- user is locked and its messages are loaded; and a state without a read handler waits to write. The
-- requests of others in between neither log its user out nor rename a user from or to that name.
pub reachable-IsSession : (s : Server) → Reach s → IsSession s
reachable-IsSession s (accepted ev calloc registered sd s₀ n t e) =
    subst IsSession (sym ((started_lem ev calloc registered sd s₀ n t e).0)) (first-IsSession s₀)
reachable-IsSession s (next r h) = Step-IsSession _ s (reachable-IsSession _ r) h

no_error :
    {A : Type 0} (P : A → Type 0) (call : Outcome A) (e : Errno) → Returns P call → call ≢ err e
no_error P call e h q = subst (Returns P) q h

-- No call of the selector for a session ends in an `abort()` of the state machine: an open session is
-- in a state that has a handler for what it waits for. Failed asserts and undefined behaviour, such as
-- that of the parser, are not excluded.
pub reachable_finds_handler :
    (s : Server) (r : Outcome Server) (e : Errno) → Reach s → Called s r → r ≢ err e
reachable_finds_handler s r e h c =
    no_error IsSession r e (Called-IsSession s r (reachable-IsSession s h) c)

-- A connection is accepted only below the maximum of connections, and counting it does not pass
-- the maximum.
pub accepted_below_max :
    (ev : Event) (calloc registered : Bool) (sd : ℤ) (s : Server) (n : ℕ) (t : Server)
    → server_accept ev calloc registered sd s ≡ ok (started t n)
    → (s.monitor.metrics.current_conns < s.monitor.config.max_conns)
      × (t.monitor.metrics.current_conns ≤ s.monitor.config.max_conns)
      × (t.users ≡ s.users)
unfolding add_connection
accepted_below_max ev calloc registered sd s n t e =
    let (q, below) = started_lem ev calloc registered sd s n t e in
    (below, rw q (omega (arith, below)), ap Server.users q)
