-- ===== src/Client/Machine/Turns.antt =====
-- One call of a handler of the state machine of a session, and the jump behind it.
use tp_protos.Base.{
  ℕ, ◌≡◌, refl, sym, ap, ◌∙◌, subst, Bool, true, false, inl, Option, some, ℤ, Outcome, ok, err,
  fault, ◌>>=◌, Returns, Any, Returns->>=, Returns-if,
}
use tp_protos.StateMachine.{StateMachine, StateDefinition, jump, call, definition, run_current}
use tp_protos.Client.{
  Server, State, greeting, authorization, transaction, update, error, close_connection, op_read,
  op_write, with_client,
}
use tp_protos.Client.Output.{
  write_response, more_to_send, after_send, greeting_sent, greeting_write, update_sent,
  update_write,
}
use tp_protos.Client.Commands.Handlers.{View, view, Fits, write_response-view}
use tp_protos.Client.Commands.Tables.{authorization_commands-Holds, transaction_commands-Holds}
use tp_protos.Client.Session.{Event, common_read, common_write}
use tp_protos.Client.Commands.{authorization_commands, transaction_commands}
use tp_protos.Client.Session.Flow.{Waits, Ends, IsIn, common_read-Ends}
use tp_protos.Client.Session.Writing.{after_send-view, more_to_send-Returns, common_write-Ends}
use tp_protos.Client.Machine.{state_index, client_states, client_machine, numbered, ended}
use tp_protos.Client.Machine.Arrival.{
  Open, IsSession, Live, Settled, jump-Settled, close_connection_of-closed,
}

-- An open session that waits to write.
abbrev Writes : State → Server → Type 0
Writes here s = IsIn here (view s) × (s.interest ≡ op_write)

again :
    (here : State) (s t : Server)
    → Writes here s
    → Waits here (view s)
    → view t ≡ view s
    → Ends here (t, here)
again here s t ((c, d, f), w) wait e = (
  ap View.current e ∙ c,
  ap View.closed e ∙ d,
  subst (Fits here) (sym e) f,
  subst (Waits here) (sym e) wait,
)

greeting_sent-Ends :
    (registered sent : Bool) (s : Server)
    → Writes greeting s
    → Returns (Ends greeting) (greeting_sent registered s sent)
unfolding greeting_sent
greeting_sent-Ends registered false s ((c, d, f), w) = (c, d, tt, tt)
greeting_sent-Ends registered true s g =
    Returns->>= Any _ (more_to_send s.client) _ (more_to_send-Returns s.client) (λ more _.
      Returns-if _ more _ _
        (Returns->>= _ _ (write_response s.client) _ (write_response-view s.client s)
          (λ c e. again greeting s (with_client c s) g (g.1) e))
        (Returns-if _ registered _ _ (g.0.0, g.0.1, g.0.2, tt) (g.0.0, g.0.1, tt, tt)))

update_sent-Ends :
    (sent : Bool) (s : Server) → Writes update s → Returns (Ends update) (update_sent s sent)
unfolding update_sent
update_sent-Ends false s ((c, d, f), w) = (c, d, tt, tt)
update_sent-Ends true s g =
    Returns->>= Any _ (more_to_send s.client) _ (more_to_send-Returns s.client) (λ more _.
      Returns-if _ more _ _
        (Returns->>= _ _ (write_response s.client) _ (write_response-view s.client s)
          (λ c e. again update s (with_client c s) g (g.1) e))
        (g.0.0, g.0.1, tt, tt))

same_Writes : (here : State) (s t : Server) → view t ≡ view s → Writes here s → Writes here t
same_Writes here s t e (g, w) = (subst (IsIn here) (sym e) g, ap View.interest e ∙ w)

greeting_write-Ends :
    (n : ℤ) (registered : Bool) (s : Server)
    → Writes greeting s
    → Returns (Ends greeting) (greeting_write n registered s)
unfolding greeting_write
greeting_write-Ends n registered s g =
    Returns->>= _ _ (after_send n s) _ (after_send-view n s)
      (λ r e. greeting_sent-Ends registered r.1 r.0 (same_Writes greeting s r.0 e g))

update_write-Ends :
    (n : ℤ) (s : Server) → Writes update s → Returns (Ends update) (update_write n s)
unfolding update_write
update_write-Ends n s g =
    Returns->>= _ _ (after_send n s) _ (after_send-view n s)
      (λ r e. update_sent-Ends r.1 r.0 (same_Writes update s r.0 e g))

pub read_or_write : (v : View) → v.interest ≡ op_read → v.interest ≡ op_write → ⊥
read_or_write v r w = cc

-- What an event leaves, with the number of a state.
abbrev pub Turned : Server × ℕ → Type 0
Turned r = (st : State) × (r.1 ≡ state_index st) × Settled st r.0

ended_at : (st : State) (s : Server) → Settled st s → IsSession (ended (s, state_index st))
ended_at greeting s h = h
ended_at authorization s h = h
ended_at transaction s h = h
ended_at update s h = h
ended_at error s h = inl (close_connection_of-closed s)
ended_at close_connection s h = h

pub ended-IsSession : (r : Server × ℕ) → Turned r → IsSession (ended r)
ended-IsSession r (st, e, h) = subst (λ i. IsSession (ended (r.0, i))) (sym e) (ended_at st r.0 h)

module _ (ev : Event) where
  abbrev machine : StateMachine Server
  machine = client_machine ev

  turned :
      (here : State) (o : Outcome (Server × State))
      → Live here
      → Returns (Ends here) o
      → Returns Turned (numbered o >>= λ r. jump machine r.1 r.0 >>= λ k. ok (k, r.1))
  turned here (ok p) l g =
      Returns->>= _ _ (jump machine (state_index p.1) p.0) _ (jump-Settled ev here p l g)
        (λ k h. (p.1, refl, h))
  turned here (err e) l g = absurd g
  turned here fault l g = tt

  run_current_at :
      (which : StateDefinition Server → Option (Server → Outcome (Server × ℕ))) (here : State)
      (s : Server)
      → s.client.current ≡ some here
      → run_current which machine s
        ≡ (definition machine (state_index here) >>= λ d. call machine (which d) s)
  unfolding run_current client_machine
  run_current_at which here s e = rw e

  pub run_write :
      (here : State) (s : Server)
      → s.client.current ≡ some here
      → s.client.closed ≡ false
      → Open (some here) (view s)
      → s.interest ≡ op_write
      → Returns Turned (run_current (λ d. d.on_write_ready) machine s)
  unfolding client_machine client_states
  run_write here s e c o w =
      subst (Returns Turned) (sym (run_current_at (λ d. d.on_write_ready) here s e))
        (by_state here e o)
    where
      by_state :
          (here : State)
          → s.client.current ≡ some here
          → Open (some here) (view s)
          → Returns Turned
              (definition machine (state_index here) >>= λ d. call machine d.on_write_ready s)
      by_state greeting e o =
          turned greeting (greeting_write ev.sent ev.registered s) tt
            (greeting_write-Ends ev.sent ev.registered s ((e, c, o.0), w))
      by_state authorization e o =
          turned authorization (common_write authorization_commands ev s) tt (
            common_write-Ends authorization authorization_commands tt authorization_commands-Holds
              ev s w (e, c, o))
      by_state transaction e o = turned transaction (common_write transaction_commands ev s) tt (
          common_write-Ends transaction transaction_commands tt transaction_commands-Holds ev s w
            (e, c, o))
      by_state update e o =
          turned update (update_write ev.sent s) tt (update_write-Ends ev.sent s ((e, c, o.0), w))
      by_state error e o = absurd o
      by_state close_connection e o = absurd o

  pub run_read :
      (here : State) (s : Server)
      → s.client.current ≡ some here
      → s.client.closed ≡ false
      → Open (some here) (view s)
      → s.interest ≡ op_read
      → Returns Turned (run_current (λ d. d.on_read_ready) machine s)
  unfolding client_machine client_states
  run_read here s e c o w =
      subst (Returns Turned) (sym (run_current_at (λ d. d.on_read_ready) here s e))
        (by_state here e o)
    where
      by_state :
          (here : State)
          → s.client.current ≡ some here
          → Open (some here) (view s)
          → Returns Turned
              (definition machine (state_index here) >>= λ d. call machine d.on_read_ready s)
      by_state greeting e o = absurd (read_or_write (view s) w o.1)
      by_state authorization e o =
          turned authorization (common_read authorization_commands ev s) tt (
            common_read-Ends authorization authorization_commands tt authorization_commands-Holds ev
              s (e, c, o))
      by_state transaction e o = turned transaction (common_read transaction_commands ev s) tt (
          common_read-Ends transaction transaction_commands tt transaction_commands-Holds ev s
            (e, c, o))
      by_state update e o = absurd (read_or_write (view s) w o.1)
      by_state error e o = absurd o
      by_state close_connection e o = absurd o
