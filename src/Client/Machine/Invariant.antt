-- ===== src/Client/Machine/Invariant.antt =====
-- The events of a session keep its invariant, and find a handler in every state that they meet.
use tp_protos.Base.{
  ◌≡◌, refl, sym, ap, ◌∙◌, subst, false, Option, none, some, ok, ◌>>=◌, Returns, Returns->>=,
}
use tp_protos.StateMachine.{StateMachine, run_current, handle_first, handle, arrive}
use tp_protos.Client.{Server, State, greeting, op_read, op_write}
use tp_protos.Client.Commands.Handlers.{View, view}
use tp_protos.Client.Session.{Event}
use tp_protos.Client.Machine.{state_index, client_machine, client_read, client_write}
use tp_protos.Client.Machine.Arrival.{Open, IsSession, greeting_arrival-view}
use tp_protos.Client.Machine.Turns.{Turned, ended-IsSession, read_or_write, run_write, run_read}

module _ (ev : Event) where
  abbrev machine : StateMachine Server
  machine = client_machine ev

  first_at :
      (here : State) (s : Server) → s.client.current ≡ some here → handle_first machine s ≡ ok s
  unfolding handle_first client_machine
  first_at here s e = rw e

  first_none :
      (s : Server)
      → s.client.current ≡ none
      → handle_first machine s ≡ arrive machine (state_index greeting) s
  unfolding handle_first client_machine
  first_none s e = rw e

  -- The first event of a session arrives in GREETING, and then writes.
  first_write :
      (s : Server)
      → s.client.current ≡ none
      → s.client.closed ≡ false
      → Open none (view s)
      → Returns Turned (handle_first machine s >>= run_current (λ d. d.on_write_ready) machine)
  first_write s e c o =
      subst (λ x. Returns Turned (x >>= run_current (λ d. d.on_write_ready) machine))
        (sym (first_none s e))
        (Returns->>= _ _ (arrive machine (state_index greeting) s) _ (greeting_arrival-view ev s)
          (λ k q.
            run_write ev greeting k (ap View.current q) (ap View.closed q ∙ c)
              (ap View.authenticated q ∙ o.0, ap View.interest q ∙ o.1) (ap View.interest q ∙ o.1)))

  handle_write :
      (o : Option State) (s : Server)
      → s.client.current ≡ o
      → s.client.closed ≡ false
      → Open o (view s)
      → s.interest ≡ op_write
      → Returns Turned (handle (λ d. d.on_write_ready) machine s)
  handle_write none s e c o w = first_write s e c o
  handle_write (some here) s e c o w =
      subst (λ x. Returns Turned (x >>= run_current (λ d. d.on_write_ready) machine))
        (sym (first_at here s e)) (run_write ev here s e c o w)

  handle_read :
      (o : Option State) (s : Server)
      → s.client.current ≡ o
      → s.client.closed ≡ false
      → Open o (view s)
      → s.interest ≡ op_read
      → Returns Turned (handle (λ d. d.on_read_ready) machine s)
  handle_read none s e c o w = absurd (read_or_write (view s) w o.1)
  handle_read (some here) s e c o w =
      subst (λ x. Returns Turned (x >>= run_current (λ d. d.on_read_ready) machine))
        (sym (first_at here s e)) (run_read ev here s e c o w)

  pub client_write-IsSession :
      (s : Server)
      → s.client.closed ≡ false
      → Open s.client.current (view s)
      → s.interest ≡ op_write
      → Returns IsSession (client_write ev s)
  unfolding client_write
  client_write-IsSession s c o w =
      Returns->>= Turned _ (handle (λ d. d.on_write_ready) machine s) _
        (handle_write s.client.current s refl c o w) (λ r h. ended-IsSession r h)

  pub client_read-IsSession :
      (s : Server)
      → s.client.closed ≡ false
      → Open s.client.current (view s)
      → s.interest ≡ op_read
      → Returns IsSession (client_read ev s)
  unfolding client_read
  client_read-IsSession s c o w =
      Returns->>= Turned _ (handle (λ d. d.on_read_ready) machine s) _
        (handle_read s.client.current s refl c o w) (λ r h. ended-IsSession r h)
