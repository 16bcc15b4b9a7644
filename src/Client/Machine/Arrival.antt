-- ===== src/Client/Machine/Arrival.antt =====
-- Where a handler of a session leads: the jump of the state machine to the state that it returns.
use tp_protos.Base.{
  ◌≡◌, refl, sym, ap, ◌∙◌, subst, true, false, ◌==◌, ◌⊎◌, inl, inr, Bool-cases, ==_iff, Option,
  none, some, ltb, ok, Returns, Any, Returns->>=, Returns-mono,
}
use tp_protos.MessageManager.{delete_marked_messages}
use tp_protos.MessageManager.Update.{delete_marked_messages-Returns}
use tp_protos.StateMachine.{depart, jump, is_at, arrive}
use tp_protos.Client.{
  Server, State, greeting, authorization, transaction, update, error, close_connection, op_write,
  with_client,
}
use tp_protos.Client.Responses
use tp_protos.Client.Output.{write_response, greeting_on_arrival}
use tp_protos.Client.Authorization.{answer, log_out, close_connection_of, client_close}
use tp_protos.Client.Transaction.{update_response, update_on_arrival}
use tp_protos.Client.Commands.Handlers.{View, view, IsLoggedIn, answer-view, write_response-view}
use tp_protos.Client.Session.{Event}
use tp_protos.Client.Session.Flow.{Ends}
use tp_protos.Client.Machine.{
  state_index, state_at, close_connection_on_arrival, client_states, client_machine, index_of,
}

-- An open session, by its state.
abbrev pub Open : Option State → View → Type 0
Open none v = (v.authenticated ≡ false) × (v.interest ≡ op_write)
Open (some greeting) v = (v.authenticated ≡ false) × (v.interest ≡ op_write)
Open (some authorization) v = v.authenticated ≡ false
Open (some transaction) v = IsLoggedIn v
Open (some update) v = IsLoggedIn v × (v.interest ≡ op_write)
Open (some error) v = ⊥
Open (some close_connection) v = ⊥

-- The invariant of a session: before TRANSACTION nobody is authenticated; in TRANSACTION and UPDATE
-- the maildrop of the user is locked and open; a state without a read handler waits to write;
-- and a session that is in no state any more is closed.
abbrev pub IsSession : Server → Type 0
IsSession s =
    (s.client.closed ≡ true) ⊎ ((s.client.closed ≡ false) × Open s.client.current (view s))

-- The states that have handlers.
abbrev pub Live : State → Type 0
Live greeting = Unit
Live authorization = Unit
Live transaction = Unit
Live update = Unit
Live error = ⊥
Live close_connection = ⊥

-- What a jump to a state leaves: in ERROR the session is still to be closed.
abbrev pub Settled : State → Server → Type 0
Settled error s = Unit
Settled _ s = IsSession s

Open-current :
    (st : State) (v : View) → Open (some st) v → Open (some st) (record v { current = some st })
Open-current greeting v o = o
Open-current authorization v o = o
Open-current transaction v o = o
Open-current update v o = o
Open-current error v o = o
Open-current close_connection v o = o

state_at-state_index : (st : State) → state_at (state_index st) ≡ st
state_at-state_index greeting = refl
state_at-state_index authorization = refl
state_at-state_index transaction = refl
state_at-state_index update = refl
state_at-state_index error = refl
state_at-state_index close_connection = refl

same_state : (a b : State) → (state_index a == state_index b) ≡ true → a ≡ b
same_state a b h =
    sym (state_at-state_index a)
    ∙ ap state_at ((==_iff (state_index a) (state_index b)).0 h)
    ∙ state_at-state_index b

within_max : (st : State) → ltb (state_index close_connection) (state_index st) ≡ false
within_max greeting = refl
within_max authorization = refl
within_max transaction = refl
within_max update = refl
within_max error = refl
within_max close_connection = refl

log_out-closed : (s : Server) → (log_out s).client.closed ≡ s.client.closed
unfolding log_out
log_out-closed s = elim (Bool-cases s.client.authenticated) [ inl e ↦ rw e | inr e ↦ rw e ]

pub close_connection_of-closed : (s : Server) → (close_connection_of s).client.closed ≡ true
unfolding close_connection_of
close_connection_of-closed s = elim (Bool-cases s.client.closed) [
  | inl e ↦ let same : close_connection_of s ≡ s = rw e in ap (λ x. x.client.closed) same ∙ e
  | inr e ↦ rw e (log_out-closed (with_client (record s.client { closed = true }) s))
]

pub client_close-closed : (s : Server) → (client_close s).client.closed ≡ true
unfolding client_close
client_close-closed s = close_connection_of-closed (log_out s)

-- The session whose `current` is set, before it arrives.
abbrev pub entering : State → Server → Server
entering st s = with_client (record s.client { current = some st }) s

module _ (ev : Event) where
  depart_here :
      (here : State) (s : Server)
      → s.client.current ≡ some here
      → depart (client_machine ev) s ≡ ok s
  unfolding depart client_machine client_states
  depart_here greeting s e = rw e
  depart_here authorization s e = rw e
  depart_here transaction s e = rw e
  depart_here update s e = rw e
  depart_here error s e = rw e
  depart_here close_connection s e = rw e

  jump_stays :
      (here st : State) (s : Server)
      → s.client.current ≡ some here
      → (state_index here == state_index st) ≡ true
      → jump (client_machine ev) (state_index st) s ≡ ok s
  unfolding jump client_machine
  jump_stays here st s e same = rw (within_max st, e, same)

  jump_moves :
      (here st : State) (s : Server)
      → s.client.current ≡ some here
      → (state_index here == state_index st) ≡ false
      → jump (client_machine ev) (state_index st) s ≡ arrive (client_machine ev) (state_index st) s
  unfolding jump client_machine
  jump_moves here st s e other =
      let d = depart_here here s e in
      let go : is_at (index_of s.client.current) (state_index st) ≡ false =
        ap (λ x. is_at (index_of x) (state_index st)) e ∙ other in
      rw (within_max st, go, d)

  entered :
      (st : State) (s : Server) (v : View)
      → v ≡ view (entering st s)
      → s.client.closed ≡ false
      → Open (some st) (view s)
      → (v.closed ≡ false) × Open v.current v
  entered st s v e c o =
      subst (λ x. (x.closed ≡ false) × Open x.current x) (sym e) (c, Open-current st (view s) o)

  pub greeting_arrival-view :
      (s : Server)
      → Returns
          (λ k. view k ≡ view (entering greeting s))
          (arrive (client_machine ev) (state_index greeting) s)
  unfolding client_machine client_states greeting_on_arrival
  greeting_arrival-view s =
      let t = entering greeting s in
      let w = record t.client { response_index = 0; response = some Responses.greeting } in
      Returns->>= _ _ (write_response w) _ (write_response-view w t) (λ k e. e)

  greeting_arrival :
      (s : Server)
      → s.client.closed ≡ false
      → Open (some greeting) (view s)
      → Returns (Settled greeting) (arrive (client_machine ev) (state_index greeting) s)
  greeting_arrival s c o =
      Returns-mono _ _ (arrive (client_machine ev) (state_index greeting) s)
        (greeting_arrival-view s) (λ k e. inr (entered greeting s (view k) e c o))

  update_arrival :
      (s : Server)
      → s.client.closed ≡ false
      → Open (some update) (view s)
      → Returns (Settled update) (arrive (client_machine ev) (state_index update) s)
  unfolding client_machine client_states update_on_arrival
  update_arrival s c o =
      let t = entering update s in
      let q = with_client (record t.client { response_is_allocated = false }) t in
      Returns->>= (λ r. IsSession r.0) _ (update_on_arrival ev.env.maildrop t) _
        (Returns->>= Any _ (delete_marked_messages ev.env.maildrop t.client.message_manager) _
          (delete_marked_messages-Returns ev.env.maildrop t.client.message_manager)
          (λ r _.
            Returns->>= _ _ (answer (update_response r.1) update q) _
              (answer-view (update_response r.1) update q)
              (λ a h. inr (entered update s (view a.0) h.0 c o))))
        (λ r h. h)

  -- Nothing is done on arrival.
  plain_arrival :
      (st : State) (s : Server)
      → s.client.closed ≡ false
      → Open (some st) (view s)
      → IsSession (entering st s)
  plain_arrival st s c o = inr (entered st s (view (entering st s)) refl c o)

  arrive-Settled :
      (here st : State) (s : Server)
      → Ends here (s, st)
      → Returns (Settled st) (arrive (client_machine ev) (state_index st) s)
  unfolding client_machine client_states close_connection_on_arrival
  arrive-Settled here greeting s (e, c, f, w) = greeting_arrival s c (f, w)
  arrive-Settled here authorization s (e, c, f, w) = plain_arrival authorization s c f
  arrive-Settled here transaction s (e, c, f, w) = plain_arrival transaction s c f
  arrive-Settled here update s (e, c, f, w) = update_arrival s c (f, w)
  arrive-Settled here error s h = tt
  arrive-Settled here close_connection s h = inl (client_close-closed (entering close_connection s))

  settled : (st : State) (s : Server) → Live st → Ends st (s, st) → Settled st s
  settled greeting s l (e, c, f, w) = inr (c, subst (λ x. Open x (view s)) (sym e) (f, w))
  settled authorization s l (e, c, f, w) = inr (c, subst (λ x. Open x (view s)) (sym e) f)
  settled transaction s l (e, c, f, w) = inr (c, subst (λ x. Open x (view s)) (sym e) f)
  settled update s l (e, c, f, w) = inr (c, subst (λ x. Open x (view s)) (sym e) (f, w))
  settled error s l h = absurd l
  settled close_connection s l h = absurd l

  pub jump-Settled :
      (here : State) (r : Server × State)
      → Live here
      → Ends here r
      → Returns (Settled r.1) (jump (client_machine ev) (state_index r.1) r.0)
  jump-Settled here r l h = elim (Bool-cases (state_index here == state_index r.1)) [
    | inl same ↦
        let q : here ≡ r.1 = same_state here r.1 same in
        subst (λ x. Returns (Settled r.1) x) (sym (jump_stays here r.1 r.0 h.0 same))
          (settled r.1 r.0 (subst Live q l) (subst (λ x. Ends x r) q h))
    | inr other ↦
        subst (λ x. Returns (Settled r.1) x) (sym (jump_moves here r.1 r.0 h.0 other))
          (arrive-Settled here r.1 r.0 h)
  ]
