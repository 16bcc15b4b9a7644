-- ===== src/Client/Session/Flow.antt =====
-- `states_common_read` and `states_common_write` as steps of a session.
use tp_protos.Base.{
  ℕ, ◌≡◌, refl, sym, ap, ◌∙◌, subst, false, Option, none, some, List, [], ◌∷◌, pos, ok, Returns,
  Returns->>=, Returns-if, Returns-option, length, take,
}
use tp_protos.Buffer.{write_adv, write_ptr}
use tp_protos.Pop3Parser.{reset_event}
use tp_protos.Client.{
  Server, State, greeting, authorization, transaction, update, error, close_connection, Interest,
  op_write, with_client, defined_value,
}
use tp_protos.Client.Commands.{Command, find_command}
use tp_protos.Client.Commands.Handlers.{View, view, Fits, Leads, defined_value-Returns}
use tp_protos.Client.Commands.Tables.{HasCommands, Holds, All}
use tp_protos.Client.Commands.Search.{Found, find_command-Holds}
use tp_protos.Client.Session.{
  Event, reset_parser, run_command, copy_in, command_read, bytes_received, common_read,
}

-- A state that only writes waits for the socket to be writable.
abbrev pub Waits : State → View → Type 0
Waits greeting v = v.interest ≡ op_write
Waits update v = v.interest ≡ op_write
Waits _ v = Unit

-- The session that a handler of the state `here` leaves, for the state that it returns.
abbrev pub Ends : State → Server × State → Type 0
Ends here r =
    ((view r.0).current ≡ some here)
    × ((view r.0).closed ≡ false)
    × Fits r.1 (view r.0)
    × Waits r.1 (view r.0)

-- An open session in the state `here`.
abbrev pub IsIn : State → View → Type 0
IsIn here v = (v.current ≡ some here) × (v.closed ≡ false) × Fits here v

Waits-op_write : (st : State) (v : View) → v.interest ≡ op_write → Waits st v
Waits-op_write greeting v h = h
Waits-op_write authorization v h = tt
Waits-op_write transaction v h = tt
Waits-op_write update v h = h
Waits-op_write error v h = tt
Waits-op_write close_connection v h = tt

Waits-here : (here : State) (v : View) → HasCommands here → Waits here v
Waits-here greeting v h = absurd h
Waits-here authorization v h = tt
Waits-here transaction v h = tt
Waits-here update v h = absurd h
Waits-here error v h = absurd h
Waits-here close_connection v h = absurd h

Fits-interest :
    (st : State) (v : View) (i : Interest) → Fits st v → Fits st (record v { interest = i })
Fits-interest greeting v i h = h
Fits-interest authorization v i h = h
Fits-interest transaction v i h = h
Fits-interest update v i h = h
Fits-interest error v i h = tt
Fits-interest close_connection v i h = tt

pub reset_parser-view : (s : Server) → Returns (λ t. view t ≡ view s) (reset_parser s)
unfolding reset_parser
reset_parser-view s =
    Returns->>= _ _ (defined_value (reset_event s.client.parser.event)) _
      (defined_value-Returns (reset_event s.client.parser.event)) (λ e _. refl)

-- Staying where commands are read, with any interest.
pub staying :
    (here : State) (s t : Server) (i : Interest)
    → HasCommands here
    → IsIn here (view s)
    → view t ≡ view s
    → Ends here (record t { interest = i }, here)
staying here s t i k (c, d, f) e =
    let fits : Fits here (view t) = subst (Fits here) (sym e) f in
    (
      ap View.current e ∙ c,
      ap View.closed e ∙ d,
      Fits-interest here (view t) i fits,
      Waits-here here (view (record t { interest = i })) k,
    )

pub failing :
    (here : State) (s t : Server) → IsIn here (view s) → view t ≡ view s → Ends here (t, error)
failing here s t (c, d, f) e = (ap View.current e ∙ c, ap View.closed e ∙ d, tt, tt)

-- What a step keeps if the view is the same.
pub moved : (here : State) (v w : View) → v ≡ w → IsIn here w → IsIn here v
moved here v w e h = subst (IsIn here) (sym e) h

module _ (here : State) (commands : List Command) (k : HasCommands here)
    (h : All (Holds here) commands) (ev : Event) where
  -- A command that was found, run at a session with the interest set before or after.
  pub ran :
      (s : Server) (r : Server × State) (t : Server)
      → IsIn here (view s)
      → Leads here (view s) r
      → view t ≡ record (view r.0) { interest = op_write }
      → Ends here (t, r.1)
  ran s r t (c, d, f) (c', d', i, f', g) e = (
    ap View.current e ∙ c' ∙ c,
    ap View.closed e ∙ d' ∙ d,
    subst (Fits r.1) (sym e) (Fits-interest r.1 (view r.0) op_write f'),
    Waits-op_write r.1 (view t) (ap View.interest e),
  )

  command_read-Ends :
      (command : Command) (s : Server)
      → IsIn here (view s)
      → Holds here command
      → Returns (Ends here) (command_read ev command s)
  unfolding command_read
  command_read-Ends command s g hold =
      Returns->>= _ _ (run_command ev.env command s) _ (hold ev.env s.client.parser.event s g.0 g.2)
        (λ r l.
          Returns-if _ ev.registered _ _
            (Returns->>= _ _ (reset_parser (record r.0 { interest = op_write })) _
              (reset_parser-view (record r.0 { interest = op_write })) (λ t e. ran s r t g l e))
            (l.0 ∙ g.0, l.1 ∙ g.1, tt, tt))

  Found-Ends :
      (o : Option Command) (s : Server)
      → IsIn here (view s)
      → Found (Holds here) o
      → Returns (Ends here) (elim o [ none ↦ ok (s, here) | some c ↦ command_read ev c s ])
  Found-Ends none s g f = staying here s s s.interest k g refl
  Found-Ends (some c) s g f = command_read-Ends c s g f

  bytes_received-Ends :
      (bytes : List ℕ) (s : Server)
      → IsIn here (view s)
      → Returns (Ends here) (bytes_received ev commands bytes here s)
  unfolding bytes_received
  bytes_received-Ends bytes s g =
      let b = s.client.buffer_in in
      let filled = record b { storage = copy_in b.storage b.write_at bytes } in
      Returns->>= _ _ (defined_value (write_adv filled (pos (length bytes)))) _
        (defined_value-Returns (write_adv filled (pos (length bytes))))
        (λ b' _.
          let t = with_client (record s.client { buffer_in = b' }) s in
          Returns->>= _ _ (find_command commands t) _ (find_command-Holds here commands t k h)
            (λ r q. Found-Ends r.1 r.0 (moved here (view r.0) (view s) q.0 g) q.1))

  taken-Ends :
      (bytes : List ℕ) (s : Server)
      → IsIn here (view s)
      → Returns (Ends here) (elim bytes [
        | [] ↦ ok (s, close_connection)
        | c ∷ cs ↦ bytes_received ev commands (c ∷ cs) here s
      ])
  taken-Ends [] s g = (g.0, g.1, tt, tt)
  taken-Ends (c ∷ cs) s g = bytes_received-Ends (c ∷ cs) s g

  pub common_read-Ends :
      (s : Server) → IsIn here (view s) → Returns (Ends here) (common_read commands ev s)
  unfolding common_read
  common_read-Ends s g =
      let e : s.client.current ≡ some here = g.0 in
      rw e (
        Returns->>= _ _ (defined_value (write_ptr s.client.buffer_in)) _
          (defined_value-Returns (write_ptr s.client.buffer_in))
          (λ free _.
            Returns-option _ ev.received _ _ (g.0, g.1, tt, tt)
              (λ bytes. taken-Ends (take free.1 bytes) s g)))
