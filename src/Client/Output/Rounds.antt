-- ===== src/Client/Output/Rounds.antt =====
-- The write handlers of greeting.c and update.c, called again as long as the socket is writable.
use tp_protos.Base.{
  ℕ, suc, ◌+◌, ◌≤◌, min, ◌≡◌, refl, ap, ◌⊎◌, true, some, List, [], ◌∷◌, ◌++◌, arith, length,
  length-take, length-append, take, drop, has_char, Text, inl, inr, pos, ok, Outcome, ◌>>=◌,
}
use tp_protos.Buffer.Bounds.{IsValid}
use tp_protos.Buffer.Refine.{contents}
use tp_protos.Client.{
  Client, Server, State, greeting, authorization, transaction, update, error, close_connection,
  with_client, op_read,
}
use tp_protos.Client.Responses
use tp_protos.Client.Output.{
  greeting_on_arrival, greeting_sent, greeting_write, update_sent, update_write,
}
use tp_protos.Client.Output.Delivery.{
  Sending, Pending, write_response_lem, after_send_lem, more_to_send_lem,
}

-- How a write handler ends: in its own state, with the rest of the text still to send, or in the
-- next one, where all of the text has left.
abbrev pub Moved : Text → Text → State → State → Outcome (Server × State) → Server → Type 0
Moved text done stay next result s =
    ((result ≡ ok (s, stay)) × Sending text text done s.client × Pending s.client)
    ⊎ ((result ≡ ok (s, next)) × (done ≡ text))

-- Each `send` of at least one byte in GREETING keeps the greeting in order, and the session stays
-- until the greeting has left whole.
pub greeting_write_lem :
    (text done : Text) (s : Server) (n : ℕ)
    → Sending text text done s.client
    → 1 ≤ n
    → n ≤ length (contents s.client.buffer_out)
    → (s' : Server) × Moved text
        (done ++ take n (contents s.client.buffer_out))
        greeting
        authorization
        (greeting_write (pos n) true s)
        s'
unfolding greeting_write greeting_sent
greeting_write_lem text done s n g h k =
    let done' = done ++ take n (contents s.client.buffer_out) in
    let (s', e, g', w) = after_send_lem text text done s n g h k in
    elim (more_to_send_lem text text done' s'.client g' w) [
      | inl (m, room) ↦
          let (c, e', g'', p) = write_response_lem text text done' s'.client g' room in
          (with_client c s', inl (rw (e, m, e'), g'', p))
      | inr (m, all) ↦ (record s' { interest = op_read }, inr (rw (e, m), all))
    ]

-- The same of UPDATE, which then closes the connection.
pub update_write_lem :
    (text done : Text) (s : Server) (n : ℕ)
    → Sending text text done s.client
    → 1 ≤ n
    → n ≤ length (contents s.client.buffer_out)
    → (s' : Server) × Moved text
        (done ++ take n (contents s.client.buffer_out))
        update
        close_connection
        (update_write (pos n) s)
        s'
unfolding update_write update_sent
update_write_lem text done s n g h k =
    let done' = done ++ take n (contents s.client.buffer_out) in
    let (s', e, g', w) = after_send_lem text text done s n g h k in
    elim (more_to_send_lem text text done' s'.client g' w) [
      | inl (m, room) ↦
          let (c, e', g'', p) = write_response_lem text text done' s'.client g' room in
          (with_client c s', inl (rw (e, m, e'), g'', p))
      | inr (m, all) ↦ (s', inr (rw (e, m), all))
    ]

-- A socket takes at least one byte of what it is offered: of `n` wanted, what it takes.
abbrev pub taken : ℕ → Client → ℕ
taken n c = min (suc n) (length (contents c.buffer_out))

-- The rounds in GREETING, where the socket would take `suc n` bytes for each `n` of the list, with
-- `out` received by the client so far.
pub run_greeting : List ℕ → Server → Text → Outcome (Server × State × Text)
run_greeting [] s out = ok (s, greeting, out)
run_greeting (n ∷ ns) s out =
    let out' = out ++ take (taken n s.client) (contents s.client.buffer_out) in
    greeting_write (pos (taken n s.client)) true s >>= λ r. elim r.1 [
      | greeting ↦ run_greeting ns r.0 out'
      | authorization ↦ ok (r.0, authorization, out')
      | transaction ↦ ok (r.0, transaction, out')
      | update ↦ ok (r.0, update, out')
      | error ↦ ok (r.0, error, out')
      | close_connection ↦ ok (r.0, close_connection, out')
    ]

run_greeting_lem :
    (text : Text) (ns : List ℕ) (s : Server) (done : Text)
    → Sending text text done s.client
    → Pending s.client
    → length text ≤ length done + length ns
    → (s' : Server) × (run_greeting ns s done ≡ ok (s', authorization, text))
unfolding run_greeting
run_greeting_lem text [] s done g p h = absurd (
    omega (
      arith,
      ap length g.whole,
      length-append done (contents s.client.buffer_out ++ drop s.client.response_index text),
      length-append (contents s.client.buffer_out) (drop s.client.response_index text),
    ))
run_greeting_lem text (n ∷ ns) s done g p h =
    let k = taken n s.client in
    let done' = done ++ take k (contents s.client.buffer_out) in
    let (s₁, m) = greeting_write_lem text done s k g (omega arith) (omega arith) in
    elim m [
      | inl (e, g', p') ↦
          let (s', e') = run_greeting_lem text ns s₁ done' g' p' (
            omega (
              arith,
              length-append done (take k (contents s.client.buffer_out)),
              length-take k (contents s.client.buffer_out),
            )) in
          (s', rw e e')
      | inr (e, all) ↦ (s₁, rw (e, all))
    ]

-- From an empty output buffer, a session that starts sends the greeting whole, in order and once,
-- and is in AUTHORIZATION after as many rounds as the greeting has bytes at most.
pub greeting_delivered :
    (ns : List ℕ) (s : Server)
    → IsValid s.client.buffer_out
    → s.client.buffer_out.read_at ≡ 0
    → s.client.buffer_out.write_at ≡ 0
    → 1 ≤ s.client.buffer_out.limit
    → length Responses.greeting ≤ length ns
    → (c : Client) × (greeting_on_arrival s.client ≡ ok c)
      × ((s' : Server) × (run_greeting ns (with_client c s) []
            ≡ ok (s', authorization, Responses.greeting)))
unfolding greeting_on_arrival has_char
greeting_delivered ns s v r w l h =
    let (c, e, g, p) =
      write_response_lem Responses.greeting Responses.greeting []
        (record s.client { response_index = 0; response = some Responses.greeting })
        (record {
          has = refl;
          plain = refl;
          valid = v;
          inside = omega arith;
          whole = rw (w, r);
          limit = l;
        })
        (omega (arith, w, l)) in
    (c, e, run_greeting_lem Responses.greeting ns (with_client c s) [] g p (omega (arith, h)))
