-- ===== src/Client/Session/Retrieval.antt =====
-- RETR: from the handler to the last byte of the terminator, whatever the sizes that the socket takes.
use tp_protos.Base.{
  ℕ, ◌+◌, ◌-◌, ◌≤◌, ◌<◌, ◌≡◌, refl, sym, ap, ap₂, ◌∙◌, subst, ◌⊎◌, true, false, some, Option, List,
  [], ◌∷◌, ◌++◌, append-nil, arith, length, length-drop, take, drop, has_char, Text, Bool-cases,
  inl, inr, pos, ok, ◌>>=◌,
}
use tp_protos.Buffer.{Buffer, can_read}
use tp_protos.Buffer.Bounds.{IsValid}
use tp_protos.Buffer.Refine.{contents, length-contents}
use tp_protos.Client.{Client, Stream, Server, State, transaction, with_client, defined_value}
use tp_protos.Client.Responses
use tp_protos.Client.Output.{write_response, after_send}
use tp_protos.Client.Output.Delivery.{
  Sending, Pending, written, write_response_buffer, sent_server, after_send_buffer,
}
use tp_protos.Client.Commands.{Command}
use tp_protos.Client.Session.{
  Event, common_write, response_sent, after_sending, more_or_file, file_or_command, response_left,
  open_stream, file_written, file_read, stream_closed,
}
use tp_protos.Client.Session.Streaming.{stream, ended_stream, file_write_lem}

-- What the client is to receive.
abbrev pub retrieved : Text → Text
retrieved message = Responses.retr_success ++ (message ++ Responses.dot_crlf)

-- The answer of RETR is being sent, and the message is still to be read.
pub record Announced (message done : Text) (s : Server) : Type 0 where
  pub current : s.client.current ≡ some transaction
  pub sending : Sending Responses.retr_success Responses.retr_success done s.client
  pub all_written : s.client.response_index ≡ length Responses.retr_success
  pub writing : s.client.writing_from_file ≡ true
  pub file : s.client.message_file ≡ some (stream message)
  pub room : length message < s.client.buffer_out.limit
  pub no_input : can_read s.client.buffer_in ≡ false

-- The message is in the buffer, and the terminator follows.
pub record Finishing (message done : Text) (s : Server) : Type 0 where
  pub current : s.client.current ≡ some transaction
  pub sending : Sending Responses.dot_crlf (retrieved message) done s.client
  pub writing : s.client.writing_from_file ≡ false
  pub no_input : can_read s.client.buffer_in ≡ false

abbrev pub sends : Event → ℕ → Event
sends ev n = record ev { sent = pos n }

-- The write handler from the `send` on.
pub common_write_sent :
    (ev : Event) (commands : List Command) (here : State) (n : ℕ) (s t : Server)
    → s.client.current ≡ some here
    → after_send (pos n) s ≡ ok (t, true)
    → common_write commands (sends ev n) s ≡ response_sent (sends ev n) commands here t
unfolding common_write
common_write_sent ev commands here n s t c e =
    ap
      (λ o. defined_value o >>= λ now.
        after_send (pos n) s >>= λ r. after_sending (sends ev n) commands now r)
      c
    ∙ ap (λ x. x >>= λ r. after_sending (sends ev n) commands here r) e

-- More of the response is written.
pub response_continues :
    (ev : Event) (commands : List Command) (here : State) (s : Server) (c : Client)
    → response_left s.client ≡ ok true
    → write_response s.client ≡ ok c
    → response_sent ev commands here s ≡ ok (with_client c s, here)
unfolding response_sent
response_continues ev commands here s c l e =
    ap (λ x. x >>= λ more. more_or_file ev commands here s more) l
    ∙ ap (λ x. x >>= λ c'. ok (with_client c' s, here)) e

-- The response has left.
pub response_left_none :
    (ev : Event) (commands : List Command) (here : State) (s : Server) (f : Option Stream)
    → response_left s.client ≡ ok false
    → open_stream s.client ≡ ok f
    → response_sent ev commands here s ≡ file_or_command ev commands here s f
unfolding response_sent
response_left_none ev commands here s f l e =
    ap (λ x. x >>= λ more. more_or_file ev commands here s more) l
    ∙ ap (λ x. x >>= λ f'. file_or_command ev commands here s f') e

-- The client whose terminator is to be written, with the last bytes of a message in the buffer `b`.
abbrev terminated : Buffer → ℕ → Client → Client
terminated b i c = record (stream_closed (file_read (b, ended_stream, i, false) c)) {
  response_is_allocated = false;
  response = some Responses.dot_crlf;
  response_index = 0;
}

file_written_end :
    (here : State) (b : Buffer) (i : ℕ) (s : Server) (c' : Client)
    → can_read b ≡ true
    → write_response (terminated b i s.client) ≡ ok c'
    → file_written here (b, ended_stream, i, false) s ≡ ok (with_client c' s, here)
unfolding file_written
file_written_end here b i s c' r e = rw (file_written, r, e)

-- The whole of a message in the buffer, and the terminator behind it.
file_finishes :
    (ev : Event) (commands : List Command) (message : Text) (s : Server)
    → s.client.current ≡ some transaction
    → IsValid s.client.buffer_out
    → s.client.buffer_out.read_at ≡ 0
    → s.client.buffer_out.write_at ≡ 0
    → contents s.client.buffer_out ≡ []
    → length message < s.client.buffer_out.limit
    → 1 ≤ length message
    → has_char 255 message ≡ false
    → can_read s.client.buffer_in ≡ false
    → (s' : Server) × (file_or_command ev commands transaction s (some (stream message))
        ≡ ok (s', transaction))
      × Finishing message Responses.retr_success s'
      × Pending s'.client
      × (s'.interest ≡ s.interest)
unfolding has_char
file_finishes ev commands message s cur v r w z room some_left plain n =
    let o = s.client.buffer_out in
    let i = s.client.response_index in
    let (b, e, v', t, l) =
      file_write_lem message (o.limit - o.write_at) o i v plain (omega (arith, room, w))
        (omega (arith, room, w)) in
    let bytes : contents b ≡ message = t ∙ ap (λ x. x ++ message) z in
    let size : length (contents b) ≡ length message = ap length bytes in
    let readable : can_read b ≡ true = ground (arith, length-contents b v', some_left, size) in
    let c = terminated b (i + length message) s.client in
    let g : Sending Responses.dot_crlf (retrieved message) Responses.retr_success c = record {
      has = refl;
      plain = refl;
      valid = v';
      inside = omega arith;
      whole = ap (λ x. Responses.retr_success ++ (x ++ Responses.dot_crlf)) bytes;
      limit = omega (arith, l, room);
    } in
    let (b₂, e₂, g₂, p₂, l₂) =
      write_response_buffer Responses.dot_crlf (retrieved message) Responses.retr_success c g
        (omega (arith, size, some_left)) in
    let c₂ = record c { buffer_out = b₂; response_index = written Responses.dot_crlf c } in
    (
      with_client c₂ s,
      ap (λ x. x >>= λ q. file_written transaction q s) e
          ∙ file_written_end transaction b (i + length message) s c₂ readable e₂,
      record { current = cur; sending = g₂; writing = refl; no_input = n },
      p₂,
      refl,
    )

nothing_left : (xs : List ℕ) → length xs ≡ 0 → xs ≡ []
nothing_left [] h = refl
nothing_left (x ∷ xs) h = absurd (omega arith)

all_sent :
    (done bytes : Text) (i : ℕ)
    → i ≡ length Responses.retr_success
    → bytes ≡ []
    → done ++ (bytes ++ drop i Responses.retr_success) ≡ Responses.retr_success
    → done ≡ Responses.retr_success
all_sent done bytes i e z whole =
    let rest : length (drop i Responses.retr_success) ≡ 0 =
      omega (arith, e, length-drop i Responses.retr_success) in
    sym (append-nil done)
    ∙ sym (ap₂ (λ x y. done ++ (x ++ y)) z (nothing_left (drop i Responses.retr_success) rest))
    ∙ whole

-- How a round of the write handler ends while the answer of RETR is being sent.
abbrev pub AfterAnnounced : Text → Text → Server → Type 0
AfterAnnounced message done s = Announced message done s ⊎ Finishing message done s

pub Announced-round :
    (ev : Event) (commands : List Command) (message done : Text) (n : ℕ) (s : Server)
    → Announced message done s
    → 1 ≤ length message
    → has_char 255 message ≡ false
    → 1 ≤ n
    → n ≤ length (contents s.client.buffer_out)
    → (s' : Server) × (common_write commands (sends ev n) s ≡ ok (s', transaction))
      × AfterAnnounced message (done ++ take n (contents s.client.buffer_out)) s'
      × Pending s'.client
      × (s'.interest ≡ s.interest)
Announced-round ev commands message done n s a some_left plain h k =
    let done' = done ++ take n (contents s.client.buffer_out) in
    let (b, e, g, w, l) =
      after_send_buffer Responses.retr_success Responses.retr_success done s n a.sending h k in
    let t = sent_server n b s in
    let start = common_write_sent ev commands transaction n s t a.current e in
    elim (Bool-cases (can_read b)) [
      | inl more ↦
          let left : response_left t.client ≡ ok true = rw more in
          let there : 1 ≤ length (contents b) = ground (arith, length-contents b g.valid) in
          let (b₂, e₂, g₂, p₂, l₂) =
            write_response_buffer Responses.retr_success Responses.retr_success done' t.client g
              (omega (arith, there)) in
          (
            with_client
                (record t.client {
                  buffer_out = b₂;
                  response_index = written Responses.retr_success t.client;
                })
                t,
            start ∙ response_continues (sends ev n) commands transaction t _ left e₂,
            inl (record {
              current = a.current;
              sending = g₂;
              all_written = omega (arith, a.all_written);
              writing = a.writing;
              file = a.file;
              room = omega (arith, a.room, l, l₂);
              no_input = a.no_input;
            }),
            p₂,
            refl,
          )
      | inr empty ↦
          let gone : length (contents b) ≡ 0 = ground (arith, length-contents b g.valid) in
          let none_left = nothing_left (contents b) gone in
          let at_start : b.write_at ≡ 0 = w gone in
          let read_start : b.read_at ≡ 0 = ground (arith, at_start, g.valid) in
          let left : response_left t.client ≡ ok false = rw (empty, a.writing) in
          let file : open_stream t.client ≡ ok (some (stream message)) = rw (a.writing, a.file) in
          let (s', e₂, f, p, i) =
            file_finishes (sends ev n) commands message t a.current g.valid read_start at_start
              none_left (omega (arith, a.room, l)) some_left plain a.no_input in
          let all =
            all_sent done' (contents b) s.client.response_index a.all_written none_left g.whole in
          (
            s',
            start
                ∙ response_left_none (sends ev n) commands transaction t (some (stream message))
                    left file
                ∙ e₂,
            inr (subst (λ x. Finishing message x s') (sym all) f),
            p,
            i,
          )
    ]
