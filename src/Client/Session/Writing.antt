-- ===== src/Client/Session/Writing.antt =====
-- `states_common_write` as a step of a session.
use tp_protos.Base.{
  Any, defined-Returns, ℕ, zero, suc, ◌+◌, ◌-◌, ◌≡◌, refl, ap, ◌∙◌, Bool, false, ◌==◌, Option, none,
  some, List, ℤ, pos, negsuc, ok, ◌>>=◌, Returns, Returns->>=, Returns-if, Returns-bool,
  Returns-list, if◌then◌else◌, length, leb, defined,
}
use tp_protos.Buffer.{Buffer, can_read, can_write, write, read_ptr, read_adv}
use tp_protos.Client.{
  Client, Stream, Server, State, error, Interest, op_read, op_write, with_client, defined_value,
}
use tp_protos.Client.Responses
use tp_protos.Client.Output.{write_response, response_byte, more_to_send, after_send}
use tp_protos.Client.Commands.{Command, find_command}
use tp_protos.Client.Commands.Handlers.{View, view, defined_value-Returns, write_response-view}
use tp_protos.Client.Commands.Tables.{HasCommands, Holds, All}
use tp_protos.Client.Commands.Search.{Found, find_command-Holds}
use tp_protos.Client.Session.{
  Event, reset_parser, run_command, file_read, stream_closed, file_write, with_terminator,
  file_written, next_command, response_left, open_stream, response_sent, common_write,
}
use tp_protos.Client.Session.Flow.{Ends, IsIn, staying, failing, moved, ran, reset_parser-view}

same_interest : (v : View) (i : Interest) → v.interest ≡ i → v ≡ record v { interest = i }
same_interest v i e = ap (λ j. record v { interest = j }) e

pub after_send-view : (n : ℤ) (s : Server) → Returns (λ r. view r.0 ≡ view s) (after_send n s)
unfolding after_send
after_send-view (negsuc n) s =
    Returns->>= _ _ (defined_value (read_ptr s.client.buffer_out)) _
      (defined_value-Returns (read_ptr s.client.buffer_out)) (λ _ _. refl)
after_send-view (pos zero) s =
    Returns->>= _ _ (defined_value (read_ptr s.client.buffer_out)) _
      (defined_value-Returns (read_ptr s.client.buffer_out)) (λ _ _. refl)
after_send-view (pos (suc n)) s =
    Returns->>= _ _ (defined_value (read_ptr s.client.buffer_out)) _
      (defined_value-Returns (read_ptr s.client.buffer_out))
      (λ _ _.
        Returns->>= _ _ (defined_value (read_adv s.client.buffer_out (pos (suc n)))) _
          (defined_value-Returns (read_adv s.client.buffer_out (pos (suc n)))) (λ b _. refl))

response_byte-Returns : (c : Client) → Returns Any (response_byte c)
response_byte-Returns c =
    Returns->>= _ _ (defined_value c.response) _ (defined_value-Returns c.response) (λ t _.
      Returns->>= Any Any (defined (leb c.response_index (length t))) _
        (defined-Returns (leb c.response_index (length t))) (λ _ _. tt))

pub more_to_send-Returns : (c : Client) → Returns Any (more_to_send c)
more_to_send-Returns c =
    Returns-if Any (can_read c.buffer_out) _ _ tt
      (Returns->>= Any Any (response_byte c) _ (response_byte-Returns c) (λ _ _. tt))

response_left-Returns : (c : Client) → Returns Any (response_left c)
response_left-Returns c = Returns-if Any (can_read c.buffer_out) _ _ tt (
    Returns-if Any c.writing_from_file _ _ tt
      (Returns->>= Any Any (response_byte c) _ (response_byte-Returns c) (λ _ _. tt)))

open_stream-Returns : (c : Client) → Returns Any (open_stream c)
open_stream-Returns c =
    Returns-if Any c.writing_from_file _ _
      (Returns->>= _ _ (defined_value c.message_file) _ (defined_value-Returns c.message_file)
        (λ f _. tt))
      tt

file_write-Returns :
    (fuel : ℕ) (b : Buffer) (f : Stream) (dim : ℕ) → Returns Any (file_write fuel b f dim)
unfolding file_write
file_write-Returns zero b f dim = tt
file_write-Returns (suc fuel) b f dim =
    Returns-bool Any (can_write b) _ _
      (Returns-list Any f.rest _ _ tt (λ c cs. Returns-bool Any (c == 255) _ _ tt (
        Returns->>= _ _ (defined_value (write b c)) _ (defined_value-Returns (write b c))
          (λ b' _. file_write-Returns fuel b' (record f { rest = cs }) (dim + 1)))))
      tt

module _ (here : State) (commands : List Command) (k : HasCommands here)
    (h : All (Holds here) commands) (ev : Event) where
  next-Found-Ends :
      (o : Option Command) (s : Server)
      → s.interest ≡ op_write
      → IsIn here (view s)
      → Found (Holds here) o
      → Returns (Ends here) (elim o [
        | none ↦ if ev.registered then ok (record s { interest = op_read }, here) else ok (s, error)
        | some command ↦
            run_command ev.env command s >>= λ q. reset_parser q.0 >>= λ s'. ok (s', q.1)
      ])
  next-Found-Ends none s w g f =
      Returns-if _ ev.registered _ _ (staying here s s op_read k g refl) (failing here s s g refl)
  next-Found-Ends (some c) s w g hold =
      Returns->>= _ _ (run_command ev.env c s) _ (hold ev.env s.client.parser.event s g.0 g.2)
        (λ q l. Returns->>= _ _ (reset_parser q.0) _ (reset_parser-view q.0) (λ t e.
          ran here commands k h ev s q t g l (e ∙ same_interest (view q.0) op_write (l.2 ∙ w))))

  next_command-Ends :
      (s : Server)
      → s.interest ≡ op_write
      → IsIn here (view s)
      → Returns (Ends here) (next_command ev commands here s)
  unfolding next_command
  next_command-Ends s w g =
      Returns->>= _ _ (find_command commands s) _ (find_command-Holds here commands s k h) (λ r q.
        next-Found-Ends r.1 r.0 (ap View.interest q.0 ∙ w) (moved here (view r.0) (view s) q.0 g)
          q.1)

  with_terminator-Ends :
      (c : Client) (s : Server)
      → IsIn here (view (with_client c s))
      → Returns (Ends here) (with_terminator c >>= λ c'. ok (with_client c' s, here))
  with_terminator-Ends c s g =
      let t = with_client c s in
      let c₁ = record c {
        response_is_allocated = false;
        response = some Responses.dot_crlf;
        response_index = 0;
      } in
      Returns->>= _ _ (write_response c₁) _ (write_response-view c₁ s)
        (λ c' e. staying here t (with_client c' s) s.interest k g e)

  file_written-Ends :
      (w : Buffer × Stream × ℕ × Bool) (s : Server)
      → IsIn here (view s)
      → Returns (Ends here) (file_written here w s)
  unfolding file_written
  file_written-Ends w s g =
      let c = file_read w s.client in
      let stay : (c : Client)
          → view (with_client c s) ≡ view s
          → Ends here (with_client c s, here) =
        λ c e. staying here s (with_client c s) s.interest k g e in
      Returns-bool _ w.3 _ _ (g.0, g.1, tt, tt)
        (Returns-bool _ w.1.eof _ _
          (Returns-bool _ (can_read w.0) _ _ (with_terminator-Ends (stream_closed c) s g)
            (stay (stream_closed c) refl))
          (stay c refl))

  sent_all-Ends :
      (f : Option Stream) (s : Server)
      → s.interest ≡ op_write
      → IsIn here (view s)
      → Returns (Ends here) (elim f [
        | some f ↦
            let b = s.client.buffer_out in
            file_write (b.limit - b.write_at) b f s.client.response_index >>= λ w.
            file_written here w s
        | none ↦ next_command ev commands here s
      ])
  sent_all-Ends none s w g = next_command-Ends s w g
  sent_all-Ends (some f) s w g =
      let b = s.client.buffer_out in
      Returns->>= Any _ (file_write (b.limit - b.write_at) b f s.client.response_index) _
        (file_write-Returns (b.limit - b.write_at) b f s.client.response_index)
        (λ w _. file_written-Ends w s g)

  response_sent-Ends :
      (s : Server)
      → s.interest ≡ op_write
      → IsIn here (view s)
      → Returns (Ends here) (response_sent ev commands here s)
  unfolding response_sent
  response_sent-Ends s w g =
      Returns->>= Any _ (response_left s.client) _ (response_left-Returns s.client) (λ more _.
        Returns-bool _ more _ _
          (Returns->>= _ _ (write_response s.client) _ (write_response-view s.client s)
            (λ c e. staying here s (with_client c s) s.interest k g e))
          (Returns->>= Any _ (open_stream s.client) _ (open_stream-Returns s.client)
            (λ f _. sent_all-Ends f s w g)))

  pub common_write-Ends :
      (s : Server)
      → s.interest ≡ op_write
      → IsIn here (view s)
      → Returns (Ends here) (common_write commands ev s)
  unfolding common_write after_send
  common_write-Ends s w g =
      let e : s.client.current ≡ some here = g.0 in
      rw e (
        Returns->>= _ (Ends here) (after_send ev.sent s) _ (after_send-view ev.sent s) (λ r q.
          let g' = moved here (view r.0) (view s) q g in
          Returns-if (Ends here) r.1 _ _ (response_sent-Ends r.0 (ap View.interest q ∙ w) g')
            (g'.0, g'.1, tt, tt)))
