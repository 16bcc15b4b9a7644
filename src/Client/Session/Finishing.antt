-- ===== src/Client/Session/Finishing.antt =====
-- RETR: the rounds of the write handler that send the terminator.
use tp_protos.Base.{
  ℕ, zero, suc, ◌-◌, ◌≤◌, ◌≡◌, refl, ◌∙◌, ◌⊎◌, true, false, none, List, ◌++◌, arith, length, take,
  Text, inl, inr, ok,
}
use tp_protos.Buffer.{Buffer, can_read}
use tp_protos.Buffer.Refine.{contents}
use tp_protos.Parser.{Parser}
use tp_protos.Client.{Server, State, transaction, op_read, op_write, with_client}
use tp_protos.Client.Responses
use tp_protos.Client.Output.{more_to_send}
use tp_protos.Client.Output.Delivery.{
  Pending, written, write_response_buffer, sent_server, after_send_buffer, more_to_send_lem,
}
use tp_protos.Client.Commands.{Command, parse_input, find_command}
use tp_protos.Client.Session.{Event, common_write, response_left, open_stream, next_command}
use tp_protos.Client.Session.Retrieval.{
  retrieved, Finishing, sends, common_write_sent, response_continues, response_left_none,
}

parse_nothing :
    (fuel : ℕ) (p : Parser) (b : Buffer)
    → can_read b ≡ false
    → parse_input fuel p b ≡ ok (p, b, false)
unfolding parse_input
parse_nothing zero p b h = refl
parse_nothing (suc fuel) p b h = rw (parse_input, h)

-- No input, no command: the session waits to read.
nothing_next :
    (ev : Event) (commands : List Command) (here : State) (s : Server)
    → ev.registered ≡ true
    → can_read s.client.buffer_in ≡ false
    → next_command ev commands here s ≡ ok (record s { interest = op_read }, here)
unfolding next_command find_command
nothing_next ev commands here s r h =
    let c = s.client in
    let p = parse_nothing (c.buffer_in.write_at - c.buffer_in.read_at) c.parser c.buffer_in h in
    rw (next_command, find_command, p, r)

-- How a round ends while the terminator is being sent.
abbrev pub AfterFinishing : Text → Text → Server → Type 0
AfterFinishing message done s =
    (Finishing message done s × Pending s.client × (s.interest ≡ op_write))
    ⊎ ((done ≡ retrieved message) × (s.interest ≡ op_read))

pub Finishing-round :
    (ev : Event) (commands : List Command) (message done : Text) (n : ℕ) (s : Server)
    → Finishing message done s
    → ev.registered ≡ true
    → s.interest ≡ op_write
    → 1 ≤ n
    → n ≤ length (contents s.client.buffer_out)
    → (s' : Server) × (common_write commands (sends ev n) s ≡ ok (s', transaction))
      × AfterFinishing message (done ++ take n (contents s.client.buffer_out)) s'
Finishing-round ev commands message done n s f r i h k =
    let total = retrieved message in
    let done' = done ++ take n (contents s.client.buffer_out) in
    let (b, e, g, w, l) = after_send_buffer Responses.dot_crlf total done s n f.sending h k in
    let t = sent_server n b s in
    let start = common_write_sent ev commands transaction n s t f.current e in
    let same : response_left t.client ≡ more_to_send t.client = rw f.writing in
    elim (more_to_send_lem Responses.dot_crlf total done' t.client g w) [
      | inl (more, room) ↦
          let (b₂, e₂, g₂, p₂, l₂) =
            write_response_buffer Responses.dot_crlf total done' t.client g (omega (arith, room)) in
          let c₂ = record t.client {
            buffer_out = b₂;
            response_index = written Responses.dot_crlf t.client;
          } in
          (
            with_client c₂ t,
            start ∙ response_continues (sends ev n) commands transaction t c₂ (same ∙ more) e₂,
            inl (
              record {
                current = f.current;
                sending = g₂;
                writing = f.writing;
                no_input = f.no_input;
              },
              p₂,
              i,
            ),
          )
      | inr (more, all) ↦
          let file : open_stream t.client ≡ ok none = rw f.writing in
          (
            record t { interest = op_read },
            start
                ∙ response_left_none (sends ev n) commands transaction t none (same ∙ more) file
                ∙ nothing_next (sends ev n) commands transaction t r f.no_input,
            inr (all, refl),
          )
    ]
