-- ===== src/Client/Session/Delivered.antt =====
-- RETR from its answer to the last byte of the terminator: the rounds of the write handler.
use tp_protos.Base.{
  ℕ, suc, ◌+◌, ◌≤◌, ◌<◌, ◌≡◌, refl, ap, ◌∙◌, true, false, some, List, [], ◌∷◌, ◌++◌, arith, length,
  length-append, length-take, take, drop, has_char, Text, inl, inr, pos, ok, Outcome, ◌>>=◌,
}
use tp_protos.Buffer.{can_read}
use tp_protos.Buffer.Bounds.{IsValid}
use tp_protos.Buffer.Refine.{contents}
use tp_protos.MessageManager.{System, get_message_content}
use tp_protos.Client.{Server, transaction, op_noop, op_read, op_write, with_client}
use tp_protos.Client.Responses
use tp_protos.Client.Output.Delivery.{Pending, written, write_response_buffer}
use tp_protos.Client.Output.Rounds.{taken}
use tp_protos.Client.Authorization.{answer}
use tp_protos.Client.Transaction.{retr_number, content_found}
use tp_protos.Client.Commands.{Command}
use tp_protos.Client.Session.{Event, common_write}
use tp_protos.Client.Session.Streaming.{stream}
use tp_protos.Client.Session.Retrieval.{retrieved, Announced, Finishing, sends, Announced-round}
use tp_protos.Client.Session.Finishing.{Finishing-round}

-- The calls of the write handler as long as the session waits to write, where the socket would take
-- `suc n` bytes for each `n` of the list, with `out` received by the client so far.
pub run_writes : Event → List Command → List ℕ → Server → Text → Outcome (Server × Text)
run_writes ev commands [] s out = ok (s, out)
run_writes ev commands (n ∷ ns) s out = elim s.interest [
  | op_noop ↦ ok (s, out)
  | op_read ↦ ok (s, out)
  | op_write ↦ common_write commands (sends ev (taken n s.client)) s >>= λ r.
      run_writes ev commands ns r.0 (out ++ take (taken n s.client) (contents s.client.buffer_out))
]

run_stops :
    (ev : Event) (commands : List Command) (ns : List ℕ) (s : Server) (out : Text)
    → s.interest ≡ op_read
    → run_writes ev commands ns s out ≡ ok (s, out)
unfolding run_writes
run_stops ev commands [] s out i = refl
run_stops ev commands (n ∷ ns) s out i =
    let k = taken n s.client in
    ap
      (λ x. elim x [
        | op_noop ↦ ok (s, out)
        | op_read ↦ ok (s, out)
        | op_write ↦ common_write commands (sends ev k) s >>= λ r.
            run_writes ev commands ns r.0 (out ++ take k (contents s.client.buffer_out))
      ])
      i

run_goes_on :
    (ev : Event) (commands : List Command) (n : ℕ) (ns : List ℕ) (s s' : Server) (out : Text)
    → s.interest ≡ op_write
    → common_write commands (sends ev (taken n s.client)) s ≡ ok (s', transaction)
    → run_writes ev commands (n ∷ ns) s out
      ≡ run_writes ev commands ns s' (out ++ take (taken n s.client) (contents s.client.buffer_out))
unfolding run_writes
run_goes_on ev commands n ns s s' out i e =
    let k = taken n s.client in
    let bytes = contents s.client.buffer_out in
    ap
      (λ x. elim x [
        | op_noop ↦ ok (s, out)
        | op_read ↦ ok (s, out)
        | op_write ↦ common_write commands (sends ev k) s >>= λ r.
            run_writes ev commands ns r.0 (out ++ take k bytes)
      ])
      i
    ∙ ap (λ x. x >>= λ r. run_writes ev commands ns r.0 (out ++ take k bytes)) e

-- The rounds have sent everything, and the session waits to read.
abbrev Delivered : Event → List Command → List ℕ → Text → Server → Text → Type 0
Delivered ev commands ns message s out =
    (s' : Server) × (run_writes ev commands ns s out ≡ ok (s', retrieved message))
    × (s'.interest ≡ op_read)

Finishing-run :
    (ev : Event) (commands : List Command) (ns : List ℕ) (message done : Text) (s : Server)
    → Finishing message done s
    → Pending s.client
    → ev.registered ≡ true
    → s.interest ≡ op_write
    → length (retrieved message) ≤ length done + length ns
    → Delivered ev commands ns message s done
Finishing-run ev commands [] message done s f p r i h = absurd (
    omega (
      arith,
      ap length f.sending.whole,
      length-append done
          (contents s.client.buffer_out ++ drop s.client.response_index Responses.dot_crlf),
      length-append (contents s.client.buffer_out)
          (drop s.client.response_index Responses.dot_crlf),
    ))
Finishing-run ev commands (n ∷ ns) message done s f p r i h =
    let k = taken n s.client in
    let done' = done ++ take k (contents s.client.buffer_out) in
    let (s₁, e, m) =
      Finishing-round ev commands message done k s f r i (omega arith) (omega arith) in
    let go = run_goes_on ev commands n ns s s₁ done i e in
    elim m [
      | inl (f', p', i') ↦
          let (s', e', q) = Finishing-run ev commands ns message done' s₁ f' p' r i' (
            omega (
              arith,
              length-append done (take k (contents s.client.buffer_out)),
              length-take k (contents s.client.buffer_out),
            )) in
          (s', go ∙ e', q)
      | inr (all, i') ↦
          (s₁, go ∙ run_stops ev commands ns s₁ done' i' ∙ ap (λ x. ok (s₁, x)) all, i')
    ]

Announced-run :
    (ev : Event) (commands : List Command) (ns : List ℕ) (message done : Text) (s : Server)
    → Announced message done s
    → Pending s.client
    → 1 ≤ length message
    → has_char 255 message ≡ false
    → ev.registered ≡ true
    → s.interest ≡ op_write
    → length (retrieved message) ≤ length done + length ns
    → Delivered ev commands ns message s done
Announced-run ev commands [] message done s a p l z r i h = absurd (
    omega (
      arith,
      ap length a.sending.whole,
      length-append done
          (contents s.client.buffer_out ++ drop s.client.response_index Responses.retr_success),
      length-append (contents s.client.buffer_out)
          (drop s.client.response_index Responses.retr_success),
      length-append Responses.retr_success (message ++ Responses.dot_crlf),
    ))
Announced-run ev commands (n ∷ ns) message done s a p l z r i h =
    let k = taken n s.client in
    let done' = done ++ take k (contents s.client.buffer_out) in
    let (s₁, e, m, p₁, i₁) =
      Announced-round ev commands message done k s a l z (omega arith) (omega arith) in
    let go = run_goes_on ev commands n ns s s₁ done i e in
    let fits : length (retrieved message) ≤ length done' + length ns = omega (
      arith,
      length-append done (take k (contents s.client.buffer_out)),
      length-take k (contents s.client.buffer_out),
    ) in
    elim m [
      | inl a' ↦
          let (s', e', q) =
            Announced-run ev commands ns message done' s₁ a' p₁ l z r (i₁ ∙ i) fits in
          (s', go ∙ e', q)
      | inr f ↦
          let (s', e', q) = Finishing-run ev commands ns message done' s₁ f p₁ r (i₁ ∙ i) fits in
          (s', go ∙ e', q)
    ]

-- A message that is not empty, is smaller than the output buffer, has no byte 255 and is read without
-- an error: RETR answers, and then the answer, the message and the terminator leave whole, in order
-- and once, whatever the sizes that the socket takes; the session waits for the next command after
-- as many calls as there are bytes at most.
pub retr_delivered :
    (ev : Event) (commands : List Command) (sys : System) (k size : ℕ) (message : Text)
    (ns : List ℕ) (s : Server)
    → get_message_content sys s.client.message_manager (pos (suc k)) ≡ ok (message, size)
    → s.client.current ≡ some transaction
    → s.interest ≡ op_write
    → ev.registered ≡ true
    → IsValid s.client.buffer_out
    → s.client.buffer_out.read_at ≡ 0
    → s.client.buffer_out.write_at ≡ 0
    → length Responses.retr_success ≤ s.client.buffer_out.limit
    → can_read s.client.buffer_in ≡ false
    → 1 ≤ length message
    → length message < s.client.buffer_out.limit
    → has_char 255 message ≡ false
    → length (retrieved message) ≤ length ns
    → (s₁ : Server) × (retr_number sys true (pos (suc k)) s ≡ ok (s₁, transaction))
      × ((s₂ : Server) × (run_writes ev commands ns s₁ [] ≡ ok (s₂, retrieved message))
          × (s₂.interest ≡ op_read))
unfolding retr_number answer has_char
retr_delivered ev commands sys k size message ns s content cur i reg v r w l n some_left room z h =
    let c = record s.client {
      writing_from_file = true;
      message_file = some (stream message);
      response_index = 0;
      response = some Responses.retr_success;
    } in
    let (b, e, g, p, l₂) =
      write_response_buffer Responses.retr_success Responses.retr_success [] c
        (record {
          has = refl;
          plain = refl;
          valid = v;
          inside = omega arith;
          whole = rw (w, r);
          limit = omega (arith, l);
        })
        (omega (arith, w, l)) in
    let c₁ = record c { buffer_out = b; response_index = written Responses.retr_success c } in
    (
      with_client c₁ s,
      ap (λ x. content_found true x s) content
          ∙ ap (λ x. x >>= λ c'. ok (with_client c' s, transaction)) e,
      Announced-run ev commands ns message [] (with_client c₁ s)
          (record {
            current = cur;
            sending = g;
            all_written = omega (arith, w, l);
            writing = refl;
            file = refl;
            room = omega (arith, room, l₂);
            no_input = n;
          })
          p some_left z reg i (omega (arith, h)),
    )
