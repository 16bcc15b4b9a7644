-- ===== src/Client/Output/Delivery.antt =====
-- Whatever the sizes that the socket takes, a response leaves whole, in order and once.
use tp_protos.Base.{
  ℕ, zero, suc, ◌+◌, ◌-◌, ◌≤◌, min, ◌≡◌, refl, sym, ap, ap₂, ◌∙◌, ◌⊎◌, true, false, some, List, [],
  ◌∷◌, ◌++◌, append-nil, append_assoc, arith, length, length-drop, length-take, length-append, take,
  drop, drop-drop, has_char, Text, Bool-cases, inl, inr, leb, ltb→lt, ◌==◌, take-append-drop, pos,
  ok, get_or,
}
use tp_protos.Buffer.{Buffer, can_read, read_adv, compact}
use tp_protos.Buffer.Bounds.{IsValid}
use tp_protos.Buffer.Refine.{contents, length-contents, ptr_refines, read_adv_refines}
use tp_protos.Client.{Client, Server, with_client}
use tp_protos.Client.Output.{write_response, after_send, count_bytes, more_to_send}
use tp_protos.Client.Output.Write.{response_write_lem}

-- `total` is being sent, of which the response `text` is the end: `done` has left, the buffer holds
-- what follows it, and the response from the index on is still to be written.
pub record Sending (text total done : Text) (c : Client) : Type 0 where
  pub has : c.response ≡ some text
  pub plain : has_char 0 text ≡ false
  pub valid : IsValid c.buffer_out
  pub inside : c.response_index ≤ length text
  pub whole : done ++ (contents c.buffer_out ++ drop c.response_index text) ≡ total
  pub limit : 1 ≤ c.buffer_out.limit

-- There is a byte for the next `send`.
abbrev pub Pending : Client → Type 0
Pending c = 1 ≤ length (contents c.buffer_out)

joined :
    (text total done c : Text) (i k : ℕ)
    → done ++ (c ++ drop i text) ≡ total
    → done ++ ((c ++ take k (drop i text)) ++ drop (i + k) text) ≡ total
joined text total done c i k h =
    let rest : drop (i + k) text ≡ drop k (drop i text) =
      sym (drop-drop k i (i + k) text (omega arith)) in
    rw (rest, append_assoc c (take k (drop i text)), take-append-drop k (drop i text)) h

-- How far `write_response` gets.
abbrev pub written : Text → Client → ℕ
written text c =
    c.response_index
    + min (c.buffer_out.limit - c.buffer_out.write_at) (length text - c.response_index)

-- Writing keeps what is being sent, and leaves a byte to send if there is one and room for it.
pub write_response_buffer :
    (text total done : Text) (c : Client)
    → Sending text total done c
    → 1 ≤ length (contents c.buffer_out) + (written text c - c.response_index)
    → (b : Buffer) × (write_response c
        ≡ ok (record c { buffer_out = b; response_index = written text c }))
      × Sending text total done (record c { buffer_out = b; response_index = written text c })
      × (1 ≤ length (contents b))
      × (b.limit ≡ c.buffer_out.limit)
unfolding write_response
write_response_buffer text total done c g h =
    let i = c.response_index in
    let k = min (c.buffer_out.limit - c.buffer_out.write_at) (length text - i) in
    let (b, e, v, t, l) = response_write_lem c.buffer_out text i g.valid g.plain g.inside in
    (
      b,
      rw (g.has, e),
      record {
        has = g.has;
        plain = g.plain;
        valid = v;
        inside = omega (arith, g.inside);
        whole = rw t (joined text total done (contents c.buffer_out) i k g.whole);
        limit = omega (arith, l, g.limit);
      },
      omega (
        arith,
        ap length t,
        length-append (contents c.buffer_out) (take k (drop i text)),
        length-take k (drop i text),
        length-drop i text,
      ),
      l,
    )

pub write_response_lem :
    (text total done : Text) (c : Client)
    → Sending text total done c
    → 1
      ≤ length (contents c.buffer_out)
        + min (c.buffer_out.limit - c.buffer_out.write_at) (length text - c.response_index)
    → (c' : Client) × (write_response c ≡ ok c') × Sending text total done c' × Pending c'
write_response_lem text total done c g h =
    let (b, e, g', p, l) = write_response_buffer text total done c g (omega arith) in
    (record c { buffer_out = b; response_index = written text c }, e, g', p)

-- `buffer_read_adv` compacts a buffer that it empties.
drained :
    (b b' : Buffer) (n : ℕ)
    → read_adv b (pos n) ≡ some b'
    → b'.write_at ≤ b'.read_at
    → b'.write_at ≡ 0
unfolding read_adv compact
drained b b' n e h = ground (arith, h)

split : (done c d : Text) (n : ℕ) → (done ++ take n c) ++ (drop n c ++ d) ≡ done ++ (c ++ d)
split done c d n =
    append_assoc done (take n c) (drop n c ++ d)
    ∙ ap (λ x. done ++ x)
        (sym (append_assoc (take n c) (drop n c) d) ∙ ap (λ x. x ++ d) (take-append-drop n c))

-- The server behind a `send` of `n` bytes that leaves the buffer `b`.
abbrev pub sent_server : ℕ → Buffer → Server → Server
sent_server n b s =
    with_client (record s.client { buffer_out = b })
      (record s { monitor = count_bytes (pos n) s.monitor })

pub after_send_buffer :
    (text total done : Text) (s : Server) (n : ℕ)
    → Sending text total done s.client
    → 1 ≤ n
    → n ≤ length (contents s.client.buffer_out)
    → (b : Buffer) × (after_send (pos n) s ≡ ok (sent_server n b s, true))
      × Sending text total
          (done ++ take n (contents s.client.buffer_out))
          (record s.client { buffer_out = b })
      × (length (contents b) ≡ 0 → b.write_at ≡ 0)
      × (b.limit ≡ s.client.buffer_out.limit)
unfolding after_send
after_send_buffer text total done s zero g h k = absurd (omega arith)
after_send_buffer text total done s (suc n) g h k =
    let c = contents s.client.buffer_out in
    let (b, e, v, t, l) = read_adv_refines s.client.buffer_out (suc n) g.valid k in
    (
      b,
      rw ((ptr_refines s.client.buffer_out g.valid).0, e),
      record {
        has = g.has;
        plain = g.plain;
        valid = v;
        inside = g.inside;
        whole = rw t (split done c (drop s.client.response_index text) (suc n) ∙ g.whole);
        limit = omega (arith, l, g.limit);
      },
      λ (z : length (contents b) ≡ 0).
          drained s.client.buffer_out b (suc n) e (omega (arith, length-contents b v)),
      l,
    )

pub after_send_lem :
    (text total done : Text) (s : Server) (n : ℕ)
    → Sending text total done s.client
    → 1 ≤ n
    → n ≤ length (contents s.client.buffer_out)
    → (s' : Server) × (after_send (pos n) s ≡ ok (s', true))
      × Sending text total (done ++ take n (contents s.client.buffer_out)) s'.client
      × (length (contents s'.client.buffer_out) ≡ 0 → s'.client.buffer_out.write_at ≡ 0)
after_send_lem text total done s n g h k =
    let (b, e, g', w, l) = after_send_buffer text total done s n g h k in
    (sent_server n b s, e, g', w)

-- A response without NUL ends where a NUL is read.
end_of_text :
    (text : Text) (i : ℕ)
    → has_char 0 text ≡ false
    → i ≤ length text
    → (get_or text i 0 == 0) ≡ leb (length text) i
unfolding has_char
end_of_text [] i z h = ground arith
end_of_text (c ∷ s) zero z h = ground (arith, z)
end_of_text (c ∷ s) (suc i) z h = end_of_text s i (ground (arith, z)) (omega arith) ∙ ground arith

nothing_left {ℓ} : {A : Type ℓ} (xs : List A) → length xs ≡ 0 → xs ≡ []
nothing_left [] h = refl
nothing_left (x ∷ xs) h = absurd (omega arith)

-- Either there is more, and a byte can be made ready to send, or all of the text has left.
pub more_to_send_lem :
    (text total done : Text) (c : Client)
    → Sending text total done c
    → (length (contents c.buffer_out) ≡ 0 → c.buffer_out.write_at ≡ 0)
    → ((more_to_send c ≡ ok true)
        × (1
            ≤ length (contents c.buffer_out)
              + min (c.buffer_out.limit - c.buffer_out.write_at) (length text - c.response_index)))
      ⊎ ((more_to_send c ≡ ok false) × (done ≡ total))
more_to_send_lem text total done c g w = elim (Bool-cases (can_read c.buffer_out)) [
  | inl some_left ↦ inl (
    ground arith,
    omega (
      arith,
      length-contents c.buffer_out g.valid,
      ltb→lt c.buffer_out.read_at c.buffer_out.write_at some_left,
    ),
  )
  | inr empty ↦
      let z : length (contents c.buffer_out) ≡ 0 =
        ground (arith, length-contents c.buffer_out g.valid) in
      let here : leb c.response_index (length text) ≡ true = ground (arith, g.inside) in
      let at_end = end_of_text text c.response_index g.plain g.inside in
      elim (Bool-cases (leb (length text) c.response_index)) [
        | inl all ↦
            let l : length (drop c.response_index text) ≡ 0 =
              ground (arith, length-drop c.response_index text) in
            inr (
              rw (empty, g.has, here, at_end, all),
              sym (append-nil done)
                  ∙ sym (
                      ap₂ (λ x y. done ++ (x ++ y)) (nothing_left (contents c.buffer_out) z)
                        (nothing_left (drop c.response_index text) l))
                  ∙ g.whole,
            )
        | inr more ↦ inl (rw (empty, g.has, here, at_end, more), ground (arith, w z, g.limit))
      ]
]
