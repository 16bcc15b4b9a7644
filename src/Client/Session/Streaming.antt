-- ===== src/Client/Session/Streaming.antt =====
-- `states_common_file_write` copies a message that fits into the buffer, and the write handler puts
-- the terminator behind it.
use tp_protos.Base.{
  ℕ, zero, suc, ◌+◌, ◌-◌, ◌<◌, ◌≡◌, refl, sym, ap, ◌∙◌, true, false, ◌==◌, List, [], ◌∷◌, ◌++◌,
  append-nil, append_assoc, arith, length, has_char, if◌then◌else◌, ok,
}
use tp_protos.Buffer.{Buffer, can_write}
use tp_protos.Buffer.Bounds.{IsValid}
use tp_protos.Buffer.Refine.{contents, write_refines}
use tp_protos.Client.{Stream}
use tp_protos.Client.Output.Write.{write_room}
use tp_protos.Client.Session.{file_write}

-- A stream with these bytes left, read without an error.
abbrev pub stream : List ℕ → Stream
stream bytes = record { rest = bytes; ends = true; eof = false }

abbrev pub ended_stream : Stream
ended_stream = record { rest = []; ends = true; eof = true }

pub file_write_lem :
    (bytes : List ℕ) (fuel : ℕ) (b : Buffer) (dim : ℕ)
    → IsValid b
    → has_char 255 bytes ≡ false
    → length bytes < b.limit - b.write_at
    → length bytes < fuel
    → (b' : Buffer) × (file_write fuel b (stream bytes) dim
        ≡ ok (b', ended_stream, dim + length bytes, false))
      × IsValid b'
      × (contents b' ≡ contents b ++ bytes)
      × (b'.limit ≡ b.limit)
unfolding file_write has_char
file_write_lem [] zero b dim v z r h = absurd (omega arith)
file_write_lem (c ∷ cs) zero b dim v z r h = absurd (omega arith)
file_write_lem [] (suc fuel) b dim v z r h =
    let room : can_write b ≡ true = ground (arith, r) in
    let same : dim + 0 ≡ dim = omega arith in
    (b, rw (file_write, room, same), v, sym (append-nil (contents b)), refl)
file_write_lem (c ∷ cs) (suc fuel) b dim v z r h =
    let room : can_write b ≡ true = ground (arith, r) in
    let plain : (c == 255) ≡ false = ground (arith, z) in
    let (b₁, e, v₁, t) = write_refines b c v in
    let (l, w) = write_room b b₁ c e room in
    let (b', e', v', t', l') =
      file_write_lem cs fuel b₁ (dim + 1) v₁ (ground (arith, z)) (omega (arith, r, l, w))
        (omega (arith, h)) in
    let reached : dim + 1 + length cs ≡ dim + suc (length cs) = omega arith in
    (
      b',
      rw (file_write, room, plain, e) (e' ∙ ap (λ x. ok (b', ended_stream, x, false)) reached),
      v',
      t'
          ∙ ap (λ x. x ++ cs) (t ∙ ap (λ x. if x then contents b ++ c ∷ [] else contents b) room)
          ∙ append_assoc (contents b) (c ∷ []) cs,
      l' ∙ l,
    )
