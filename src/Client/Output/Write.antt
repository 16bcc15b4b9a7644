-- ===== src/Client/Output/Write.antt =====
-- `states_common_response_write` moves the front of what is left of a response into the buffer.
use tp_protos.Base.{
  ℕ, zero, suc, ◌+◌, ◌-◌, ◌≤◌, min, ◌≡◌, refl, sym, ◌∙◌, true, false, some, List, [], ◌∷◌, ◌++◌,
  append-nil, append_assoc, arith, length, length-drop, take, drop, has_char, Text, Bool-cases, inl,
  inr, leb, ltb→lt, ◌==◌,
}
use tp_protos.Buffer.{Buffer, can_write, write, write_adv}
use tp_protos.Buffer.Bounds.{IsValid}
use tp_protos.Buffer.Refine.{contents, write_refines}
use tp_protos.Client.Output.{write_rest, response_write}

pub write_room :
    (b b' : Buffer) (c : ℕ)
    → write b c ≡ some b'
    → can_write b ≡ true
    → (b'.limit ≡ b.limit) × (b'.write_at ≡ b.write_at + 1)
unfolding write write_adv
write_room b b' c e room = ground arith

abbrev room : Buffer → ℕ
room b = b.limit - b.write_at

write_rest_lem :
    (cs : List ℕ) (b : Buffer) (dim k : ℕ)
    → k ≡ min (room b) (length cs)
    → IsValid b
    → has_char 0 cs ≡ false
    → (b' : Buffer) × (write_rest b cs dim ≡ some (b', dim + k))
      × IsValid b'
      × (contents b' ≡ contents b ++ take k cs)
      × (b'.limit ≡ b.limit)
unfolding write_rest has_char
write_rest_lem [] b dim zero e v z = (b, ground arith, v, sym (append-nil (contents b)), refl)
write_rest_lem [] b dim (suc k) e v z = absurd (omega arith)
write_rest_lem (c ∷ cs) b dim zero e v z = elim (Bool-cases (can_write b)) [
  | inl more ↦ absurd (omega (arith, ltb→lt b.write_at b.limit more))
  | inr full ↦ (b, ground arith, v, sym (append-nil (contents b)), refl)
]
write_rest_lem (c ∷ cs) b dim (suc k) e v z = elim (Bool-cases (can_write b)) [
  | inl more ↦
      let (b₁, e₁, v₁, t₁) = write_refines b c v in
      let (l₁, w₁) = write_room b b₁ c e₁ more in
      let (b₂, e₂, v₂, t₂, l₂) =
        write_rest_lem cs b₁ (dim + 1) k (omega arith) v₁ (ground (arith, z)) in
      let n : dim + suc k ≡ dim + 1 + k = omega arith in
      let plain : (c == 0) ≡ false = ground (arith, z) in
      (
        b₂,
        rw (more, plain, e₁, n) e₂,
        v₂,
        t₂ ∙ rw (t₁, more) (append_assoc (contents b) (c ∷ []) (take k cs)),
        l₂ ∙ l₁,
      )
  | inr full ↦ absurd (ground (arith, e, full))
]

pub has_char-drop : (c n : ℕ) (s : Text) → has_char c s ≡ false → has_char c (drop n s) ≡ false
unfolding has_char
has_char-drop c zero s h = h
has_char-drop c (suc n) [] h = refl
has_char-drop c (suc n) (d ∷ s) h = has_char-drop c n s (ground (arith, h))

-- From a valid buffer and an index inside a response without NUL, `states_common_response_write`
-- appends as many of the remaining bytes as there is room for, no more, and advances the index by
-- their number.
pub response_write_lem :
    (b : Buffer) (response : Text) (dim : ℕ)
    → IsValid b
    → has_char 0 response ≡ false
    → dim ≤ length response
    → let k = min (b.limit - b.write_at) (length response - dim) in
      (b' : Buffer) × (response_write b response dim ≡ some (b', dim + k))
      × IsValid b'
      × (contents b' ≡ contents b ++ take k (drop dim response))
      × (b'.limit ≡ b.limit)
unfolding response_write
response_write_lem b response dim v z h =
    let (b', e, v', t', l') =
      write_rest_lem (drop dim response) b dim (min (room b) (length response - dim))
        (omega (arith, length-drop dim response)) v (has_char-drop 0 dim response z) in
    let inside : leb dim (length response) ≡ true = ground (arith, h) in
    (b', rw inside e, v', t', l')
