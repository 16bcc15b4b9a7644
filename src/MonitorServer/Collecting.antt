-- ===== src/MonitorServer/Collecting.antt =====
-- The loop of `monitor_client_read` that collects a request.
use tp_protos.Base.{
  ℕ, zero, suc, ◌-◌, ◌≤◌, ◌<◌, ◌≡◌, refl, ap, ◌∙◌, Bool, true, false, not, ◌&&◌, some, [], ◌∷◌,
  arith, length, length-set, set, get_or, leb, ◌==◌, if◌then◌else◌, Bool-cases, inl, inr, ◌⊎◌, ok,
}
use tp_protos.Buffer.{Buffer, can_read, read}
use tp_protos.Buffer.Bounds.{IsValid}
use tp_protos.Buffer.Refine.{contents, read_refines}
use tp_protos.MonitorServer.{MonitorClient, max_request_length}
use tp_protos.MonitorServer.Connection.{add_byte, byte_before, accumulate}

-- The request has its array, and its index is inside it, or at its end.
pub record IsCollecting (m : MonitorClient) : Type 0 where
  pub array : length m.request ≡ max_request_length
  pub inside : m.request_index ≤ max_request_length
  pub valid : IsValid m.buffer_in

add_byte-IsCollecting :
    (c : ℕ) (m : MonitorClient)
    → IsCollecting m
    → m.request_index < max_request_length
    → IsCollecting (add_byte c m)
unfolding add_byte
add_byte-IsCollecting c m v l =
    let i = m.request_index in
    let one = length-set m.request i c in
    let two = length-set (set m.request i c) (i - 1) 0 in
    let three = length-set (set (set m.request i c) (i - 1) 0) i 0 in
    elim (Bool-cases ((byte_before (set m.request i c) i == 13) && (c == 10))) [
      | inl ended ↦ rw ended (record {
        array = three ∙ two ∙ one ∙ v.array;
        inside = omega (arith, l);
        valid = v.valid;
      })
      | inr more ↦
          rw more (record { array = one ∙ v.array; inside = omega (arith, l); valid = v.valid })
    ]

add_byte_buffer : (c : ℕ) (m : MonitorClient) → (add_byte c m).buffer_in ≡ m.buffer_in
unfolding add_byte
add_byte_buffer c m =
    let i = m.request_index in
    elim (Bool-cases ((byte_before (set m.request i c) i == 13) && (c == 10))) [
      | inl ended ↦ rw ended
      | inr more ↦ rw more
    ]

-- The next byte of a buffer that has one.
next_byte :
    (b : Buffer)
    → IsValid b
    → can_read b ≡ true
    → (c : ℕ) × (b' : Buffer) × (read b ≡ some (c, b'))
      × IsValid b'
      × (contents b ≡ c ∷ contents b')
next_byte b v more =
    let (b', e, v', t, l) = read_refines b v in
    let c = get_or b.storage b.read_at 0 in
    (
      c,
      b',
      e ∙ ap (λ x. some ((if x then c else 0), b')) more,
      v',
      t ∙ ap (λ x. if x then c ∷ contents b' else []) more,
    )

going :
    (m : MonitorClient)
    → m.finished_request ≡ false
    → can_read m.buffer_in ≡ true
    → (not m.finished_request && can_read m.buffer_in) ≡ true
going m part more = rw (part, more)

-- Why the loop ended: a whole request, no byte left, or a request that is too long.
abbrev pub HasEnded : MonitorClient × Bool → Type 0
HasEnded (m, long) = (m.finished_request ≡ true) ⊎ ((can_read m.buffer_in ≡ false) ⊎ (long ≡ true))

-- With fuel for every byte that a valid input buffer holds, the loop ends by itself: a request is
-- complete, no byte is left, or the request is too long. It never writes outside the request's array.
pub accumulate_lem :
    (fuel : ℕ) (m : MonitorClient)
    → IsCollecting m
    → length (contents m.buffer_in) ≤ fuel
    → (r : MonitorClient × Bool) × (accumulate fuel m ≡ ok r) × IsCollecting r.0 × HasEnded r
unfolding accumulate
accumulate_lem zero m v h = elim (Bool-cases (can_read m.buffer_in)) [
  | inr empty ↦ ((m, false), refl, v, inr (inl empty))
  | inl more ↦
      let (c, b', e, v', t) = next_byte m.buffer_in v.valid more in
      absurd (omega (arith, h, ap length t))
]
accumulate_lem (suc fuel) m v h = elim (Bool-cases m.finished_request) [
  | inl whole ↦ ((m, false), simp (accumulate, whole), v, inl whole)
  | inr part ↦ elim (Bool-cases (can_read m.buffer_in)) [
    | inr empty ↦ ((m, false), simp (accumulate, part, empty), v, inr (inl empty))
    | inl more ↦ elim (Bool-cases (leb max_request_length m.request_index)) [
      | inl long ↦ ((m, true), rw (accumulate, going m part more, long), v, inr (inr refl))
      | inr short ↦
          let (c, b', e, v', t) = next_byte m.buffer_in v.valid more in
          let m' = record m { buffer_in = b' } in
          let v₁ : IsCollecting m' = record { array = v.array; inside = v.inside; valid = v' } in
          let v₂ = add_byte-IsCollecting c m' v₁ (ground (arith, short)) in
          let same = ap (λ b. length (contents b)) (add_byte_buffer c m') in
          let (r, a, w, n) =
            accumulate_lem fuel (add_byte c m') v₂ (omega (arith, h, same, ap length t)) in
          (r, rw (accumulate, going m part more, short, e) a, w, n)
    ]
  ]
]
