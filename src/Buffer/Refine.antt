-- ===== src/Buffer/Refine.antt =====
-- A valid buffer is the queue of the bytes between its two pointers.
use tp_protos.Base.{
  ℕ, zero, suc, ◌+◌, ◌-◌, ◌≤◌, ◌≡◌, refl, sym, ◌∙◌, true, some, List, [], ◌∷◌, ◌++◌, pos, arith,
  length, length-set, length-take, length-drop, set, take, drop, if◌then◌else◌, get_or, window-set,
  window-cons, drop-drop, drop-take, take-append_left, Bool-cases, inl, inr, ◌==◌, ltb→lt,
}
use tp_protos.Buffer.{
  Buffer, can_read, can_write, write_ptr, read_ptr, read_adv, compact, read, write,
}
use tp_protos.Buffer.Bounds.{IsValid, compact-IsValid}

abbrev pub contents : Buffer → List ℕ
contents b = take (b.write_at - b.read_at) (drop b.read_at b.storage)

pub length-contents : (b : Buffer) → IsValid b → length (contents b) ≡ b.write_at - b.read_at
length-contents b v = omega (
  arith,
  length-take (b.write_at - b.read_at) (drop b.read_at b.storage),
  length-drop b.read_at b.storage,
)

window_zero {ℓ} : {A : Type ℓ} (n : ℕ) (xs : List A) → n ≡ 0 → take n xs ≡ []
window_zero zero xs h = refl
window_zero (suc n) xs h = absurd (omega arith)

-- `buffer_compact` moves the bytes that are left to the front and loses none.
pub contents-compact :
    (b : Buffer)
    → IsValid b
    → (contents (compact b) ≡ contents b)
      × ((compact b).read_at ≡ 0)
      × ((compact b).write_at ≡ b.write_at - b.read_at)
      × ((compact b).limit ≡ b.limit)
unfolding compact
contents-compact b v = (front, ground arith, ground arith, ground arith)
  where
    moved :
        take (b.write_at - b.read_at) (contents b ++ drop (b.write_at - b.read_at) b.storage)
        ≡ contents b
    moved =
        take-append_left (contents b) (drop (b.write_at - b.read_at) b.storage)
          (b.write_at - b.read_at) (sym (length-contents b v))

    front : contents (compact b) ≡ contents b
    front = ground (
      arith,
      moved,
      window_zero (b.write_at - b.read_at) (drop b.read_at b.storage),
      window_zero 0 (drop 0 b.storage),
    )

-- From a valid buffer, `buffer_write` appends the byte while there is room and changes nothing
-- otherwise, and keeps the invariant.
pub write_refines :
    (b : Buffer) (c : ℕ)
    → IsValid b
    → (b' : Buffer) × (write b c ≡ some b')
      × IsValid b'
      × (contents b' ≡ (if can_write b then contents b ++ c ∷ [] else contents b))
unfolding write
write_refines b c v = elim (Bool-cases (can_write b)) [
  | inl room ↦ (
    record b { storage = set b.storage b.write_at c; write_at = b.write_at + 1 },
    ground arith,
    ground (arith, length-set b.storage b.write_at c),
    rw room (extended room),
  )
  | inr full ↦ (b, ground arith, v, rw full)
]
  where
    extended :
        can_write b ≡ true
        → take (b.write_at + 1 - b.read_at) (drop b.read_at (set b.storage b.write_at c))
          ≡ contents b ++ c ∷ []
    extended room =
        let grows : b.write_at + 1 - b.read_at ≡ suc (b.write_at - b.read_at) = omega arith in
        rw grows (
          window-set b.storage b.read_at (b.write_at - b.read_at) b.write_at c (omega arith)
            (omega (arith, ltb→lt b.write_at b.limit room)))

advanced : Buffer → ℕ → Buffer
advanced b n = record b { read_at = b.read_at + n }

-- From a valid buffer, `buffer_read_adv` of at most as many bytes as it holds drops these from the
-- queue, and keeps the invariant and the limit.
pub read_adv_refines :
    (b : Buffer) (n : ℕ)
    → IsValid b
    → n ≤ length (contents b)
    → (b' : Buffer) × (read_adv b (pos n) ≡ some b')
      × IsValid b'
      × (contents b' ≡ drop n (contents b))
      × (b'.limit ≡ b.limit)
unfolding read_adv advanced
read_adv_refines b n v h = elim (Bool-cases ((b.read_at + n) == b.write_at)) [
  | inl all ↦ (
    compact (advanced b n),
    ground (arith, length-contents b v),
    compact-IsValid (advanced b n) v',
    (contents-compact (advanced b n) v').0 ∙ rest,
    (contents-compact (advanced b n) v').3,
  )
  | inr some_left ↦ (advanced b n, ground (arith, length-contents b v), v', rest, refl)
]
  where
    v' : IsValid (advanced b n)
    v' = omega (arith, length-contents b v)

    rest : contents (advanced b n) ≡ drop n (contents b)
    rest =
        let e : b.write_at - (b.read_at + n) ≡ b.write_at - b.read_at - n = omega arith in
        rw (
          drop-take n (b.write_at - b.read_at) (b.write_at - (b.read_at + n))
              (drop b.read_at b.storage) e,
          drop-drop n b.read_at (b.read_at + n) b.storage (omega arith),
        )

-- `buffer_read` takes the oldest byte off the queue, and answers 0 when the queue is empty.
pub read_refines :
    (b : Buffer)
    → IsValid b
    → (b' : Buffer) × (read b ≡ some ((if can_read b then get_or b.storage b.read_at 0 else 0), b'))
      × IsValid b'
      × (contents b ≡ (if can_read b then get_or b.storage b.read_at 0 ∷ contents b' else []))
      × (b'.limit ≡ b.limit)
unfolding read
read_refines b v = elim (Bool-cases (can_read b)) [
  | inl more ↦ (
    (taken more).0,
    rw (more, (taken more).1),
    (taken more).2,
    rw (more, (taken more).3) (first more),
    (taken more).4,
  )
  | inr empty ↦ (
    b,
    rw empty,
    v,
    rw empty (ground (arith, window_zero (b.write_at - b.read_at) (drop b.read_at b.storage))),
    refl,
  )
]
  where
    taken :
        can_read b ≡ true
        → (b' : Buffer) × (read_adv b (pos 1) ≡ some b')
          × IsValid b'
          × (contents b' ≡ drop 1 (contents b))
          × (b'.limit ≡ b.limit)
    taken more =
        read_adv_refines b 1 v
          (omega (arith, length-contents b v, ltb→lt b.read_at b.write_at more))

    first : can_read b ≡ true → contents b ≡ get_or b.storage b.read_at 0 ∷ drop 1 (contents b)
    first more =
        let n = b.write_at - b.read_at - 1 in
        let e : b.write_at - b.read_at ≡ suc n = omega (arith, ltb→lt b.read_at b.write_at more) in
        let w : take (suc n) (drop b.read_at b.storage)
            ≡ get_or b.storage b.read_at 0 ∷ take n (drop (suc b.read_at) b.storage) =
          window-cons b.storage b.read_at n 0 (omega (arith, ltb→lt b.read_at b.write_at more)) in
        rw (e, w)

-- `buffer_read_ptr` offers all the bytes of the queue, and `buffer_write_ptr` all the room up to
-- the limit; neither fails its `assert`.
pub ptr_refines :
    (b : Buffer)
    → IsValid b
    → (read_ptr b ≡ some (b.read_at, length (contents b)))
      × (write_ptr b ≡ some (b.write_at, b.limit - b.write_at))
unfolding read_ptr write_ptr
ptr_refines b v = ground (arith, length-contents b v)
