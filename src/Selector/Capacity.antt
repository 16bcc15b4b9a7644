-- ===== src/Selector/Capacity.antt =====
-- How the table of descriptors grows.
use tp_protos.Base.{
  ℕ, zero, suc, ◌-◌, ◌/◌, ◌^◌, ◌≤◌, ◌<◌, ◌≡◌, refl, true, false, List, [], ◌∷◌, ◌++◌, arith, ltb,
  ◌==◌, Bool-cases, inl, inr, ltb→lt, length, length-append, length-replicate, replicate, get_or,
}
use native.Mathlib.Omega.{pow_step}
use tp_protos.Selector.{
  selector_success, Selector, Item, unused_item, items_max_size, bits, next_capacity,
  ensure_capacity,
}

bits_above : (fuel n : ℕ) → n ≤ fuel → n < 2 ^ bits fuel n
unfolding bits
bits_above zero n h = omega arith
bits_above (suc fuel) n h = elim (Bool-cases (n == 0)) [
  | inl none_left ↦ rw none_left (ground (arith, none_left))
  | inr more ↦
      let rest = bits_above fuel (n / 2) (ground (arith, more)) in
      rw more (omega (arith, rest, pow_step 2 (bits fuel (n / 2))))
]

-- The capacity for a descriptor that `select` can watch is more than the descriptor.
next_capacity_above : (n : ℕ) → n ≤ items_max_size → n < next_capacity n
unfolding next_capacity
next_capacity_above n h = ground (arith, bits_above n n (omega arith))

get_or-append-replicate {ℓ} :
    {A : Type ℓ} (xs : List A) (n i : ℕ) (d : A) → get_or (xs ++ replicate n d) i d ≡ get_or xs i d
get_or-append-replicate [] zero i d = refl
get_or-append-replicate [] (suc n) zero d = refl
get_or-append-replicate [] (suc n) (suc i) d = get_or-append-replicate [] n i d
get_or-append-replicate (x ∷ xs) n zero d = refl
get_or-append-replicate (x ∷ xs) n (suc i) d = get_or-append-replicate xs n i d

-- As long as there is memory, room for a descriptor that `select` can watch is made, and what was
-- registered stays where it is.
pub ensure_capacity_lem {ℓ} :
    {H : Type ℓ} (n : ℕ) (s : Selector H)
    → n ≤ items_max_size
    → length s.fds ≡ s.fd_size
    → (items : List (Item H)) × (size : ℕ) × (ensure_capacity true n s
        ≡ (selector_success, record s { fds = items; fd_size = size }))
      × (n < size)
      × (length items ≡ size)
      × ((i : ℕ) → get_or items i unused_item ≡ get_or s.fds i unused_item)
unfolding ensure_capacity
ensure_capacity_lem {H = H} n s h sized = elim (Bool-cases (ltb n s.fd_size)) [
  | inl fits ↦ (s.fds, s.fd_size, rw fits, ltb→lt n s.fd_size fits, sized, λ i. refl)
  | inr full ↦
      let small : ltb items_max_size n ≡ false = ground (arith, h) in
      let k = next_capacity n - s.fd_size in
      let above = next_capacity_above n h in
      let behind : s.fd_size ≤ n = ground (arith, full) in
      (
        s.fds ++ replicate k unused_item,
        next_capacity n,
        rw (full, small),
        above,
        omega (
          arith,
          length-append s.fds (replicate k unused_item),
          length-replicate k (unused_item {H = H}),
          sized,
          above,
          behind,
        ),
        λ i. get_or-append-replicate s.fds k i unused_item,
      )
]
