-- ===== src/Selector/Interests.antt =====
-- `selector_set_interest` of a registered descriptor.
use tp_protos.Base.{
  ℕ, zero, suc, ◌<◌, ◌≡◌, refl, sym, ap, ◌∙◌, true, false, some, List, [], ◌∷◌, arith, inl, inr,
  is_some, leb, ◌==◌, length, get_or, pos, ok,
}
use tp_protos.Selector.{selector_success, Selector, Item, unused_item, items_max_size, set_interest}
use tp_protos.Selector.Table.{
  item_of, IsTable, item_at_lem, some-none, placed, placed_here, placed_away, placed-IsTable,
}

-- A used item is inside the array.
pub used_inside {ℓ} :
    {H : Type ℓ} (items : List (Item H)) (i k : ℕ)
    → (get_or items i unused_item).fd ≡ some k
    → i < length items
used_inside [] i k e = absurd (some-none (sym e))
used_inside (x ∷ items) zero k e = omega arith
used_inside (x ∷ items) (suc i) k e = omega (arith, used_inside items i k e)

-- A used item has a handler.
pub used-handled {ℓ} :
    {H : Type ℓ} (s : Selector H) (i k : ℕ)
    → IsTable s
    → (item_of s i).fd ≡ some k
    → is_some (item_of s i).handler ≡ true
used-handled s i k t e = elim (t.handled i) [
  | inl (_, h) ↦ h
  | inr unused ↦ absurd (some-none (sym e ∙ ap (λ x. x.fd) unused))
]

-- A registered descriptor gets the interest: the table stays one, of the same size, and every other
-- item what it was.
pub set_interest_lem {ℓ} :
    {H : Type ℓ} (fd interest : ℕ) (s : Selector H)
    → IsTable s
    → fd < items_max_size
    → (item_of s fd).fd ≡ some fd
    → (s' : Selector H) × (set_interest (pos fd) interest s ≡ ok (selector_success, s'))
      × IsTable s'
      × (s'.fd_size ≡ s.fd_size)
      × (item_of s' fd ≡ record (item_of s fd) { interest = interest })
      × ((i : ℕ) → (i == fd) ≡ false → item_of s' i ≡ item_of s i)
unfolding set_interest
set_interest_lem {H = H} fd interest s t small used =
    let item : Item H = record (item_of s fd) { interest = interest } in
    let inside = used_inside s.fds fd fd used in
    let valid : leb items_max_size fd ≡ false = ground (arith, small) in
    let found = item_at_lem s.fds fd inside in
    (
      placed fd item s.max_fd s,
      rw (valid, found, ap is_some used),
      placed-IsTable fd item s.max_fd s t inside used (used-handled s fd fd t used) (omega arith)
          (t.highest fd fd used),
      refl,
      placed_here fd item s.max_fd s inside fd (ground arith),
      λ i away. placed_away fd item s.max_fd s i away,
    )
