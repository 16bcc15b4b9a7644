-- ===== src/Selector/Unregistering.antt =====
-- What `selector_unregister_fd` leaves, and the maximum that it computes anew.
use tp_protos.Base.{
  ℕ, zero, suc, ◌+◌, ◌≤◌, ◌<◌, ◌≡◌, refl, sym, ap, ◌∙◌, true, false, ◌&&◌, none, some, List, [],
  ◌∷◌, arith, ltb, leb, ◌==◌, if◌then◌else◌, Bool-cases, inl, inr, length, length-set, set, take,
  get_or, get_or-set_self, pos, Outcome, ok, fault, Option-cases, ◌⊎◌,
}
use tp_protos.Selector.{
  selector_success, Selector, Item, item_used, unused_item, wants_read, wants_write, items_max_size,
  items_max_fd, removed, remove_used, unregister_fd,
}
use tp_protos.Selector.Interests.{used_inside}
use tp_protos.Selector.Table.{item_of, IsTable, HasHandler-eq, get_or-set_other, item_at_lem}

max_not_below {ℓ} : {H : Type ℓ} (items : List (Item H)) (max : ℕ) → max ≤ items_max_fd items max
unfolding items_max_fd
max_not_below [] max = omega arith
max_not_below (item ∷ items) max = elim (Option-cases item.fd) [
  | inl unused ↦ rw unused (max_not_below items max)
  | inr (fd, used) ↦ rw used (ground (arith, max_not_below items (if ltb max fd then fd else max)))
]

-- No used item has a descriptor above the maximum.
max_covers {ℓ} :
    {H : Type ℓ} (items : List (Item H)) (max i fd : ℕ)
    → (get_or items i unused_item).fd ≡ some fd
    → fd ≤ items_max_fd items max
unfolding items_max_fd
max_covers [] max i fd e = ground arith
max_covers (item ∷ items) max zero fd e =
    rw e (ground (arith, max_not_below items (if ltb max fd then fd else max)))
max_covers (item ∷ items) max (suc i) fd e = elim (Option-cases item.fd) [
  | inl unused ↦ rw unused (max_covers items max i fd e)
  | inr (k, used) ↦ rw used (max_covers items (if ltb max k then k else max) i fd e)
]

get_or-take {ℓ} :
    {A : Type ℓ} (xs : List A) (n i : ℕ) (d : A) → i < n → get_or (take n xs) i d ≡ get_or xs i d
get_or-take xs zero i d h = absurd (omega arith)
get_or-take [] (suc n) i d h = refl
get_or-take (x ∷ xs) (suc n) zero d h = refl
get_or-take (x ∷ xs) (suc n) (suc i) d h = get_or-take xs n i d (omega arith)

removed_here {ℓ} :
    {H : Type ℓ} (fd : ℕ) (s : Selector H)
    → fd < length s.fds
    → (i : ℕ) → (i == fd) ≡ true
    → item_of (removed fd fd s) i ≡ unused_item
removed_here fd s h i at =
    let same : i ≡ fd = ground (arith, at) in
    ap (item_of (removed fd fd s)) same ∙ get_or-set_self s.fds fd unused_item unused_item h

removed_away {ℓ} :
    {H : Type ℓ} (fd : ℕ) (s : Selector H) (i : ℕ)
    → (i == fd) ≡ false
    → item_of (removed fd fd s) i ≡ item_of s i
removed_away fd s i away = get_or-set_other s.fds fd i unused_item unused_item away

removed-IsTable {ℓ} :
    {H : Type ℓ} (fd : ℕ) (s : Selector H)
    → IsTable s
    → fd < length s.fds
    → IsTable (removed fd fd s)
removed-IsTable {H = H} fd s t h = record {
  sized = length-set s.fds fd unused_item ∙ t.sized;
  own = λ i k e. kept_own i k e;
  highest = λ i k e.
      let (away, old) = kept i k e in
      let inside : i < s.max_fd + 1 = omega (arith, t.highest i k old) in
      let below = max_covers (take (s.max_fd + 1) (set s.fds fd unused_item)) 0 i k (
        ap (λ x. x.fd) (get_or-take (set s.fds fd unused_item) (s.max_fd + 1) i unused_item inside)
        ∙ e) in
      omega (arith, below, t.own i k old);
  handled = λ i. elim (Bool-cases (i == fd)) [
    | inl at ↦ inr (removed_here fd s h i at)
    | inr away ↦ HasHandler-eq (removed_away fd s i away) (t.handled i)
  ];
  reads = λ i. elim (Bool-cases (i == fd)) [
    | inl at ↦
        rw at (sym (ap (λ x. item_used x && wants_read x.interest) (removed_here fd s h i at)))
    | inr away ↦ rw away (
        t.reads i ∙ sym (ap (λ x. item_used x && wants_read x.interest) (removed_away fd s i away)))
  ];
  writes = λ i. elim (Bool-cases (i == fd)) [
    | inl at ↦
        rw at (sym (ap (λ x. item_used x && wants_write x.interest) (removed_here fd s h i at)))
    | inr away ↦ rw away (
        t.writes i
        ∙ sym (ap (λ x. item_used x && wants_write x.interest) (removed_away fd s i away)))
  ];
}
  where
    kept :
        (i k : ℕ)
        → (item_of (removed fd fd s) i).fd ≡ some k
        → ((i == fd) ≡ false) × ((item_of s i).fd ≡ some k)
    kept i k e = elim (Bool-cases (i == fd)) [
      | inl at ↦
          let gone : none ≡ some k = sym (ap (λ x. x.fd) (removed_here fd s h i at)) ∙ e in
          absurd (ground (arith, gone))
      | inr away ↦ (away, sym (ap (λ x. x.fd) (removed_away fd s i away)) ∙ e)
    ]

    kept_own : (i k : ℕ) → (item_of (removed fd fd s) i).fd ≡ some k → k ≡ i
    kept_own i k e = t.own i k (kept i k e).1

-- If `handle_close` leaves a table of the same size, then a registered descriptor is removed from it
-- unless the call has unregistered it: the table stays one, its maximum covers the rest, and every other
-- item is what it was. If the call has unregistered it, what follows is undefined.
pub unregister_fd_lem {ℓ} :
    {H : Type ℓ} (close : Item H → Selector H → Outcome (Selector H)) (fd : ℕ) (s s₁ : Selector H)
    → IsTable s
    → fd < items_max_size
    → (item_of s fd).fd ≡ some fd
    → close (item_of s fd) s ≡ ok s₁
    → IsTable s₁
    → s₁.fd_size ≡ s.fd_size
    → ((item_of s₁ fd).fd ≡ none) × (unregister_fd close (pos fd) s ≡ fault)
      ⊎ (s' : Selector H) × (unregister_fd close (pos fd) s ≡ ok (selector_success, s'))
        × IsTable s'
        × (s'.fd_size ≡ s.fd_size)
        × (item_of s' fd ≡ unused_item)
        × ((i : ℕ) → (i == fd) ≡ false → item_of s' i ≡ item_of s₁ i)
unfolding unregister_fd
unregister_fd_lem close fd s s₁ t small used e t₁ size =
    let valid : leb items_max_size fd ≡ false = ground (arith, small) in
    let inside = used_inside s.fds fd fd used in
    let found = item_at_lem s.fds fd inside in
    let h : fd < length s₁.fds = omega (arith, inside, t.sized, t₁.sized, size) in
    let again = item_at_lem s₁.fds fd h in
    let unmoved : (s₁.fd_size == s.fd_size) ≡ true = ground (arith, size) in
    let step : unregister_fd close (pos fd) s ≡ remove_used fd (item_of s₁ fd).fd s₁ =
      rw (valid, found, used, e, unmoved, again) in
    elim (Option-cases (item_of s₁ fd).fd) [
      | inl gone ↦ inl (gone, step ∙ ap (λ o. remove_used fd o s₁) gone)
      | inr (k, there) ↦
          let same : fd ≡ k = sym (t₁.own fd k there) in
          let kept : (item_of s₁ fd).fd ≡ some fd = there ∙ ap some (sym same) in
          inr (
            removed fd fd s₁,
            step ∙ ap (λ o. remove_used fd o s₁) kept,
            removed-IsTable fd s₁ t₁ h,
            size,
            removed_here fd s₁ h fd (ground arith),
            λ i away. removed_away fd s₁ i away,
          )
    ]
