-- ===== src/Selector/Table.antt =====
-- What the table of descriptors holds, and what an item that is put into it keeps.
use tp_protos.Base.{
  Bool, ℕ, zero, suc, ◌≤◌, ◌<◌, ◌≡◌, refl, sym, ap, ◌∙◌, true, false, ◌&&◌, none, some, List, [],
  ◌∷◌, arith, ◌==◌, if◌then◌else◌, is_some, Bool-cases, inl, inr, ◌⊎◌, length, length-set, set,
  get_or, get_or-set_self, ok,
}
use tp_protos.Selector.{
  Selector, Item, item_used, unused_item, wants_read, wants_write, item_at,
  items_update_fdset_for_fd,
}

abbrev pub item_of {ℓ} : {H : Type ℓ} → Selector H → ℕ → Item H
item_of s i = get_or s.fds i unused_item

-- Each item that is used is at its descriptor, which the maximum does not fall below, and has a
-- handler; and the sets for `select` are those that the interests of the used items say.
pub record IsTable {ℓ} {H : Type ℓ} (s : Selector H) : Type ℓ where
  pub sized : length s.fds ≡ s.fd_size
  pub own : (i fd : ℕ) → (item_of s i).fd ≡ some fd → fd ≡ i
  pub highest : (i fd : ℕ) → (item_of s i).fd ≡ some fd → i ≤ s.max_fd
  pub handled :
      (i : ℕ)
      → (is_some (item_of s i).fd ≡ true) × (is_some (item_of s i).handler ≡ true)
        ⊎ (item_of s i ≡ unused_item)
  pub reads :
      (i : ℕ) → s.master_r i ≡ (item_used (item_of s i) && wants_read (item_of s i).interest)
  pub writes :
      (i : ℕ) → s.master_w i ≡ (item_used (item_of s i) && wants_write (item_of s i).interest)

-- An item with a handler, or one that is not used.
abbrev HasHandler {ℓ} : {H : Type ℓ} → Item H → Type ℓ
HasHandler item = (is_some item.fd ≡ true) × (is_some item.handler ≡ true) ⊎ (item ≡ unused_item)

pub HasHandler-eq {ℓ} : {H : Type ℓ} {x y : Item H} → x ≡ y → HasHandler y → HasHandler x
HasHandler-eq e (inl (u, h)) = inl (ap (λ z. is_some z.fd) e ∙ u, ap (λ z. is_some z.handler) e ∙ h)
HasHandler-eq e (inr h) = inr (e ∙ h)

pub some-none : {k : ℕ} → some k ≡ none → ⊥
some-none e = ground (arith, e)

pub get_or-set_other {ℓ} :
    {A : Type ℓ} (xs : List A) (i j : ℕ) (v d : A)
    → (j == i) ≡ false
    → get_or (set xs i v) j d ≡ get_or xs j d
get_or-set_other [] i j v d h = refl
get_or-set_other (x ∷ xs) zero zero v d h = ground (arith, h)
get_or-set_other (x ∷ xs) zero (suc j) v d h = refl
get_or-set_other (x ∷ xs) (suc i) zero v d h = refl
get_or-set_other (x ∷ xs) (suc i) (suc j) v d h = get_or-set_other xs i j v d (ground (arith, h))

pub item_at_lem {ℓ} :
    {H : Type ℓ} (items : List (Item H)) (i : ℕ)
    → i < length items
    → item_at items i ≡ ok (get_or items i unused_item)
unfolding item_at
item_at_lem [] i h = absurd (omega arith)
item_at_lem (x ∷ items) zero h = refl
item_at_lem (x ∷ items) (suc i) h = item_at_lem items i (omega arith)

-- An item at its descriptor, with the sets for `select` and a maximum.
abbrev pub placed {ℓ} : {H : Type ℓ} → ℕ → Item H → ℕ → Selector H → Selector H
placed fd item max s =
    items_update_fdset_for_fd fd item.interest (record s { fds = set s.fds fd item; max_fd = max })

pub placed_here {ℓ} :
    {H : Type ℓ} (fd : ℕ) (item : Item H) (max : ℕ) (s : Selector H)
    → fd < length s.fds
    → (i : ℕ) → (i == fd) ≡ true
    → item_of (placed fd item max s) i ≡ item
placed_here fd item max s h i at =
    let same : i ≡ fd = ground (arith, at) in
    ap (item_of (placed fd item max s)) same ∙ get_or-set_self s.fds fd item unused_item h

pub placed_away {ℓ} :
    {H : Type ℓ} (fd : ℕ) (item : Item H) (max : ℕ) (s : Selector H) (i : ℕ)
    → (i == fd) ≡ false
    → item_of (placed fd item max s) i ≡ item_of s i
placed_away fd item max s i away = get_or-set_other s.fds fd i item unused_item away

-- A used item with a handler, at its descriptor, keeps a table if the maximum covers it.
pub placed-IsTable {ℓ} :
    {H : Type ℓ} (fd : ℕ) (item : Item H) (max : ℕ) (s : Selector H)
    → IsTable s
    → fd < length s.fds
    → item.fd ≡ some fd
    → is_some item.handler ≡ true
    → s.max_fd ≤ max
    → fd ≤ max
    → IsTable (placed fd item max s)
placed-IsTable fd item max s t h used handler above covers = record {
  sized = length-set s.fds fd item ∙ t.sized;
  own = λ i k e. elim (Bool-cases (i == fd)) [
    | inl at ↦
        let same : some fd ≡ some k =
          sym used ∙ sym (ap (λ x. x.fd) (placed_here fd item max s h i at)) ∙ e in
        ground (arith, same, at)
    | inr away ↦ t.own i k (sym (ap (λ x. x.fd) (placed_away fd item max s i away)) ∙ e)
  ];
  highest = λ i k e. elim (Bool-cases (i == fd)) [
    | inl at ↦ ground (arith, at, covers)
    | inr away ↦
        let below = t.highest i k (sym (ap (λ x. x.fd) (placed_away fd item max s i away)) ∙ e) in
        omega (arith, below, above)
  ];
  handled = λ i. elim (Bool-cases (i == fd)) [
    | inl at ↦ HasHandler-eq (placed_here fd item max s h i at) (inl (ap is_some used, handler))
    | inr away ↦ HasHandler-eq (placed_away fd item max s i away) (t.handled i)
  ];
  reads = λ i. elim (Bool-cases (i == fd)) [
    | inl at ↦ placed_wants wants_read i (s.master_r i) at
    | inr away ↦
        let there = placed_away fd item max s i away in
        rw away (t.reads i ∙ sym (ap (λ x. item_used x && wants_read x.interest) there))
  ];
  writes = λ i. elim (Bool-cases (i == fd)) [
    | inl at ↦ placed_wants wants_write i (s.master_w i) at
    | inr away ↦
        let there = placed_away fd item max s i away in
        rw away (t.writes i ∙ sym (ap (λ x. item_used x && wants_write x.interest) there))
  ];
}
  where
    placed_wants :
        (wants : ℕ → Bool) (i : ℕ) (rest : Bool)
        → (i == fd) ≡ true
        → (if i == fd then wants item.interest else rest) ≡ (
            item_used (item_of (placed fd item max s) i)
            && wants (item_of (placed fd item max s) i).interest)
    placed_wants wants i rest at =
        let here = placed_here fd item max s h i at in
        let is_used : item_used item ≡ true = ap is_some used in
        rw at (
          sym (
            ap (λ x. item_used x && wants x.interest) here
            ∙ ap (λ x. x && wants item.interest) is_used))
