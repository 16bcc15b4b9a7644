-- ===== src/Selector/Registering.antt =====
-- What the table of descriptors holds, and that a registration keeps it.
use tp_protos.Base.{
  ℕ, ◌≤◌, ◌<◌, ◌≡◌, refl, sym, ap, ◌∙◌, true, false, ◌&&◌, none, some, List, [], arith, ltb, leb,
  ◌==◌, if◌then◌else◌, is_some, Bool-cases, inl, inr, length, get_or, pos, ok,
}
use tp_protos.Selector.{
  selector_success, Selector, Item, item_used, unused_item, wants_read, wants_write, items_max_size,
  register, ensure_capacity, selector_new,
}
use tp_protos.Selector.Capacity.{ensure_capacity_lem}
use tp_protos.Selector.Table.{
  item_of, IsTable, HasHandler-eq, some-none, item_at_lem, placed, placed_here, placed_away,
  placed-IsTable,
}

-- The selector behind a registration in a table with room for it.
abbrev entered {ℓ} : {H : Type ℓ} → ℕ → H → ℕ → Selector H → Selector H
entered fd handler interest s =
    placed fd (record { fd = some fd; interest = interest; handler = some handler })
      (if ltb s.max_fd fd then fd else s.max_fd) s

entered-IsTable {ℓ} :
    {H : Type ℓ} (fd : ℕ) (handler : H) (interest : ℕ) (s : Selector H)
    → IsTable s
    → fd < length s.fds
    → IsTable (entered fd handler interest s)
entered-IsTable fd handler interest s t h =
    placed-IsTable fd (record { fd = some fd; interest = interest; handler = some handler })
      (if ltb s.max_fd fd then fd else s.max_fd) s t h refl refl (ground arith) (ground arith)

-- More memory keeps a table.
grown-IsTable {ℓ} :
    {H : Type ℓ} (s : Selector H) (items : List (Item H)) (size : ℕ)
    → IsTable s
    → length items ≡ size
    → ((i : ℕ) → get_or items i unused_item ≡ get_or s.fds i unused_item)
    → IsTable (record s { fds = items; fd_size = size })
grown-IsTable s items size t l same = record {
  sized = l;
  own = λ i k e. t.own i k (sym (ap (λ x. x.fd) (same i)) ∙ e);
  highest = λ i k e. t.highest i k (sym (ap (λ x. x.fd) (same i)) ∙ e);
  handled = λ i. HasHandler-eq (same i) (t.handled i);
  reads = λ i. t.reads i ∙ sym (ap (λ x. item_used x && wants_read x.interest) (same i));
  writes = λ i. t.writes i ∙ sym (ap (λ x. item_used x && wants_write x.interest) (same i));
}

room_made {ℓ} :
    {H : Type ℓ} (fd : ℕ) (s : Selector H)
    → IsTable s
    → fd < items_max_size
    → (fd == s.fd_size) ≡ false
    → (s₁ : Selector H) × ((if ltb s.fd_size fd
          then ensure_capacity true fd s
          else (selector_success, s))
        ≡ (selector_success, s₁))
      × IsTable s₁
      × (fd < length s₁.fds)
      × ((i : ℕ) → item_of s₁ i ≡ item_of s i)
room_made fd s t small other = elim (Bool-cases (ltb s.fd_size fd)) [
  | inl beyond ↦
      let (items, size, e, above, l, same) =
        ensure_capacity_lem fd s (omega (arith, small)) t.sized in
      (
        record s { fds = items; fd_size = size },
        rw beyond e,
        grown-IsTable s items size t l same,
        omega (arith, above, l),
        same,
      )
  | inr within ↦ (s, rw within, t, ground (arith, within, other, t.sized), λ i. refl)
]

-- As long as there is memory, a descriptor that is not registered, that `select` can watch and that is
-- not the size of the array, is entered: the table stays one, and every other item what it was.
pub register_lem {ℓ} :
    {H : Type ℓ} (fd : ℕ) (handler : H) (interest : ℕ) (s : Selector H)
    → IsTable s
    → fd < items_max_size
    → (fd == s.fd_size) ≡ false
    → (item_of s fd).fd ≡ none
    → (s' : Selector H) × (register true (pos fd) (some handler) interest s
        ≡ ok (selector_success, s'))
      × IsTable s'
      × (item_of s' fd ≡ record { fd = some fd; interest = interest; handler = some handler })
      × ((i : ℕ) → (i == fd) ≡ false → item_of s' i ≡ item_of s i)
unfolding register
register_lem fd handler interest s t small other free =
    let (s₁, e, t₁, inside, same) = room_made fd s t small other in
    let valid : leb items_max_size fd ≡ false = ground (arith, small) in
    let unused = ap (λ x. is_some x.fd) (same fd) ∙ ap is_some free in
    let found = item_at_lem s₁.fds fd inside in
    (
      entered fd handler interest s₁,
      rw (valid, e, found, unused),
      entered-IsTable fd handler interest s₁ t₁ inside,
      placed_here fd _ (if ltb s₁.max_fd fd then fd else s₁.max_fd) s₁ inside fd (ground arith),
      λ i away. placed_away fd _ (if ltb s₁.max_fd fd then fd else s₁.max_fd) s₁ i away ∙ same i,
    )

empty-IsTable {ℓ} :
    {H : Type ℓ} (s : Selector H)
    → s.fds ≡ []
    → s.fd_size ≡ 0
    → ((i : ℕ) → s.master_r i ≡ false)
    → ((i : ℕ) → s.master_w i ≡ false)
    → IsTable s
empty-IsTable s none_there size no_reads no_writes =
    let unused = λ (i : ℕ). ap (λ xs. get_or xs i unused_item) none_there in
    record {
      sized = ap length none_there ∙ sym size;
      own = λ i k e. absurd (some-none (sym e ∙ ap (λ x. x.fd) (unused i)));
      highest = λ i k e. absurd (some-none (sym e ∙ ap (λ x. x.fd) (unused i)));
      handled = λ i. inr (unused i);
      reads = λ i. no_reads i ∙ sym (ap (λ x. item_used x && wants_read x.interest) (unused i));
      writes = λ i. no_writes i ∙ sym (ap (λ x. item_used x && wants_write x.interest) (unused i));
    }

-- As long as there is memory, a new selector is an empty table with more items than it was asked for,
-- if `select` can watch as many.
pub selector_new_lem {ℓ} :
    {H : Type ℓ} (n : ℕ)
    → n ≤ items_max_size
    → (s : Selector H) × (selector_new true true n ≡ some s)
      × IsTable s
      × (n < s.fd_size)
      × ((i : ℕ) → item_of s i ≡ unused_item)
unfolding selector_new
selector_new_lem {H = H} n h =
    let empty : Selector H = record {
      fds = [];
      fd_size = 0;
      max_fd = 0;
      master_r = λ i. false;
      master_w = λ i. false;
    } in
    let (items, size, e, above, l, same) = ensure_capacity_lem n empty h refl in
    (
      record empty { fds = items; fd_size = size },
      rw e,
      grown-IsTable empty items size (empty-IsTable empty refl refl (λ i. refl) (λ i. refl)) l same,
      above,
      same,
    )
