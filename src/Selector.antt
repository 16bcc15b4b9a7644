-- ===== src/Selector.antt =====
-- server/src/selector.c: the table of the descriptors that are watched. What an item's handler and
-- data are, is a parameter, and so is what its `handle_close` does to the table.
pub mod Capacity
pub mod Table
pub mod Registering
pub mod Interests
pub mod Unregistering
pub mod Iteration
pub mod Rounds
mod Tests
use tp_protos.Base.{
  ◌>>◌, defined, ℕ, zero, suc, ◌+◌, ◌-◌, ◌/◌, ◌%◌, ◌^◌, Bool, false, Option, none, some, List, [],
  ◌∷◌, ◌++◌, ltb, leb, ◌==◌, if◌then◌else◌, is_some, set, take, replicate, ℤ, pos, negsuc, Outcome,
  ok, fault, ◌>>=◌,
}

-- `selector_status`
pub data SelectorStatus : Type 0 where
  selector_success selector_enomem selector_maxfd selector_iargs selector_fdinuse selector_io :
      SelectorStatus

-- `fd_interest`: a set of bits.
abbrev pub op_read : ℕ
op_read = 1

abbrev pub op_write : ℕ
op_write = 4

-- `OP_READ & interest`, and `OP_WRITE & interest`.
abbrev pub wants_read : ℕ → Bool
wants_read interest = interest % 2 == 1

abbrev pub wants_write : ℕ → Bool
wants_write interest = interest / 4 % 2 == 1

-- `struct item`; `FD_UNUSED` is none, and handler and data are one value.
pub record Item {ℓ} (H : Type ℓ) : Type ℓ where
  pub fd : Option ℕ
  pub interest : ℕ
  pub handler : Option H

-- `struct fdselector`, less the time and what the threads share. A set of descriptors is its test.
pub record Selector {ℓ} (H : Type ℓ) : Type ℓ where
  pub fds : List (Item H)
  pub fd_size : ℕ
  pub max_fd : ℕ
  pub master_r : ℕ → Bool
  pub master_w : ℕ → Bool

-- `ITEM_USED`
abbrev pub item_used {ℓ} : {H : Type ℓ} → Item H → Bool
item_used item = is_some item.fd

-- `item_init`, of memory that is zero.
abbrev pub unused_item {ℓ} : {H : Type ℓ} → Item H
unused_item = record { fd = none; interest = 0; handler = none }

-- `ITEMS_MAX_SIZE`, which is `FD_SETSIZE`.
abbrev pub items_max_size : ℕ
items_max_size = 1024

-- The loop of `next_capacity`; `fuel` is at least the number.
unfoldable pub bits : ℕ → ℕ → ℕ
bits zero n = 0
bits (suc fuel) n = let rest = bits fuel (n / 2) in if n == 0 then 0 else suc rest

-- `next_capacity`
unfoldable pub next_capacity : ℕ → ℕ
unfolding bits
next_capacity n =
    let tmp = 2 ^ bits n n in (if ltb items_max_size tmp then items_max_size else tmp) + 1

-- `items_max_fd`, over the items up to `max_fd`.
unfoldable pub items_max_fd {ℓ} : {H : Type ℓ} → List (Item H) → ℕ → ℕ
items_max_fd [] max = max
items_max_fd (item ∷ items) max = elim item.fd [
  | none ↦ items_max_fd items max
  | some fd ↦ items_max_fd items (if ltb max fd then fd else max)
]

-- `FD_SET` and `FD_CLR`
abbrev pub put : ℕ → Bool → (ℕ → Bool) → ℕ → Bool
put fd there s i = if i == fd then there else s i

-- `items_update_fdset_for_fd`
abbrev pub items_update_fdset_for_fd {ℓ} : {H : Type ℓ} → ℕ → ℕ → Selector H → Selector H
items_update_fdset_for_fd fd interest s = record s {
  master_r = put fd (wants_read interest) s.master_r;
  master_w = put fd (wants_write interest) s.master_w;
}

-- `ensure_capacity`; `memory` is whether `calloc` or `realloc` succeeds.
unfoldable pub ensure_capacity {ℓ} :
    {H : Type ℓ} → Bool → ℕ → Selector H → SelectorStatus × Selector H
unfolding next_capacity
ensure_capacity memory n s =
    if ltb n s.fd_size
    then (selector_success, s)
    else if ltb items_max_size n
    then (selector_maxfd, s)
    else if memory
    then (
      selector_success,
      record s {
        fds = s.fds ++ replicate (next_capacity n - s.fd_size) unused_item;
        fd_size = next_capacity n;
      },
    )
    else (selector_enomem, s)

abbrev pub when_success {ℓ} : {H : Type ℓ} → SelectorStatus × Selector H → Option (Selector H)
when_success (selector_success, s) = some s
when_success (_, s) = none

-- `selector_new`, where NULL is none.
unfoldable pub selector_new {ℓ} : {H : Type ℓ} → Bool → Bool → ℕ → Option (Selector H)
unfolding ensure_capacity
selector_new malloc memory initial_elements =
    if malloc
    then when_success (
        ensure_capacity memory initial_elements (record {
          fds = [];
          fd_size = 0;
          max_fd = 0;
          master_r = λ i. false;
          master_w = λ i. false;
        }))
    else none

-- `s->fds + fd` of an index that may lie behind the array.
unfoldable pub item_at {ℓ} : {H : Type ℓ} → List (Item H) → ℕ → Outcome (Item H)
item_at [] i = fault
item_at (item ∷ items) zero = ok item
item_at (item ∷ items) (suc i) = item_at items i

-- `selector_register` from the registration on.
abbrev pub registered {ℓ} :
    {H : Type ℓ} → ℕ → H → ℕ → SelectorStatus × Selector H → Outcome (SelectorStatus × Selector H)
registered fd handler interest (selector_success, s) = item_at s.fds fd >>= λ item.
    if item_used item
    then ok (selector_fdinuse, s)
    else ok (
      selector_success,
      items_update_fdset_for_fd fd interest (record s {
        fds = set s.fds fd (record { fd = some fd; interest = interest; handler = some handler });
        max_fd = if ltb s.max_fd fd then fd else s.max_fd;
      }),
    )
registered fd handler interest (status, s) = ok (status, s)

-- `selector_register` of a selector that is not NULL.
unfoldable pub register {ℓ} :
    {H : Type ℓ} → Bool → ℤ → Option H → ℕ → Selector H → Outcome (SelectorStatus × Selector H)
unfolding ensure_capacity item_at
register memory (negsuc n) handler interest s = ok (selector_iargs, s)
register memory (pos fd) none interest s = ok (selector_iargs, s)
register memory (pos fd) (some handler) interest s =
    if leb items_max_size fd
    then ok (selector_iargs, s)
    else registered fd handler interest
        (if ltb s.fd_size fd then ensure_capacity memory fd s else (selector_success, s))

-- The item of a descriptor that is registered; none is `SELECTOR_IARGS`.
abbrev pub used_item {ℓ} : {H : Type ℓ} → Selector H → ℕ → Outcome (Option (Item H))
used_item s fd = item_at s.fds fd >>= λ item. ok (if item_used item then some item else none)

-- `selector_unregister_fd` behind `handle_close`, where `fd` is what the item has then.
abbrev pub removed {ℓ} : {H : Type ℓ} → ℕ → ℕ → Selector H → Selector H
removed i fd s =
    let items = set s.fds i unused_item in
    items_update_fdset_for_fd fd 0
      (record s { fds = items; max_fd = items_max_fd (take (s.max_fd + 1) items) 0 })

-- `FD_CLR` of a descriptor that the item has no more, which is -1 then, is undefined.
abbrev pub remove_used {ℓ} :
    {H : Type ℓ} → ℕ → Option ℕ → Selector H → Outcome (SelectorStatus × Selector H)
remove_used i none s = fault
remove_used i (some fd) s = ok (selector_success, removed i fd s)

-- The pointer to the item is used again, so that the array must be where it was.
abbrev pub remove_item {ℓ} :
    {H : Type ℓ} → ℕ → ℕ → Selector H → Outcome (SelectorStatus × Selector H)
remove_item size i s =
    defined (s.fd_size == size) >> (item_at s.fds i >>= λ item. remove_used i item.fd s)

-- `selector_unregister_fd`; `close` is the call of `handle_close`, if there is one.
unfoldable pub unregister_fd {ℓ} :
    {H : Type ℓ}
    → (Item H → Selector H → Outcome (Selector H))
    → ℤ
    → Selector H
    → Outcome (SelectorStatus × Selector H)
unfolding item_at items_max_fd
unregister_fd close (negsuc n) s = ok (selector_iargs, s)
unregister_fd close (pos fd) s =
    if leb items_max_size fd
    then ok (selector_iargs, s)
    else used_item s fd >>= λ found. elim found [
      | none ↦ ok (selector_iargs, s)
      | some item ↦ close item s >>= λ s'. remove_item s.fd_size fd s'
    ]

-- `selector_set_interest`
unfoldable pub set_interest {ℓ} :
    {H : Type ℓ} → ℤ → ℕ → Selector H → Outcome (SelectorStatus × Selector H)
unfolding item_at
set_interest (negsuc n) interest s = ok (selector_iargs, s)
set_interest (pos fd) interest s =
    if leb items_max_size fd
    then ok (selector_iargs, s)
    else used_item s fd >>= λ found. elim found [
      | none ↦ ok (selector_iargs, s)
      | some item ↦ ok (
        selector_success,
        items_update_fdset_for_fd fd interest
            (record s { fds = set s.fds fd (record item { interest = interest }) }),
      )
    ]
