-- ===== src/Selector/Iteration.antt =====
-- server/src/selector.c: how the results of `pselect` reach the handlers. A handler changes a world of
-- its own and the selector, on which it registers and unregisters descriptors.
use tp_protos.Base.{
  ℕ, zero, suc, ◌+◌, Bool, true, false, ◌&&◌, Option, none, some, ◌==◌, List, [], ◌∷◌, Outcome, ok,
  fault, ◌>>=◌, ◌>>◌, defined,
}
use tp_protos.Client.{defined_value}
use tp_protos.Selector.{Selector, Item, item_at, wants_read, wants_write}

-- A call of a handler for a descriptor.
abbrev pub Call : Type 0 → Type 0 → Type 0
Call H W = ℕ → W × Selector H → Outcome (W × Selector H)

-- `fd_handler`: the calls that a handler with its data stands for, where NULL is none.
pub record FdHandler (H W : Type 0) : Type 0 where
  pub handle_read : H → Option (Call H W)
  pub handle_write : H → Option (Call H W)
  pub handle_block : H → Call H W

-- A failed `assert` for an event without a handler, and else its call.
abbrev pub run_handler : {H W : Type 0} → Option (Call H W) → Call H W
run_handler none fd ws = fault
run_handler (some call) fd ws = call fd ws

-- One of the two tests of the loop, with its call.
abbrev pub run_if : {H W : Type 0} → Bool → (H → Option (Call H W)) → Item H → Call H W
run_if false handle item fd ws = ok ws
run_if true handle item fd ws = defined_value item.handler >>= λ h. run_handler (handle h) fd ws

-- The test of `slave_w` with its call. The pointer to the item is used again, so that the array must be
-- where it was: `realloc` moves it when it grows.
abbrev pub run_write :
    {H W : Type 0} → FdHandler H W → Bool → ℕ → ℕ → ℕ → W × Selector H → Outcome (W × Selector H)
run_write h false size i fd ws = ok ws
run_write h true size i fd ws =
    defined (ws.1.fd_size == size)
    >> (item_at ws.1.fds i >>= λ item. run_if (wants_write item.interest) h.handle_write item fd ws)

-- The body of the loop of `handle_iteration` for an item, which is used or not.
abbrev pub item_ready :
    {H W : Type 0}
    → FdHandler H W
    → (ℕ → Bool)
    → (ℕ → Bool)
    → ℕ
    → Item H
    → Option ℕ
    → W × Selector H
    → Outcome (W × Selector H)
item_ready h slave_r slave_w i item none ws = ok ws
item_ready h slave_r slave_w i item (some fd) ws =
    run_if (slave_r fd && wants_read item.interest) h.handle_read item fd ws >>= λ ws'.
    run_write h (slave_w i) ws.1.fd_size i fd ws'

-- One turn of the loop.
unfoldable pub handle_item :
    {H W : Type 0}
    → FdHandler H W
    → (ℕ → Bool)
    → (ℕ → Bool)
    → ℕ
    → W × Selector H
    → Outcome (W × Selector H)
unfolding item_at
handle_item h slave_r slave_w i ws =
    item_at ws.1.fds i >>= λ item. item_ready h slave_r slave_w i item item.fd ws

-- The loop, for `left` descriptors from `i` on.
unfoldable pub handle_items :
    {H W : Type 0}
    → FdHandler H W
    → (ℕ → Bool)
    → (ℕ → Bool)
    → ℕ
    → ℕ
    → W × Selector H
    → Outcome (W × Selector H)
unfolding handle_item
handle_items h slave_r slave_w zero i ws = ok ws
handle_items h slave_r slave_w (suc left) i ws =
    handle_item h slave_r slave_w i ws >>= λ ws'. handle_items h slave_r slave_w left (i + 1) ws'

-- `handle_iteration`, up to the maximum at its start.
unfoldable pub handle_iteration :
    {H W : Type 0}
    → FdHandler H W
    → (ℕ → Bool)
    → (ℕ → Bool)
    → W × Selector H
    → Outcome (W × Selector H)
unfolding handle_items
handle_iteration h slave_r slave_w ws = handle_items h slave_r slave_w (ws.1.max_fd + 1) 0 ws

-- `handle_block_notifications` of the descriptors in the list of jobs.
unfoldable pub handle_block_notifications :
    {H W : Type 0} → FdHandler H W → List ℕ → W × Selector H → Outcome (W × Selector H)
unfolding item_at
handle_block_notifications h [] ws = ok ws
handle_block_notifications h (j ∷ jobs) ws = item_at ws.1.fds j >>= λ item.
    (elim item.fd [
      | none ↦ ok ws
      | some fd ↦ defined_value item.handler >>= λ handler. h.handle_block handler fd ws
    ])
    >>= λ ws'. handle_block_notifications h jobs ws'
