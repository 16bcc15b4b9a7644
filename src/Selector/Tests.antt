-- ===== src/Selector/Tests.antt =====
-- A selector for twenty descriptors, and the theorems about the table at it.
use tp_protos.Base.{
  none, Outcome, fault, ◌>>=◌, ℕ, ◌+◌, zero, suc, ◌&&◌, Bool, is_some, inl, inr, ◌⊎◌, ◌≤◌, ◌<◌, ◌≡◌,
  refl, true, false, some, [], ◌∷◌, arith, ◌==◌, replicate, pos, ok, fault,
}
use tp_protos.Selector.{
  selector_success, Selector, Item, item_used, wants_read, wants_write, unused_item, op_read,
  op_write, set_interest, selector_new, register, unregister_fd,
}
use tp_protos.Selector.Registering.{register_lem, selector_new_lem}
use tp_protos.Selector.Table.{item_of, IsTable}
use tp_protos.Selector.Iteration.{Call, FdHandler}
use tp_protos.Selector.Unregistering.{unregister_fd_lem}

selector_new_lem_example :
    (s : Selector ℕ) × (selector_new true true 1024 ≡ some s)
    × IsTable s
    × (1024 < s.fd_size)
    × ((i : ℕ) → item_of s i ≡ unused_item)
selector_new_lem_example = selector_new_lem 1024 (omega arith)

abbrev none_registered : Selector ℕ
none_registered = record {
  fds = replicate 33 unused_item;
  fd_size = 33;
  max_fd = 0;
  master_r = λ i. false;
  master_w = λ i. false;
}

-- The table that `selector_new(20)` makes.
twenty : selector_new true true 20 ≡ some none_registered
unfolding selector_new
twenty = refl

-- The descriptor that is the size of the array is entered behind its end.
behind_the_end : register true (pos 33) (some 0) op_read none_registered ≡ fault
unfolding register
behind_the_end = refl

-- A table with one item, which is used.
abbrev three : Item ℕ
three = record { fd = some 0; interest = op_read; handler = some 7 }

abbrev one_registered : Selector ℕ
one_registered = record {
  fds = three ∷ unused_item ∷ [];
  fd_size = 2;
  max_fd = 0;
  master_r = λ i. i == 0;
  master_w = λ i. false;
}

-- A table with one item, which is not used.
abbrev none_used : Selector ℕ
none_used = record {
  fds = unused_item ∷ [];
  fd_size = 1;
  max_fd = 0;
  master_r = λ i. false;
  master_w = λ i. false;
}

none_used_own : (i k : ℕ) → (item_of none_used i).fd ≡ some k → k ≡ i
none_used_own zero k e = ground (arith, e)
none_used_own (suc i) k e = ground (arith, e)

none_used_highest : (i k : ℕ) → (item_of none_used i).fd ≡ some k → i ≤ 0
none_used_highest zero k e = omega arith
none_used_highest (suc i) k e = ground (arith, e)

none_handled :
    (i : ℕ)
    → (is_some (item_of none_used i).fd ≡ true) × (is_some (item_of none_used i).handler ≡ true)
      ⊎ (item_of none_used i ≡ unused_item)
none_handled zero = inr refl
none_handled (suc i) = inr refl

none_wanted :
    (wants : ℕ → Bool) (i : ℕ)
    → false ≡ (item_used (item_of none_used i) && wants (item_of none_used i).interest)
none_wanted wants zero = refl
none_wanted wants (suc i) = refl

none_used-IsTable : IsTable none_used
none_used-IsTable = record {
  sized = refl;
  own = none_used_own;
  highest = none_used_highest;
  handled = none_handled;
  reads = none_wanted wants_read;
  writes = none_wanted wants_write;
}

one_own : (i k : ℕ) → (item_of one_registered i).fd ≡ some k → k ≡ i
one_own zero k e = ground (arith, e)
one_own (suc zero) k e = ground (arith, e)
one_own (suc (suc i)) k e = ground (arith, e)

one_highest : (i k : ℕ) → (item_of one_registered i).fd ≡ some k → i ≤ 0
one_highest zero k e = omega arith
one_highest (suc zero) k e = ground (arith, e)
one_highest (suc (suc i)) k e = ground (arith, e)

one_handled :
    (i : ℕ)
    → (is_some (item_of one_registered i).fd ≡ true)
        × (is_some (item_of one_registered i).handler ≡ true)
      ⊎ (item_of one_registered i ≡ unused_item)
one_handled zero = inl (refl, refl)
one_handled (suc zero) = inr refl
one_handled (suc (suc i)) = inr refl

one_reads :
    (i : ℕ)
    → one_registered.master_r i
      ≡ (item_used (item_of one_registered i) && wants_read (item_of one_registered i).interest)
one_reads zero = refl
one_reads (suc zero) = refl
one_reads (suc (suc i)) = ground arith

one_writes :
    (i : ℕ)
    → false
      ≡ (item_used (item_of one_registered i) && wants_write (item_of one_registered i).interest)
one_writes zero = refl
one_writes (suc zero) = refl
one_writes (suc (suc i)) = refl

one_registered-IsTable : IsTable one_registered
one_registered-IsTable = record {
  sized = refl;
  own = one_own;
  highest = one_highest;
  handled = one_handled;
  reads = one_reads;
  writes = one_writes;
}

register_lem_example :
    (s' : Selector ℕ) × (register true (pos 5) (some 7) op_read none_used
      ≡ ok (selector_success, s'))
    × IsTable s'
    × (item_of s' 5 ≡ record { fd = some 5; interest = op_read; handler = some 7 })
    × ((i : ℕ) → (i == 5) ≡ false → item_of s' i ≡ item_of none_used i)
register_lem_example = register_lem 5 7 op_read none_used none_used-IsTable (omega arith) refl refl

-- `handle_close` that leaves the table as it is.
unregister_fd_lem_example :
    ((item_of one_registered 0).fd ≡ none)
      × (unregister_fd (λ item s. ok s) (pos 0) one_registered ≡ fault)
    ⊎ (s' : Selector ℕ) × (unregister_fd (λ item s. ok s) (pos 0) one_registered
        ≡ ok (selector_success, s'))
      × IsTable s'
      × (s'.fd_size ≡ 2)
      × (item_of s' 0 ≡ unused_item)
      × ((i : ℕ) → (i == 0) ≡ false → item_of s' i ≡ item_of one_registered i)
unregister_fd_lem_example =
    unregister_fd_lem (λ item s. ok s) 0 one_registered one_registered one_registered-IsTable
      (omega arith) refl refl one_registered-IsTable refl

-- `handle_close` that unregisters its descriptor, as the clients' do.
abbrev closing : Item ℕ → Selector ℕ → Outcome (Selector ℕ)
closing item s = unregister_fd (λ item s. ok s) (pos 0) s >>= λ r. ok r.1

unregisters_itself : unregister_fd closing (pos 0) one_registered ≡ fault
unfolding unregister_fd
unregisters_itself = refl

-- Handlers that wait to write behind a read, and unregister their descriptor behind a write, and count
-- their calls.
abbrev reading : Call ℕ ℕ
reading fd ws = set_interest (pos fd) op_write ws.1 >>= λ r. ok (ws.0 + 1, r.1)

abbrev writing : Call ℕ ℕ
writing fd ws = unregister_fd (λ item s. ok s) (pos fd) ws.1 >>= λ r. ok (ws.0 + 1, r.1)

abbrev handlers : FdHandler ℕ ℕ
handlers = record {
  handle_read = λ h. some reading;
  handle_write = λ h. some writing;
  handle_block = λ h. reading;
}
