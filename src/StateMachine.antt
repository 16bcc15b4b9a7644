-- ===== src/StateMachine.antt =====
-- server/src/state-machine.c with server/include/state-machine.h: the engine that runs the handlers
-- of the current state. `err (other 6)` is `abort()`, by the number of SIGABRT; no handler of the
-- server returns an error, so nothing else is one.
use tp_protos.Base.{
  ℕ, zero, suc, ◌+◌, Bool, false, not, Option, none, some, List, ◌==◌, ltb, if◌then◌else◌,
  get_elem?, other, Outcome, ok, err, fault, ◌>>=◌,
}

-- What a handler does with `key`, of which `K` is what it reaches.
pub record StateDefinition {ℓ} (K : Type ℓ) : Type ℓ where
  pub state : ℕ
  pub on_arrival : Option (K → Outcome K)
  pub on_departure : Option (K → Outcome K)
  pub on_read_ready : Option (K → Outcome (K × ℕ))
  pub on_write_ready : Option (K → Outcome (K × ℕ))
  pub on_block_ready : Option (K → Outcome (K × ℕ))

-- `struct state_machine`. Its `current` is a part of what the handlers reach: the machine reads it
-- and sets it there. A pointer into `states` is an index.
pub record StateMachine {ℓ} (K : Type ℓ) : Type ℓ where
  pub initial : ℕ
  pub states : List (StateDefinition K)
  pub max_state : ℕ
  pub current : K → Option ℕ
  pub with_current : Option ℕ → K → K

abbrev pub abort {ℓ} : {A : Type ℓ} → Outcome A
abort = err (other 6)

-- `current == states + next`
abbrev pub is_at : Option ℕ → ℕ → Bool
is_at none next = false
is_at (some i) next = i == next

module _ {ℓ} {K : Type ℓ} where
  -- The loop of `state_machine_init` over the states from `i` on, `left` of them.
  check_states : StateMachine K → ℕ → ℕ → Outcome (Unit {0})
  check_states m zero i = ok tt
  check_states m (suc left) i =
      let rest = check_states m left (i + 1) in
      elim (get_elem? m.states i) [
        | none ↦ fault
        | some d ↦ if not (i == d.state) then abort else rest
      ]

  -- `state_machine_init`
  unfoldable pub init : StateMachine K → K → Outcome K
  unfolding check_states
  init m k = check_states m (m.max_state + 1) 0 >>= λ _.
      if ltb m.initial m.max_state then ok (m.with_current none k) else abort

  -- The definition that `current` points to.
  abbrev pub definition : StateMachine K → ℕ → Outcome (StateDefinition K)
  definition m i = elim (get_elem? m.states i) [ none ↦ fault | some d ↦ ok d ]

  -- A call of `on_arrival` or `on_departure`, if it is set.
  abbrev pub notify : Option (K → Outcome K) → K → Outcome K
  notify none k = ok k
  notify (some f) k = f k

  -- `current` is set, and then its `on_arrival` is called.
  abbrev pub arrive : StateMachine K → ℕ → K → Outcome K
  arrive m i k = definition m i >>= λ d. notify d.on_arrival (m.with_current (some i) k)

  -- `handle_first`
  unfoldable pub handle_first : StateMachine K → K → Outcome K
  handle_first m k = elim (m.current k) [ none ↦ arrive m m.initial k | some i ↦ ok k ]

  unfoldable pub depart : StateMachine K → K → Outcome K
  depart m k = elim (m.current k) [
    | none ↦ ok k
    | some i ↦ definition m i >>= λ d. notify d.on_departure k
  ]

  -- `jump`
  unfoldable pub jump : StateMachine K → ℕ → K → Outcome K
  jump m next k =
      if ltb m.max_state next
      then abort
      else if is_at (m.current k) next
      then ok k
      else depart m k >>= λ k'. arrive m next k'

  -- A call of a handler, or an abort if it is not set; its state is where the machine goes, and what
  -- is returned.
  abbrev pub call : StateMachine K → Option (K → Outcome (K × ℕ)) → K → Outcome (K × ℕ)
  call m none k = abort
  call m (some f) k = f k >>= λ r. jump m r.1 r.0 >>= λ k'. ok (k', r.1)

  -- What the three events share behind `handle_first`: the handler that `which` selects.
  unfoldable pub run_current :
      (StateDefinition K → Option (K → Outcome (K × ℕ))) → StateMachine K → K → Outcome (K × ℕ)
  run_current which m k = elim (m.current k) [
    | none ↦ fault
    | some i ↦ definition m i >>= λ d. call m (which d) k
  ]

  abbrev pub handle :
      (StateDefinition K → Option (K → Outcome (K × ℕ))) → StateMachine K → K → Outcome (K × ℕ)
  handle which m k = handle_first m k >>= λ k₁. run_current which m k₁

  -- `state_machine_handler_read`
  abbrev pub handler_read : StateMachine K → K → Outcome (K × ℕ)
  handler_read = handle (λ d. d.on_read_ready)

  -- `state_machine_handler_write`
  abbrev pub handler_write : StateMachine K → K → Outcome (K × ℕ)
  handler_write = handle (λ d. d.on_write_ready)

  -- `state_machine_handler_block`
  abbrev pub handler_block : StateMachine K → K → Outcome (K × ℕ)
  handler_block = handle (λ d. d.on_block_ready)

  -- `state_machine_handler_close`
  unfoldable pub handler_close : StateMachine K → K → Outcome K
  unfolding depart
  handler_close = depart

  -- `state_machine_state`
  abbrev pub state : StateMachine K → K → Outcome ℕ
  state m k = elim (m.current k) [
    | none ↦ ok m.initial
    | some i ↦ definition m i >>= λ d. ok d.state
  ]
