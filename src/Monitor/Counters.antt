-- ===== src/Monitor/Counters.antt =====
-- The counters of the monitor over a run of the server.
use tp_protos.Base.{
  ℕ, suc, ◌+◌, ◌-◌, ◌%◌, ◌≤◌, ◌<◌, ◌≡◌, ◌∙◌, refl, List, [], ◌∷◌, arith, pos, Outcome, ok, ◌>>=◌,
}
use tp_protos.Monitor.{Monitor, unsigned_mod, add_connection, remove_connection, add_bytes}

-- What the server reports: a client accepted, a client gone, and the bytes of one `send`.
pub data Event : Type 0 where
  accepted closed : Event
  sent : ℕ → Event

pub record_event : Event → Monitor → Outcome Monitor
record_event accepted m = ok (add_connection m)
record_event closed m = ok (remove_connection m)
record_event (sent n) m = add_bytes (pos n) m

pub record_events : List Event → Monitor → Outcome Monitor
record_events [] m = ok m
record_events (e ∷ es) m = record_event e m >>= λ m'. record_events es m'

abbrev pub accepts : List Event → ℕ
accepts [] = 0
accepts (accepted ∷ es) = suc (accepts es)
accepts (closed ∷ es) = accepts es
accepts (sent n ∷ es) = accepts es

abbrev pub bytes : List Event → ℕ
bytes [] = 0
bytes (accepted ∷ es) = bytes es
bytes (closed ∷ es) = bytes es
bytes (sent n ∷ es) = n + bytes es

-- No more clients go than are there, where `k` are at first; `open_after` is how many are left.
abbrev pub Balanced : ℕ → List Event → Type 0
Balanced k [] = Unit {0}
Balanced k (accepted ∷ es) = Balanced (suc k) es
Balanced k (closed ∷ es) = (1 ≤ k) × Balanced (k - 1) es
Balanced k (sent n ∷ es) = Balanced k es

abbrev pub open_after : ℕ → List Event → ℕ
open_after k [] = k
open_after k (accepted ∷ es) = open_after (suc k) es
open_after k (closed ∷ es) = open_after (k - 1) es
open_after k (sent n ∷ es) = open_after k es

abbrev with_counts : ℕ → ℕ → Monitor → Monitor
with_counts current historic m = record m {
  metrics = record m.metrics { current_conns = current; historic_conns = historic };
}

add_connection-with_counts :
    (m : Monitor)
    → m.metrics.current_conns ≤ m.metrics.historic_conns
    → m.metrics.historic_conns + 1 < unsigned_mod
    → add_connection m ≡ with_counts (suc m.metrics.current_conns) (suc m.metrics.historic_conns) m
unfolding add_connection
add_connection-with_counts m c h =
    let x : (m.metrics.current_conns + 1) % unsigned_mod ≡ suc m.metrics.current_conns =
      omega arith in
    let y : (m.metrics.historic_conns + 1) % unsigned_mod ≡ suc m.metrics.historic_conns =
      omega arith in
    rw (x, y)

remove_connection-with_counts :
    (m : Monitor)
    → 1 ≤ m.metrics.current_conns
    → remove_connection m ≡ with_counts (m.metrics.current_conns - 1) m.metrics.historic_conns m
unfolding remove_connection
remove_connection-with_counts m h = ground arith

-- While the connections since the start fit in an unsigned, the monitor counts exactly those that
-- are open and those there ever were; the bytes are counted up to overflow, and the limits and the
-- log stay.
pub record_events_lem :
    (es : List Event) (m : Monitor)
    → m.metrics.current_conns ≤ m.metrics.historic_conns
    → m.metrics.historic_conns + accepts es < unsigned_mod
    → m.metrics.bytes_transf < unsigned_mod
    → Balanced m.metrics.current_conns es
    → (m' : Monitor) × (record_events es m ≡ ok m')
      × (m'.metrics.current_conns ≡ open_after m.metrics.current_conns es)
      × (m'.metrics.historic_conns ≡ m.metrics.historic_conns + accepts es)
      × (m'.metrics.bytes_transf ≡ (m.metrics.bytes_transf + bytes es) % unsigned_mod)
      × (m'.config ≡ m.config)
      × (m'.logs ≡ m.logs)
unfolding record_events record_event add_bytes
record_events_lem [] m c h b w = (m, refl, refl, omega arith, omega arith, refl, refl)
record_events_lem (accepted ∷ es) m c h b w =
    let m₁ = with_counts (suc m.metrics.current_conns) (suc m.metrics.historic_conns) m in
    let (m', e, r0, r1, r2, r3, r4) = record_events_lem es m₁ (omega arith) (omega arith) b w in
    (m', rw (add_connection-with_counts m c (omega arith)) e, r0, r1 ∙ omega arith, r2, r3, r4)
record_events_lem (closed ∷ es) m c h b w =
    let m₁ = with_counts (m.metrics.current_conns - 1) m.metrics.historic_conns m in
    let (m', e, r0, r1, r2, r3, r4) = record_events_lem es m₁ (omega arith) h b w.1 in
    (m', rw (remove_connection-with_counts m w.0) e, r0, r1, r2, r3, r4)
record_events_lem (sent n ∷ es) m c h b w =
    let m₁ = record m {
      metrics = record m.metrics { bytes_transf = (m.metrics.bytes_transf + n) % unsigned_mod };
    } in
    let (m', e, r0, r1, r2, r3, r4) = record_events_lem es m₁ c h (omega arith) w in
    (m', e, r0, r1, r2 ∙ omega arith, r3, r4)
