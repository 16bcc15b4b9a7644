-- ===== src/Monitor/Tests.antt =====
-- Runs of the monitor, and the theorems about it at concrete inputs.
use tp_protos.Base.{ℕ, ◌≡◌, refl, true, List, [], ◌∷◌, arith, ok, replicate, codes, Text}
use tp_protos.Monitor.{Monitor, get_logs}
use tp_protos.Monitor.Counters.{Event, accepted, closed, sent}
use tp_protos.Monitor.Logs.{get_logs_lem, text_or_null}

abbrev fresh : Monitor
fresh = record {
  metrics = record { historic_conns = 0; current_conns = 0; bytes_transf = 0 };
  config = record { max_users = 10; max_conns = 500 };
  logs =
      record { username = codes "ana"; date_hour = 7 }
      ∷ record { username = codes "luz"; date_hour = 9 }
      ∷ [];
}

abbrev noon : ℕ → Text
noon t = replicate 19 b'0'

abbrev visits : List Event
visits = accepted ∷ sent 24 ∷ accepted ∷ closed ∷ sent 9 ∷ []

get_logs_lem_example : get_logs true (λ n. true) noon fresh ≡ ok (text_or_null noon fresh.logs)
get_logs_lem_example = get_logs_lem (λ n. true) noon (λ n. refl) (λ t. omega arith) fresh
