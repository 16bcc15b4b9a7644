-- ===== src/Monitor.antt =====
-- server/src/monitor.c: the counters, the limits and the log of logins. The static pointer
-- `monitor` is NULL until `monitor_init`; the functions below are called with one that is not,
-- except `init`. `malloc` and `localtime` are parameters.
pub mod Counters
pub mod Logs
mod Tests
use tp_protos.Base.{
  ℕ, ◌+◌, ◌-◌, ◌*◌, ◌%◌, ◌^◌, Bool, not, ◌&&◌, ◌||◌, Option, none, some, List, [], ◌∷◌, ◌++◌, ℤ,
  pos, negsuc, ltb, leb, ◌==◌, if◌then◌else◌, length, Text, einval, enomem, Outcome, ok, err, ◌>>=◌,
  ◌>>◌, guard, defined,
}

-- `unsigned`
abbrev pub unsigned_mod : ℕ
unsigned_mod = 2 ^ 32

-- `metricsCDT`
pub record Metrics : Type 0 where
  pub historic_conns : ℕ
  pub current_conns : ℕ
  pub bytes_transf : ℕ

-- `configCDT`
pub record Config : Type 0 where
  pub max_users : ℕ
  pub max_conns : ℕ

-- `logsCDT`
pub record Log : Type 0 where
  pub username : Text
  pub date_hour : ℕ

-- `monitorCDT`: the list from `first_log` to `last_log`.
pub record Monitor : Type 0 where
  pub metrics : Metrics
  pub config : Config
  pub logs : List Log

-- `monitor_init(max_users, max_conns)`
unfoldable pub init : (ℕ → Bool) → ℕ → ℕ → Outcome Monitor
init malloc max_users max_conns = do
  guard (not ((max_users == 0) || (max_conns == 0))) einval
  guard (malloc 0 && malloc 1 && malloc 2) enomem
  ok (record {
    metrics = record { historic_conns = 0; current_conns = 0; bytes_transf = 0 };
    config = record { max_users = max_users; max_conns = max_conns };
    logs = [];
  })

-- `monitor_add_log(username)` at the time `now`.
unfoldable pub add_log : (ℕ → Bool) → ℕ → Option Text → Monitor → Outcome Monitor
add_log malloc now none m = err einval
add_log malloc now (some username) m = do
  guard (malloc 0) enomem
  guard (malloc 1) enomem
  ok (record m { logs = m.logs ++ record { username = username; date_hour = now } ∷ [] })

-- `monitor_add_connection()`
unfoldable pub add_connection : Monitor → Monitor
add_connection m = record m {
  metrics = record m.metrics {
    current_conns = (m.metrics.current_conns + 1) % unsigned_mod;
    historic_conns = (m.metrics.historic_conns + 1) % unsigned_mod;
  };
}

-- `monitor_remove_connection()`
unfoldable pub remove_connection : Monitor → Monitor
remove_connection m =
    if m.metrics.current_conns == 0
    then m
    else record m { metrics = record m.metrics { current_conns = m.metrics.current_conns - 1 } }

-- `monitor_add_bytes(bytes_sent)`
unfoldable pub add_bytes : ℤ → Monitor → Outcome Monitor
add_bytes (negsuc n) m = err einval
add_bytes (pos n) m = ok (record m {
  metrics = record m.metrics { bytes_transf = (m.metrics.bytes_transf + n) % unsigned_mod };
})

-- `monitor_set_max_users(val)`
unfoldable pub set_max_users : ℕ → Monitor → Monitor
set_max_users val m = record m { config = record m.config { max_users = val } }

-- `monitor_set_max_conns(val)`
unfoldable pub set_max_conns : ℕ → Monitor → Monitor
set_max_conns val m = record m { config = record m.config { max_conns = val } }

-- The size of the block by which `monitor_get_logs` grows its array.
abbrev pub log_block : ℕ
log_block = 82

-- The array of `monitor_get_logs`: its bytes so far, without the terminator, `dim`, and the size
-- that was allocated.
pub record LogArray : Type 0 where
  pub text : Text
  pub dim : ℕ
  pub size : ℕ

-- `realloc` to `dim + needed + BLOCK` if the text and `needed` more bytes exceed `dim`; `dim` then
-- grows by `counted + BLOCK`.
unfoldable pub ensure : Bool → ℕ → ℕ → LogArray → Outcome LogArray
ensure realloc needed counted a =
    if ltb a.dim (length a.text + needed)
    then if realloc
      then ok (record a { dim = a.dim + (counted + log_block); size = a.dim + needed + log_block })
      else err enomem
    else ok a

-- `strcpy` to the end of the text: it writes the terminator too.
unfoldable pub append : Text → LogArray → Outcome LogArray
append s a = do
  defined (leb (length a.text + length s + 1) a.size)
  ok (record a { text = a.text ++ s })

abbrev pub crlf : Text
crlf = 13 ∷ 10 ∷ []

-- One round of the loop of `monitor_get_logs`, the `i`-th.
add_line : (ℕ → Bool) → (ℕ → Text) → ℕ → Log → LogArray → Outcome LogArray
unfolding ensure append
add_line realloc format i l a =
    ensure (realloc (2 * i)) (length l.username + 2) (length l.username + 1) a >>= λ a₁.
    append l.username a₁ >>= λ a₂. append (b' ' ∷ []) a₂ >>= λ a₃.
    ensure (realloc (2 * i + 1)) 23 21 a₃ >>= λ a₄.
    append (format l.date_hour) a₄ >>= λ a₅. append crlf a₅

add_lines : (ℕ → Bool) → (ℕ → Text) → ℕ → List Log → LogArray → Outcome LogArray
unfolding add_line
add_lines realloc format i [] a = ok a
add_lines realloc format i (l ∷ ls) a =
    add_line realloc format i l a >>= λ a'. add_lines realloc format (i + 1) ls a'

-- The body of `monitor_get_logs` for a log; NULL with no `errno` set is none.
collect_logs : Bool → (ℕ → Bool) → (ℕ → Text) → List Log → Outcome (Option Text)
unfolding add_lines
collect_logs malloc realloc format [] = ok none
collect_logs malloc realloc format (l ∷ ls) = do
  guard malloc enomem
  a ← add_lines realloc format 0 (l ∷ ls) (record { text = []; dim = 0; size = log_block })
  ok (some a.text)

-- `monitor_get_logs()`: `format` is `strftime` of `localtime`.
unfoldable pub get_logs : Bool → (ℕ → Bool) → (ℕ → Text) → Monitor → Outcome (Option Text)
unfolding collect_logs
get_logs malloc realloc format m = collect_logs malloc realloc format m.logs
