-- ===== src/Monitor/Logs.antt =====
-- The text that `monitor_get_logs` builds, and the array that it grows for it.
use tp_protos.Base.{
  ℕ, ◌+◌, ◌*◌, ◌≤◌, ◌≡◌, refl, sym, ap, Bool, true, Option, none, some, List, [], ◌∷◌, ◌++◌,
  append-nil, append_assoc, arith, length, length-append, Text, ltb, ok, Bool-cases, inl, inr,
}
use tp_protos.Monitor.{
  Monitor, Log, LogArray, log_block, ensure, append, add_line, add_lines, collect_logs, get_logs,
  crlf,
}

-- One entry of the log as the monitor protocol shows it.
abbrev pub log_line : (ℕ → Text) → Log → Text
log_line format l = ((l.username ++ b' ' ∷ []) ++ format l.date_hour) ++ crlf

pub log_text : (ℕ → Text) → List Log → Text
log_text format [] = []
log_text format (l ∷ ls) = log_line format l ++ log_text format ls

abbrev pub text_or_null : (ℕ → Text) → List Log → Option Text
text_or_null format [] = none
text_or_null format (l ∷ ls) = some (log_text format (l ∷ ls))

-- The terminator fits, and `dim` is below the size that was allocated, by a block at most.
pub record Fits (a : LogArray) : Type 0 where
  pub terminated : length a.text + 1 ≤ a.size
  pub below : a.dim + 1 ≤ a.size
  pub near : a.size ≤ a.dim + log_block

ensure-Fits :
    (needed counted : ℕ) (a : LogArray)
    → Fits a
    → counted + 1 ≤ needed
    → needed ≤ counted + log_block
    → (a' : LogArray) × (ensure true needed counted a ≡ ok a')
      × Fits a'
      × (a'.text ≡ a.text)
      × (length a.text + needed ≤ a'.size)
unfolding ensure
ensure-Fits needed counted a f h k = elim (Bool-cases (ltb a.dim (length a.text + needed))) [
  | inl grow ↦ (
    record a { dim = a.dim + (counted + log_block); size = a.dim + needed + log_block },
    ground arith,
    record {
      terminated = omega (arith, f.terminated, f.near);
      below = omega arith;
      near = omega arith;
    },
    refl,
    omega (arith, f.terminated, f.near),
  )
  | inr enough ↦ (a, ground arith, f, refl, ground (arith, f.below))
]

append-eq-ok :
    (s : Text) (a : LogArray)
    → length a.text + length s + 1 ≤ a.size
    → append s a ≡ ok (record a { text = a.text ++ s })
unfolding append
append-eq-ok s a h = ground arith

appended-Fits :
    (s : Text) (a : LogArray)
    → length a.text + length s + 1 ≤ a.size
    → Fits a
    → Fits (record a { text = a.text ++ s })
appended-Fits s a h f = record {
  terminated = omega (arith, length-append a.text s);
  below = f.below;
  near = f.near;
}

one_line :
    (s u d : Text) → (((s ++ u) ++ b' ' ∷ []) ++ d) ++ crlf ≡ s ++ (((u ++ b' ' ∷ []) ++ d) ++ crlf)
one_line s u d = simp append_assoc

module _ (realloc : ℕ → Bool) (format : ℕ → Text) (memory : (n : ℕ) → realloc n ≡ true)
    (short : (t : ℕ) → length (format t) ≤ 19) where
  -- The writes of one round stay inside the array.
  add_line_lem :
      (i : ℕ) (l : Log) (a : LogArray)
      → Fits a
      → (a' : LogArray) × (add_line realloc format i l a ≡ ok a')
        × Fits a'
        × (a'.text ≡ a.text ++ log_line format l)
  unfolding add_line
  add_line_lem i l a f =
      let n = length l.username in
      let (a₁, e₁, f₁, t₁, r₁) = ensure-Fits (n + 2) (n + 1) a f (omega arith) (omega arith) in
      let s₁ : length a₁.text ≡ length a.text = ap length t₁ in
      let w₂ : length a₁.text + n + 1 ≤ a₁.size = omega arith in
      let a₂ : LogArray = record a₁ { text = a₁.text ++ l.username } in
      let f₂ : Fits a₂ = appended-Fits l.username a₁ w₂ f₁ in
      let w₃ : length a₂.text + 1 + 1 ≤ a₂.size = omega (arith, length-append a₁.text l.username) in
      let a₃ : LogArray = record a₂ { text = a₂.text ++ b' ' ∷ [] } in
      let f₃ : Fits a₃ = appended-Fits (b' ' ∷ []) a₂ w₃ f₂ in
      let (a₄, e₄, f₄, t₄, r₄) = ensure-Fits 23 21 a₃ f₃ (omega arith) (omega arith) in
      let s₄ : length a₄.text ≡ length a₃.text = ap length t₄ in
      let w₅ : length a₄.text + length (format l.date_hour) + 1 ≤ a₄.size =
        omega (arith, short l.date_hour) in
      let a₅ : LogArray = record a₄ { text = a₄.text ++ format l.date_hour } in
      let f₅ : Fits a₅ = appended-Fits (format l.date_hour) a₄ w₅ f₄ in
      let w₆ : length a₅.text + 2 + 1 ≤ a₅.size =
        omega (arith, short l.date_hour, length-append a₄.text (format l.date_hour)) in
      (
        record a₅ { text = a₅.text ++ crlf },
        rw (
          memory (2 * i),
          memory (2 * i + 1),
          e₁,
          append-eq-ok l.username a₁ w₂,
          append-eq-ok (b' ' ∷ []) a₂ w₃,
          e₄,
          append-eq-ok (format l.date_hour) a₄ w₅,
          append-eq-ok crlf a₅ w₆,
        ),
        appended-Fits crlf a₅ w₆ f₅,
        rw (t₄, t₁) (one_line a.text l.username (format l.date_hour)),
      )

  add_lines_lem :
      (i : ℕ) (ls : List Log) (a : LogArray)
      → Fits a
      → (a' : LogArray) × (add_lines realloc format i ls a ≡ ok a')
        × (a'.text ≡ a.text ++ log_text format ls)
  unfolding add_lines log_text
  add_lines_lem i [] a f = (a, refl, sym (append-nil a.text))
  add_lines_lem i (l ∷ ls) a f =
      let (a₁, e₁, f₁, t₁) = add_line_lem i l a f in
      let (a₂, e₂, t₂) = add_lines_lem (i + 1) ls a₁ f₁ in
      (a₂, rw (e₁, e₂), rw (t₂, t₁) (append_assoc a.text (log_line format l) (log_text format ls)))

  collect_logs_lem :
      (ls : List Log) → collect_logs true realloc format ls ≡ ok (text_or_null format ls)
  unfolding collect_logs
  collect_logs_lem [] = refl
  collect_logs_lem (l ∷ ls) =
      let start : Fits (record { text = []; dim = 0; size = log_block }) = record {
        terminated = omega arith;
        below = omega arith;
        near = omega arith;
      } in
      let (a, e, t) =
        add_lines_lem 0 (l ∷ ls) (record { text = []; dim = 0; size = log_block }) start in
      rw (e, t)

  -- While memory lasts, and if each formatted time has 19 bytes at most, `monitor_get_logs` writes
  -- inside its array, and answers NULL for an empty log and else one line for each login, in order.
  pub get_logs_lem :
      (m : Monitor) → get_logs true realloc format m ≡ ok (text_or_null format m.logs)
  unfolding get_logs
  get_logs_lem m = collect_logs_lem m.logs
