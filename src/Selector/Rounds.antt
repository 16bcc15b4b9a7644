-- ===== src/Selector/Rounds.antt =====
-- A round of `handle_iteration` over a table.
use tp_protos.Base.{ℕ, ◌≡◌, Option, none, some, Outcome, ok}
use tp_protos.Selector.{Selector}
use tp_protos.Selector.Table.{item_of, IsTable}
use tp_protos.Selector.Iteration.{Call}

-- A call that returns with a table of the same size.
abbrev pub Keeps : {H W : Type 0} → ℕ → Outcome (W × Selector H) → Type 0
Keeps {H} {W} size o = (ws : W × Selector H) × (o ≡ ok ws) × IsTable ws.1 × (ws.1.fd_size ≡ size)

-- A handler that, called for a registered descriptor of a table of this size, returns with one. Behind
-- it the descriptor may be registered with another interest, or not registered any more.
abbrev pub KeepsTable : {H W : Type 0} → ℕ → Option (Call H W) → Type 0
KeepsTable size none = ⊥
KeepsTable {H} {W} size (some call) =
    (fd : ℕ) (ws : W × Selector H)
    → IsTable ws.1
    → ws.1.fd_size ≡ size
    → (item_of ws.1 fd).fd ≡ some fd
    → Keeps size (call fd ws)
