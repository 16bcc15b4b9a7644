-- ===== src/MessageManager/Create.antt =====
-- `message_manager_create`: what is loaded from a maildrop directory.
use tp_protos.Base.{ℕ, ◌+◌, ◌<◌, ◌≡◌, List, [], ◌∷◌, ◌++◌, if◌then◌else◌, length, Text, ok}
use tp_protos.MessageManager.{
  MessageData, MessageManager, System, Dirent, Stat, count_regular, int_limit,
}
use tp_protos.MessageManager.Totals.{full_size, Numbered, unmark}

-- The names of the regular files of a directory, in its order.
abbrev pub regular_names : List Dirent → List Text
regular_names [] = []
regular_names (e ∷ es) = if e.is_reg then e.d_name ∷ regular_names es else regular_names es

-- Each message has the size that `stat` gives for the file of its name.
abbrev pub Sized : System → Text → List MessageData → List Text → Type 0
Sized sys path [] ns = Unit {0}
Sized sys path (d ∷ ds) [] = ⊥
Sized sys path (d ∷ ds) (n ∷ ns) =
    ((st : Stat) × (sys.stat (path ++ n) ≡ ok st) × (st.st_size ≡ d.message_size))
    × Sized sys path ds ns

-- What the second pass has loaded from the entries `es`, started at index `i` with `total`.
record Loaded (sys : System) (path : Text) (es : List Dirent) (i total : ℕ)
    (out : List MessageData × List Text × ℕ) : Type 0 where
  names : out.1 ≡ regular_names es
  matched : length out.0 ≡ count_regular es
  numbers : Numbered (i + 1) out.0
  fresh : unmark out.0 ≡ out.0
  sum : out.2 ≡ total + full_size out.0
  small : total < int_limit → out.2 < int_limit
  sized : Sized sys path out.0 out.1
