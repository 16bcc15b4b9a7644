-- ===== src/MessageManager/Totals.antt =====
-- The running count and size of a maildrop: what they stand for, and that marking a message and
-- resetting the marks keep them right.
use tp_protos.Base.{
  ℕ, zero, suc, ◌+◌, ◌-◌, ◌≤◌, ◌<◌, ◌≡◌, ◌⊎◌, inl, inr, refl, true, false, not, ◌||◌, some, List,
  [], ◌∷◌, ℤ, pos, negsuc, arith, ltb, if◌then◌else◌, Bool-cases, length, get_elem?_of_lt, set,
  get_elem?, einval, enoent, ok, err,
}
use tp_protos.MessageManager.{
  MessageData, MessageManager, System, mark, message_index, delete_message, get_message_data,
  get_message_content, int_limit,
}

-- The messages not marked for deletion, and their sizes.
abbrev pub live_count : List MessageData → ℕ
live_count [] = 0
live_count (d ∷ ds) = if d.marked_for_deletion then live_count ds else suc (live_count ds)

abbrev pub live_size : List MessageData → ℕ
live_size [] = 0
live_size (d ∷ ds) = if d.marked_for_deletion then live_size ds else d.message_size + live_size ds

-- The size of all the messages, marked or not.
abbrev pub full_size : List MessageData → ℕ
full_size [] = 0
full_size (d ∷ ds) = d.message_size + full_size ds

-- The messages are numbered one after another, the first by `n`.
abbrev pub Numbered : ℕ → List MessageData → Type 0
Numbered n [] = Unit {0}
Numbered n (d ∷ ds) = (d.message_number ≡ n) × Numbered (n + 1) ds

-- The marks taken off.
abbrev pub unmark : List MessageData → List MessageData
unmark [] = []
unmark (d ∷ ds) = mark d false ∷ unmark ds

pub record IsValid (m : MessageManager) : Type 0 where
  pub data_length : length m.message_data_array ≡ m.message_array_size
  pub names_length : length m.message_filename_array ≡ m.message_array_size
  pub numbered : Numbered 1 m.message_data_array
  pub counted : m.message_count ≡ live_count m.message_data_array
  pub summed : m.total_message_size ≡ live_size m.message_data_array
  pub fits : full_size m.message_data_array < int_limit

module _ (d : MessageData) where
  -- What marking the i-th message does to each part of the invariant.
  pub record Marks (ds : List MessageData) (i : ℕ) : Type 0 where
    pub same_length : length (set ds i (mark d true)) ≡ length ds
    pub fewer : live_count (set ds i (mark d true)) + 1 ≡ live_count ds
    pub smaller : live_size (set ds i (mark d true)) + d.message_size ≡ live_size ds
    pub same_full : full_size (set ds i (mark d true)) ≡ full_size ds
    pub same_unmarked : unmark (set ds i (mark d true)) ≡ unmark ds
    pub marked : get_elem? (set ds i (mark d true)) i ≡ some (mark d true)

  pub set-Marks :
      (ds : List MessageData) (i : ℕ)
      → get_elem? ds i ≡ some d
      → d.marked_for_deletion ≡ false
      → Marks ds i
  set-Marks [] i e f = cc
  set-Marks (x ∷ ds) zero e f = ground arith
  set-Marks (x ∷ ds) (suc i) e f = ground (arith, set-Marks ds i e f)

  pub set-Numbered :
      (ds : List MessageData) (i n : ℕ)
      → get_elem? ds i ≡ some d
      → Numbered n ds
      → Numbered n (set ds i (mark d true))
  set-Numbered [] i n e h = h
  set-Numbered (x ∷ ds) zero n e h = (ground arith, h.1)
  set-Numbered (x ∷ ds) (suc i) n e h = (h.0, set-Numbered ds i (n + 1) e h.1)

-- A message number that a command may name: from 1 up to the size of the array.
abbrev pub InRange : MessageManager → ℤ → Type 0
InRange m (pos n) = (1 ≤ n) × (n ≤ m.message_array_size)
InRange m (negsuc _) = ⊥

message_index_of_InRange :
    (m : MessageManager) (n : ℤ)
    → InRange m n
    → (i : ℕ) × (n ≡ pos (suc i)) × (i < m.message_array_size) × (message_index m n ≡ ok i)
unfolding message_index
message_index_of_InRange m (negsuc k) h = absurd h
message_index_of_InRange m (pos zero) h = absurd (omega arith)
message_index_of_InRange m (pos (suc i)) h = (i, refl, omega arith, ground arith)

message_index_of_not_InRange :
    (m : MessageManager) (n : ℤ) → ¬ InRange m n → message_index m n ≡ err einval
unfolding message_index
message_index_of_not_InRange m (negsuc k) h = refl
message_index_of_not_InRange m (pos n) h =
    elim (Bool-cases (not (ltb n 1 || ltb m.message_array_size n))) [
      | inl inside ↦ absurd (h (ground arith, ground arith))
      | inr outside ↦ rw outside
    ]

-- A message number outside the maildrop is refused with `EINVAL` by each command that takes one.
pub out_of_range_refused :
    (sys : System) (m : MessageManager) (n : ℤ)
    → ¬ InRange m n
    → (delete_message (some m) n ≡ err einval)
      × (get_message_data sys (some m) n ≡ err einval)
      × (get_message_content sys (some m) n ≡ err einval)
unfolding delete_message get_message_data get_message_content
out_of_range_refused sys m n h = ground (arith, message_index_of_not_InRange m n h)

-- The message that a number in range names.
pub message_at :
    (m : MessageManager) (n : ℤ)
    → IsValid m
    → InRange m n
    → (i : ℕ) × (d : MessageData) × (n ≡ pos (suc i))
      × (message_index m n ≡ ok i)
      × (get_elem? m.message_data_array i ≡ some d)
message_at m n v h =
    let (i, number, lt, e) = message_index_of_InRange m n h in
    let (d, g) = get_elem?_of_lt m.message_data_array i (omega arith) in (i, d, number, e, g)

-- The manager after a message was marked.
abbrev pub marked_manager : MessageManager → ℕ → MessageData → MessageManager
marked_manager m i d = record m {
  message_data_array = set m.message_data_array i (mark d true);
  message_count = m.message_count - 1;
  total_message_size = m.total_message_size - d.message_size;
}

pub marked_manager-IsValid :
    (m : MessageManager) (i : ℕ) (d : MessageData)
    → IsValid m
    → get_elem? m.message_data_array i ≡ some d
    → d.marked_for_deletion ≡ false
    → IsValid (marked_manager m i d)
marked_manager-IsValid m i d v g f =
    ground
      (arith, set-Marks d m.message_data_array i g f, set-Numbered d m.message_data_array i 1 g)

module _ (m : MessageManager) (n : ℤ) (i : ℕ) (d : MessageData) where
  pub delete_message_at :
      message_index m n ≡ ok i
      → get_elem? m.message_data_array i ≡ some d
      → (d.marked_for_deletion ≡ true → delete_message (some m) n ≡ err enoent)
        × (d.marked_for_deletion ≡ false → delete_message (some m) n ≡ ok (marked_manager m i d))
  unfolding delete_message
  delete_message_at e g = ground arith

get_message_content_marked :
    (sys : System) (m : MessageManager) (n : ℤ) (i : ℕ) (d : MessageData)
    → message_index m n ≡ ok i
    → get_elem? m.message_data_array i ≡ some d
    → d.marked_for_deletion ≡ true
    → get_message_content sys (some m) n ≡ err enoent
unfolding get_message_content
get_message_content_marked sys m n i d e g f = ground arith

-- For a valid message manager and an n in range, DELE of the n-th message of the array either finds
-- it marked already, with `ENOENT` and no change, or marks it and changes no other message: the
-- invariant is kept, the count falls by one and the size by the message's (neither subtraction is cut
-- off at 0), and a second DELE or a RETR of it is `ENOENT`.
pub delete_message_lem :
    (m : MessageManager) (n : ℤ)
    → IsValid m
    → InRange m n
    → (i : ℕ) × (d : MessageData) × (n ≡ pos (suc i))
      × (get_elem? m.message_data_array i ≡ some d)
      × ((d.marked_for_deletion ≡ true) × (delete_message (some m) n ≡ err enoent)
          ⊎ (m' : MessageManager) × (delete_message (some m) n ≡ ok m')
            × (d.marked_for_deletion ≡ false)
            × IsValid m'
            × (m'.message_data_array ≡ set m.message_data_array i (mark d true))
            × (m'.message_count + 1 ≡ m.message_count)
            × (m'.total_message_size + d.message_size ≡ m.total_message_size)
            × (delete_message (some m') n ≡ err enoent)
            × ((sys : System) → get_message_content sys (some m') n ≡ err enoent))
unfolding message_index
delete_message_lem m n v h =
    let (i, d, number, e, g) = message_at m n v h in
    (
      i,
      d,
      number,
      g,
      elim (Bool-cases d.marked_for_deletion) [
        | inl was ↦ inl (was, (delete_message_at m n i d e g).0 was)
        | inr fresh ↦ inr (
          marked_manager m i d,
          (delete_message_at m n i d e g).1 fresh,
          fresh,
          marked_manager-IsValid m i d v g fresh,
          refl,
          ground (arith, set-Marks d m.message_data_array i g fresh),
          ground (arith, set-Marks d m.message_data_array i g fresh),
          (delete_message_at (marked_manager m i d) n i (mark d true) e
                (set-Marks d m.message_data_array i g fresh).marked).0
              refl,
          λ sys.
              get_message_content_marked sys (marked_manager m i d) n i (mark d true) e
                (set-Marks d m.message_data_array i g fresh).marked refl,
        )
      ],
    )
