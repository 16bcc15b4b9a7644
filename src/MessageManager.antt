-- ===== src/MessageManager.antt =====
-- server/src/message-manager.c: the messages of one maildrop, and which are marked for deletion.
-- A C string is the list of its bytes with no terminator. The calls of the file system, of the
-- allocator and of `popen` are parameters.
pub mod Totals
pub mod Create
pub mod Update
mod Tests
use tp_protos.Base.{
  ℕ, zero, suc, ◌+◌, ◌-◌, ◌^◌, Bool, true, false, Option, none, some, List, [], ◌∷◌, ◌++◌, ℤ, pos,
  negsuc, einval, enoent, enomem, eio, enotdir, Outcome, ok, err, fault, ◌>>=◌, ltb, if◌then◌else◌,
  get_elem?, set, ◌||◌, ◌&&◌, not, ◌>>◌, guard, defined, ◌==◌, codes, Text,
}

-- `message_data_t`
pub record MessageData : Type 0 where
  pub message_number : ℕ
  pub message_size : ℕ
  pub marked_for_deletion : Bool

-- `struct message_manager_cdt`
pub record MessageManager : Type 0 where
  pub maildrop_path : Text
  pub message_data_array : List MessageData
  pub message_filename_array : List Text
  pub message_array_size : ℕ
  pub total_message_size : ℕ
  pub message_count : ℕ

-- `struct dirent`: the name, and whether `d_type` is `DT_REG`.
pub record Dirent : Type 0 where
  pub d_name : Text
  pub is_reg : Bool

-- `struct stat`: `S_ISDIR(st_mode)` and `st_size`.
pub record Stat : Type 0 where
  pub is_dir : Bool
  pub st_size : ℕ

-- The system calls of the message manager, and whether the n-th `malloc` of a call succeeds.
-- `opendir` gives the entries that `readdir` returns; `rewinddir` starts over on the same entries.
pub record System : Type 0 where
  pub malloc : ℕ → Bool
  pub stat : Text → Outcome Stat
  pub opendir : Text → Outcome (List Dirent)
  pub remove : Text → Bool
  pub popen : Text → Outcome (List ℕ)

abbrev pub int_limit : ℕ
int_limit = 2 ^ 31

-- The first pass over the directory.
count_regular : List Dirent → ℕ
count_regular [] = 0
count_regular (e ∷ es) = let n = count_regular es in if e.is_reg then suc n else n

module _ (sys : System) (path : Text) where
  -- One regular file of the second pass, at `message_index` `i` with `total` summed: its data and
  -- the new sum. A sum beyond `int` is undefined. The `malloc`s before it are 0 to 3.
  load_message : Dirent → ℕ → ℕ → Outcome (MessageData × ℕ)
  load_message e i total = do
    guard (sys.malloc (i + 4)) enomem
    st ← sys.stat (path ++ e.d_name)
    defined (ltb (total + st.st_size) int_limit)
    ok (
      record { message_number = i + 1; message_size = st.st_size; marked_for_deletion = false },
      total + st.st_size,
    )

  -- The second pass: the data, the names and the sum of the sizes.
  load_messages : List Dirent → ℕ → ℕ → Outcome (List MessageData × List Text × ℕ)
  load_messages [] i total = ok ([], [], total)
  load_messages (e ∷ es) i total = elim e.is_reg [
    | false ↦ load_messages es i total
    | true ↦ load_message e i total >>= λ one.
        load_messages es (i + 1) one.1 >>= λ rest. ok (one.0 ∷ rest.0, e.d_name ∷ rest.1, rest.2)
  ]

  -- The part of `message_manager_create` behind the check that the path is a directory.
  open_maildrop : Outcome MessageManager
  unfolding load_message load_messages count_regular
  open_maildrop = do
    entries ← sys.opendir path
    guard (sys.malloc 2 && sys.malloc 3) enomem
    loaded ← load_messages entries 0 0
    ok (record {
      maildrop_path = path;
      message_data_array = loaded.0;
      message_filename_array = loaded.1;
      message_array_size = count_regular entries;
      total_message_size = loaded.2;
      message_count = count_regular entries;
    })

-- `message_manager_create(username, maildrop_parent_path)`
unfoldable pub create : System → Text → Text → Outcome MessageManager
unfolding open_maildrop
create sys username parent = do
  let path = parent ++ (username ++ b'/' ∷ [])
  guard (sys.malloc 0) enomem
  guard (sys.malloc 1) enomem
  st ← sys.stat path
  guard st.is_dir enotdir
  open_maildrop sys path

-- `message_manager_get_maildrop_info`; the other two pointers are never NULL.
unfoldable pub get_maildrop_info : Option MessageManager → Outcome (ℕ × ℕ)
get_maildrop_info none = err einval
get_maildrop_info (some m) = ok (m.message_count, m.total_message_size)

-- `array[i]`
abbrev pub at_index {ℓ} : {A : Type ℓ} → List A → ℕ → Outcome A
at_index xs i = elim (get_elem? xs i) [ none ↦ fault | some x ↦ ok x ]

-- The index of a message number between 1 and the size of the array.
unfoldable pub message_index : MessageManager → ℤ → Outcome ℕ
message_index m (negsuc _) = err einval
message_index m (pos n) = do guard (not (ltb n 1 || ltb m.message_array_size n)) einval; ok (n - 1)

-- `message_manager_get_message_data`
unfoldable pub get_message_data : System → Option MessageManager → ℤ → Outcome MessageData
unfolding message_index
get_message_data sys none n = err einval
get_message_data sys (some m) n = do
  i ← message_index m n
  guard (sys.malloc 0) enomem
  at_index m.message_data_array i

-- The copy loop of `message_manager_get_message_data_list`, over `left` entries of the array.
copy_data : ℕ → List MessageData → Outcome (List MessageData)
copy_data zero ds = ok []
copy_data (suc left) [] = fault
copy_data (suc left) (d ∷ ds) = copy_data left ds >>= λ rest. ok (d ∷ rest)

-- `message_manager_get_message_data_list`
unfoldable pub get_message_data_list : System → Option MessageManager → Outcome (List MessageData)
unfolding copy_data
get_message_data_list sys none = err einval
get_message_data_list sys (some m) = do
  guard (not (m.message_array_size == 0)) enoent
  guard (sys.malloc 0) enomem
  copy_data m.message_array_size m.message_data_array

-- The command line that `open_and_process_message_file` hands to `popen`.
unfoldable pub message_command : Text → Text
message_command path = codes "cat" ++ (b' ' ∷ (path ++ codes " | sed 's/^\\./../g'"))

-- `message_manager_get_message_content`: the stream and `*estimated_message_size`.
unfoldable pub get_message_content : System → Option MessageManager → ℤ → Outcome (List ℕ × ℕ)
unfolding message_index message_command
get_message_content sys none n = err einval
get_message_content sys (some m) n = do
  i ← message_index m n
  d ← at_index m.message_data_array i
  guard (not d.marked_for_deletion) enoent
  name ← at_index m.message_filename_array i
  file ← sys.popen (message_command (m.maildrop_path ++ name))
  ok (file, d.message_size)

abbrev pub mark : MessageData → Bool → MessageData
mark d b = record d { marked_for_deletion = b }

-- `message_manager_delete_message`. `Totals` shows that neither subtraction goes below 0.
unfoldable pub delete_message : Option MessageManager → ℤ → Outcome MessageManager
unfolding message_index
delete_message none n = err einval
delete_message (some m) n = do
  i ← message_index m n
  d ← at_index m.message_data_array i
  guard (not d.marked_for_deletion) enoent
  ok (record m {
    message_data_array = set m.message_data_array i (mark d true);
    message_count = m.message_count - 1;
    total_message_size = m.total_message_size - d.message_size;
  })

-- The loop of `message_manager_reset_deleted_flag` over `left` entries: the array, the count and
-- the size.
reset_flags : ℕ → List MessageData → ℕ → ℕ → Outcome (List MessageData × ℕ × ℕ)
reset_flags zero ds count size = ok (ds, count, size)
reset_flags (suc left) [] count size = fault
reset_flags (suc left) (d ∷ ds) count size =
    reset_flags left ds (if d.marked_for_deletion then count + 1 else count)
      (if d.marked_for_deletion then size + d.message_size else size)
    >>= λ rest. ok (mark d false ∷ rest.0, rest.1, rest.2)

-- `message_manager_reset_deleted_flag`
unfoldable pub reset_deleted_flag : Option MessageManager → Outcome MessageManager
unfolding reset_flags
reset_deleted_flag none = err einval
reset_deleted_flag (some m) = do
  r ← reset_flags m.message_array_size m.message_data_array m.message_count m.total_message_size
  ok (record m { message_data_array = r.0; message_count = r.1; total_message_size = r.2 })

-- The loop of `message_manager_delete_marked_messages` over `left` entries: the paths handed to
-- `remove`, in order, and `errorHappened`.
remove_marked : System → Text → ℕ → List MessageData → List Text → Outcome (List Text × Bool)
remove_marked sys path zero ds ns = ok ([], false)
remove_marked sys path (suc left) [] ns = fault
remove_marked sys path (suc left) (d ∷ ds) [] = fault
remove_marked sys path (suc left) (d ∷ ds) (n ∷ ns) = remove_marked sys path left ds ns >>= λ rest.
    ok (
      if d.marked_for_deletion
      then ((path ++ n) ∷ rest.0, not (sys.remove (path ++ n)) || rest.1)
      else rest)

-- `message_manager_delete_marked_messages`: the paths handed to `remove`, and the result.
unfoldable pub delete_marked_messages :
    System → Option MessageManager → Outcome (List Text × Outcome (Unit {0}))
unfolding remove_marked
delete_marked_messages sys none = ok ([], err einval)
delete_marked_messages sys (some m) = do
  r ←
      remove_marked sys m.maildrop_path m.message_array_size m.message_data_array
        m.message_filename_array
  ok (r.0, guard (not r.1) eio)
