-- ===== src/MessageManager/Update.antt =====
-- RSET and the UPDATE state: resetting the marks, and removing the files of the marked messages.
use tp_protos.Base.{
  Returns, Any, Returns->>=, Option, none, ℕ, zero, suc, ◌+◌, ◌-◌, ◌≤◌, ◌≡◌, inl, inr, refl, ap,
  ◌∙◌, Bool, true, false, not, ◌||◌, some, List, [], ◌∷◌, ◌++◌, ℤ, arith, ◌==◌, if◌then◌else◌,
  Option-cases, length, get_elem?, Text, enoent, eio, Outcome, ok, err, fault, >>=-eq-ok,
}
use tp_protos.MessageManager.{
  MessageData, MessageManager, System, message_index, delete_message, reset_flags,
  reset_deleted_flag, remove_marked, delete_marked_messages, get_message_data_list, copy_data,
}
use tp_protos.MessageManager.Totals.{
  IsValid, live_count, live_size, full_size, Numbered, unmark, marked_manager, set-Marks,
  marked_manager-IsValid,
}

length-unmark : (ds : List MessageData) → length (unmark ds) ≡ length ds
length-unmark [] = refl
length-unmark (d ∷ ds) = ap suc (length-unmark ds)

unmark-Numbered : (n : ℕ) (ds : List MessageData) → Numbered n ds → Numbered n (unmark ds)
unmark-Numbered n [] h = h
unmark-Numbered n (d ∷ ds) h = (h.0, unmark-Numbered (n + 1) ds h.1)

-- With the marks off every message counts.
unmark_counts :
    (ds : List MessageData)
    → (live_count (unmark ds) ≡ length ds)
      × (live_size (unmark ds) ≡ full_size ds)
      × (full_size (unmark ds) ≡ full_size ds)
unmark_counts [] = (refl, refl, refl)
unmark_counts (d ∷ ds) = ground (arith, unmark_counts ds)

live-le-full : (ds : List MessageData) → (live_count ds ≤ length ds) × (live_size ds ≤ full_size ds)
live-le-full [] = omega arith
live-le-full (d ∷ ds) = ground (arith, live-le-full ds)

reset_flags_lem :
    (left : ℕ) (ds : List MessageData) (count size : ℕ)
    → length ds ≡ left
    → reset_flags left ds count size
      ≡ ok (unmark ds, count + (length ds - live_count ds), size + (full_size ds - live_size ds))
unfolding reset_flags
reset_flags_lem zero [] count size h = ground arith
reset_flags_lem zero (d ∷ ds) count size h = absurd (omega arith)
reset_flags_lem (suc left) [] count size h = absurd (omega arith)
reset_flags_lem (suc left) (d ∷ ds) count size h =
    let c = if d.marked_for_deletion then count + 1 else count in
    let s = if d.marked_for_deletion then size + d.message_size else size in
    ground (arith, reset_flags_lem left ds c s (omega arith), live-le-full ds)

-- The manager with every mark taken off.
abbrev pub cleared : MessageManager → MessageManager
cleared m = record m {
  message_data_array = unmark m.message_data_array;
  message_count = m.message_array_size;
  total_message_size = full_size m.message_data_array;
}

cleared-IsValid : (m : MessageManager) → IsValid m → IsValid (cleared m)
cleared-IsValid m v = ground (
  arith,
  length-unmark m.message_data_array,
  unmark_counts m.message_data_array,
  unmark-Numbered 1 m.message_data_array v.numbered,
)

-- RSET takes every mark off and changes nothing else: the count is again the number of messages
-- and the size the sum of all of theirs.
pub reset_deleted_flag_lem :
    (m : MessageManager)
    → IsValid m
    → (reset_deleted_flag (some m) ≡ ok (cleared m)) × IsValid (cleared m)
unfolding reset_deleted_flag
reset_deleted_flag_lem m v = (
  ground (
    arith,
    reset_flags_lem m.message_array_size m.message_data_array m.message_count m.total_message_size
        v.data_length,
    live-le-full m.message_data_array,
  ),
  cleared-IsValid m v,
)

-- The manager that a session goes on with after a call.
abbrev pub or_else : Outcome MessageManager → MessageManager → MessageManager
or_else (ok m') m = m'
or_else (err e) m = m
or_else fault m = m

-- The DELE commands of a session in order; one that is refused leaves the manager as it was.
pub delete_all : MessageManager → List ℤ → MessageManager
delete_all m [] = m
delete_all m (n ∷ ns) = delete_all (or_else (delete_message (some m) n) m) ns

delete_message_inv :
    (m : MessageManager) (n : ℤ) {m' : MessageManager}
    → delete_message (some m) n ≡ ok m'
    → (i : ℕ) × (d : MessageData) × (get_elem? m.message_data_array i ≡ some d)
      × (d.marked_for_deletion ≡ false)
      × (m' ≡ marked_manager m i d)
unfolding delete_message
delete_message_inv m n h =
    let (i, e, h₁) = >>=-eq-ok (message_index m n) _ h in
    elim (Option-cases (get_elem? m.message_data_array i)) [
      | inl gone ↦ absurd (ground (arith, h₁))
      | inr (d, g) ↦ (i, d, g, ground (arith, h₁), ground (arith, h₁))
    ]

delete_message-cleared :
    (m : MessageManager) (n : ℤ) {m' : MessageManager}
    → IsValid m
    → delete_message (some m) n ≡ ok m'
    → IsValid m' × (cleared m' ≡ cleared m)
delete_message-cleared m n v h =
    let (i, d, g, f, e) = delete_message_inv m n h in
    rw e
      (marked_manager-IsValid m i d v g f, ground (arith, set-Marks d m.message_data_array i g f))

or_else-cleared :
    (m : MessageManager) (r : Outcome MessageManager)
    → IsValid m
    → ((m' : MessageManager) → r ≡ ok m' → IsValid m' × (cleared m' ≡ cleared m))
    → IsValid (or_else r m) × (cleared (or_else r m) ≡ cleared m)
or_else-cleared m (ok m') v h = h m' refl
or_else-cleared m (err e) v h = (v, refl)
or_else-cleared m fault v h = (v, refl)

delete_all-cleared :
    (m : MessageManager) (ns : List ℤ)
    → IsValid m
    → IsValid (delete_all m ns) × (cleared (delete_all m ns) ≡ cleared m)
unfolding delete_all
delete_all-cleared m [] v = (v, refl)
delete_all-cleared m (n ∷ ns) v =
    let (v', e) =
      or_else-cleared m (delete_message (some m) n) v (λ m' h. delete_message-cleared m n v h) in
    let (v'', e') = delete_all-cleared (or_else (delete_message (some m) n) m) ns v' in
    (v'', e' ∙ e)

-- RSET after any DELE commands to a valid manager in which no message was marked gives it back.
pub reset-delete_all :
    (m : MessageManager) (ns : List ℤ)
    → IsValid m
    → unmark m.message_data_array ≡ m.message_data_array
    → reset_deleted_flag (some (delete_all m ns)) ≡ ok m
reset-delete_all m ns v fresh =
    let (v', e) = delete_all-cleared m ns v in
    (reset_deleted_flag_lem (delete_all m ns) v').0 ∙ ap ok (e ∙ same)
  where
    same : cleared m ≡ m
    same = ground (arith, unmark_counts m.message_data_array, v, fresh)

-- The paths of the marked messages, in the order of the maildrop.
abbrev pub marked_paths : Text → List MessageData → List Text → List Text
marked_paths path [] ns = []
marked_paths path (d ∷ ds) [] = []
marked_paths path (d ∷ ds) (n ∷ ns) =
    if d.marked_for_deletion then (path ++ n) ∷ marked_paths path ds ns else marked_paths path ds ns

-- Some path of a list cannot be removed.
abbrev pub any_fails : System → List Text → Bool
any_fails sys [] = false
any_fails sys (p ∷ ps) = not (sys.remove p) || any_fails sys ps

remove_marked_lem :
    (sys : System) (path : Text) (left : ℕ) (ds : List MessageData) (ns : List Text)
    → length ds ≡ left
    → length ns ≡ left
    → remove_marked sys path left ds ns
      ≡ ok (marked_paths path ds ns, any_fails sys (marked_paths path ds ns))
unfolding remove_marked
remove_marked_lem sys path zero [] ns h k = refl
remove_marked_lem sys path zero (d ∷ ds) ns h k = absurd (omega arith)
remove_marked_lem sys path (suc left) [] ns h k = absurd (omega arith)
remove_marked_lem sys path (suc left) (d ∷ ds) [] h k = absurd (omega arith)
remove_marked_lem sys path (suc left) (d ∷ ds) (n ∷ ns) h k =
    ground (arith, remove_marked_lem sys path left ds ns (omega arith) (omega arith))

-- QUIT hands `remove` the file of each marked message and no other, goes on past one that cannot
-- be removed, and answers `EIO` exactly when there was such a one.
pub delete_marked_messages_lem :
    (sys : System) (m : MessageManager)
    → IsValid m
    → let paths = marked_paths m.maildrop_path m.message_data_array m.message_filename_array in
      delete_marked_messages sys (some m)
      ≡ ok (paths, if any_fails sys paths then err eio else ok tt)
unfolding delete_marked_messages
delete_marked_messages_lem sys m v = ground (
  arith,
  remove_marked_lem sys m.maildrop_path m.message_array_size m.message_data_array
      m.message_filename_array v.data_length v.names_length,
)

copy_data_lem : (left : ℕ) (ds : List MessageData) → length ds ≡ left → copy_data left ds ≡ ok ds
unfolding copy_data
copy_data_lem zero [] h = refl
copy_data_lem zero (d ∷ ds) h = absurd (omega arith)
copy_data_lem (suc left) [] h = absurd (omega arith)
copy_data_lem (suc left) (d ∷ ds) h = rw (copy_data_lem left ds (omega arith))

-- The listing is the whole array, marked messages included; an empty maildrop is `ENOENT`.
pub get_message_data_list_lem :
    (sys : System) (m : MessageManager)
    → IsValid m
    → sys.malloc 0 ≡ true
    → get_message_data_list sys (some m)
      ≡ (if length m.message_data_array == 0 then err enoent else ok m.message_data_array)
unfolding get_message_data_list
get_message_data_list_lem sys m v h =
    ground (arith, copy_data_lem m.message_array_size m.message_data_array v.data_length)

remove_marked-Returns :
    (sys : System) (path : Text) (left : ℕ) (ds : List MessageData) (ns : List Text)
    → Returns Any (remove_marked sys path left ds ns)
unfolding remove_marked
remove_marked-Returns sys path zero ds ns = tt
remove_marked-Returns sys path (suc left) [] ns = tt
remove_marked-Returns sys path (suc left) (d ∷ ds) [] = tt
remove_marked-Returns sys path (suc left) (d ∷ ds) (n ∷ ns) =
    Returns->>= Any Any (remove_marked sys path left ds ns) _
      (remove_marked-Returns sys path left ds ns) (λ rest _. tt)

-- An error of `message_manager_delete_marked_messages` is a value that its caller looks at.
pub delete_marked_messages-Returns :
    (sys : System) (m : Option MessageManager) → Returns Any (delete_marked_messages sys m)
unfolding delete_marked_messages
delete_marked_messages-Returns sys none = tt
delete_marked_messages-Returns sys (some m) =
    Returns->>= Any Any
      (remove_marked sys m.maildrop_path m.message_array_size m.message_data_array
        m.message_filename_array)
      _
      (remove_marked-Returns sys m.maildrop_path m.message_array_size m.message_data_array
        m.message_filename_array)
      (λ r _. tt)
