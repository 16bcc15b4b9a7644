-- ===== src/MessageManager/Tests.antt =====
-- A maildrop of two messages and a directory, and the theorems at it.
use tp_protos.Base.{
  suc, ℕ, ◌+◌, ◌≡◌, ◌⊎◌, refl, true, false, not, some, List, [], ◌∷◌, ℤ, pos, arith, if◌then◌else◌,
  set, get_elem?, codes, strcmp_eq, enoent, ok, err,
}
use tp_protos.MessageManager.{
  MessageData, MessageManager, Dirent, System, mark, delete_message, get_message_content,
  reset_deleted_flag, message_command,
}
use tp_protos.MessageManager.Totals.{IsValid, delete_message_lem}
use tp_protos.MessageManager.Update.{delete_all, reset-delete_all}

-- "1" and "2" are messages of 120 and 30 bytes; `remove` fails on "mail/ana/2".
abbrev maildir : List Dirent
maildir =
    record { d_name = codes "1"; is_reg = true }
    ∷ record { d_name = codes "."; is_reg = false }
    ∷ record { d_name = codes "2"; is_reg = true }
    ∷ []

abbrev posix : System
posix = record {
  malloc = λ _. true;
  stat = λ path.
      if strcmp_eq path (codes "mail/ana/")
      then ok (record { is_dir = true; st_size = 4096 })
      else if strcmp_eq path (codes "mail/ana/1")
      then ok (record { is_dir = false; st_size = 120 })
      else if strcmp_eq path (codes "mail/ana/2")
      then ok (record { is_dir = false; st_size = 30 })
      else err enoent;
  opendir = λ _. ok maildir;
  remove = λ path. not (strcmp_eq path (codes "mail/ana/2"));
  popen = λ _. ok (codes "text");
}

abbrev first_message : MessageData
first_message = record { message_number = 1; message_size = 120; marked_for_deletion = false }

abbrev second_message : MessageData
second_message = record { message_number = 2; message_size = 30; marked_for_deletion = false }

abbrev ana : MessageManager
ana = record {
  maildrop_path = codes "mail/ana/";
  message_data_array = first_message ∷ second_message ∷ [];
  message_filename_array = codes "1" ∷ codes "2" ∷ [];
  message_array_size = 2;
  total_message_size = 150;
  message_count = 2;
}

ana-IsValid : IsValid ana
ana-IsValid = omega arith

second_dele :
    (m : MessageManager) × (delete_message (some ana) (pos 2) ≡ ok m)
    × (delete_message (some m) (pos 2) ≡ err enoent)
unfolding delete_message
second_dele = (
  record ana {
    message_data_array = first_message ∷ mark second_message true ∷ [];
    message_count = 1;
    total_message_size = 120;
  },
  refl,
  refl,
)

cat_command : message_command (codes "mail/ana/1") ≡ codes "cat mail/ana/1 | sed 's/^\\./../g'"
unfolding message_command
cat_command = refl

delete_message_lem_example :
    let m : MessageManager = ana in
    let n : ℤ = pos 2 in
    (i : ℕ) × (d : MessageData) × (n ≡ pos (suc i))
    × (get_elem? m.message_data_array i ≡ some d)
    × ((d.marked_for_deletion ≡ true) × (delete_message (some m) n ≡ err enoent)
        ⊎ (m' : MessageManager) × (delete_message (some m) n ≡ ok m')
          × (d.marked_for_deletion ≡ false)
          × IsValid m'
          × (m'.message_data_array ≡ set m.message_data_array i (mark d true))
          × (m'.message_count + 1 ≡ m.message_count)
          × (m'.total_message_size + d.message_size ≡ m.total_message_size)
          × (delete_message (some m') n ≡ err enoent)
          × ((sys : System) → get_message_content sys (some m') n ≡ err enoent))
delete_message_lem_example = delete_message_lem ana (pos 2) ana-IsValid (omega arith)

reset-delete_all_example :
    let m : MessageManager = ana in
    let ns : List ℤ = pos 2 ∷ pos 2 ∷ pos 7 ∷ pos 1 ∷ [] in
    reset_deleted_flag (some (delete_all m ns)) ≡ ok m
reset-delete_all_example =
    reset-delete_all ana (pos 2 ∷ pos 2 ∷ pos 7 ∷ pos 1 ∷ []) ana-IsValid refl

abbrev two_marked : MessageManager
two_marked = record ana {
  message_data_array = mark first_message true ∷ mark second_message true ∷ [];
  total_message_size = 0;
  message_count = 0;
}
