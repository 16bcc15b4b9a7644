-- ===== src/UserManager.antt =====
-- server/src/user-manager.c: the user list, and the operations on it. A string argument that may
-- be NULL is an option. The list in memory is a list of records: a pointer to a node is the first
-- entry of a name. The calls of the file system and of the allocator are parameters.
pub mod Storage
pub mod Accounts
pub mod Locks
pub mod Exclusion
pub mod Names
mod Tests
use tp_protos.Base.{
  ℕ, ◌+◌, ◌-◌, ◌/◌, ◌%◌, ◌^◌, Bool, true, false, not, ◌&&◌, ◌||◌, Option, none, some, List, [], ◌∷◌,
  ◌++◌, ltb, leb, ◌==◌, if◌then◌else◌, is_some, length, Text, strcmp_eq, has_char, einval, enoent,
  enomem, eio, eexist, efbig, ebusy, eacces, Outcome, ok, err, fault, ◌>>=◌, ◌>>◌, guard,
}

-- `struct user_list_cdt`. The password is NULL after a `malloc` that failed.
pub record User : Type 0 where
  pub username : Text
  pub password : Option Text
  pub is_locked : Bool

-- The static fields of the file.
pub record UserManager : Type 0 where
  pub user_list : List User
  pub user_count : ℕ
  pub maildrop_parent_path : Text

-- The system calls: whether the n-th `malloc` of a call succeeds, whether a directory or a file
-- call succeeds, and `lstat` with `S_ISREG`.
pub record System : Type 0 where
  pub malloc : ℕ → Bool
  pub mkdir : Text → Bool
  pub rename : Text → Text → Bool
  pub opendir : Text → Option (List Text)
  pub lstat : Text → Option Bool
  pub unlink : Text → Bool
  pub rmdir : Text → Bool

abbrev pub max_username_length : ℕ
max_username_length = 32

abbrev pub max_password_length : ℕ
max_password_length = 32

abbrev pub delimiter : ℕ
delimiter = b':'

-- `unsigned int`
abbrev pub uint_mod : ℕ
uint_mod = 2 ^ 32

-- `get_user`, and the search loops of the operations: the first user of a name.
unfoldable pub get_user : List User → Text → Option User
get_user [] name = none
get_user (u ∷ us) name = if strcmp_eq u.username name then some u else get_user us name

-- An assignment through the pointer that `get_user` returns.
unfoldable pub modify_user : (User → User) → List User → Text → List User
modify_user f [] name = []
modify_user f (u ∷ us) name =
    if strcmp_eq u.username name then f u ∷ us else u ∷ modify_user f us name

-- The unlinking of the node that `get_user` returns.
unfoldable pub remove_user : List User → Text → List User
remove_user [] name = []
remove_user (u ∷ us) name = if strcmp_eq u.username name then us else u ∷ remove_user us name

-- The delimiter and the characters that `strpbrk(s, " \n\r\t")` looks for.
unfoldable pub has_forbidden : Text → Bool
unfolding has_char
has_forbidden s =
    has_char delimiter s || has_char b' ' s || has_char 10 s || has_char 13 s || has_char 9 s

-- `user_manager_create_user(username, password)`, with what `monitor_get_max_users` returns.
unfoldable pub create_user :
    System → ℕ → Option Text → Option Text → UserManager → UserManager × Outcome (Unit {0})
unfolding get_user has_forbidden
create_user sys max_users none password m = (m, err einval)
create_user sys max_users (some username) none m = (m, err einval)
create_user sys max_users (some username) (some password) m =
    if leb max_users m.user_count
    then (m, err efbig)
    else if ltb max_username_length (length username)
        || ltb max_password_length (length password)
        || (length username == 0)
        || (length password == 0)
    then (m, err einval)
    else if has_forbidden username || has_forbidden password
    then (m, err einval)
    else if is_some (get_user m.user_list username)
    then (m, err eexist)
    else if not (sys.malloc 0 && sys.malloc 1 && sys.malloc 2)
    then (m, err enomem)
    else if not (sys.mkdir (m.maildrop_parent_path ++ username))
    then (m, err eio)
    else (
      record m {
        user_list =
            record { username = username; password = some password; is_locked = false }
            ∷ m.user_list;
        user_count = (m.user_count + 1) % uint_mod;
      },
      ok tt,
    )

-- The loop of `delete_directory` over the entries: the paths handed to `unlink`, and whether no
-- call failed.
unlink_entries : System → Text → List Text → List Text × Bool
unlink_entries sys path [] = ([], true)
unlink_entries sys path (e ∷ es) =
    let file = path ++ (b'/' ∷ e) in
    let rest = unlink_entries sys path es in
    elim (sys.lstat file) [
      | none ↦ ([], false)
      | some false ↦ rest
      | some true ↦ if sys.unlink file then (file ∷ rest.0, rest.1) else (file ∷ [], false)
    ]

-- `delete_directory`: the paths handed to `unlink`, and whether the directory is gone.
unfoldable pub delete_directory : System → Text → List Text × Bool
unfolding unlink_entries
delete_directory sys path = elim (sys.opendir path) [
  | none ↦ ([], false)
  | some entries ↦
      let (unlinked, done) = unlink_entries sys path entries in (unlinked, done && sys.rmdir path)
]

-- `user_manager_delete_user(username)`
unfoldable pub delete_user : System → Option Text → UserManager → UserManager × Outcome (Unit {0})
unfolding get_user remove_user delete_directory
delete_user sys none m = (m, err einval)
delete_user sys (some username) m = elim (get_user m.user_list username) [
  | none ↦ (m, err enoent)
  | some u ↦
      if u.is_locked
      then (m, err ebusy)
      else if not (delete_directory sys (m.maildrop_parent_path ++ username)).1
      then (m, err eio)
      else (
        record m {
          user_list = remove_user m.user_list username;
          user_count = (m.user_count + uint_mod - 1) % uint_mod;
        },
        ok tt,
      )
]

abbrev pub lock : Bool → User → User
lock b u = record u { is_locked = b }

-- `strcmp(current_user->password, password) == 0`; undefined at a NULL password.
abbrev pub password_matches : User → Text → Outcome Bool
password_matches u password = elim u.password [ none ↦ fault | some p ↦ ok (strcmp_eq p password) ]

-- `user_manager_login(username, password)`
unfoldable pub login : Option Text → Option Text → UserManager → UserManager × Outcome (Unit {0})
unfolding get_user modify_user
login none password m = (m, err einval)
login (some username) none m = (m, err einval)
login (some username) (some password) m = elim (get_user m.user_list username) [
  | none ↦ (m, err enoent)
  | some u ↦ elim (password_matches u password) [
    | ok true ↦
        if u.is_locked
        then (m, err ebusy)
        else (record m { user_list = modify_user (lock true) m.user_list username }, ok tt)
    | ok false ↦ (m, err eacces)
    | err e ↦ (m, err e)
    | fault ↦ (m, fault)
  ]
]

-- `user_manager_logout(username)`
unfoldable pub logout : Option Text → UserManager → UserManager × Outcome (Unit {0})
unfolding get_user modify_user
logout none m = (m, err einval)
logout (some username) m =
    if is_some (get_user m.user_list username)
    then (record m { user_list = modify_user (lock false) m.user_list username }, ok tt)
    else (m, err enoent)

-- `realloc` at every `BLOCK` entries and once at the end: the n-th must succeed.
abbrev pub block : ℕ
block = 10

-- The loop of `user_manager_get_usernames` from index `i` on.
copy_usernames : System → List User → ℕ → Outcome (List Text)
copy_usernames sys [] i = do guard (sys.malloc ((i + block - 1) / block)) enomem; ok []
copy_usernames sys (u ∷ us) i = do
  guard (not (i % block == 0) || sys.malloc (i / block)) enomem
  rest ← copy_usernames sys us (i + 1)
  ok (u.username ∷ rest)

-- `user_manager_get_usernames()`; the NULL at the end of the array is the end of the list.
unfoldable pub get_usernames : System → UserManager → Outcome (List Text)
unfolding copy_usernames
get_usernames sys m = copy_usernames sys m.user_list 0

abbrev pub rename_to : Text → User → User
rename_to name u = record u { username = name }

-- `user_manager_change_username(old_username, new_username)`
unfoldable pub change_username :
    System → Option Text → Option Text → UserManager → UserManager × Outcome (Unit {0})
unfolding get_user modify_user
change_username sys none new m = (m, err einval)
change_username sys (some old) none m = (m, err einval)
change_username sys (some old) (some new) m =
    if not (is_some (get_user m.user_list old))
    then (m, err enoent)
    else if not (sys.malloc 0)
    then (m, err enomem)
    else if not (sys.rename (m.maildrop_parent_path ++ old) (m.maildrop_parent_path ++ new))
    then (m, err eio)
    else (record m { user_list = modify_user (rename_to new) m.user_list old }, ok tt)

abbrev pub set_password : Option Text → User → User
set_password p u = record u { password = p }

-- `user_manager_change_password(username, new_password)`. The old password is freed before the
-- `malloc` that may fail.
unfoldable pub change_password :
    System → Option Text → Option Text → UserManager → UserManager × Outcome (Unit {0})
unfolding get_user modify_user
change_password sys none new m = (m, err einval)
change_password sys (some username) none m = (m, err einval)
change_password sys (some username) (some new) m =
    if not (is_some (get_user m.user_list username))
    then (m, err enoent)
    else if not (sys.malloc 0)
    then (record m { user_list = modify_user (set_password none) m.user_list username }, err enomem)
    else (
      record m { user_list = modify_user (set_password (some new)) m.user_list username },
      ok tt,
    )
