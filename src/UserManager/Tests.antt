-- ===== src/UserManager/Tests.antt =====
-- Two users, and the theorems about the user manager at them.
use tp_protos.Base.{
  ℕ, zero, suc, ◌≡◌, ◌≢◌, ◌↔◌, refl, Bool, true, false, some, List, [], ◌∷◌, ◌++◌, arith, length,
  replicate, codes, Text, strcmp_eq, has_char, einval, enoent, ebusy, ok, err,
}
use tp_protos.UserManager.{
  User, UserManager, System, get_user, has_forbidden, create_user, delete_user, login, logout,
  change_username, modify_user, lock,
}
use tp_protos.UserManager.Accounts.{IsValid}
use tp_protos.UserManager.Locks.{create, perform, locked, login_ok_iff}
use tp_protos.UserManager.Exclusion.{
  Holds, here, next, login_excludes, logout-login, rename_leaks_lock,
}
use tp_protos.UserManager.Storage.{parse_line, create_manager, free_manager}
use tp_protos.UserManager.Storage.Lines.{AllPlain}
use tp_protos.UserManager.Storage.RoundTrip.{
  AllStorable, StorableToken, unlocked, create-free, create-free_full_name,
}

-- Every call succeeds, and every maildrop is empty.
abbrev posix : System
posix = record {
  malloc = λ _. true;
  mkdir = λ _. true;
  rename = λ _ _. true;
  opendir = λ _. some [];
  lstat = λ _. some true;
  unlink = λ _. true;
  rmdir = λ _. true;
}

abbrev ana : User
ana = record { username = codes "ana"; password = some (codes "x1"); is_locked = false }

abbrev bea : User
bea = record { username = codes "bea"; password = some (codes "y2"); is_locked = false }

abbrev two_users : UserManager
two_users = record {
  user_list = ana ∷ bea ∷ [];
  user_count = 2;
  maildrop_parent_path = codes "mail/";
}

abbrev ana_logged_in : UserManager
ana_logged_in = record two_users { user_list = lock true ana ∷ bea ∷ [] }

two_users-IsValid : IsValid two_users
unfolding get_user has_forbidden has_char strcmp_eq
two_users-IsValid = record {
  counted = refl;
  small = omega arith;
  distinct = (refl, (refl, tt));
  named = ((omega arith, omega arith, refl), ((omega arith, omega arith, refl), tt));
}

ana_logged_in-IsValid : IsValid ana_logged_in
unfolding get_user has_forbidden has_char strcmp_eq
ana_logged_in-IsValid = record {
  counted = refl;
  small = omega arith;
  distinct = (refl, (refl, tt));
  named = ((omega arith, omega arith, refl), ((omega arith, omega arith, refl), tt));
}

ana_logs_in : login (some (codes "ana")) (some (codes "x1")) two_users ≡ (ana_logged_in, ok tt)
unfolding login strcmp_eq
ana_logs_in = refl

parse_line_test : parse_line (codes " ana:x1:z") ≡ some (codes "ana", codes "x1")
unfolding parse_line
parse_line_test = refl

abbrev cid : List ℕ
cid = codes "cid"

-- A third user is created while "ana" is logged in.
ana-Holds :
    Holds
      (codes "ana")
      (login (some (codes "ana")) (some (codes "x1")) two_users).0
      (perform posix 10
        (create cid cid)
        (login (some (codes "ana")) (some (codes "x1")) two_users).0).0
ana-Holds = next posix 10 (create cid cid) here refl

logged_in_ok : (login (some (codes "ana")) (some (codes "x1")) two_users).1 ≡ ok tt
unfolding login strcmp_eq
logged_in_ok = refl

abbrev full_name : Text
full_name = replicate 32 b'a'

abbrev full_user : User
full_user = record { username = full_name; password = some (codes "x1"); is_locked = false }

abbrev one_full : UserManager
one_full = record two_users { user_list = full_user ∷ []; user_count = 1 }

full_user_created :
    create_user posix 10
      (some full_name)
      (some (codes "x1"))
      (record two_users { user_list = []; user_count = 0 })
    ≡ (one_full, ok tt)
unfolding create_user strcmp_eq has_char
full_user_created = refl

login_excludes_example :
    let sys : System = posix in
    let name : Text = codes "ana" in
    let password : Text = codes "x1" in
    let password' : Text = codes "x1" in
    let m : UserManager = two_users in
    let m' : UserManager =
      (perform posix 10
        (create cid cid)
        (login (some (codes "ana")) (some (codes "x1")) two_users).0).0 in
    ((login (some name) (some password') m').1 ≢ ok tt)
    × ((delete_user sys (some name) m').1 ≡ err ebusy)
login_excludes_example =
    login_excludes posix (codes "ana") (codes "x1") (codes "x1") two_users logged_in_ok ana-Holds

logout-login_example :
    let name : Text = codes "ana" in
    let password : Text = codes "x1" in
    let m : UserManager = two_users in
    logout (some name) (login (some name) (some password) m).0 ≡ (m, ok tt)
logout-login_example = logout-login (codes "ana") (codes "x1") two_users logged_in_ok

rename_leaks_lock_example :
    let sys : System = posix in
    let name : Text = codes "ana" in
    let new : Text = cid in
    let m : UserManager = ana_logged_in in
    let m' = (change_username sys (some name) (some new) m).0 in
    (logout (some name) m' ≡ (m', err enoent)) × (locked new m' ≡ true)
unfolding change_username get_user modify_user strcmp_eq
rename_leaks_lock_example =
    rename_leaks_lock posix (codes "ana") cid ana_logged_in ana_logged_in-IsValid refl refl refl

login_ok_iff_example :
    let name : Text = codes "ana" in
    let password : Text = codes "x1" in
    let m : UserManager = two_users in
    ((login (some name) (some password) m).1 ≡ ok tt) ↔ (
      (u : User) × (get_user m.user_list name ≡ some u)
      × (u.password ≡ some password)
      × (u.is_locked ≡ false))
login_ok_iff_example = login_ok_iff (codes "ana") (codes "x1") two_users

x1_storable : StorableToken (codes "x1")
x1_storable = ((refl, refl, (refl, refl, tt)), omega arith, omega arith)

ana_storable : AllStorable ana_logged_in.user_list
ana_storable = (
  ((refl, refl, (refl, refl, (refl, refl, tt))), omega arith, omega arith),
  x1_storable,
  (
    ((refl, refl, (refl, refl, (refl, refl, tt))), omega arith, omega arith),
    ((refl, refl, (refl, refl, tt)), omega arith, omega arith),
    tt,
  ),
)

create-free_example :
    let sys : System = posix in
    let paths : ℕ → Bool = λ _. true in
    let writes : ℕ → Bool = λ _. true in
    let max : ℕ = 10 in
    let file : Text = codes "users.txt" in
    let m : UserManager = ana_logged_in in
    (bytes : List ℕ) × (free_manager true writes m ≡ ok bytes)
    × (create_manager sys paths max (λ _. some bytes) 0 (some file) (some m.maildrop_parent_path)
        ≡ ok (record {
          user_list = unlocked m.user_list;
          user_count = length m.user_list;
          maildrop_parent_path = m.maildrop_parent_path;
        }))
create-free_example =
    create-free posix (λ _. true) (λ _. true) 10 (codes "users.txt") ana_logged_in
      (λ n. (refl, refl, refl)) refl (omega arith) ana_storable (omega arith) (omega arith)

plain_replicate : (n : ℕ) → AllPlain (replicate n b'a')
plain_replicate zero = tt
plain_replicate (suc n) = (refl, refl, plain_replicate n)

full_plain : AllPlain full_name
full_plain = plain_replicate 32

one_full_saved : free_manager true (λ _. true) one_full ≡ ok (full_name ++ codes ":x1" ++ 10 ∷ [])
unfolding free_manager
one_full_saved = refl

create-free_full_name_example :
    let sys : System = posix in
    let paths : ℕ → Bool = λ _. true in
    let writes : ℕ → Bool = λ _. true in
    let max : ℕ = 10 in
    let file : Text = codes "users.txt" in
    let m : UserManager = one_full in
    let bytes : List ℕ = full_name ++ codes ":x1" ++ 10 ∷ [] in
    create_manager sys paths max (λ _. some bytes) 0 (some file) (some m.maildrop_parent_path)
    ≡ err einval
create-free_full_name_example =
    create-free_full_name posix (λ _. true) (λ _. true) 10 (codes "users.txt") (codes "x1")
      full_user [] one_full (λ n. (refl, refl)) refl full_plain refl refl x1_storable refl
      one_full_saved
