-- ===== src/UserManager/Exclusion.antt =====
-- One session at a time for each maildrop: over whole histories of requests to the user manager.
use tp_protos.Base.{
  ℕ, ◌≡◌, ◌≢◌, inl, inr, refl, true, false, none, some, List, [], ◌∷◌, arith, Option-cases, Text,
  strcmp_eq, strcmp_eq_iff, strcmp_eq_refl, enoent, ebusy, ok, err,
}
use tp_protos.UserManager.{
  User, UserManager, System, get_user, modify_user, delete_user, login, logout, change_username,
  lock, rename_to,
}
use tp_protos.UserManager.Accounts.{Distinct, IsValid, get_user-modify_user}
use tp_protos.UserManager.Locks.{
  Request, perform, releases, locked, login_ok_iff, login-locked, perform-locked,
}

-- The states reached by requests that do not release the lock of `name`, each with its own system
-- calls and its own limit of users.
pub data Holds (name : Text) (start : UserManager) : UserManager → Type 0 where
  here : Holds name start start
  next :
      {m : UserManager} (sys : System) (max : ℕ) (r : Request)
      → Holds name start m
      → releases name r ≡ false
      → Holds name start (perform sys max r m).0

pub Holds-locked :
    (name : Text) {m m' : UserManager}
    → locked name m ≡ true
    → Holds name m m'
    → locked name m' ≡ true
Holds-locked name l here = l
Holds-locked name l (next {m = m} sys max r h keeps) =
    perform-locked sys max name r m keeps (Holds-locked name l h)

login_of_locked :
    (name password : Text) (m : UserManager)
    → locked name m ≡ true
    → (login (some name) (some password) m).1 ≢ ok tt
login_of_locked name password m l h =
    let (u, found, _, free) = (login_ok_iff name password m).0 h in ground (arith, l)

delete_of_locked :
    (sys : System) (name : Text) (m : UserManager)
    → locked name m ≡ true
    → (delete_user sys (some name) m).1 ≡ err ebusy
unfolding delete_user
delete_of_locked sys name m l = ground arith

-- After a login no second login as that user succeeds, with any password, and the user cannot be
-- deleted, whatever requests come between that neither log the name out nor rename a user from or to
-- it, and whatever the system calls and the limit of users are at each of them.
pub login_excludes :
    (sys : System) (name password password' : Text) (m : UserManager) {m' : UserManager}
    → (login (some name) (some password) m).1 ≡ ok tt
    → Holds name (login (some name) (some password) m).0 m'
    → ((login (some name) (some password') m').1 ≢ ok tt)
      × ((delete_user sys (some name) m').1 ≡ err ebusy)
login_excludes sys name password password' m {m'} h hold =
    let l = Holds-locked name (login-locked name password m h) hold in
    (login_of_locked name password' m' l, delete_of_locked sys name m' l)

modify_user_twice :
    (us : List User) (name : Text) (u : User)
    → get_user us name ≡ some u
    → u.is_locked ≡ false
    → modify_user (lock false) (modify_user (lock true) us name) name ≡ us
unfolding get_user modify_user
modify_user_twice [] name u found free = refl
modify_user_twice (v ∷ us) name u found free = ground (arith, modify_user_twice us name u)

-- A login that succeeds and the logout of that name after it leave the user manager as it was.
pub logout-login :
    (name password : Text) (m : UserManager)
    → (login (some name) (some password) m).1 ≡ ok tt
    → logout (some name) (login (some name) (some password) m).0 ≡ (m, ok tt)
unfolding logout login
logout-login name password m h =
    let (u, found, p, free) = (login_ok_iff name password m).0 h in
    ground (
      arith,
      strcmp_eq_refl password,
      strcmp_eq_refl name,
      get_user-modify_user (lock true) m.user_list name name (λ u. refl),
      modify_user_twice m.user_list name u found free,
    )

get_user-renamed :
    (us : List User) (old new : Text) {u : User}
    → get_user us new ≡ none
    → get_user us old ≡ some u
    → (get_user (modify_user (rename_to new) us old) new ≡ some (rename_to new u))
unfolding get_user modify_user
get_user-renamed [] old new free found = ground arith
get_user-renamed (v ∷ us) old new {u} free found =
    ground (arith, strcmp_eq_refl new, get_user-renamed us old new {u = u})

get_user-gone :
    (us : List User) (old new : Text)
    → Distinct us
    → strcmp_eq new old ≡ false
    → get_user (modify_user (rename_to new) us old) old ≡ none
unfolding get_user modify_user
get_user-gone [] old new d ne = refl
get_user-gone (v ∷ us) old new d ne =
    ground (arith, strcmp_eq_iff v.username old, d.0, get_user-gone us old new d.1)

change_username_inv :
    (sys : System) (old new : Text) (m : UserManager)
    → (change_username sys (some old) (some new) m).1 ≡ ok tt
    → (change_username sys (some old) (some new) m).0
      ≡ record m { user_list = modify_user (rename_to new) m.user_list old }
unfolding change_username
change_username_inv sys old new m h = ground arith

-- A locked user of a valid user manager who is renamed to a name that is free is never unlocked by
-- the session's logout, which names the old username: it fails with `ENOENT` and changes nothing, and
-- the renamed user stays locked.
pub rename_leaks_lock :
    (sys : System) (name new : Text) (m : UserManager)
    → IsValid m
    → locked name m ≡ true
    → get_user m.user_list new ≡ none
    → (change_username sys (some name) (some new) m).1 ≡ ok tt
    → let m' = (change_username sys (some name) (some new) m).0 in
      (logout (some name) m' ≡ (m', err enoent)) × (locked new m' ≡ true)
unfolding logout
rename_leaks_lock sys name new m v l free h =
    rw (change_username_inv sys name new m h) (elim (Option-cases (get_user m.user_list name)) [
      | inl gone ↦ absurd (ground (arith, l))
      | inr (u, found) ↦
          let other : strcmp_eq new name ≡ false = ground (arith, strcmp_eq_iff new name) in
          (
            ground (arith, get_user-gone m.user_list name new v.distinct other),
            ground (arith, get_user-renamed m.user_list name new {u = u} free found, l),
          )
    ])
