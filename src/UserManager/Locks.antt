-- ===== src/UserManager/Locks.antt =====
-- The maildrop lock: a user who is logged in stays locked until that name logs out.
use tp_protos.Base.{
  ℕ, ◌≡◌, ◌↔◌, inl, inr, refl, sym, ◌∙◌, Bool, true, false, ◌||◌, none, some, List, [], ◌∷◌, arith,
  Bool-cases, Option-cases, Text, strcmp_eq, strcmp_eq_iff, strcmp_eq_refl, Outcome, ok,
}
use tp_protos.UserManager.{
  User, UserManager, System, get_user, modify_user, create_user, delete_user, login, logout,
  change_username, change_password, lock, rename_to, set_password,
}
use tp_protos.UserManager.Accounts.{
  AllNames, length-modify_user, IsName, Distinct, IsValid, get_user-modify_user,
  get_user-remove_user_other,
}

-- The maildrop of a name is locked.
abbrev pub locked : Text → UserManager → Bool
locked name m = elim (get_user m.user_list name) [ none ↦ false | some u ↦ u.is_locked ]

-- `user_manager_login` succeeds exactly if the first user of that name has that password and is not
-- locked.
pub login_ok_iff :
    (name password : Text) (m : UserManager)
    → ((login (some name) (some password) m).1 ≡ ok tt) ↔ (
        (u : User) × (get_user m.user_list name ≡ some u)
        × (u.password ≡ some password)
        × (u.is_locked ≡ false))
unfolding login
login_ok_iff name password m = (forth, back)
  where
    forth :
        (login (some name) (some password) m).1 ≡ ok tt
        → (u : User) × (get_user m.user_list name ≡ some u)
          × (u.password ≡ some password)
          × (u.is_locked ≡ false)
    forth h = elim (Option-cases (get_user m.user_list name)) [
      | inl gone ↦ absurd (ground (arith, h))
      | inr (u, found) ↦ elim (Option-cases u.password) [
        | inl null ↦ absurd (ground (arith, h))
        | inr (p, has) ↦ (u, found, ground (arith, h, strcmp_eq_iff p password), ground (arith, h))
      ]
    ]

    back :
        (u : User) × (get_user m.user_list name ≡ some u)
          × (u.password ≡ some password)
          × (u.is_locked ≡ false)
        → (login (some name) (some password) m).1 ≡ ok tt
    back (u, found, p, free) = ground (arith, strcmp_eq_refl password)

-- A successful login locks the maildrop.
pub login-locked :
    (name password : Text) (m : UserManager)
    → (login (some name) (some password) m).1 ≡ ok tt
    → locked name (login (some name) (some password) m).0 ≡ true
unfolding login
login-locked name password m h =
    let (u, found, p, free) = (login_ok_iff name password m).0 h in
    ground (
      arith,
      strcmp_eq_refl password,
      strcmp_eq_refl name,
      get_user-modify_user (lock true) m.user_list name name (λ u. refl),
    )

pub get_user-rename :
    (us : List User) (old new j : Text)
    → strcmp_eq old j ≡ false
    → strcmp_eq new j ≡ false
    → get_user (modify_user (rename_to new) us old) j ≡ get_user us j
unfolding get_user modify_user
get_user-rename [] old new j h k = refl
get_user-rename (u ∷ us) old new j h k = ground (
  arith,
  strcmp_eq_iff u.username old,
  strcmp_eq_iff u.username j,
  strcmp_eq_iff old j,
  strcmp_eq_iff new j,
  get_user-rename us old new j h k,
)

-- What the server does to the user list: the POP3 sessions log in and out, and the monitor
-- protocol creates, deletes and changes users.
pub data Request : Type 0 where
  log_in : Text → Text → Request
  log_out : Text → Request
  create : Text → Text → Request
  delete : Text → Request
  new_password : Text → Text → Request
  new_username : Text → Text → Request

unfoldable pub perform : System → ℕ → Request → UserManager → UserManager × Outcome (Unit {0})
perform sys max (log_in n p) m = login (some n) (some p) m
perform sys max (log_out n) m = logout (some n) m
perform sys max (create n p) m = create_user sys max (some n) (some p) m
perform sys max (delete n) m = delete_user sys (some n) m
perform sys max (new_password n p) m = change_password sys (some n) (some p) m
perform sys max (new_username n p) m = change_username sys (some n) (some p) m

-- The requests that may take the lock of a name away: its own logout, and a change of a username
-- from or to it.
abbrev pub releases : Text → Request → Bool
releases name (log_out n) = strcmp_eq n name
releases name (new_username n p) = strcmp_eq n name || strcmp_eq p name
releases name _ = false

pub perform-locked :
    (sys : System) (max : ℕ) (name : Text) (r : Request) (m : UserManager)
    → releases name r ≡ false
    → locked name m ≡ true
    → locked name (perform sys max r m).0 ≡ true
unfolding perform login logout create_user delete_user change_password change_username
perform-locked sys max name (log_in n p) m h l =
    ground (arith, get_user-modify_user (lock true) m.user_list n name (λ u. refl))
perform-locked sys max name (log_out n) m h l =
    ground (arith, get_user-modify_user (lock false) m.user_list n name (λ u. refl))
perform-locked sys max name (create n p) m h l =
    unfold get_user in ground (arith, strcmp_eq_iff n name)
perform-locked sys max name (delete n) m h l =
    ground (arith, get_user-remove_user_other m.user_list n name, strcmp_eq_iff n name)
perform-locked sys max name (new_password n p) m h l = ground (
  arith,
  get_user-modify_user (set_password none) m.user_list n name (λ u. refl),
  get_user-modify_user (set_password (some p)) m.user_list n name (λ u. refl),
)
perform-locked sys max name (new_username n p) m h l =
    ground (arith, get_user-rename m.user_list n p name)

rename-Distinct :
    (us : List User) (old new : Text)
    → get_user us new ≡ none
    → Distinct us
    → Distinct (modify_user (rename_to new) us old)
unfolding get_user modify_user
rename-Distinct [] old new free d = d
rename-Distinct (u ∷ us) old new free d = elim (Bool-cases (strcmp_eq u.username new)) [
  | inl taken ↦ absurd (ground (arith, free))
  | inr other ↦ elim (Bool-cases (strcmp_eq u.username old)) [
    | inl hit ↦ rw (hit, modify_user) (rw (other, get_user) at free, d.1)
    | inr miss ↦
        rw (miss, modify_user)
          (
            ground (
              arith,
              get_user-rename us old new u.username,
              strcmp_eq_iff old u.username,
              strcmp_eq_iff u.username old,
              strcmp_eq_iff new u.username,
              strcmp_eq_iff u.username new,
            ),
            rename-Distinct us old new (rw (other, get_user) at free) d.1,
          )
  ]
]

rename-AllNames :
    (us : List User) (old new : Text)
    → IsName new
    → AllNames us
    → AllNames (modify_user (rename_to new) us old)
unfolding modify_user
rename-AllNames [] old new n d = d
rename-AllNames (u ∷ us) old new n d = elim (Bool-cases (strcmp_eq u.username old)) [
  | inl hit ↦ rw (hit, modify_user) (n, d.1)
  | inr miss ↦ rw (miss, modify_user) (d.0, rename-AllNames us old new n d.1)
]

-- `user_manager_change_username` keeps the invariant if the new name is well formed and free; it
-- checks neither.
pub change_username-IsValid :
    (sys : System) (old new : Text) (m : UserManager)
    → IsName new
    → get_user m.user_list new ≡ none
    → IsValid m
    → IsValid (change_username sys (some old) (some new) m).0
unfolding change_username
change_username-IsValid sys old new m n free v = ground (arith, renamed)
  where
    renamed : IsValid (record m { user_list = modify_user (rename_to new) m.user_list old })
    renamed = record {
      counted = v.counted ∙ sym (length-modify_user (rename_to new) m.user_list old);
      small = v.small;
      distinct = rename-Distinct m.user_list old new free v.distinct;
      named = rename-AllNames m.user_list old new n v.named;
    }
