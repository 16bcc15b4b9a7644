-- ===== src/UserManager/Accounts.antt =====
-- The user list as a map from names to users, and the invariant that the operations keep.
use tp_protos.Base.{
  ℕ, ◌+◌, ◌-◌, ◌%◌, ◌≤◌, ◌<◌, ◌≡◌, inl, inr, refl, sym, ◌∙◌, true, false, Option, none, some, List,
  [], ◌∷◌, arith, if◌then◌else◌, Bool-cases, Option-cases, length, Text, strcmp_eq, strcmp_eq_iff,
}
use tp_protos.UserManager.{
  User, UserManager, System, get_user, modify_user, remove_user, has_forbidden, create_user,
  delete_user, login, logout, change_password, lock, set_password, max_username_length, uint_mod,
}

-- An account as `user_manager_create_user` admits it.
abbrev pub IsName : Text → Type 0
IsName s = (1 ≤ length s) × (length s ≤ max_username_length) × (has_forbidden s ≡ false)

abbrev pub AllNames : List User → Type 0
AllNames [] = Unit {0}
AllNames (u ∷ us) = IsName u.username × AllNames us

-- No two users have one name.
abbrev pub Distinct : List User → Type 0
Distinct [] = Unit {0}
Distinct (u ∷ us) = (get_user us u.username ≡ none) × Distinct us

pub record IsValid (m : UserManager) : Type 0 where
  pub counted : m.user_count ≡ length m.user_list
  pub small : m.user_count < uint_mod
  pub distinct : Distinct m.user_list
  pub named : AllNames m.user_list

abbrev map_user : (User → User) → Option User → Option User
map_user f none = none
map_user f (some u) = some (f u)

-- A change that keeps the name touches the user of that name alone.
pub get_user-modify_user :
    (f : User → User) (us : List User) (k j : Text)
    → ((u : User) → (f u).username ≡ u.username)
    → get_user (modify_user f us k) j
      ≡ (if strcmp_eq k j then map_user f (get_user us j) else get_user us j)
unfolding get_user modify_user
get_user-modify_user f [] k j h = ground arith
get_user-modify_user f (u ∷ us) k j h = ground (
  arith,
  h u,
  strcmp_eq_iff k j,
  strcmp_eq_iff u.username k,
  strcmp_eq_iff u.username j,
  get_user-modify_user f us k j h,
)

pub length-modify_user :
    (f : User → User) (us : List User) (k : Text) → length (modify_user f us k) ≡ length us
unfolding modify_user
length-modify_user f [] k = refl
length-modify_user f (u ∷ us) k = ground (arith, length-modify_user f us k)

modify_user-Distinct :
    (f : User → User) (us : List User) (k : Text)
    → ((u : User) → (f u).username ≡ u.username)
    → Distinct us
    → Distinct (modify_user f us k)
unfolding modify_user
modify_user-Distinct f [] k h d = d
modify_user-Distinct f (u ∷ us) k h d =
    ground (arith, h u, get_user-modify_user f us k u.username h, modify_user-Distinct f us k h d.1)

modify_user-AllNames :
    (f : User → User) (us : List User) (k : Text)
    → ((u : User) → (f u).username ≡ u.username)
    → AllNames us
    → AllNames (modify_user f us k)
unfolding modify_user
modify_user-AllNames f [] k h d = d
modify_user-AllNames f (u ∷ us) k h d = elim (Bool-cases (strcmp_eq u.username k)) [
  | inl hit ↦ rw hit (rw (h u) d.0, d.1)
  | inr miss ↦ rw miss (d.0, modify_user-AllNames f us k h d.1)
]

pub get_user-remove_user :
    (us : List User) (k j : Text)
    → Distinct us
    → get_user (remove_user us k) j ≡ (if strcmp_eq k j then none else get_user us j)
unfolding get_user remove_user
get_user-remove_user [] k j d = ground arith
get_user-remove_user (u ∷ us) k j d = ground (
  arith,
  strcmp_eq_iff k j,
  strcmp_eq_iff u.username k,
  strcmp_eq_iff u.username j,
  get_user-remove_user us k j d.1,
)

-- Other names are found as before, whether or not names are distinct.
pub get_user-remove_user_other :
    (us : List User) (k j : Text)
    → strcmp_eq k j ≡ false
    → get_user (remove_user us k) j ≡ get_user us j
unfolding get_user remove_user
get_user-remove_user_other [] k j h = refl
get_user-remove_user_other (u ∷ us) k j h = ground (
  arith,
  strcmp_eq_iff k j,
  strcmp_eq_iff u.username k,
  strcmp_eq_iff u.username j,
  get_user-remove_user_other us k j h,
)

remove_user-Distinct : (us : List User) (k : Text) → Distinct us → Distinct (remove_user us k)
unfolding remove_user
remove_user-Distinct [] k d = d
remove_user-Distinct (u ∷ us) k d = elim (Bool-cases (strcmp_eq u.username k)) [
  | inl hit ↦ rw hit d.1
  | inr miss ↦
      rw miss
        (ground (arith, get_user-remove_user us k u.username d.1), remove_user-Distinct us k d.1)
]

remove_user-AllNames : (us : List User) (k : Text) → AllNames us → AllNames (remove_user us k)
unfolding remove_user
remove_user-AllNames [] k d = d
remove_user-AllNames (u ∷ us) k d = elim (Bool-cases (strcmp_eq u.username k)) [
  | inl hit ↦ rw hit d.1
  | inr miss ↦ rw miss (d.0, remove_user-AllNames us k d.1)
]

length-remove_user :
    (us : List User) (k : Text) {u : User}
    → get_user us k ≡ some u
    → length (remove_user us k) + 1 ≡ length us
unfolding get_user remove_user
length-remove_user [] k {u} h = ground arith
length-remove_user (v ∷ us) k {u} h = ground (arith, length-remove_user us k {u = u})

-- A change that keeps the name keeps the invariant.
pub modify_user-IsValid :
    (f : User → User) (m : UserManager) (k : Text)
    → ((u : User) → (f u).username ≡ u.username)
    → IsValid m
    → IsValid (record m { user_list = modify_user f m.user_list k })
modify_user-IsValid f m k h v = record {
  counted = v.counted ∙ sym (length-modify_user f m.user_list k);
  small = v.small;
  distinct = modify_user-Distinct f m.user_list k h v.distinct;
  named = modify_user-AllNames f m.user_list k h v.named;
}

-- `user_manager_create_user` keeps the invariant: a name is added once, within the bounds, and the
-- count does not wrap.
pub create_user-IsValid :
    (sys : System) (max_users : ℕ) (name password : Option Text) (m : UserManager)
    → max_users < uint_mod
    → IsValid m
    → IsValid (create_user sys max_users name password m).0
unfolding create_user
create_user-IsValid sys max_users none password m lt v = v
create_user-IsValid sys max_users (some name) none m lt v = v
create_user-IsValid sys max_users (some name) (some password) m lt v = ground arith

removed-IsValid :
    (m : UserManager) (k : Text) {u : User}
    → IsValid m
    → get_user m.user_list k ≡ some u
    → IsValid (record m {
      user_list = remove_user m.user_list k;
      user_count = (m.user_count + uint_mod - 1) % uint_mod;
    })
removed-IsValid m k {u} v h = record {
  counted = omega (arith, length-remove_user m.user_list k h, v.counted, v.small);
  small = omega arith;
  distinct = remove_user-Distinct m.user_list k v.distinct;
  named = remove_user-AllNames m.user_list k v.named;
}

-- `user_manager_delete_user` keeps the invariant; the count does not wrap below 0.
pub delete_user-IsValid :
    (sys : System) (name : Option Text) (m : UserManager)
    → IsValid m
    → IsValid (delete_user sys name m).0
unfolding delete_user
delete_user-IsValid sys none m v = v
delete_user-IsValid sys (some name) m v = elim (Option-cases (get_user m.user_list name)) [
  | inl gone ↦ rw (gone, delete_user) v
  | inr (u, found) ↦
      rw (found, delete_user) (ground (arith, removed-IsValid m name {u = u} v found))
]

-- `user_manager_login`, `user_manager_logout` and `user_manager_change_password` keep the
-- invariant, on every branch.
pub session-IsValid :
    (sys : System) (name password : Option Text) (m : UserManager)
    → IsValid m
    → IsValid (login name password m).0
      × IsValid (logout name m).0
      × IsValid (change_password sys name password m).0
unfolding login logout change_password
session-IsValid sys none password m v = (v, v, v)
session-IsValid sys (some name) none m v =
    (v, ground (arith, modify_user-IsValid (lock false) m name (λ u. refl) v), v)
session-IsValid sys (some name) (some password) m v = (
  ground (arith, modify_user-IsValid (lock true) m name (λ u. refl) v),
  ground (arith, modify_user-IsValid (lock false) m name (λ u. refl) v),
  ground (
    arith,
    modify_user-IsValid (set_password none) m name (λ u. refl) v,
    modify_user-IsValid (set_password (some password)) m name (λ u. refl) v,
  ),
)
