-- ===== src/UserManager/Names.antt =====
-- `user_manager_get_usernames` copies the names of the list.
use tp_protos.Base.{
  ℕ, ◌+◌, ◌-◌, ◌/◌, ◌%◌, ◌≡◌, true, List, [], ◌∷◌, ◌==◌, Bool-cases, inl, inr, Text, ok,
}
use tp_protos.UserManager.{User, UserManager, System, copy_usernames, get_usernames}

-- The names in the order of the list.
abbrev pub usernames : List User → List Text
usernames [] = []
usernames (u ∷ us) = u.username ∷ usernames us

copy_usernames_lem :
    (sys : System) (us : List User) (i : ℕ)
    → ((n : ℕ) → sys.malloc n ≡ true)
    → copy_usernames sys us i ≡ ok (usernames us)
unfolding copy_usernames
copy_usernames_lem sys [] i h = rw (h ((i + 10 - 1) / 10))
copy_usernames_lem sys (u ∷ us) i h =
    let rest = copy_usernames_lem sys us (i + 1) h in
    elim (Bool-cases (i % 10 == 0)) [
      | inl start ↦ rw (start, h (i / 10), rest)
      | inr inside ↦ rw (inside, rest)
    ]

-- As long as there is memory, all names are returned.
pub get_usernames_lem :
    (sys : System) (m : UserManager)
    → ((n : ℕ) → sys.malloc n ≡ true)
    → get_usernames sys m ≡ ok (usernames m.user_list)
unfolding get_usernames
get_usernames_lem sys m h = copy_usernames_lem sys m.user_list 0 h
