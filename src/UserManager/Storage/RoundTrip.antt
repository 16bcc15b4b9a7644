-- ===== src/UserManager/Storage/RoundTrip.antt =====
-- Saving the users file and loading it again.
use tp_protos.Base.{
  ℕ, suc, ◌+◌, ◌*◌, ◌%◌, ◌≤◌, ◌<◌, ◌≡◌, inl, inr, refl, ap, ◌∙◌, Bool, true, false, Option, none,
  some, List, [], ◌∷◌, ◌++◌, append-nil, append_assoc, arith, leb, Option-cases, is_some, length,
  length-append, Text, Errno, einval, eio, ok, err, guard, >>=-eq-ok, ok-injective,
}
use tp_protos.UserManager.{User, UserManager, System, max_username_length, delimiter, uint_mod}
use tp_protos.UserManager.Storage.{
  parse_line, line_room, fgets_lines, new_user, load_lines, load_users, user_line, save_users,
  create_manager, free_manager,
}
use tp_protos.UserManager.Storage.Lines.{
  AllPlain, has_newline, parse_line_short, parse_line_full, fgets_lines_lem, newline-plain,
}

-- An account that the users file can hold: no byte of its two parts ends a token or is skipped,
-- and both are shorter than the limits.
abbrev pub StorableToken : Text → Type 0
StorableToken s = AllPlain s × (1 ≤ length s) × (length s < 32)

abbrev pub StorablePassword : Option Text → Type 0
StorablePassword none = ⊥
StorablePassword (some p) = StorableToken p

abbrev pub AllStorable : List User → Type 0
AllStorable [] = Unit {0}
AllStorable (u ∷ us) = StorableToken u.username × StorablePassword u.password × AllStorable us

abbrev pub unlocked : List User → List User
unlocked [] = []
unlocked (u ∷ us) = record u { is_locked = false } ∷ unlocked us

load_lines_step :
    (sys : System) (max i count : ℕ) (l : Text) (ls : List Text) (p : Text × Text)
    → ((n : ℕ) → sys.malloc n ≡ true)
    → parse_line l ≡ some p
    → count < max
    → let rest = load_lines sys max ls (i + 1) ((count + 1) % uint_mod) in
      load_lines sys max (l ∷ ls) i count ≡ record rest { users = new_user p ∷ rest.users }
unfolding load_lines
load_lines_step sys max i count l ls p mem h lt =
    let full : leb max count ≡ false = ground arith in
    rw (mem (3 * i), mem (3 * i + 1), h, full, mem (3 * i + 2))

-- `fgets` gives the line of one account whole, also with a name of the full length.
line_split :
    (name password rest : Text)
    → AllPlain name
    → StorableToken password
    → length name ≤ max_username_length
    → fgets_lines line_room ((name ++ (delimiter ∷ (password ++ 10 ∷ []))) ++ rest)
      ≡ (name ++ (delimiter ∷ (password ++ 10 ∷ []))) ∷ fgets_lines line_room rest
line_split name password rest p q fits =
    rw (split, fgets_lines_lem line_room (name ++ (delimiter ∷ password)) rest plain short, join)
  where
    split :
        (name ++ (delimiter ∷ (password ++ 10 ∷ []))) ++ rest
        ≡ (name ++ (delimiter ∷ password)) ++ 10 ∷ rest
    split = simp append_assoc

    join : (name ++ (delimiter ∷ password)) ++ 10 ∷ [] ≡ name ++ (delimiter ∷ (password ++ 10 ∷ []))
    join = simp append_assoc

    plain : has_newline (name ++ (delimiter ∷ password)) ≡ false
    plain =
        let e : has_newline password ≡ false =
          rw (← append-nil password) (newline-plain password [] q.0) in
        newline-plain name (delimiter ∷ password) p ∙ e

    short : length (name ++ (delimiter ∷ password)) < line_room
    short = omega (arith, length-append name (delimiter ∷ password))

-- The line of one storable account is read back as that account.
load_lines-cons :
    (sys : System) (max i count : ℕ) (name password rest : Text)
    → ((n : ℕ) → sys.malloc n ≡ true)
    → StorableToken name
    → StorableToken password
    → count < max
    → max < uint_mod
    → let line = name ++ (delimiter ∷ (password ++ 10 ∷ [])) in
      let l = load_lines sys max (fgets_lines line_room rest) (i + 1) (count + 1) in
      load_lines sys max (fgets_lines line_room (line ++ rest)) i count
      ≡ record l { users = new_user (name, password) ∷ l.users }
load_lines-cons sys max i count name password rest mem p q lt small =
    let e : (count + 1) % uint_mod ≡ count + 1 = omega arith in
    rw (line_split name password rest p.0 q (omega arith)) (
      rw (← e) (
        load_lines_step sys max i count (name ++ (delimiter ∷ (password ++ 10 ∷ [])))
          (fgets_lines line_room rest) (name, password) mem
          (parse_line_short name password [] p.0 q.0 p.1 q.1 p.2 q.2) lt))

save_load :
    (sys : System) (writes : ℕ → Bool) (max i j count : ℕ) (us : List User)
    → ((n : ℕ) → sys.malloc n ≡ true)
    → ((n : ℕ) → writes n ≡ true)
    → max < uint_mod
    → AllStorable us
    → count + length us ≤ max
    → (bytes : List ℕ) × (save_users writes j us ≡ ok bytes)
      × (load_lines sys max (fgets_lines line_room bytes) i count
          ≡ record { users = unlocked us; count = count + length us; status = ok tt })
unfolding save_users load_lines fgets_lines
save_load sys writes max i j count [] mem w small a h = ([], refl, ground arith)
save_load sys writes max i j count (u ∷ us) mem w small a h = elim (Option-cases u.password) [
  | inl null ↦ absurd (rw null at a.1)
  | inr (p, has) ↦
      let (rest, saved, loaded) =
        save_load sys writes max (i + 1) (j + 1) (count + 1) us mem w small a.2 (omega arith) in
      let line : Text = u.username ++ (delimiter ∷ (p ++ 10 ∷ [])) in
      (
        line ++ rest,
        ground (arith, w j),
        load_lines-cons sys max i count u.username p rest mem a.0 (rw has at a.1) (omega arith)
              small
            ∙ rw loaded (ground (arith, has)),
      )
]

load_lines_bad :
    (sys : System) (max i count : ℕ) (l : Text) (ls : List Text)
    → ((n : ℕ) → sys.malloc n ≡ true)
    → parse_line l ≡ none
    → load_lines sys max (l ∷ ls) i count
      ≡ record { users = []; count = count; status = err einval }
unfolding load_lines
load_lines_bad sys max i count l ls mem h = rw (mem (3 * i), mem (3 * i + 1), h)

load_lines_full :
    (sys : System) (max i count : ℕ) (name password rest : Text)
    → ((n : ℕ) → sys.malloc n ≡ true)
    → AllPlain name
    → length name ≡ max_username_length
    → StorableToken password
    → load_lines sys max
        (fgets_lines line_room ((name ++ (delimiter ∷ (password ++ 10 ∷ []))) ++ rest))
        i
        count
      ≡ record { users = []; count = count; status = err einval }
load_lines_full sys max i count name password rest mem p full q =
    rw (line_split name password rest p q (omega arith)) (
      load_lines_bad sys max i count (name ++ (delimiter ∷ (password ++ 10 ∷ [])))
        (fgets_lines line_room rest) mem
        (parse_line_full name password [] p q.0 (omega arith) full))

module _ (sys : System) (paths : ℕ → Bool) (max : ℕ) (file parent : Text) (bytes : List ℕ)
    (dir : is_some (sys.opendir parent) ≡ true) (path₀ : paths 0 ≡ true)
    (path₁ : paths 1 ≡ true) where
  create_manager_loaded :
      (us : List User) (count : ℕ)
      → 1 ≤ length us
      → load_lines sys max (fgets_lines line_room bytes) 0 0
        ≡ record { users = us; count = count; status = ok tt }
      → create_manager sys paths max (λ _. some bytes) 0 (some file) (some parent)
        ≡ ok (record { user_list = us; user_count = count; maildrop_parent_path = parent })
  unfolding create_manager load_users
  create_manager_loaded [] count one loaded = absurd (omega arith)
  create_manager_loaded (u ∷ us) count one loaded = ground (arith, loaded)

  create_manager_failed :
      (count : ℕ) (e : Errno)
      → load_lines sys max (fgets_lines line_room bytes) 0 0
        ≡ record { users = []; count = count; status = err e }
      → create_manager sys paths max (λ _. some bytes) 0 (some file) (some parent) ≡ err e
  unfolding create_manager load_users
  create_manager_failed count e loaded = ground (arith, loaded)

length-unlocked : (us : List User) → length (unlocked us) ≡ length us
length-unlocked [] = refl
length-unlocked (u ∷ us) = ap suc (length-unlocked us)

-- The users file that `user_manager_free` writes is read by the next `user_manager_create` as the
-- same users, all unlocked, if there is at least one, no more than the maximum, and every name and
-- password is plain and shorter than its limit, and if no system call fails.
pub create-free :
    (sys : System) (paths writes : ℕ → Bool) (max : ℕ) (file : Text) (m : UserManager)
    → ((n : ℕ) → (sys.malloc n ≡ true) × (paths n ≡ true) × (writes n ≡ true))
    → is_some (sys.opendir m.maildrop_parent_path) ≡ true
    → max < uint_mod
    → AllStorable m.user_list
    → 1 ≤ length m.user_list
    → length m.user_list ≤ max
    → (bytes : List ℕ) × (free_manager true writes m ≡ ok bytes)
      × (create_manager sys paths max (λ _. some bytes) 0 (some file) (some m.maildrop_parent_path)
          ≡ ok (record {
            user_list = unlocked m.user_list;
            user_count = length m.user_list;
            maildrop_parent_path = m.maildrop_parent_path;
          }))
unfolding free_manager
create-free sys paths writes max file m calls dir small a one fit =
    let (bytes, saved, loaded) =
      save_load sys writes max 0 0 0 m.user_list (λ n. (calls n).0) (λ n. (calls n).2) small a
        (omega arith) in
    (
      bytes,
      saved,
      create_manager_loaded sys paths max file m.maildrop_parent_path bytes dir (calls 0).1
          (calls 1).1 (unlocked m.user_list) (length m.user_list)
          (omega (arith, length-unlocked m.user_list)) (loaded ∙ ground arith),
    )

save_users-cons :
    (writes : ℕ → Bool) (j : ℕ) (u : User) (us : List User) (p : Text) {bytes : List ℕ}
    → u.password ≡ some p
    → save_users writes j (u ∷ us) ≡ ok bytes
    → (rest : List ℕ) × ((u.username ++ (delimiter ∷ (p ++ 10 ∷ []))) ++ rest ≡ bytes)
unfolding save_users
save_users-cons writes j u us p has h =
    let (line, e, h₁) = >>=-eq-ok (user_line u) _ h in
    let (_, _, h₂) = >>=-eq-ok (guard (writes j) eio) _ h₁ in
    let (rest, _, h₃) = >>=-eq-ok (save_users writes (j + 1) us) _ h₂ in
    (rest, ground (arith, e, ok-injective h₃))

-- If no call fails, a user with a plain name of the full 32 bytes, which `user_manager_create_user`
-- admits, and a password that can be stored makes the users file unreadable: with that user first in
-- the list, the next `user_manager_create` is `EINVAL`.
pub create-free_full_name :
    (sys : System) (paths writes : ℕ → Bool) (max : ℕ) (file password : Text) (u : User)
    (us : List User) (m : UserManager) {bytes : List ℕ}
    → ((n : ℕ) → (sys.malloc n ≡ true) × (paths n ≡ true))
    → is_some (sys.opendir m.maildrop_parent_path) ≡ true
    → AllPlain u.username
    → length u.username ≡ max_username_length
    → u.password ≡ some password
    → StorableToken password
    → m.user_list ≡ u ∷ us
    → free_manager true writes m ≡ ok bytes
    → create_manager sys paths max (λ _. some bytes) 0 (some file) (some m.maildrop_parent_path)
      ≡ err einval
unfolding free_manager
create-free_full_name sys paths writes max file password u us m {bytes} calls dir p full has q first
      saved =
    let (rest, e) = save_users-cons writes 0 u us password has (rw first at saved) in
    create_manager_failed sys paths max file m.maildrop_parent_path bytes dir (calls 0).1
      (calls 1).1 0 einval
      (rw (← e) (load_lines_full sys max 0 0 u.username password rest (λ n. (calls n).0) p full q))
