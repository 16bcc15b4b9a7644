-- ===== src/UserManager/Storage.antt =====
-- server/src/user-manager.c: the users file, `parse_line`, `load_users`, `save_users`, and
-- `user_manager_create` and `user_manager_free` around them. The file is the list of its bytes.
pub mod Lines
pub mod RoundTrip
use tp_protos.Base.{
  ℕ, ◌+◌, ◌-◌, ◌*◌, ◌%◌, Bool, false, not, ◌&&◌, ◌||◌, Option, none, some, List, [], ◌∷◌, ◌++◌, ltb,
  leb, ◌==◌, if◌then◌else◌, is_some, drop, Text, Errno, einval, enoent, enomem, eio, efbig, Outcome,
  ok, err, fault, ◌>>=◌, ◌>>◌, guard,
}
use tp_protos.UserManager.{
  User, UserManager, System, max_username_length, max_password_length, delimiter, uint_mod,
}

-- `*line`: the end of the list is the terminator.
abbrev pub head_byte : Text → ℕ
head_byte [] = 0
head_byte (c ∷ s) = c

abbrev pub is_blank : ℕ → Bool
is_blank c = (c == b' ') || (c == 9)

-- `*line == DELIMITER || *line == '\n' || *line == '\0'`
abbrev pub is_end : ℕ → Bool
is_end c = (c == delimiter) || (c == 10) || (c == 0)

skip_blanks : Text → Text
skip_blanks [] = []
skip_blanks (c ∷ s) = let rest = skip_blanks s in if is_blank c then rest else c ∷ s

-- The loop that finds a token, with `n` the length counted so far: the token, what follows it and
-- the count. `limit` is `MAX_USERNAME_LENGTH` or `MAX_PASSWORD_LENGTH`.
scan_token : ℕ → ℕ → Text → Text × Text × ℕ
scan_token limit n [] = ([], [], n)
scan_token limit n (c ∷ s) =
    let (token, rest, n') = scan_token limit (n + 1) s in
    if is_end c || ltb limit n then ([], c ∷ s, n) else (c ∷ token, rest, n')

-- The part of `parse_line` from the password on.
parse_password : Text → Text → Option (Text × Text)
unfolding scan_token
parse_password username line =
    let (password, _, n) = scan_token max_password_length 1 line in
    if is_end (head_byte line)
    then none
    else if ltb max_password_length n
    then none
    else some (username, password)

-- `parse_line(line, username, password)`: `none` is -1.
unfoldable pub parse_line : Text → Option (Text × Text)
unfolding skip_blanks scan_token parse_password
parse_line text =
    let line = skip_blanks text in
    let (username, rest, n) = scan_token max_username_length 1 line in
    if (head_byte line == 10) || (head_byte line == 0)
    then none
    else if is_end (head_byte line)
    then none
    else if ltb max_username_length n
    then none
    else if not (head_byte rest == delimiter)
    then none
    else parse_password username (skip_blanks (drop 1 rest))

-- The size of the buffer of `load_users`, less the terminator that `fgets` writes.
abbrev pub line_room : ℕ
line_room = max_username_length + max_password_length + 1

prepend : ℕ → List Text → List Text
prepend c [] = (c ∷ []) ∷ []
prepend c (l ∷ ls) = (c ∷ l) ∷ ls

-- The lines that repeated calls of `fgets` give, with room for `left` more bytes in this one. A
-- line ends behind a line feed, when the buffer is full, or with the file.
unfoldable pub fgets_lines : ℕ → List ℕ → List Text
unfolding prepend
fgets_lines left [] = []
fgets_lines left (c ∷ cs) =
    let full = (c == 10) || leb left 1 in
    let rest = fgets_lines (if full then line_room else left - 1) cs in
    if full then (c ∷ []) ∷ rest else prepend c rest

-- What `load_users` leaves: the users linked so far, the count, and how it ended.
pub record Load : Type 0 where
  pub users : List User
  pub count : ℕ
  pub status : Outcome (Unit {0})

abbrev pub new_user : Text × Text → User
new_user (name, password) = record { username = name; password = some password; is_locked = false }

-- The loop of `load_users`, at the line `i`, where `count` users are loaded. The `malloc`s of line
-- `i` are 3 i to 3 i + 2.
load_lines : System → ℕ → List Text → ℕ → ℕ → Load
load_lines sys max_users [] i count = record { users = []; count = count; status = ok tt }
load_lines sys max_users (l ∷ ls) i count =
    if not (sys.malloc (3 * i) && sys.malloc (3 * i + 1))
    then record { users = []; count = count; status = err enomem }
    else elim (parse_line l) [
      | none ↦ record { users = []; count = count; status = err einval }
      | some p ↦
          let rest = load_lines sys max_users ls (i + 1) ((count + 1) % uint_mod) in
          if leb max_users count
          then record { users = []; count = count; status = err efbig }
          else if not (sys.malloc (3 * i + 2))
          then record { users = []; count = count; status = err enomem }
          else record rest { users = new_user p ∷ rest.users }
    ]

-- The write through `last_user` behind the loop is undefined when no user was loaded.
abbrev pub terminated : List User → Outcome (Unit {0}) → Outcome (Unit {0})
terminated [] (ok _) = fault
terminated us status = status

-- `load_users(users_file)`; `count` is the static `user_manager_user_count` before it.
unfoldable pub load_users : System → ℕ → List ℕ → ℕ → Load
unfolding load_lines
load_users sys max_users file count =
    let l = load_lines sys max_users (fgets_lines line_room file) 0 count in
    record l { status = terminated l.users l.status }

-- `fprintf(users_file, "%s%c%s\n", username, DELIMITER, password)`; `%s` of NULL is undefined.
abbrev pub user_line : User → Outcome Text
user_line u = elim u.password [
  | none ↦ fault
  | some p ↦ ok (u.username ++ (delimiter ∷ (p ++ 10 ∷ [])))
]

-- `save_users(users_file)`: the bytes written. `writes` says whether the n-th `fprintf` succeeds.
unfoldable pub save_users : (ℕ → Bool) → ℕ → List User → Outcome (List ℕ)
save_users writes i [] = ok []
save_users writes i (u ∷ us) = do
  line ← user_line u
  guard (writes i) eio
  rest ← save_users writes (i + 1) us
  ok (line ++ rest)

-- `free_user_list` of the list that a failed load leaves: the last node's `next` was never set.
abbrev pub load_failed : List User → Errno → Outcome UserManager
load_failed [] e = err e
load_failed (u ∷ us) e = fault

-- `user_manager_create(users_file_path, maildrop_parent_path)`, where `user_manager_user_count` is
-- `count`. `fopen` gives the bytes of a file that can be read. The
-- `malloc`s of the paths are `paths 0` and `paths 1`.
unfoldable pub create_manager :
    System
    → (ℕ → Bool)
    → ℕ
    → (Text → Option (List ℕ))
    → ℕ
    → Option Text
    → Option Text
    → Outcome UserManager
unfolding load_users
create_manager sys paths max_users fopen count none parent = err einval
create_manager sys paths max_users fopen count (some file) none = err einval
create_manager sys paths max_users fopen count (some file) (some parent) = do
  guard (is_some (sys.opendir parent)) enoent
  guard (paths 0) enomem
  guard (paths 1) enomem
  elim (fopen file) [
    | none ↦ ok (record { user_list = []; user_count = count; maildrop_parent_path = parent })
    | some bytes ↦
        let l = load_users sys max_users bytes count in
        elim l.status [
          | ok _ ↦
              ok (record {
                user_list = l.users;
                user_count = l.count;
                maildrop_parent_path = parent;
              })
          | err e ↦ load_failed l.users e
          | fault ↦ fault
        ]
  ]

-- `user_manager_free`: the bytes that the users file holds afterwards.
unfoldable pub free_manager : Bool → (ℕ → Bool) → UserManager → Outcome (List ℕ)
unfolding save_users
free_manager opens writes m = do guard opens eio; save_users writes 0 m.user_list
