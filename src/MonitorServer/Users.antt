-- ===== src/MonitorServer/Users.antt =====
-- What LISTUSERS and ADDUSER answer.
use tp_protos.Base.{
  ◌+◌, ◌%◌, ◌≤◌, ◌&&◌, ◌||◌, ltb, is_some, not, enomem, eio, einval, eexist, efbig, ◌<◌, leb, ℕ,
  ◌≡◌, refl, ◌∙◌, Bool, true, false, some, List, [], ◌∷◌, ◌++◌, arith, Text, has_char, length,
  codes, ◌==◌, if◌then◌else◌, Errno, Outcome, ok, err, fault,
}
use mathlib.Core.List.Memᴰ
use tp_protos.Buffer.Bounds.{IsValid}
use tp_protos.UserManager.{
  UserManager, System, get_user, create_user, uint_mod, has_forbidden, max_username_length,
  max_password_length,
}
use tp_protos.Client.Responses.{dot_crlf}
use tp_protos.MonitorServer.{Service, Environment}
use tp_protos.MonitorServer.Commands.{err_line, ok_line, users_changed, handle_adduser}
use tp_protos.MonitorServer.Request.{authorization_token, parse_client_request}
use tp_protos.MonitorServer.Words.{IsWord, join_words}
use tp_protos.MonitorServer.Texts.{user_lines}
use tp_protos.MonitorServer.Access.{Answered, answer_lem, command_request_lem}

-- The text of LISTUSERS.
abbrev pub users_text : List Text → Text
users_text us = (ok_line ++ user_lines us) ++ dot_crlf

-- ADDUSER of the name and the password.
abbrev pub adduser_request : Text → Text → Text
adduser_request name password =
    join_words (authorization_token ∷ codes "ADDUSER" ∷ name ∷ password ∷ [])

adduser_runs :
    (env : Environment) (name password : Text) (s : Service)
    → IsWord name
    → IsWord password
    → parse_client_request env (adduser_request name password) s
      ≡ users_changed
          (create_user env.system s.monitor.config.max_users (some name) (some password) s.users)
          s
unfolding handle_adduser
adduser_runs env name password s n p =
    let filled : (length name == 0) ≡ false = ground (arith, n.1) in
    let filled' : (length password == 0) ≡ false = ground (arith, p.1) in
    command_request_lem env (record { name = codes "ADDUSER"; command_handler = handle_adduser })
      (name ∷ password ∷ []) s (Memᴰ.head refl) (n, (p, tt)) (omega arith)
    ∙ rw (handle_adduser, filled, filled')

-- What an operation on the users is answered with.
abbrev pub result_line : Outcome (Unit {0}) → Text
result_line (ok _) = ok_line
result_line (err _) = err_line
result_line fault = []

abbrev bad_length : Text → Text → Bool
bad_length name password =
    ltb max_username_length (length name)
    || ltb max_password_length (length password)
    || (length name == 0)
    || (length password == 0)

-- What `user_manager_create_user` refuses of a name and a password, whatever the users are.
abbrev not_allowed : Text → Text → Bool
not_allowed name password =
    bad_length name password || (has_forbidden name || has_forbidden password)

-- The memory and the directory of a new user.
abbrev can_store : System → UserManager → Text → Bool
can_store sys m name =
    sys.malloc 0 && sys.malloc 1 && sys.malloc 2 && sys.mkdir (m.maildrop_parent_path ++ name)

-- How the creation of a user may end, and when: the users after it, and the result.
pub data Created (sys : System) (max : ℕ) (name password : Text) (m : UserManager)
    : UserManager × Outcome (Unit {0}) → Type 0 where
  no_room : max ≤ m.user_count → Created sys max name password m (m, err efbig)
  refused : not_allowed name password ≡ true → Created sys max name password m (m, err einval)
  taken :
      is_some (get_user m.user_list name) ≡ true → Created sys max name password m (m, err eexist)
  not_stored :
      (e : Errno) → can_store sys m name ≡ false → Created sys max name password m (m, err e)
  created :
      m.user_count < max
      → not_allowed name password ≡ false
      → is_some (get_user m.user_list name) ≡ false
      → can_store sys m name ≡ true
      → Created sys max name password m (
        record m {
          user_list =
              record { username = name; password = some password; is_locked = false } ∷ m.user_list;
          user_count = (m.user_count + 1) % uint_mod;
        },
        ok tt,
      )

users_changed_lem :
    (sys : System) (max : ℕ) (name password : Text) (r : UserManager × Outcome (Unit {0}))
    (s : Service)
    → Created sys max name password s.users r
    → IsValid s.client.buffer_out
    → (s' : Service) × (users_changed r s ≡ ok s')
      × Answered (result_line r.1) (record s { users = r.0 }) s'
unfolding has_char
users_changed_lem sys max name password r s (no_room h) v = answer_lem err_line false s refl v
users_changed_lem sys max name password r s (refused h) v = answer_lem err_line false s refl v
users_changed_lem sys max name password r s (taken h) v = answer_lem err_line false s refl v
users_changed_lem sys max name password r s (not_stored e h) v = answer_lem err_line false s refl v
users_changed_lem sys max name password r s (created room allowed free stored) v =
    answer_lem ok_line false (record s { users = r.0 }) refl v

if_ends :
    {A : Type 0} (P : A → Type 0) (test : Bool) {x y : A}
    → (test ≡ true → P x)
    → (test ≡ false → P y)
    → P (if test then x else y)
if_ends P true h k = h refl
if_ends P false h k = k refl

create_user-Created :
    (sys : System) (max : ℕ) (name password : Text) (m : UserManager)
    → Created sys max name password m (create_user sys max (some name) (some password) m)
unfolding create_user
create_user-Created sys max name password m =
    let P = Created sys max name password m in
    let memory = sys.malloc 0 && sys.malloc 1 && sys.malloc 2 in
    let made = sys.mkdir (m.maildrop_parent_path ++ name) in
    let stored : (made ≡ true) → (memory ≡ true) → can_store sys m name ≡ true =
      λ h k. ground (arith, h, k) in
    if_ends P (leb max m.user_count) (λ h. no_room (ground (arith, h)))
      (λ room.
        if_ends P (bad_length name password) (λ h. refused (ground (arith, h)))
          (λ short.
            if_ends P (has_forbidden name || has_forbidden password)
              (λ h. refused (ground (arith, h)))
              (λ plain.
                if_ends P (is_some (get_user m.user_list name)) (λ h. taken h)
                  (λ free.
                    if_ends P (not memory) (λ h. not_stored enomem (ground (arith, h)))
                      (λ enough.
                        if_ends P (not made) (λ h. not_stored eio (ground (arith, h)))
                          (λ done.
                            created (ground (arith, room)) (ground (arith, short, plain)) free
                              (stored (ground (arith, done)) (ground (arith, enough)))))))))

-- An authorized ADDUSER of two words, from a valid output buffer: if the users are fewer than the
-- limit of the monitor at that time, name and password are allowed, no user has the name, and memory
-- and directory can be had, the user stands in front of the others, not locked, and OK is answered;
-- else nothing changes, and ERR is answered.
pub adduser_request_lem :
    (env : Environment) (name password : Text) (s : Service)
    → IsWord name
    → IsWord password
    → IsValid s.client.buffer_out
    → let max = s.monitor.config.max_users in
      let r = create_user env.system max (some name) (some password) s.users in
      (s' : Service) × (parse_client_request env (adduser_request name password) s ≡ ok s')
      × Answered (result_line r.1) (record s { users = r.0 }) s'
      × Created env.system max name password s.users r
adduser_request_lem env name password s n p v =
    let r = create_user env.system s.monitor.config.max_users (some name) (some password) s.users in
    let (s', e, a) =
      users_changed_lem env.system s.monitor.config.max_users name password r s
        (create_user-Created env.system s.monitor.config.max_users name password s.users) v in
    (
      s',
      adduser_runs env name password s n p ∙ e,
      a,
      create_user-Created env.system s.monitor.config.max_users name password s.users,
    )
