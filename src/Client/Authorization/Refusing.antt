-- ===== src/Client/Authorization/Refusing.antt =====
-- The text that PASS answers to a login that `user_manager_login` refuses.
use tp_protos.Base.{
  ◌≡◌, refl, sym, subst, Bool-cases, Option-cases, inl, inr, true, false, Option, none, some, arith,
  has_char, Text, Outcome, err, Errno, einval, enoent, enomem, eio, eexist, efbig, ebusy, eacces,
  enotdir, other, strcmp_eq,
}
use tp_protos.UserManager.{User, UserManager, get_user, login}
use tp_protos.Client.Responses
use tp_protos.Client.Authorization.{pass_response}

pub pass_response_plain : (code : Errno) → has_char 0 (pass_response code) ≡ false
unfolding has_char
pass_response_plain einval = refl
pass_response_plain enoent = refl
pass_response_plain enomem = refl
pass_response_plain eio = refl
pass_response_plain eexist = refl
pass_response_plain efbig = refl
pass_response_plain ebusy = refl
pass_response_plain eacces = refl
pass_response_plain enotdir = refl
pass_response_plain (other n) = refl

-- The answer to a login that does not succeed, by what is wrong with it: no name or no password, a
-- name that no user has, another password than the user's, or a maildrop that is locked.
pub data Refusal (m : UserManager) : Option Text → Option Text → Text → Type 0 where
  no_name : (pass : Option Text) → Refusal m none pass Responses.pass_no_user
  no_password : (name : Text) → Refusal m (some name) none Responses.pass_no_user
  unknown_user :
      (name pass : Text)
      → get_user m.user_list name ≡ none
      → Refusal m (some name) (some pass) Responses.pass_no_such_user
  wrong_password :
      (name pass own : Text) (u : User)
      → get_user m.user_list name ≡ some u
      → u.password ≡ some own
      → strcmp_eq own pass ≡ false
      → Refusal m (some name) (some pass) Responses.pass_invalid_password
  locked_maildrop :
      (name pass own : Text) (u : User)
      → get_user m.user_list name ≡ some u
      → u.password ≡ some own
      → strcmp_eq own pass ≡ true
      → u.is_locked ≡ true
      → Refusal m (some name) (some pass) Responses.pass_busy

err-injective : {a b : Errno} (x y : Outcome (Unit {0})) → x ≡ err a → y ≡ err b → x ≡ y → a ≡ b
err-injective x y h k e = cc

pub login-Refusal :
    (user pass : Option Text) (m : UserManager) (code : Errno)
    → (login user pass m).1 ≡ err code
    → Refusal m user pass (pass_response code)
unfolding login
login-Refusal none pass m code h =
    let same : code ≡ einval = sym (err-injective _ _ refl refl h) in
    subst (λ e. Refusal m none pass (pass_response e)) (sym same) (no_name pass)
login-Refusal (some name) none m code h =
    let same : code ≡ einval = sym (err-injective _ _ refl refl h) in
    subst (λ e. Refusal m (some name) none (pass_response e)) (sym same) (no_password name)
login-Refusal (some name) (some pass) m code h = elim (Option-cases (get_user m.user_list name)) [
  | inl gone ↦
      let same : enoent ≡ code = ground (arith, h, gone) in
      subst (λ e. Refusal m (some name) (some pass) (pass_response e)) same
        (unknown_user name pass gone)
  | inr (u, found) ↦ elim (Option-cases u.password) [
    | inl null ↦ absurd (ground (arith, h, found, null))
    | inr (own, has) ↦ elim (Bool-cases (strcmp_eq own pass)) [
      | inl right ↦ elim (Bool-cases u.is_locked) [
        | inl shut ↦
            let same : ebusy ≡ code = ground (arith, h, found, has, right, shut) in
            subst (λ e. Refusal m (some name) (some pass) (pass_response e)) same
              (locked_maildrop name pass own u found has right shut)
        | inr free ↦ absurd (ground (arith, h, found, has, right, free))
      ]
      | inr wrong ↦
          let same : eacces ≡ code = ground (arith, h, found, has, wrong) in
          subst (λ e. Refusal m (some name) (some pass) (pass_response e)) same
            (wrong_password name pass own u found has wrong)
    ]
  ]
]
