-- ===== src/Client/Commands/Handlers.antt =====
-- What the handlers of authorization.c, transaction.c and states-common.c leave of a session: they
-- never abort, and the session they go on to fits the state that they return.
use tp_protos.Base.{
  einval, ℕ, ◌≡◌, refl, sym, ap, ◌∙◌, subst, Bool, true, false, Option, none, some, Outcome, ok,
  err, fault, Text, Returns, Returns->>=, Returns-mono, Returns-if, Returns-option, ◌==◌, is_some,
  take,
}
use tp_protos.MessageManager.{MessageManager, create}
use tp_protos.UserManager.{UserManager, login}
use tp_protos.UserManager.Locks.{locked, login-locked}
use tp_protos.Monitor.{Monitor, add_log}
use tp_protos.Client.{
  Client, Server, State, greeting, authorization, transaction, update, error, close_connection,
  Interest, with_client, defined_value,
}
use tp_protos.Client.Output.{response_write, write_response}
use tp_protos.Client.Authorization.{
  Environment, answer, not_allocated, named, handle_user, pass_response, session_opened,
  log_recorded, open_maildrop, maildrop_opened, maildrop_path, handle_pass, logged_in, handle_capa,
  handle_quit,
}

-- What the flow of a session depends on.
pub record View : Type 0 where
  pub current : Option State
  pub closed : Bool
  pub interest : Interest
  pub authenticated : Bool
  pub user : Option Text
  pub message_manager : Option MessageManager
  pub users : UserManager

abbrev pub view : Server → View
view s = record {
  current = s.client.current;
  closed = s.client.closed;
  interest = s.interest;
  authenticated = s.client.authenticated;
  user = s.client.user;
  message_manager = s.client.message_manager;
  users = s.users;
}

-- The maildrop of the user is locked.
abbrev pub IsLocked : Option Text → UserManager → Type 0
IsLocked none m = ⊥
IsLocked (some name) m = locked name m ≡ true

-- A login has locked the maildrop of the user, and it is open.
abbrev pub IsLoggedIn : View → Type 0
IsLoggedIn v =
    (v.authenticated ≡ true) × IsLocked v.user v.users × (is_some v.message_manager ≡ true)

-- What a session is like in a state.
abbrev pub Fits : State → View → Type 0
Fits greeting v = v.authenticated ≡ false
Fits authorization v = v.authenticated ≡ false
Fits transaction v = IsLoggedIn v
Fits update v = IsLoggedIn v
Fits error v = Unit
Fits close_connection v = Unit

-- The states that a command of this state leads to.
abbrev pub Follows : State → State → Type 0
Follows authorization authorization = Unit
Follows authorization transaction = Unit
Follows authorization close_connection = Unit
Follows transaction transaction = Unit
Follows transaction update = Unit
Follows authorization error = Unit
Follows _ _ = ⊥

-- A handler called in the state `here` at the view `v` leaves the rest of the flow alone.
abbrev pub Leads : State → View → Server × State → Type 0
Leads here v r =
    ((view r.0).current ≡ v.current)
    × ((view r.0).closed ≡ v.closed)
    × ((view r.0).interest ≡ v.interest)
    × Fits r.1 (view r.0)
    × Follows here r.1

pub defined_value-Returns :
    {A : Type 0} (o : Option A) → Returns (λ a. o ≡ some a) (defined_value o)
defined_value-Returns none = tt
defined_value-Returns (some a) = refl

pub write_response-view :
    (c : Client) (s : Server)
    → Returns (λ c'. view (with_client c' s) ≡ view (with_client c s)) (write_response c)
unfolding write_response
write_response-view c s =
    Returns->>= _ _ (defined_value c.response) _ (defined_value-Returns c.response) (λ t _.
      Returns->>= _ _ (defined_value (response_write c.buffer_out t c.response_index)) _
        (defined_value-Returns (response_write c.buffer_out t c.response_index)) (λ r _. refl))

pub answer-view :
    (text : Text) (next : State) (s : Server)
    → Returns (λ r. (view r.0 ≡ view s) × (r.1 ≡ next)) (answer text next s)
unfolding answer
answer-view text next s =
    let c = record s.client { response_index = 0; response = some text } in
    Returns->>= _ _ (write_response c) _ (write_response-view c s) (λ c' e. (e, refl))

-- A view that differs from `v` in nothing but what the login and the messages are.
abbrev pub SameFlow : View → View → Type 0
SameFlow v w = (w.current ≡ v.current) × (w.closed ≡ v.closed) × (w.interest ≡ v.interest)

pub answer-Leads :
    (here : State) (v : View) (text : Text) (next : State) (s : Server)
    → SameFlow v (view s)
    → Fits next (view s)
    → Follows here next
    → Returns (Leads here v) (answer text next s)
answer-Leads here v text next s (c, d, i) f g =
    Returns-mono _ _ (answer text next s) (answer-view text next s) (λ r h. (
      ap View.current h.0 ∙ c,
      ap View.closed h.0 ∙ d,
      ap View.interest h.0 ∙ i,
      subst (λ w. Fits r.1 w) (sym h.0) (subst (λ x. Fits x (view s)) (sym h.1) f),
      subst (Follows here) (sym h.1) g,
    ))

pub handle_user-Leads :
    (env : Environment) (user : Option Text) (n : ℕ) (s : Server)
    → s.client.authenticated ≡ false
    → Returns (Leads authorization (view s)) (handle_user env user n s)
unfolding handle_user
handle_user-Leads env user n s h =
    let stay : (t : Server) (text : Text) (f : SameFlow (view s) (view t))
          (g : t.client.authenticated ≡ false)
        → Returns (Leads authorization (view s)) (answer text authorization t) =
      λ t text f g. answer-Leads authorization (view s) text authorization t f g tt in
    Returns-option _ s.client.user _ _
      (Returns-if _ (n == 0) _ _ (stay (not_allocated s) _ (refl, refl, refl) h) (
        Returns-if _ env.calloc _ _
          (Returns->>= _ _ (defined_value user) _ (defined_value-Returns user)
            (λ u _. stay (not_allocated (named (some (take n u)) s)) _ (refl, refl, refl) h))
          tt))
      (λ u. stay (not_allocated s) _ (refl, refl, refl) h)

log_recorded-Leads :
    (r : Outcome Monitor) (v : View) (s : Server)
    → SameFlow v (view s)
    → IsLoggedIn (view s)
    → Returns (Leads authorization v) (log_recorded r s)
log_recorded-Leads (ok m) v s f l =
    answer-Leads authorization v _ transaction (record s { monitor = m }) f l tt
log_recorded-Leads (err e) v s (c, d, i) l = (c, d, i, tt, tt)
log_recorded-Leads fault v s f l = tt

maildrop_opened-Leads :
    (env : Environment) (r : Outcome MessageManager) (v : View) (s : Server)
    → SameFlow v (view s)
    → IsLocked s.client.user s.users
    → Returns (Leads authorization v) (maildrop_opened env r s)
maildrop_opened-Leads env (ok manager) v s f u =
    log_recorded-Leads (add_log env.monitor_malloc env.now s.client.user s.monitor) v
      (session_opened manager s) f (refl, u, refl)
maildrop_opened-Leads env (err e) v s (c, d, i) u = (c, d, i, tt, tt)
maildrop_opened-Leads env fault v s f u = tt

opened-Leads :
    (env : Environment) (user : Option Text) (v : View) (s : Server)
    → IsLocked s.client.user s.users
    → SameFlow v (view s)
    → Returns (Leads authorization v) (maildrop_opened env (open_maildrop env user) s)
opened-Leads env none v s l f = tt
opened-Leads env (some u) v s l f =
    maildrop_opened-Leads env (create env.maildrop u maildrop_path) v s f l

logged_in-Leads :
    (env : Environment) (r : Outcome (Unit {0})) (v : View) (s : Server)
    → s.client.authenticated ≡ false
    → SameFlow v (view s)
    → (r ≡ ok tt → IsLocked s.client.user s.users)
    → Returns (Leads authorization v) (logged_in env r s)
logged_in-Leads env (ok _) v s h f l = opened-Leads env s.client.user v s (l refl) f
logged_in-Leads env (err e) v s h f l =
    answer-Leads authorization v (pass_response e) authorization (named none s) f h tt
logged_in-Leads env fault v s h f l = tt

no_login : (x : Outcome (Unit {0})) → x ≡ err einval → x ≡ ok tt → ⊥
no_login x h k = cc

nameless : (pass : Option Text) (m : UserManager) → (login none pass m).1 ≡ err einval
unfolding login
nameless pass m = refl

no_password : (name : Text) (m : UserManager) → (login (some name) none m).1 ≡ err einval
unfolding login
no_password name m = refl

-- A login that succeeds locks the maildrop of its user.
login-IsLocked :
    (user pass : Option Text) (m : UserManager)
    → (login user pass m).1 ≡ ok tt
    → IsLocked user (login user pass m).0
login-IsLocked none pass m h = absurd (no_login _ (nameless pass m) h)
login-IsLocked (some name) none m h = absurd (no_login _ (no_password name m) h)
login-IsLocked (some name) (some password) m h = login-locked name password m h

pub handle_pass-Leads :
    (env : Environment) (pass : Option Text) (s : Server)
    → s.client.authenticated ≡ false
    → Returns (Leads authorization (view s)) (handle_pass env pass s)
unfolding handle_pass
handle_pass-Leads env pass s h =
    let r = login s.client.user pass s.users in
    logged_in-Leads env r.1 (view s) (record s { users = r.0 }) h (refl, refl, refl)
      (login-IsLocked s.client.user pass s.users)

pub handle_capa-Leads :
    (s : Server)
    → s.client.authenticated ≡ false
    → Returns (Leads authorization (view s)) (handle_capa s)
unfolding handle_capa
handle_capa-Leads s h =
    answer-Leads authorization (view s) _ authorization (not_allocated s) (refl, refl, refl) h tt

pub handle_quit-Leads : (s : Server) → Returns (Leads authorization (view s)) (handle_quit s)
unfolding handle_quit
handle_quit-Leads s =
    answer-Leads authorization (view s) _ close_connection (not_allocated s) (refl, refl, refl) tt
      tt
