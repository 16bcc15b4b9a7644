-- ===== src/Client/Commands/Tables.antt =====
-- The tables of commands: whichever command is found, its handler is a step of the session.
use tp_protos.Base.{
  ℕ, ◌≡◌, sym, ap, ◌∙◌, subst, false, Option, none, some, List, [], ◌∷◌, Outcome, Text, Returns,
  Any, Returns->>=, Returns-mono, Returns-if, Bool-cases, inl, inr, not, ◌&&◌, strcmp_eq, codes,
  ◌==◌, get_or, drop,
}
use tp_protos.Parser.{ParserEvent}
use tp_protos.MessageManager.{get_maildrop_info, get_message_data_list, reset_deleted_flag}
use tp_protos.Client.{
  Client, Server, State, greeting, error, close_connection, authorization, transaction, update,
  with_client, defined_value,
}
use tp_protos.Client.Responses
use tp_protos.Client.Numbers.{atoi}
use tp_protos.Client.Authorization.{Environment, answer}
use tp_protos.Client.Listing.{prepared, free_allocated_response, handle_stat, handle_list}
use tp_protos.Client.Transaction.{
  handle_retr, handle_dele, handle_noop, handle_rset, handle_capa, handle_quit,
}
use tp_protos.Client.Commands.{
  Command, argument, c_string, c_string_at, follow, authorization_commands, transaction_commands,
  unknown_command, unknown_command_handler,
}
use tp_protos.Client.Commands.Handlers.{
  View, view, IsLoggedIn, Fits, Follows, Leads, answer-view, defined_value-Returns,
  handle_user-Leads, handle_pass-Leads, handle_capa-Leads, handle_quit-Leads,
}
use tp_protos.Client.Commands.Maildrop.{
  stay, atoi-Returns, prepared-Stays, stat_found-Leads, list_number-Leads, all_found-Leads,
  retr_number-Leads, dele_number-Leads, flags_reset-Leads,
}

c_string-Returns : (cs : List ℕ) → Returns Any (c_string cs)
unfolding c_string
c_string-Returns [] = tt
c_string-Returns (c ∷ cs) =
    Returns-if Any (c == 0) _ _ tt
      (Returns->>= Any Any (c_string cs) _ (c_string-Returns cs) (λ s _. tt))

argument-Returns : (e : ParserEvent) → Returns Any ((argument e).text)
unfolding argument
argument-Returns e = c_string_at-Returns (get_or e.args 0 none)
  where
    c_string_at-Returns : (p : Option ℕ) → Returns Any (c_string_at e.line p)
    c_string_at-Returns none = tt
    c_string_at-Returns (some p) =
        Returns->>= Any Any (c_string (drop p e.line)) _ (c_string-Returns (drop p e.line))
          (λ s _. tt)

-- The handler of a command, called in the state `here`.
abbrev pub Holds : State → Command → Type 0
Holds here c =
    (env : Environment) (e : ParserEvent) (s : Server)
    → s.client.current ≡ some here
    → Fits here (view s)
    → Returns (Leads here (view s)) (c.command_handler env (argument e) s)

follow-Leads :
    (e : ParserEvent) (v : View) (next : Text → Outcome (Server × State))
    → ((t : Text) → Returns (Leads transaction v) (next t))
    → Returns (Leads transaction v) (follow (argument e) next)
follow-Leads e v next h =
    Returns->>= Any _ ((argument e).text) _ (argument-Returns e)
      (λ t _. Returns->>= _ _ (defined_value t) _ (defined_value-Returns t) (λ u _. h u))

handle_list-Leads :
    (env : Environment) (t : Text) (s : Server)
    → IsLoggedIn (view s)
    → Returns (Leads transaction (view s)) (handle_list env.maildrop env.malloc t s)
unfolding handle_list
handle_list-Leads env t s l =
    Returns-if _ (not (strcmp_eq t (codes "list")) && not (strcmp_eq t (codes "LIST"))) _ _
      (Returns->>= Any _ (atoi t) _ (atoi-Returns t) (λ n _.
        list_number-Leads env.maildrop env.malloc n (view s) (prepared s) (prepared-Stays s l)))
      (all_found-Leads env.malloc (get_message_data_list env.maildrop s.client.message_manager)
        (view s) (prepared s) (prepared-Stays s l))

handle_retr-Leads :
    (env : Environment) (t : Text) (s : Server)
    → IsLoggedIn (view s)
    → Returns (Leads transaction (view s)) (handle_retr env.maildrop env.stream_ends t s)
unfolding handle_retr
handle_retr-Leads env t s l = Returns->>= Any _ (atoi t) _ (atoi-Returns t) (λ n _.
    retr_number-Leads env.maildrop env.stream_ends n (view s) (prepared s) (prepared-Stays s l))

handle_dele-Leads :
    (t : Text) (s : Server)
    → IsLoggedIn (view s)
    → Returns (Leads transaction (view s)) (handle_dele t s)
unfolding handle_dele
handle_dele-Leads t s l =
    Returns->>= Any _ (atoi t) _ (atoi-Returns t)
      (λ n _. dele_number-Leads n (view s) (prepared s) (prepared-Stays s l))

-- A handler that answers a text and does nothing else.
plain-Leads :
    (text : Text) (s : Server)
    → IsLoggedIn (view s)
    → Returns (Leads transaction (view s)) (answer text transaction (prepared s))
plain-Leads text s l = let (f, l') = prepared-Stays s l in stay (view s) text (prepared s) f l'

freed-view :
    (c : Client) (s : Server)
    → view (with_client (free_allocated_response c) s) ≡ view (with_client c s)
freed-view c s = elim (Bool-cases c.response_is_allocated) [ inl e ↦ rw e | inr e ↦ rw e ]

-- What has the same view is the same step.
same-Leads :
    (here : State) (v : View) (s : Server) (next : State)
    → view s ≡ v
    → Fits next v
    → Follows here next
    → Leads here v (s, next)
same-Leads here v s next e f g =
    (ap View.current e, ap View.closed e, ap View.interest e, subst (Fits next) (sym e) f, g)

transaction_quit-Leads :
    (s : Server) → IsLoggedIn (view s) → Returns (Leads transaction (view s)) (handle_quit s)
unfolding handle_quit
transaction_quit-Leads s l =
    let c = record s.client { writing_from_file = false } in
    same-Leads transaction (view s) (with_client (free_allocated_response c) s) update
      (freed-view c s) l tt

-- The states that have commands.
abbrev pub HasCommands : State → Type 0
HasCommands authorization = Unit
HasCommands transaction = Unit
HasCommands _ = ⊥

stays_in : (here : State) → HasCommands here → Follows here here
stays_in authorization h = tt
stays_in transaction h = tt
stays_in greeting h = absurd h
stays_in update h = absurd h
stays_in error h = absurd h
stays_in close_connection h = absurd h

pub unknown_command-Holds : (here : State) → HasCommands here → Holds here unknown_command
unfolding unknown_command_handler
unknown_command-Holds here h env e s c f =
    Returns->>= _ _ (defined_value s.client.current) _ (defined_value-Returns s.client.current)
      (λ now k.
        let same : here ≡ now = some-injective (sym c ∙ k) in
        let t = with_client (free_allocated_response s.client) s in
        subst (λ x. Returns (Leads here (view s)) (answer Responses.unknown x t)) same
          (Returns-mono _ _ (answer Responses.unknown here t) (answer-view Responses.unknown here t)
            (λ r g. leads r (g.0 ∙ freed-view s.client s) (sym g.1))))
  where
    some-injective : {a b : State} → some a ≡ some b → a ≡ b
    some-injective q = cc

    leads : (r : Server × State) → view r.0 ≡ view s → here ≡ r.1 → Leads here (view s) r
    leads r g q =
        subst (λ x. Leads here (view s) (r.0, x)) q
          (same-Leads here (view s) r.0 here g f (stays_in here h))

-- All of a list.
pub data All (P : Command → Type 0) : List Command → Type 0 where
  nil : All P []
  cons : {c : Command} {cs : List Command} → P c → All P cs → All P (c ∷ cs)

pub authorization_commands-Holds : All (Holds authorization) authorization_commands
authorization_commands-Holds =
    cons
      (λ env e s _ f.
        Returns->>= Any _ ((argument e).text) _ (argument-Returns e)
          (λ t _. handle_user-Leads env t ((argument e).size) s f))
      (cons
        (λ env e s _ f.
          Returns->>= Any _ ((argument e).text) _ (argument-Returns e)
            (λ t _. handle_pass-Leads env t s f))
        (cons (λ env e s _ f. handle_capa-Leads s f)
          (cons (λ env e s _ f. handle_quit-Leads s) nil)))

pub transaction_commands-Holds : All (Holds transaction) transaction_commands
unfolding handle_stat handle_noop handle_rset handle_capa
transaction_commands-Holds =
    cons
      (λ env e s _ l.
        stat_found-Leads env.malloc (get_maildrop_info s.client.message_manager) (view s)
          (prepared s) (prepared-Stays s l))
      (cons (λ env e s _ l. follow-Leads e (view s) _ (λ t. handle_list-Leads env t s l))
        (cons (λ env e s _ l. follow-Leads e (view s) _ (λ t. handle_retr-Leads env t s l))
          (cons (λ env e s _ l. follow-Leads e (view s) _ (λ t. handle_dele-Leads t s l))
            (cons (λ env e s _ l. plain-Leads Responses.noop s l)
              (cons
                (λ env e s _ l.
                  flags_reset-Leads (reset_deleted_flag s.client.message_manager) (view s)
                    (prepared s) (prepared-Stays s l))
                (cons (λ env e s _ l. plain-Leads Responses.transaction_capa s l)
                  (cons (λ env e s _ l. transaction_quit-Leads s l) nil)))))))
