-- ===== src/MonitorServer/Request.antt =====
-- server/src/monitor-parser.c: a request is split into words, and its command is run.
use tp_protos.Base.{
  ℕ, zero, suc, Option, none, some, List, [], ◌∷◌, ◌==◌, if◌then◌else◌, codes, Text, strcmp_eq,
  Outcome, ok, fault,
}
use tp_protos.MonitorServer.{Service, Environment}
use tp_protos.MonitorServer.Commands.{get_monitor_command, handle_unauthorized}

-- `AUTHORIZATION_TOKEN`
abbrev pub authorization_token : Text
authorization_token = codes "password_secreta"

-- `MAX_WORDS`
abbrev pub max_words : ℕ
max_words = 4

-- `strtok_r` with the delimiter " ": the delimiters in front, and the token with what is behind the
-- delimiter that ends it.
unfoldable pub skip_delimiters : Text → Text
skip_delimiters [] = []
skip_delimiters (c ∷ s) = let rest = skip_delimiters s in if c == b' ' then rest else c ∷ s

unfoldable pub take_token : Text → Text × Text
take_token [] = ([], [])
take_token (c ∷ s) = let rest = take_token s in if c == b' ' then ([], s) else (c ∷ rest.0, rest.1)

abbrev pub first_token : Text → Option (Text × Text)
first_token [] = none
first_token (c ∷ s) = some (take_token (c ∷ s))

unfoldable pub strtok_r : Text → Option (Text × Text)
unfolding skip_delimiters take_token
strtok_r s = first_token (skip_delimiters s)

-- The words of a request, for `left` free places of `parsed_words`; none for one word too many.
unfoldable pub read_words : ℕ → Text → Option (List Text)
unfolding strtok_r
read_words zero s = elim (strtok_r s) [ none ↦ some [] | some t ↦ none ]
read_words (suc left) s = elim (strtok_r s) [
  | none ↦ some []
  | some t ↦ elim (read_words left t.1) [ none ↦ none | some ws ↦ some (t.0 ∷ ws) ]
]

-- The switch over the number of words behind the token. A request of the token alone reads
-- `parsed_words[1]`, which was not written.
abbrev pub dispatch : Environment → List Text → Service → Outcome Service
dispatch env [] s = fault
dispatch env (command ∷ []) s = (get_monitor_command command).command_handler env none none s
dispatch env (command ∷ a ∷ []) s =
    (get_monitor_command command).command_handler env (some a) none s
dispatch env (command ∷ a ∷ b ∷ []) s =
    (get_monitor_command command).command_handler env (some a) (some b) s
dispatch env (command ∷ a ∷ b ∷ c ∷ ws) s =
    (get_monitor_command command).command_handler env none none s

-- `parse_client_request` behind the loop; NULL and -1 leave the client as it was, and the caller does
-- not look at the result.
abbrev pub run_request : Environment → Option (List Text) → Service → Outcome Service
run_request env none s = ok s
run_request env (some []) s = ok s
run_request env (some (token ∷ ws)) s =
    if strcmp_eq token authorization_token then dispatch env ws s else handle_unauthorized env s

-- `parse_client_request` of a request that is a C string.
unfoldable pub parse_client_request : Environment → Text → Service → Outcome Service
unfolding read_words
parse_client_request env line s = run_request env (read_words max_words line) s
