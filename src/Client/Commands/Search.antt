-- ===== src/Client/Commands/Search.antt =====
-- The search for a command: it keeps the session, and finds one of the table.
use tp_protos.Base.{
  ℕ, zero, suc, ◌≡◌, refl, Option, none, some, List, [], ◌∷◌, ok, fault, Text, Returns, Any,
  Returns->>=, Returns-if, Returns-bool, Returns-option, ◌-◌, ◌==◌, drop,
}
use tp_protos.Buffer.{Buffer, can_read, read}
use tp_protos.Parser.{Parser, ParserEvent, consume, max_command_len}
use tp_protos.Client.{Server, State, defined_value}
use tp_protos.Client.Commands.{
  Command, strncmp_eq, search_command, get_command, command_of, parse_input, stops, find_command,
  unknown_command,
}
use tp_protos.Client.Commands.Handlers.{view, defined_value-Returns}
use tp_protos.Client.Commands.Tables.{HasCommands, Holds, All, cons, unknown_command-Holds}

-- Of what a search found, if it found anything.
abbrev pub Found : (Command → Type 0) → Option Command → Type 0
Found P none = Unit
Found P (some c) = P c

strncmp_eq-Returns : (n : ℕ) (s : Text) (p : List ℕ) → Returns Any (strncmp_eq n s p)
unfolding strncmp_eq
strncmp_eq-Returns zero s p = tt
strncmp_eq-Returns (suc n) s [] = tt
strncmp_eq-Returns (suc n) [] (d ∷ p) = tt
strncmp_eq-Returns (suc n) (c ∷ s) (d ∷ p) =
    Returns-if Any (c == d) _ _ (strncmp_eq-Returns n s p) tt

search_command-All :
    (P : Command → Type 0) (cs : List Command) (cmd : List ℕ)
    → All P cs
    → Returns (Found P) (search_command cs cmd)
unfolding search_command
search_command-All P [] cmd h = tt
search_command-All P (c ∷ cs) cmd (cons p h) =
    Returns->>= Any _ (strncmp_eq max_command_len c.name cmd) _
      (strncmp_eq-Returns max_command_len c.name cmd)
      (λ same _. Returns-bool _ same _ _ p (search_command-All P cs cmd h))

no_commands :
    (P : Command → Type 0) (cs : List Command)
    → Returns (Found P) (elim cs [ [] ↦ ok none | c ∷ cs' ↦ fault ])
no_commands P [] = tt
no_commands P (c ∷ cs) = tt

get_command-All :
    (P : Command → Type 0) (cs : List Command) (e : ParserEvent)
    → All P cs
    → Returns (Found P) (get_command e cs)
unfolding get_command
get_command-All P cs e h =
    Returns-option _ e.cmd _ _ (no_commands P cs) (λ p. search_command-All P cs (drop p e.line) h)

Found-Holds :
    (here : State) (o : Option Command)
    → HasCommands here
    → Found (Holds here) o
    → Returns (Holds here) (elim o [ none ↦ ok unknown_command | some c ↦ ok c ])
Found-Holds here none k h = unknown_command-Holds here k
Found-Holds here (some c) k h = h

command_of-Holds :
    (here : State) (cs : List Command) (e : ParserEvent)
    → HasCommands here
    → All (Holds here) cs
    → Returns (Holds here) (command_of e cs)
unfolding command_of
command_of-Holds here cs e k h = Returns-if _ e.has_errors _ _ (unknown_command-Holds here k) (
    Returns->>= _ _ (get_command e cs) _ (get_command-All (Holds here) cs e h)
      (λ o g. Found-Holds here o k g))

parse_input-Returns : (fuel : ℕ) (p : Parser) (b : Buffer) → Returns Any (parse_input fuel p b)
unfolding parse_input
parse_input-Returns zero p b = tt
parse_input-Returns (suc fuel) p b =
    Returns-bool Any (can_read b) _ _
      (Returns->>= _ _ (defined_value (read b)) _ (defined_value-Returns (read b)) (λ r _.
        Returns->>= _ _ (defined_value (consume p r.0)) _ (defined_value-Returns (consume p r.0))
          (λ p' _. Returns-bool Any (stops p') _ _ tt (parse_input-Returns fuel p' r.1))))
      tt

-- The search keeps the view, and its command is one of the state's.
pub find_command-Holds :
    (here : State) (cs : List Command) (s : Server)
    → HasCommands here
    → All (Holds here) cs
    → Returns (λ r. (view r.0 ≡ view s) × Found (Holds here) r.1) (find_command cs s)
unfolding find_command
find_command-Holds here cs s k h =
    let c = s.client in
    Returns->>= Any _
      (parse_input (c.buffer_in.write_at - c.buffer_in.read_at) c.parser c.buffer_in) _
      (parse_input-Returns (c.buffer_in.write_at - c.buffer_in.read_at) c.parser c.buffer_in)
      (λ r _.
        Returns-bool _ r.2 _ _
          (Returns->>= _ _ (command_of r.0.event cs) _ (command_of-Holds here cs r.0.event k h)
            (λ command g. (refl, g)))
          (refl, tt))
