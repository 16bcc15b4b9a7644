-- ===== src/Client/Commands/Input.antt =====
-- The search for a command in the input buffer, against the bytes that the buffer stands for.
use tp_protos.Base.{
  ℕ, zero, suc, ◌≤◌, ◌≡◌, refl, sym, ap, ◌∙◌, Bool, true, false, Option, none, some, List, [], ◌∷◌,
  arith, length, get_or, if◌then◌else◌, Bool-cases, inl, inr, Outcome, ok, err, fault, ◌>>=◌,
}
use tp_protos.Buffer.{Buffer, can_read, read}
use tp_protos.Buffer.Bounds.{IsValid}
use tp_protos.Buffer.Refine.{contents, read_refines}
use tp_protos.Parser.{Parser, consume}
use tp_protos.Client.{defined_value}
use tp_protos.Client.Commands.{stops, parse_input}

-- The parser fed byte by byte until a command is complete: the parser, the bytes that are left for
-- the commands behind it, and whether there was one.
pub parse_bytes : Parser → List ℕ → Outcome (Parser × List ℕ × Bool)
parse_bytes p [] = ok (p, [], false)
parse_bytes p (c ∷ cs) = defined_value (consume p c) >>= λ p'. elim (stops p') [
  | true ↦ ok (p', cs, true)
  | false ↦ parse_bytes p' cs
]

-- What a search says of the bytes of its buffer.
abbrev pub seen : Outcome (Parser × Buffer × Bool) → Outcome (Parser × List ℕ × Bool)
seen (ok r) = ok (r.0, contents r.1, r.2)
seen (err e) = err e
seen fault = fault

-- The two loops behind a byte, if they agree further on.
continued :
    (fuel : ℕ) (o : Option Parser) (b : Buffer)
    → ((p : Parser) → seen (parse_input fuel p b) ≡ parse_bytes p (contents b))
    → seen (
        defined_value o >>= λ p'. elim (stops p') [
          | true ↦ ok (p', b, true)
          | false ↦ parse_input fuel p' b
        ])
      ≡ (defined_value o >>= λ p'. elim (stops p') [
        | true ↦ ok (p', contents b, true)
        | false ↦ parse_bytes p' (contents b)
      ])
continued fuel none b h = refl
continued fuel (some p) b h = stopped (stops p)
  where
    stopped :
        (stop : Bool)
        → seen (elim stop [ true ↦ ok (p, b, true) | false ↦ parse_input fuel p b ])
          ≡ elim stop [ true ↦ ok (p, contents b, true) | false ↦ parse_bytes p (contents b) ]
    stopped true = refl
    stopped false = h p

no_bytes : (xs : List ℕ) → length xs ≤ 0 → xs ≡ []
no_bytes [] h = refl
no_bytes (x ∷ xs) h = absurd (omega arith)

-- With fuel for every byte that the buffer holds, which is what the server has, the loop ends by
-- itself, and it does with the buffer what the parser does with the buffer's bytes.
pub parse_input_lem :
    (fuel : ℕ) (p : Parser) (b : Buffer)
    → IsValid b
    → length (contents b) ≤ fuel
    → seen (parse_input fuel p b) ≡ parse_bytes p (contents b)
unfolding parse_input parse_bytes
parse_input_lem zero p b v h = let none_left = no_bytes (contents b) h in rw none_left
parse_input_lem (suc fuel) p b v h = elim (Bool-cases (can_read b)) [
  | inl more ↦
      let (b', e, v', t, l) = read_refines b v in
      let c = get_or b.storage b.read_at 0 in
      let byte : read b ≡ some (c, b') = e ∙ ap (λ x. some ((if x then c else 0), b')) more in
      let bytes : contents b ≡ c ∷ contents b' =
        t ∙ ap (λ x. if x then c ∷ contents b' else []) more in
      let fits : length (contents b') ≤ fuel = omega (arith, ap length bytes) in
      let step : parse_input (suc fuel) p b ≡ (
          defined_value (consume p c) >>= λ p'. elim (stops p') [
            | true ↦ ok (p', b', true)
            | false ↦ parse_input fuel p' b'
          ]) =
        rw (parse_input, more, byte) in
      ap seen step
      ∙ continued fuel (consume p c) b' (λ p'. parse_input_lem fuel p' b' v' fits)
      ∙ sym (ap (parse_bytes p) bytes)
  | inr empty ↦
      let (b', e, v', t, l) = read_refines b v in
      let none_left : contents b ≡ [] =
        t ∙ ap (λ x. if x then get_or b.storage b.read_at 0 ∷ contents b' else []) empty in
      let step : parse_input (suc fuel) p b ≡ ok (p, b, false) = rw (parse_input, empty) in
      ap seen step ∙ rw none_left
]
