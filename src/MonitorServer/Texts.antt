-- ===== src/MonitorServer/Texts.antt =====
-- The responses of LISTUSERS and METRICS fit the memory that is allocated for them.
use tp_protos.Base.{
  ℕ, ◌+◌, ◌^◌, ◌≤◌, ◌<◌, ◌≡◌, sym, ap, ◌∙◌, List, [], ◌∷◌, ◌++◌, append-nil, append_assoc, arith,
  length, length-append, Text, ok,
}
use tp_protos.Client.Numbers.{number_of_digits, decimal, length-decimal}
use tp_protos.Client.Listing.Texts.{sprintf-eq-ok}
use tp_protos.Client.Responses.{crlf, dot_crlf}
use tp_protos.MonitorServer.Commands.{
  ok_line, users_length, write_users, users_response, digits_as_int, metrics_response,
}

-- A line for each user.
unfoldable pub user_lines : List Text → Text
user_lines [] = []
user_lines (u ∷ us) = let rest = user_lines us in (u ++ crlf) ++ rest

users_length_eq : (us : List Text) (n : ℕ) → n + length (user_lines us) ≤ users_length us n
unfolding users_length user_lines
users_length_eq [] n = omega arith
users_length_eq (u ∷ us) n = omega (
  arith,
  users_length_eq us (n + length u + 2 + 1),
  length-append (u ++ crlf) (user_lines us),
  length-append u crlf,
)

write_users_lem :
    (size : ℕ) (us : List Text) (text : Text)
    → length text + length (user_lines us) + 1 ≤ size
    → write_users size us text ≡ ok (text ++ user_lines us)
unfolding write_users user_lines
write_users_lem size [] text h = ap ok (sym (append-nil text))
write_users_lem size (u ∷ us) text h =
    let line = length-append (u ++ crlf) (user_lines us) in
    let name = length-append u crlf in
    let before = length-append text u in
    let behind = length-append (text ++ u) crlf in
    rw
      (
        sprintf-eq-ok size text u (omega (arith, h, line, name)),
        sprintf-eq-ok size (text ++ u) crlf (omega (arith, h, line, name, before)),
      )
      (write_users_lem size us ((text ++ u) ++ crlf) (omega (arith, h, line, name, before, behind))
        ∙ ap ok (rw (append_assoc text u crlf) (append_assoc text (u ++ crlf) (user_lines us))))

-- The response of LISTUSERS fits its memory: "OK", a line for each user, and the end.
pub users_response_lem :
    (us : List Text) → users_response us ≡ ok ((ok_line ++ user_lines us) ++ dot_crlf)
unfolding users_response
users_response_lem us =
    let n = users_length_eq us 0 in
    let size = users_length us 0 + length ok_line + length dot_crlf + 1 in
    rw
      (
        sprintf-eq-ok size [] ok_line (omega (arith, n)),
        write_users_lem size us ok_line (omega (arith, n)),
      )
      (sprintf-eq-ok size (ok_line ++ user_lines us) dot_crlf
        (omega (arith, n, length-append ok_line (user_lines us))))

-- The text of METRICS: "OK", the three counters, and the end.
abbrev pub metrics_text : ℕ → ℕ → ℕ → Text
metrics_text current historical bytes =
    ok_line
    ++ (decimal current
        ++ (crlf ++ (decimal historical ++ (crlf ++ (decimal bytes ++ (crlf ++ dot_crlf))))))

small_digits : (n : ℕ) → n < 2 ^ 31 → digits_as_int n ≡ number_of_digits n
unfolding digits_as_int
small_digits n h = ground (arith, h)

-- The response of METRICS fits its memory as long as each counter fits an `int`.
pub metrics_response_lem :
    (current historical bytes : ℕ)
    → current < 2 ^ 31
    → historical < 2 ^ 31
    → bytes < 2 ^ 31
    → metrics_response current historical bytes ≡ ok (metrics_text current historical bytes)
unfolding metrics_response
metrics_response_lem current historical bytes c h b =
    let size =
      length ok_line
      + 2
      + digits_as_int current
      + 2
      + digits_as_int historical
      + 2
      + digits_as_int bytes
      + 2
      + length dot_crlf
      + 1 in
    sprintf-eq-ok size [] (metrics_text current historical bytes) (
      omega (
        arith,
        small_digits current c,
        small_digits historical h,
        small_digits bytes b,
        length-append (decimal current)
            (crlf ++ (decimal historical ++ (crlf ++ (decimal bytes ++ (crlf ++ dot_crlf))))),
        length-append (decimal historical) (crlf ++ (decimal bytes ++ (crlf ++ dot_crlf))),
        length-append (decimal bytes) (crlf ++ dot_crlf),
        length-decimal current,
        length-decimal historical,
        length-decimal bytes,
      ))
