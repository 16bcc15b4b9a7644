-- ===== src/Client/Listing.antt =====
-- server/src/states/transaction.c: how its handlers start, and those of STAT and LIST, which print
-- into memory that they allocate.
pub mod Texts
use tp_protos.Base.{
  ℕ, zero, suc, ◌+◌, Bool, true, false, not, ◌&&◌, none, List, [], ◌∷◌, ◌++◌, leb, if◌then◌else◌,
  codes, Text, strcmp_eq, length, ℤ, pos, negsuc, Errno, einval, enoent, Outcome, ok, err, fault,
  ◌>>=◌, ◌>>◌, defined,
}
use tp_protos.MessageManager.{
  MessageData, System, get_maildrop_info, get_message_data, get_message_data_list,
}
use tp_protos.Client.{Client, Server, State, transaction, with_client}
use tp_protos.Client.Numbers.{number_of_digits, decimal, atoi}
use tp_protos.Client.Authorization.{answer}
use tp_protos.Client.Responses

-- `free_allocated_response`
abbrev pub free_allocated_response : Client → Client
free_allocated_response c =
    if c.response_is_allocated
    then record c { response_is_allocated = false; response = none }
    else c

-- How every handler but that of QUIT starts.
abbrev pub prepared : Server → Server
prepared s =
    with_client
      (free_allocated_response (record s.client { response_index = 0; writing_from_file = false }))
      s

-- A response in memory of `malloc`, all of it written before.
abbrev pub allocated : Server → Server
allocated s = with_client (record s.client { response_is_allocated = true }) s

-- `sprintf` to the end of `text`, in an array of `size` bytes.
unfoldable pub sprintf_at : ℕ → Text → Text → Outcome Text
sprintf_at size text s = do defined (leb (length text + length s + 1) size); ok (text ++ s)

-- The response of STAT; the NULL of a `malloc` that failed is written through.
unfoldable pub stat_response : Bool → ℕ → ℕ → Outcome Text
unfolding sprintf_at
stat_response malloc count size = do
  defined malloc
  sprintf_at
      (length Responses.ok_header + 1 + number_of_digits count + 1 + number_of_digits size + 2) []
      (Responses.ok_header ++ (b' ' ∷ (decimal count ++ (b' ' ∷ (decimal size ++ 10 ∷ [])))))

-- `handle_stat` from `message_manager_get_maildrop_info` on, which returned the second argument.
abbrev pub stat_found : Bool → Outcome (ℕ × ℕ) → Server → Outcome (Server × State)
stat_found malloc (ok info) s =
    stat_response malloc info.0 info.1 >>= λ text. answer text transaction (allocated s)
stat_found malloc (err e) s = answer Responses.stat_error transaction s
stat_found malloc fault s = fault

-- `handle_stat`
unfoldable pub handle_stat : Bool → Server → Outcome (Server × State)
handle_stat malloc s = stat_found malloc (get_maildrop_info s.client.message_manager) (prepared s)

-- One line of LIST: "%d %d%s".
abbrev pub list_line : ℕ → ℕ → Text
list_line number size = decimal number ++ (b' ' ∷ (decimal size ++ Responses.crlf))

-- The loop that adds up the length of the response of LIST.
unfoldable pub lines_length : List MessageData → ℕ → ℕ
lines_length [] n = n
lines_length (d ∷ ds) n = lines_length ds (
    if d.marked_for_deletion
    then n
    else n + number_of_digits d.message_number + 1 + number_of_digits d.message_size + 2)

-- The loop that writes it.
unfoldable pub write_lines : ℕ → List MessageData → Text → Outcome Text
unfolding sprintf_at
write_lines size [] text = ok text
write_lines size (d ∷ ds) text = elim d.marked_for_deletion [
  | true ↦ write_lines size ds text
  | false ↦ sprintf_at size text (list_line d.message_number d.message_size) >>= λ text'.
      write_lines size ds text'
]

-- The response of LIST, in an array of the length that was added up.
unfoldable pub list_response : List MessageData → Outcome Text
unfolding sprintf_at write_lines lines_length
list_response ds =
    let size = lines_length ds (length Responses.list_multi_success) + 3 + 1 in
    sprintf_at size [] Responses.list_multi_success >>= λ start.
    write_lines size ds start >>= λ text. sprintf_at size text Responses.dot_crlf

-- `handle_list_single_argument` for a message whose data were found.
abbrev pub listed : Bool → ℕ → MessageData → Server → Outcome (Server × State)
listed malloc number d s =
    if d.marked_for_deletion
    then answer Responses.list_no_such_msg transaction s
    else (defined malloc
        >> (sprintf_at
              (length Responses.ok_header
                + 1
                + number_of_digits number
                + 1
                + number_of_digits d.message_size
                + 2
                + 1)
              [] (Responses.ok_header ++ (b' ' ∷ list_line number d.message_size))
            >>= λ text. answer text transaction (allocated s)))

abbrev pub list_number_failure : Errno → Text
list_number_failure einval = Responses.list_no_such_msg
list_number_failure _ = Responses.list_error

-- `handle_list_single_argument` from `message_manager_get_message_data` on, which returned the third
-- argument.
abbrev pub number_found : Bool → ℕ → Outcome MessageData → Server → Outcome (Server × State)
number_found malloc number (ok d) s = listed malloc number d s
number_found malloc number (err e) s = answer (list_number_failure e) transaction s
number_found malloc number fault s = fault

-- `handle_list_single_argument` behind `atoi`.
unfoldable pub list_number : System → Bool → ℤ → Server → Outcome (Server × State)
list_number sys malloc (negsuc n) s = answer Responses.list_invalid_param transaction s
list_number sys malloc (pos zero) s = answer Responses.list_invalid_param transaction s
list_number sys malloc (pos (suc n)) s =
    number_found malloc (suc n) (get_message_data sys s.client.message_manager (pos (suc n))) s

abbrev pub list_failure : Errno → Text
list_failure enoent = Responses.list_no_messages
list_failure _ = Responses.list_error

-- `handle_list` without an argument from `message_manager_get_message_data_list` on, which returned
-- the second argument; `s` is prepared.
abbrev pub all_found : Bool → Outcome (List MessageData) → Server → Outcome (Server × State)
all_found malloc (ok ds) s =
    if malloc
    then (list_response ds >>= λ text. answer text transaction (allocated s))
    else answer Responses.list_error transaction s
all_found malloc (err e) s = answer (list_failure e) transaction s
all_found malloc fault s = fault

-- `handle_list`
unfoldable pub handle_list : System → Bool → Text → Server → Outcome (Server × State)
unfolding list_number
handle_list sys malloc arg s =
    if not (strcmp_eq arg (codes "list")) && not (strcmp_eq arg (codes "LIST"))
    then (atoi arg >>= λ n. list_number sys malloc n (prepared s))
    else all_found malloc (get_message_data_list sys s.client.message_manager) (prepared s)
