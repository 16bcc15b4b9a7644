-- ===== src/Client/Commands/Maildrop.antt =====
-- The handlers of transaction.c, and that of an unknown command, as steps of a session.
use tp_protos.Base.{
  ℕ, zero, suc, ◌≡◌, refl, sym, ap, subst, Bool, true, false, some, List, [], ◌∷◌, ℤ, pos, negsuc,
  Outcome, ok, err, fault, ◌>>=◌, defined, Text, Returns, Any, defined-Returns, Returns->>=,
  Returns-if, Returns-bool, Bool-cases, inl, inr, leb, ltb, length, ◌+◌, ◌++◌, ◌^◌, ◌==◌,
}
use tp_protos.MessageManager.{
  MessageManager, MessageData, System, get_message_data, get_message_content, delete_message,
}
use tp_protos.Client.{Server, transaction, with_client}
use tp_protos.Client.Responses
use tp_protos.Client.Numbers.{
  atoi, read_signed, skip_spaces, signed, read_digits, number_of_digits, decimal,
}
use tp_protos.Client.Authorization.{answer}
use tp_protos.Client.Listing.{
  prepared, allocated, sprintf_at, stat_response, stat_found, write_lines, lines_length,
  list_response, list_line, listed, list_number_failure, number_found, list_number, list_failure,
  all_found,
}
use tp_protos.Client.Transaction.{
  opened, retr_failure, content_found, retr_number, dele_failure, with_manager, deleted,
  dele_number, flags_reset,
}
use tp_protos.Client.Commands.Handlers.{View, view, IsLoggedIn, Leads, SameFlow, answer-Leads}

-- A session that has logged in, as it was when the command came.
abbrev pub Stays : View → Server → Type 0
Stays v s = SameFlow v (view s) × IsLoggedIn (view s)

pub stay :
    (v : View) (text : Text) (s : Server)
    → SameFlow v (view s)
    → IsLoggedIn (view s)
    → Returns (Leads transaction v) (answer text transaction s)
stay v text s f l = answer-Leads transaction v text transaction s f l tt

signed-Returns : (b : Bool) (n : ℕ) → Returns Any (signed b n)
signed-Returns false n = Returns-if _ (ltb n (2 ^ 31)) _ _ tt tt
signed-Returns true zero = tt
signed-Returns true (suc n) = Returns-if _ (ltb n (2 ^ 31)) _ _ tt tt

read_signed-Returns : (s : Text) → Returns Any (read_signed s)
read_signed-Returns [] = tt
read_signed-Returns (c ∷ s) = Returns-if _ (c == b'-') _ _ (signed-Returns true (read_digits 0 s)) (
    Returns-if _ (c == b'+') _ _ (signed-Returns false (read_digits 0 s))
      (signed-Returns false (read_digits 0 (c ∷ s))))

pub atoi-Returns : (s : Text) → Returns Any (atoi s)
unfolding atoi
atoi-Returns s = read_signed-Returns (skip_spaces s)

sprintf_at-Returns : (n : ℕ) (text s : Text) → Returns Any (sprintf_at n text s)
unfolding sprintf_at
sprintf_at-Returns n text s =
    Returns->>= Any Any (defined (leb (length text + length s + 1) n)) _
      (defined-Returns (leb (length text + length s + 1) n)) (λ _ _. tt)

write_lines-Returns :
    (n : ℕ) (ds : List MessageData) (text : Text) → Returns Any (write_lines n ds text)
unfolding write_lines
write_lines-Returns n [] text = tt
write_lines-Returns n (d ∷ ds) text =
    Returns-bool Any d.marked_for_deletion _ _ (write_lines-Returns n ds text) (
      Returns->>= Any Any (sprintf_at n text (list_line d.message_number d.message_size)) _
        (sprintf_at-Returns n text (list_line d.message_number d.message_size))
        (λ t _. write_lines-Returns n ds t))

pub prepared-view : (s : Server) → view (prepared s) ≡ view s
prepared-view s = elim (Bool-cases s.client.response_is_allocated) [ inl e ↦ rw e | inr e ↦ rw e ]

-- What every handler but that of QUIT starts from.
pub prepared-Stays : (s : Server) → IsLoggedIn (view s) → Stays (view s) (prepared s)
prepared-Stays s l = (
  (
    ap View.current (prepared-view s),
    ap View.closed (prepared-view s),
    ap View.interest (prepared-view s),
  ),
  subst IsLoggedIn (sym (prepared-view s)) l,
)

stat_response-Returns :
    (malloc : Bool) (count size : ℕ) → Returns Any (stat_response malloc count size)
unfolding stat_response
stat_response-Returns malloc count size =
    Returns->>= Any Any (defined malloc) _ (defined-Returns malloc) (λ _ _.
      sprintf_at-Returns
        (length Responses.ok_header + 1 + number_of_digits count + 1 + number_of_digits size + 2) []
        (Responses.ok_header ++ (b' ' ∷ (decimal count ++ (b' ' ∷ (decimal size ++ 10 ∷ []))))))

list_response-Returns : (ds : List MessageData) → Returns Any (list_response ds)
unfolding list_response
list_response-Returns ds =
    let size = lines_length ds (length Responses.list_multi_success) + 3 + 1 in
    Returns->>= Any Any (sprintf_at size [] Responses.list_multi_success) _
      (sprintf_at-Returns size [] Responses.list_multi_success)
      (λ start _.
        Returns->>= Any Any (write_lines size ds start) _ (write_lines-Returns size ds start)
          (λ text _. sprintf_at-Returns size text Responses.dot_crlf))

-- An answer in memory that `text` fills.
stay_allocated :
    (v : View) (text : Outcome Text) (s : Server)
    → Returns Any text
    → Stays v s
    → Returns (Leads transaction v) (text >>= λ t. answer t transaction (allocated s))
stay_allocated v text s h (f, l) = Returns->>= Any _ text _ h (λ t _. stay v t (allocated s) f l)

pub stat_found-Leads :
    (malloc : Bool) (r : Outcome (ℕ × ℕ)) (v : View) (s : Server)
    → Stays v s
    → Returns (Leads transaction v) (stat_found malloc r s)
stat_found-Leads malloc (ok info) v s h =
    stay_allocated v (stat_response malloc info.0 info.1) s
      (stat_response-Returns malloc info.0 info.1) h
stat_found-Leads malloc (err e) v s (f, l) = stay v Responses.stat_error s f l
stat_found-Leads malloc fault v s h = tt

listed-Leads :
    (malloc : Bool) (n : ℕ) (d : MessageData) (v : View) (s : Server)
    → Stays v s
    → Returns (Leads transaction v) (listed malloc n d s)
listed-Leads malloc n d v s (f, l) =
    let size =
      length Responses.ok_header
      + 1
      + number_of_digits n
      + 1
      + number_of_digits d.message_size
      + 2
      + 1 in
    let text = Responses.ok_header ++ (b' ' ∷ list_line n d.message_size) in
    Returns-if _ d.marked_for_deletion _ _ (stay v Responses.list_no_such_msg s f l) (
      Returns->>= Any _ (defined malloc) _ (defined-Returns malloc) (λ _ _.
        stay_allocated v (sprintf_at size [] text) s (sprintf_at-Returns size [] text) (f, l)))

number_found-Leads :
    (malloc : Bool) (n : ℕ) (r : Outcome MessageData) (v : View) (s : Server)
    → Stays v s
    → Returns (Leads transaction v) (number_found malloc n r s)
number_found-Leads malloc n (ok d) v s h = listed-Leads malloc n d v s h
number_found-Leads malloc n (err e) v s (f, l) = stay v (list_number_failure e) s f l
number_found-Leads malloc n fault v s h = tt

pub list_number-Leads :
    (sys : System) (malloc : Bool) (n : ℤ) (v : View) (s : Server)
    → Stays v s
    → Returns (Leads transaction v) (list_number sys malloc n s)
unfolding list_number
list_number-Leads sys malloc (negsuc n) v s (f, l) = stay v Responses.list_invalid_param s f l
list_number-Leads sys malloc (pos zero) v s (f, l) = stay v Responses.list_invalid_param s f l
list_number-Leads sys malloc (pos (suc n)) v s h =
    number_found-Leads malloc (suc n) (get_message_data sys s.client.message_manager (pos (suc n)))
      v s h

pub all_found-Leads :
    (malloc : Bool) (r : Outcome (List MessageData)) (v : View) (s : Server)
    → Stays v s
    → Returns (Leads transaction v) (all_found malloc r s)
all_found-Leads malloc (ok ds) v s (f, l) =
    Returns-if _ malloc _ _
      (stay_allocated v (list_response ds) s (list_response-Returns ds) (f, l))
      (stay v Responses.list_error s f l)
all_found-Leads malloc (err e) v s (f, l) = stay v (list_failure e) s f l
all_found-Leads malloc fault v s h = tt

content_found-Leads :
    (ends : Bool) (r : Outcome (List ℕ × ℕ)) (v : View) (s : Server)
    → Stays v s
    → Returns (Leads transaction v) (content_found ends r s)
content_found-Leads ends (ok file) v s (f, l) =
    stay v Responses.retr_success
      (with_client
        (record s.client { writing_from_file = true; message_file = some (opened file.0 ends) }) s)
      f l
content_found-Leads ends (err e) v s (f, l) = stay v (retr_failure e) s f l
content_found-Leads ends fault v s h = tt

pub retr_number-Leads :
    (sys : System) (ends : Bool) (n : ℤ) (v : View) (s : Server)
    → Stays v s
    → Returns (Leads transaction v) (retr_number sys ends n s)
unfolding retr_number
retr_number-Leads sys ends (negsuc n) v s (f, l) = stay v Responses.retr_invalid_param s f l
retr_number-Leads sys ends (pos zero) v s (f, l) = stay v Responses.retr_invalid_param s f l
retr_number-Leads sys ends (pos (suc n)) v s h =
    content_found-Leads ends (get_message_content sys s.client.message_manager (pos (suc n))) v s h

-- New flags of the messages.
with_manager-Leads :
    (text : Text) (m : MessageManager) (v : View) (s : Server)
    → Stays v s
    → Returns (Leads transaction v) (answer text transaction (with_manager m s))
with_manager-Leads text m v s ((c, d, i), (a, u, _)) =
    stay v text (with_manager m s) (c, d, i) (a, u, refl)

deleted-Leads :
    (r : Outcome MessageManager) (v : View) (s : Server)
    → Stays v s
    → Returns (Leads transaction v) (deleted r s)
deleted-Leads (ok m) v s h = with_manager-Leads Responses.dele_success m v s h
deleted-Leads (err e) v s (f, l) = stay v (dele_failure e) s f l
deleted-Leads fault v s h = tt

pub dele_number-Leads :
    (n : ℤ) (v : View) (s : Server) → Stays v s → Returns (Leads transaction v) (dele_number n s)
unfolding dele_number
dele_number-Leads (negsuc n) v s (f, l) = stay v Responses.list_invalid_param s f l
dele_number-Leads (pos zero) v s (f, l) = stay v Responses.list_invalid_param s f l
dele_number-Leads (pos (suc n)) v s h =
    deleted-Leads (delete_message s.client.message_manager (pos (suc n))) v s h

pub flags_reset-Leads :
    (r : Outcome MessageManager) (v : View) (s : Server)
    → Stays v s
    → Returns (Leads transaction v) (flags_reset r s)
flags_reset-Leads (ok m) v s h = with_manager-Leads Responses.rset m v s h
flags_reset-Leads (err e) v s (f, l) = stay v Responses.rset s f l
flags_reset-Leads fault v s h = tt
