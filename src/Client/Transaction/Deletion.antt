-- ===== src/Client/Transaction/Deletion.antt =====
-- DELE, and what UPDATE removes.
use tp_protos.Base.{
  ℕ, suc, ◌-◌, ◌^◌, ◌<◌, min, ◌≡◌, ◌≢◌, refl, sym, ap, subst, ◌∙◌, Bool, true, false, some, [],
  arith, if◌then◌else◌, Bool-cases, inl, inr, ◌⊎◌, ◌≤◌, ltb, get_elem?, get_elem?_of_lt, length,
  Text, has_char, Errno, einval, enoent, enomem, eio, eexist, efbig, ebusy, eacces, enotdir, other,
  Outcome, ok, err, fault, ◌>>=◌, pos, guard,
}
use tp_protos.Buffer.Bounds.{IsValid}
use tp_protos.MessageManager.{MessageData, MessageManager, System, delete_message, message_index}
use tp_protos.MessageManager.Totals
use tp_protos.MessageManager.Update.{marked_paths, any_fails, delete_marked_messages_lem}
use tp_protos.Client.{Server, State, transaction, update, with_client}
use tp_protos.Client.Numbers.{decimal, atoi-decimal}
use tp_protos.Client.Authorization.{answer}
use tp_protos.Client.Authorization.Locking.{answered, answer_lem}
use tp_protos.Client.Listing.{prepared}
use tp_protos.Client.Transaction.{
  handle_dele, dele_number, deleted, dele_failure, with_manager, update_on_arrival, update_response,
}
use tp_protos.Client.Responses

-- An answer changes only the response and the output buffer.
answer_keeps :
    (response : Text) (next : State) (s : Server)
    → IsValid s.client.buffer_out
    → has_char 0 response ≡ false
    → (s' : Server) × (answer response next s ≡ ok (s', next))
      × (s'.client.response ≡ some response)
      × (s'.client.message_manager ≡ s.client.message_manager)
      × (s'.users ≡ s.users)
      × IsValid s'.client.buffer_out
answer_keeps response next s v z =
    let (b, e, v') = answer_lem response next s v z in
    let n = min (s.client.buffer_out.limit - s.client.buffer_out.write_at) (length response) in
    (answered response n b s, e, refl, refl, refl, v')

update_response_plain : (b : Bool) → has_char 0 (update_response (guard b eio)) ≡ false
unfolding has_char
update_response_plain true = refl
update_response_plain false = refl

-- UPDATE over a valid message manager and a valid output buffer removes exactly the files of the
-- messages that are marked, in order, and answers whether all of them are gone.
pub update_on_arrival_lem :
    (sys : System) (m : MessageManager) (s : Server)
    → Totals.IsValid m
    → IsValid s.client.buffer_out
    → s.client.message_manager ≡ some m
    → let paths = marked_paths m.maildrop_path m.message_data_array m.message_filename_array in
      (s' : Server) × (update_on_arrival sys s ≡ ok (s', paths))
      × (s'.client.response
          ≡ some (
              if any_fails sys paths
              then Responses.update_quit_err_some_mails
              else Responses.update_quit_success))
      × (s'.users ≡ s.users)
unfolding update_on_arrival has_char
update_on_arrival_lem sys m s v b h =
    let paths = marked_paths m.maildrop_path m.message_data_array m.message_filename_array in
    let s₁ =
      with_client (record s.client { response_is_allocated = false; message_manager = some m }) s in
    elim (Bool-cases (any_fails sys paths)) [
      | inl failed ↦
          let (s', e, r, _, u, _) =
            answer_keeps Responses.update_quit_err_some_mails update s₁ b refl in
          (s', rw (h, delete_marked_messages_lem sys m v, failed, e), rw (failed, r), u)
      | inr removed ↦
          let (s', e, r, _, u, _) = answer_keeps Responses.update_quit_success update s₁ b refl in
          (s', rw (h, delete_marked_messages_lem sys m v, removed, e), rw (removed, r), u)
    ]

dele_failure_plain : (e : Errno) → has_char 0 (dele_failure e) ≡ false
unfolding has_char
dele_failure_plain einval = refl
dele_failure_plain enoent = refl
dele_failure_plain enomem = refl
dele_failure_plain eio = refl
dele_failure_plain eexist = refl
dele_failure_plain efbig = refl
dele_failure_plain ebusy = refl
dele_failure_plain eacces = refl
dele_failure_plain enotdir = refl
dele_failure_plain (other n) = refl

prepared_keeps :
    (s : Server)
    → ((prepared s).client.buffer_out ≡ s.client.buffer_out)
      × ((prepared s).client.message_manager ≡ s.client.message_manager)
prepared_keeps s = elim (Bool-cases s.client.response_is_allocated) [
  | inl yes_freed ↦ (rw yes_freed, rw yes_freed)
  | inr not_freed ↦ (rw not_freed, rw not_freed)
]

prepared-IsValid :
    (s : Server) → IsValid s.client.buffer_out → IsValid (prepared s).client.buffer_out
prepared-IsValid s b = subst (λ x. IsValid x) (sym (prepared_keeps s).0) b

handle_dele-deleted :
    (n : ℕ) (m : MessageManager) (s : Server)
    → suc n < 2 ^ 31
    → s.client.message_manager ≡ some m
    → handle_dele (decimal (suc n)) s ≡ deleted (delete_message (some m) (pos (suc n))) (prepared s)
unfolding handle_dele dele_number
handle_dele-deleted n m s h k =
    ap (λ x. x >>= λ i. dele_number i (prepared s)) (atoi-decimal (suc n) h)
    ∙ ap (λ x. deleted (delete_message x (pos (suc n))) (prepared s)) ((prepared_keeps s).1 ∙ k)

-- What a DELE leaves of the message manager, and what it answers.
abbrev manager_after : MessageManager → Outcome MessageManager → MessageManager
manager_after m (ok m') = m'
manager_after m (err e) = m
manager_after m fault = m

abbrev dele_response : Outcome MessageManager → Text
dele_response (ok m) = Responses.dele_success
dele_response (err e) = dele_failure e
dele_response fault = []

deleted_lem :
    (m : MessageManager) (s : Server) (r : Outcome MessageManager)
    → IsValid s.client.buffer_out
    → s.client.message_manager ≡ some m
    → r ≢ fault
    → (s' : Server) × (deleted r (prepared s) ≡ ok (s', transaction))
      × (s'.client.message_manager ≡ some (manager_after m r))
      × (s'.client.response ≡ some (dele_response r))
unfolding has_char
deleted_lem m s (ok m') b k f =
    let (s', e, r, w, _, _) =
      answer_keeps Responses.dele_success transaction (with_manager m' (prepared s))
        (prepared-IsValid s b) refl in
    (s', e, w, r)
deleted_lem m s (err c) b k f =
    let (s', e, r, w, _, _) =
      answer_keeps (dele_failure c) transaction (prepared s) (prepared-IsValid s b)
        (dele_failure_plain c) in
    (s', e, w ∙ (prepared_keeps s).1 ∙ k, r)
deleted_lem m s fault b k f = absurd (f refl)

-- The n-th message of the maildrop, and how DELE of its number ends.
delete_message_ends :
    (n : ℕ) (m : MessageManager)
    → Totals.IsValid m
    → let r = delete_message (some m) (pos (suc n)) in
      (m.message_array_size ≤ n) × (r ≡ err einval)
      ⊎ (d : MessageData) × (get_elem? m.message_data_array n ≡ some d)
        × ((d.marked_for_deletion ≡ true) × (r ≡ err enoent)
            ⊎ (d.marked_for_deletion ≡ false) × (r ≡ ok (Totals.marked_manager m n d)))
unfolding delete_message message_index
delete_message_ends n m v = elim (Bool-cases (ltb n m.message_array_size)) [
  | inl inside ↦
      let (d, g) = get_elem?_of_lt m.message_data_array n (ground (arith, inside, v.data_length)) in
      let index : message_index m (pos (suc n)) ≡ ok n = ground (arith, inside) in
      let (was, fresh) = Totals.delete_message_at m (pos (suc n)) n d index g in
      inr (
        d,
        g,
        elim (Bool-cases d.marked_for_deletion) [
          | inl marked ↦ inl (marked, was marked)
          | inr kept ↦ inr (kept, fresh kept)
        ],
      )
  | inr outside ↦ inl (ground (arith, outside), ground (arith, outside))
]

-- What the session of a DELE is left with: a message manager and an answer.
abbrev pub Deleted : Text → Server → MessageManager → Text → Type 0
Deleted arg s m response =
    (s' : Server) × (handle_dele arg s ≡ ok (s', transaction))
    × (s'.client.message_manager ≡ some m)
    × (s'.client.response ≡ some response)

dele_ends :
    (n : ℕ) (m : MessageManager) (s : Server) (r : Outcome MessageManager)
    → suc n < 2 ^ 31
    → IsValid s.client.buffer_out
    → s.client.message_manager ≡ some m
    → delete_message (some m) (pos (suc n)) ≡ r
    → r ≢ fault
    → Deleted (decimal (suc n)) s (manager_after m r) (dele_response r)
dele_ends n m s r h b k e f =
    let (s', done, w, t) = deleted_lem m s r b k f in
    (s', handle_dele-deleted n m s h k ∙ ap (λ x. deleted x (prepared s)) e ∙ done, w, t)

-- DELE of a positive number that fits an int, in decimal, to a session with a valid message manager
-- and a valid output buffer: behind the last message it answers that there is no such message, and
-- for a message that is marked that it was deleted already, both without a change of the manager;
-- else that message is marked, count and size fall by it, and the answer is the success.
pub handle_dele_lem :
    (n : ℕ) (m : MessageManager) (s : Server)
    → suc n < 2 ^ 31
    → Totals.IsValid m
    → IsValid s.client.buffer_out
    → s.client.message_manager ≡ some m
    → (m.message_array_size ≤ n) × Deleted (decimal (suc n)) s m Responses.dele_no_such_msg
      ⊎ (d : MessageData) × (get_elem? m.message_data_array n ≡ some d)
        × ((d.marked_for_deletion ≡ true)
              × Deleted (decimal (suc n)) s m Responses.dele_msg_already_deleted
            ⊎ (d.marked_for_deletion ≡ false)
              × Deleted (decimal (suc n)) s (Totals.marked_manager m n d) Responses.dele_success)
handle_dele_lem n m s h v b k = elim (delete_message_ends n m v) [
  | inl (outside, e) ↦ inl (outside, dele_ends n m s (err einval) h b k e (λ q. ground (arith, q)))
  | inr (d, g, ends) ↦ inr (
    d,
    g,
    elim ends [
      | inl (marked, e) ↦
          inl (marked, dele_ends n m s (err enoent) h b k e (λ q. ground (arith, q)))
      | inr (kept, e) ↦ inr (
        kept,
        dele_ends n m s (ok (Totals.marked_manager m n d)) h b k e (λ q. ground (arith, q)),
      )
    ],
  )
]
