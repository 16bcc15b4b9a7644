-- ===== src/Client/Transaction/Tests.antt =====
-- A session over a maildrop of two messages, the second of them marked.
use tp_protos.Base.{
  ◌≡◌, ◌≤◌, ◌⊎◌, get_elem?, refl, true, false, some, [], ◌∷◌, ◌++◌, arith, if◌then◌else◌, codes, ok,
  err, enoent,
}
use tp_protos.Buffer.Bounds.{IsValid}
use tp_protos.MessageManager.{MessageData, MessageManager, System}
use tp_protos.MessageManager.Totals
use tp_protos.MessageManager.Update.{marked_paths, any_fails}
use tp_protos.Client.{Server}
use tp_protos.Client.Samples.{empty_buffer, start_client, server}
use tp_protos.Client.Numbers.{decimal}
use tp_protos.Client.Listing.Texts.{list_lines}
use tp_protos.Client.Transaction.{update_on_arrival}
use tp_protos.Client.Transaction.Deletion.{update_on_arrival_lem, Deleted, handle_dele_lem}
use tp_protos.Client.Responses

abbrev first_message : MessageData
first_message = record { message_number = 1; message_size = 120; marked_for_deletion = false }

abbrev second_message : MessageData
second_message = record { message_number = 2; message_size = 30; marked_for_deletion = true }

abbrev one_marked : MessageManager
one_marked = record {
  maildrop_path = codes "mail/ana/";
  message_data_array = first_message ∷ second_message ∷ [];
  message_filename_array = codes "1" ∷ codes "2" ∷ [];
  message_array_size = 2;
  total_message_size = 120;
  message_count = 1;
}

one_marked-IsValid : Totals.IsValid one_marked
one_marked-IsValid = omega arith

-- `remove` fails on every file.
abbrev read_only : System
read_only = record {
  malloc = λ _. true;
  stat = λ _. err enoent;
  opendir = λ _. ok [];
  remove = λ _. false;
  popen = λ _. err enoent;
}

abbrev session : Server
session = server (record start_client { message_manager = some one_marked })

empty-IsValid : IsValid empty_buffer
empty-IsValid = omega arith

listing : list_lines one_marked.message_data_array ≡ codes "1 120" ++ Responses.crlf
unfolding list_lines decimal
listing = refl

update_on_arrival_lem_example :
    let paths =
      marked_paths one_marked.maildrop_path one_marked.message_data_array
        one_marked.message_filename_array in
    (s' : Server) × (update_on_arrival read_only session ≡ ok (s', paths))
    × (s'.client.response
        ≡ some (
            if any_fails read_only paths
            then Responses.update_quit_err_some_mails
            else Responses.update_quit_success))
    × (s'.users ≡ session.users)
update_on_arrival_lem_example =
    update_on_arrival_lem read_only one_marked session one_marked-IsValid empty-IsValid refl

handle_dele_lem_example :
    (2 ≤ 1) × Deleted (decimal 2) session one_marked Responses.dele_no_such_msg
    ⊎ (d : MessageData) × (get_elem? one_marked.message_data_array 1 ≡ some d)
      × ((d.marked_for_deletion ≡ true)
            × Deleted (decimal 2) session one_marked Responses.dele_msg_already_deleted
          ⊎ (d.marked_for_deletion ≡ false)
            × Deleted
                (decimal 2)
                session
                (Totals.marked_manager one_marked 1 d)
                Responses.dele_success)
handle_dele_lem_example =
    handle_dele_lem 1 one_marked session (omega arith) one_marked-IsValid empty-IsValid refl
