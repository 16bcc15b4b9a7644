-- ===== src/Client/Responses.antt =====
-- server/include/responses.h: the lines that the server answers.
use tp_protos.Base.{[], ◌∷◌, ◌++◌, codes, Text}

abbrev pub crlf : Text
crlf = 13 ∷ 10 ∷ []

abbrev pub dot_crlf : Text
dot_crlf = b'.' ∷ crlf

abbrev pub ok_header : Text
ok_header = codes "+OK"

abbrev pub error_header : Text
error_header = codes "-ERR"

abbrev pub ok_line : Text → Text
ok_line s = ok_header ++ (s ++ crlf)

abbrev pub error_line : Text → Text
error_line s = error_header ++ (s ++ crlf)

abbrev pub unknown : Text
unknown = error_line (codes " UNKNOWN COMMAND")

abbrev pub greeting : Text
greeting = ok_line (codes " POP3 SERVER READY")

abbrev pub user : Text
user = ok_line []

abbrev pub user_already_specified : Text
user_already_specified = error_line (codes " USER ALREADY SPECIFIED")

abbrev pub pass_error : Text
pass_error = error_line (codes " AUTHENTICATION FAILED")

abbrev pub pass_invalid_password : Text
pass_invalid_password = error_line (codes " INVALID PASSWORD")

abbrev pub pass_busy : Text
pass_busy = error_line (codes " UNABLE TO LOCK MAILDROP")

abbrev pub pass_no_such_user : Text
pass_no_such_user = error_line (codes " NO SUCH USER")

abbrev pub pass_no_user : Text
pass_no_user = error_line (codes " NO USER SPECIFIED")

abbrev pub pass_success : Text
pass_success = ok_line (codes " AUTHORIZED")

abbrev pub auth_capa : Text
auth_capa =
    ok_header
    ++ (crlf
        ++ (codes "CAPA"
            ++ (crlf ++ (codes "USER" ++ (crlf ++ (codes "PIPELINING" ++ (crlf ++ dot_crlf)))))))

abbrev pub auth_quit : Text
auth_quit = ok_line (codes " QUITING")

abbrev pub update_quit_err_some_mails : Text
update_quit_err_some_mails = error_line (codes " SOME MAILS WERE NOT DELETED")

abbrev pub update_quit_err_no_mails : Text
update_quit_err_no_mails = error_line (codes " NO MAILS WERE DELETED")

abbrev pub update_quit_success : Text
update_quit_success = ok_line (codes " QUITING, BYE :)")

abbrev pub noop : Text
noop = ok_line []

abbrev pub rset : Text
rset = ok_line []

abbrev pub stat_error : Text
stat_error = error_line (codes " STAT FAILED")

abbrev pub list_error : Text
list_error = error_line (codes " LIST FAILED")

abbrev pub list_no_such_msg : Text
list_no_such_msg = error_line (codes " NO SUCH MESSAGE")

abbrev pub list_invalid_param : Text
list_invalid_param = error_line (codes " INVALID MESSAGE NUMBER")

abbrev pub list_multi_success : Text
list_multi_success = ok_line (codes " SCAN LISTING FOLLOWS")

abbrev pub list_no_messages : Text
list_no_messages = ok_line (codes " NO MESSAGES IN MAILDROP")

abbrev pub retr_error : Text
retr_error = error_line (codes " RETR FAILED")

abbrev pub retr_no_such_msg : Text
retr_no_such_msg = error_line (codes " NO SUCH MESSAGE")

abbrev pub retr_invalid_param : Text
retr_invalid_param = error_line (codes " INVALID MESSAGE NUMBER")

abbrev pub retr_success : Text
retr_success = ok_line (codes " HERE COMES THE MESSAGE")

abbrev pub dele_error : Text
dele_error = error_line (codes " DELE FAILED")

abbrev pub dele_no_such_msg : Text
dele_no_such_msg = error_line (codes " NO SUCH MESSAGE")

abbrev pub dele_msg_already_deleted : Text
dele_msg_already_deleted = error_line (codes " MESSAGE ALREADY DELETED")

abbrev pub dele_success : Text
dele_success = ok_line (codes " MESSAGE DELETED")

abbrev pub transaction_capa : Text
transaction_capa =
    ok_header ++ (crlf ++ (codes "CAPA" ++ (crlf ++ (codes "PIPELINING" ++ (crlf ++ dot_crlf)))))
