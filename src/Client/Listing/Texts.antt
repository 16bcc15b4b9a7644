-- ===== src/Client/Listing/Texts.antt =====
-- The responses of STAT and LIST fit the memory that is allocated for them.
use tp_protos.Base.{
  ℕ, ◌+◌, ◌≤◌, ◌≡◌, true, List, [], ◌∷◌, ◌++◌, arith, if◌then◌else◌, length, length-append, Text,
  ok,
}
use tp_protos.MessageManager.{MessageData}
use tp_protos.Client.Numbers.{number_of_digits, decimal, length-decimal}
use tp_protos.Client.Listing.{sprintf_at, stat_response, list_line}
use tp_protos.Client.Responses

-- "+OK", the count and the sum of the sizes.
abbrev pub stat_text : ℕ → ℕ → Text
stat_text count size =
    Responses.ok_header ++ (b' ' ∷ (decimal count ++ (b' ' ∷ (decimal size ++ 10 ∷ []))))

pub sprintf-eq-ok :
    (size : ℕ) (text s : Text)
    → length text + length s + 1 ≤ size
    → sprintf_at size text s ≡ ok (text ++ s)
unfolding sprintf_at
sprintf-eq-ok size text s h = ground arith

-- The response of STAT fits its memory, for any count and size.
pub stat_response_lem : (count size : ℕ) → stat_response true count size ≡ ok (stat_text count size)
unfolding stat_response
stat_response_lem count size =
    sprintf-eq-ok
      (length Responses.ok_header + 1 + number_of_digits count + 1 + number_of_digits size + 2) []
      (stat_text count size)
      (omega (
        arith,
        length-append (decimal count) (b' ' ∷ (decimal size ++ 10 ∷ [])),
        length-append (decimal size) (10 ∷ []),
        length-decimal count,
        length-decimal size,
      ))

-- The lines of the messages that are not marked, in order.
unfoldable pub list_lines : List MessageData → Text
list_lines [] = []
list_lines (d ∷ ds) =
    let rest = list_lines ds in
    if d.marked_for_deletion then rest else list_line d.message_number d.message_size ++ rest

abbrev pub list_text : List MessageData → Text
list_text ds = (Responses.list_multi_success ++ list_lines ds) ++ Responses.dot_crlf
