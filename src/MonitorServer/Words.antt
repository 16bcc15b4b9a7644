-- ===== src/MonitorServer/Words.antt =====
-- Requests as words with a space between them: how they are read back, and who may run a command.
use tp_protos.Base.{
  ℕ, zero, suc, ◌≤◌, ◌≡◌, refl, ap, ◌∙◌, false, some, List, [], ◌∷◌, ◌++◌, ◌==◌, arith, has_char,
  Text, length,
}
use tp_protos.MonitorServer.Request.{skip_delimiters, take_token, first_token, strtok_r, read_words}

-- The words of a request, with a space between them.
pub join_words : List Text → Text
join_words [] = []
join_words (w ∷ []) = w
join_words (w ∷ v ∷ ws) = w ++ (b' ' ∷ join_words (v ∷ ws))

abbrev pub IsWord : Text → Type 0
IsWord w = (has_char b' ' w ≡ false) × (1 ≤ length w)

abbrev pub AreWords : List Text → Type 0
AreWords [] = Unit
AreWords (w ∷ ws) = IsWord w × AreWords ws

take_token_between : (w s : Text) → has_char b' ' w ≡ false → take_token (w ++ b' ' ∷ s) ≡ (w, s)
unfolding take_token has_char
take_token_between [] s h = refl
take_token_between (c ∷ w) s h =
    let other : (c == b' ') ≡ false = ground (arith, h) in
    let rest = take_token_between w s (ground (arith, h)) in rw (other, rest)

take_token_last : (w : Text) → has_char b' ' w ≡ false → take_token w ≡ (w, [])
unfolding take_token has_char
take_token_last [] h = refl
take_token_last (c ∷ w) h =
    let other : (c == b' ') ≡ false = ground (arith, h) in
    let rest = take_token_last w (ground (arith, h)) in rw (other, rest)

strtok_r_between : (w s : Text) → IsWord w → strtok_r (w ++ b' ' ∷ s) ≡ some (w, s)
unfolding strtok_r skip_delimiters has_char
strtok_r_between [] s (h, l) = absurd (omega arith)
strtok_r_between (c ∷ w) s (h, l) =
    let other : (c == b' ') ≡ false = ground (arith, h) in
    let same : skip_delimiters (c ∷ w ++ b' ' ∷ s) ≡ c ∷ w ++ b' ' ∷ s =
      rw (skip_delimiters, other) in
    ap first_token same ∙ ap some (take_token_between (c ∷ w) s h)

strtok_r_last : (w : Text) → IsWord w → strtok_r w ≡ some (w, [])
unfolding strtok_r skip_delimiters has_char
strtok_r_last [] (h, l) = absurd (omega arith)
strtok_r_last (c ∷ w) (h, l) =
    let other : (c == b' ') ≡ false = ground (arith, h) in
    let same : skip_delimiters (c ∷ w) ≡ c ∷ w = rw (skip_delimiters, other) in
    ap first_token same ∙ ap some (take_token_last (c ∷ w) h)

no_words : (left : ℕ) → read_words left [] ≡ some []
unfolding read_words strtok_r skip_delimiters
no_words zero = refl
no_words (suc left) = refl

-- Words with a space between them are read back, as long as there are places for them.
pub read_words-join_words :
    (ws : List Text) (left : ℕ)
    → AreWords ws
    → length ws ≤ left
    → read_words left (join_words ws) ≡ some ws
unfolding read_words join_words
read_words-join_words [] left h l = no_words left
read_words-join_words (w ∷ []) zero (h, g) l = absurd (omega arith)
read_words-join_words (w ∷ []) (suc left) (h, g) l =
    let token = strtok_r_last w h in let rest = no_words left in rw (read_words, token, rest)
read_words-join_words (w ∷ v ∷ ws) zero (h, g) l = absurd (omega arith)
read_words-join_words (w ∷ v ∷ ws) (suc left) (h, g) l =
    let token = strtok_r_between w (join_words (v ∷ ws)) h in
    let rest = read_words-join_words (v ∷ ws) left g (omega (arith, l)) in
    rw (read_words, token, rest)
