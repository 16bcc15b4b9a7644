-- ===== src/Base/Chars.antt =====
-- Texts as the lists of bytes that C strings are, and `tolower` of ctype.h.
use Prim.Native.Nat.{ℕ, ◌+◌}
use Prim.Native.Char.{code}
use Prim.Native.String.{String}
use mathlib.Core.Path.{◌≡◌, refl}
use mathlib.Core.Logic.{◌↔◌}
use mathlib.Core.Bool.{Bool, true, false, ◌&&◌, ◌||◌}
use native.Mathlib.Omega.{arith}
use mathlib.Core.List.{List, [], ◌∷◌}
use tp_protos.Base.Tests.{leb, ◌==◌, if◌then◌else◌}

-- The bytes of an ASCII text.
abbrev pub codes : String → List ℕ
codes String.[] = []
codes (String.◌∷◌ c s) = code c ∷ codes s

abbrev pub is_upper : ℕ → Bool
is_upper c = leb b'A' c && leb c b'Z'

-- `tolower` in the C locale.
unfoldable pub tolower : ℕ → ℕ
tolower c = if is_upper c then c + 32 else c

-- A C string: its bytes, the terminator left out.
abbrev pub Text : Type 0
Text = List ℕ

-- `strcmp(s, t) == 0`
unfoldable pub strcmp_eq : Text → Text → Bool
strcmp_eq [] [] = true
strcmp_eq [] (d ∷ t) = false
strcmp_eq (c ∷ s) [] = false
strcmp_eq (c ∷ s) (d ∷ t) = (c == d) && strcmp_eq s t

-- `strchr(s, c) != NULL`
unfoldable pub has_char : ℕ → Text → Bool
has_char c [] = false
has_char c (d ∷ s) = (c == d) || has_char c s

pub strcmp_eq_iff : (s t : Text) → (strcmp_eq s t ≡ true) ↔ (s ≡ t)
unfolding strcmp_eq
strcmp_eq_iff [] [] = ground arith
strcmp_eq_iff [] (d ∷ t) = ground arith
strcmp_eq_iff (c ∷ s) [] = ground arith
strcmp_eq_iff (c ∷ s) (d ∷ t) = ground (arith, strcmp_eq_iff s t)

pub strcmp_eq_refl : (s : Text) → strcmp_eq s s ≡ true
strcmp_eq_refl s = (strcmp_eq_iff s s).1 refl
