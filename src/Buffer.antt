-- ===== src/Buffer.antt =====
-- server/src/buffer.c with server/include/buffer.h: the byte buffer with a read and a write
-- pointer. A pointer is its offset from `data`, here `storage`; `none` is a failed `assert`.
pub mod Bounds
pub mod Refine
mod Tests
use tp_protos.Base.{
  ℕ, ◌+◌, ◌-◌, Bool, Option, none, some, List, ◌++◌, ℤ, pos, negsuc, ltb, leb, ◌==◌, if◌then◌else◌,
  get_or, set, take, drop,
}

-- `struct buffer`
pub record Buffer : Type 0 where
  pub storage : List ℕ
  pub limit : ℕ
  pub read_at : ℕ
  pub write_at : ℕ

unfoldable pub reset : Buffer → Buffer
reset b = record b { read_at = 0; write_at = 0 }

-- `buffer_init(b, n, data)`; the pointers of the old `*b` are overwritten.
unfoldable pub init : Buffer → ℕ → List ℕ → Buffer
unfolding reset
init b n bytes = record (reset (record b { storage = bytes })) { limit = n }

abbrev pub can_write : Buffer → Bool
can_write b = ltb b.write_at b.limit

abbrev pub can_read : Buffer → Bool
can_read b = ltb b.read_at b.write_at

-- `buffer_write_ptr`: the offset where a caller may write, and how many bytes.
unfoldable pub write_ptr : Buffer → Option (ℕ × ℕ)
write_ptr b = if leb b.write_at b.limit then some (b.write_at, b.limit - b.write_at) else none

-- `buffer_read_ptr`: the offset from which a caller may read, and how many bytes.
unfoldable pub read_ptr : Buffer → Option (ℕ × ℕ)
read_ptr b = if leb b.read_at b.write_at then some (b.read_at, b.write_at - b.read_at) else none

unfoldable pub write_adv : Buffer → ℤ → Option Buffer
write_adv b (pos n) =
    let b' = record b { write_at = b.write_at + n } in
    if leb b'.write_at b'.limit then some b' else none
write_adv b (negsuc _) = some b

-- `memmove(data, data + from, n)`
abbrev move : List ℕ → ℕ → ℕ → List ℕ
move bytes from n = take n (drop from bytes) ++ drop n bytes

unfoldable pub compact : Buffer → Buffer
compact b =
    let n = b.write_at - b.read_at in
    if b.read_at == 0
    then b
    else if b.read_at == b.write_at
    then record b { read_at = 0; write_at = 0 }
    else record b { storage = move b.storage b.read_at n; read_at = 0; write_at = n }

unfoldable pub read_adv : Buffer → ℤ → Option Buffer
unfolding compact
read_adv b (pos n) =
    let b' = record b { read_at = b.read_at + n } in
    if leb b'.read_at b'.write_at
    then some (if b'.read_at == b'.write_at then compact b' else b')
    else none
read_adv b (negsuc _) = some b

-- `buffer_read`: the byte and the buffer after it, 0 where there is none.
unfoldable pub read : Buffer → Option (ℕ × Buffer)
unfolding read_adv
read b =
    if can_read b
    then elim (read_adv b (pos 1)) [
      | some b' ↦ some (get_or b.storage b.read_at 0, b')
      | none ↦ none
    ]
    else some (0, b)

unfoldable pub write : Buffer → ℕ → Option Buffer
unfolding write_adv
write b c =
    if can_write b
    then write_adv (record b { storage = set b.storage b.write_at c }) (pos 1)
    else some b
