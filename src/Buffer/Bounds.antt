-- ===== src/Buffer/Bounds.antt =====
-- The invariant of `struct buffer`, `R <= W <= limit`, and that no operation fails an `assert`.
use tp_protos.Base.{
  ℕ, ◌+◌, ◌-◌, ◌≤◌, ◌≡◌, some, List, ◌++◌, pos, arith, length, length-append, length-take,
  length-drop, take, drop,
}
use tp_protos.Buffer.{Buffer, init, write_adv, compact}

pub record IsValid (b : Buffer) : Type 0 where
  pub read_in : b.read_at ≤ b.write_at
  pub write_in : b.write_at ≤ b.limit
  pub limit_in : b.limit ≤ length b.storage

pub init-IsValid :
    (b : Buffer) (n : ℕ) (bytes : List ℕ) → n ≤ length bytes → IsValid (init b n bytes)
unfolding init
init-IsValid b n bytes h = ground arith

length-move :
    (bytes : List ℕ) (from n : ℕ)
    → from + n ≤ length bytes
    → length (take n (drop from bytes) ++ drop n bytes) ≡ length bytes
length-move bytes from n h = omega (
  arith,
  length-append (take n (drop from bytes)) (drop n bytes),
  length-take n (drop from bytes),
  length-drop from bytes,
  length-drop n bytes,
)

pub length-compact : (b : Buffer) → IsValid b → length (compact b).storage ≡ length b.storage
unfolding compact
length-compact b v = ground (arith, length-move b.storage b.read_at (b.write_at - b.read_at))

pub compact-IsValid : (b : Buffer) → IsValid b → IsValid (compact b)
unfolding compact
compact-IsValid b v = ground (arith, length-move b.storage b.read_at (b.write_at - b.read_at))

-- Within the space that `buffer_write_ptr` offers, the write pointer advances and stays in bounds.
pub write_adv_fits :
    (b : Buffer) (n : ℕ)
    → IsValid b
    → n ≤ b.limit - b.write_at
    → (b' : Buffer) × (write_adv b (pos n) ≡ some b') × IsValid b'
unfolding write_adv
write_adv_fits b n v h = (record b { write_at = b.write_at + n }, ground arith, ground arith)
