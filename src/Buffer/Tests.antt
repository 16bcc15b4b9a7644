-- ===== src/Buffer/Tests.antt =====
-- The buffer of six bytes that the header of buffer.h draws.
use tp_protos.Base.{◌≡◌, refl, some, none, [], ◌∷◌, ◌++◌, pos, arith, drop, if◌then◌else◌}
use tp_protos.Buffer.{Buffer, write, read_adv, write_adv, can_write}
use tp_protos.Buffer.Bounds.{IsValid}
use tp_protos.Buffer.Refine.{contents, write_refines, read_adv_refines}

-- "HOLA" written, three bytes read: R = 3, W = 4.
abbrev hola : Buffer
hola = record {
  storage = b'H' ∷ b'O' ∷ b'L' ∷ b'A' ∷ 0 ∷ 0 ∷ [];
  limit = 6;
  read_at = 3;
  write_at = 4;
}

hola-IsValid : IsValid hola
hola-IsValid = omega arith

hola_drains : read_adv hola (pos 1) ≡ some (record hola { read_at = 0; write_at = 0 })
unfolding read_adv
hola_drains = refl

hola_overruns : write_adv hola (pos 3) ≡ none
unfolding write_adv
hola_overruns = refl

write_refines_example :
    (b' : Buffer) × (write hola b'M' ≡ some b')
    × IsValid b'
    × (contents b' ≡ (if can_write hola then contents hola ++ b'M' ∷ [] else contents hola))
write_refines_example = write_refines hola b'M' hola-IsValid

read_adv_refines_example :
    (b' : Buffer) × (read_adv hola (pos 1) ≡ some b')
    × IsValid b'
    × (contents b' ≡ drop 1 (contents hola))
    × (b'.limit ≡ 6)
read_adv_refines_example = read_adv_refines hola 1 hola-IsValid (omega arith)
