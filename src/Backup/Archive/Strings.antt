-- ===== src/Backup/Archive/Strings.antt =====
-- Integers and strings as `pg_dump` writes them, and their reading.
use Prim.Native.Nat.{zero, suc}
use nouva_agent.Prelude.{
  ℕ, ◌≡◌, refl, length-append, ap, sym, ◌∙◌, ◌≤◌, ◌<◌, ◌+◌, ◌*◌, ◌/◌, ◌%◌, ◌^◌, ltb, String, true,
  false, Option, none, some, List, [], ◌∷◌, ◌++◌, length, arith,
}
use mathlib.Core.List.{append_assoc}
use nouva_agent.Prelude.Integer.{ℤ, pos, negsuc}
use nouva_agent.Backup.Reading.{
  got, then_read, read_sized, Decode, read_magnitude, read_archive_int, read_archive_string,
  make_archive_version, take, drop,
}

-- The little-endian bytes of a magnitude.
abbrev write_magnitude : ℕ → ℕ → List ℕ
write_magnitude zero n = []
write_magnitude (suc size) n = (n % 256) ∷ write_magnitude size (n / 256)

-- `WriteInt` and `WriteStr` of the archiver: a sign byte, then the magnitude.
abbrev pub write_int : ℕ → ℤ → List ℕ
write_int int_size (pos n) = 0 ∷ write_magnitude int_size n
write_int int_size (negsuc n) = 1 ∷ write_magnitude int_size (suc n)

-- The width of an integer has room for the magnitude.
abbrev pub Fits : ℕ → ℤ → Type 0
Fits int_size (pos n) = n < 256 ^ int_size
Fits int_size (negsuc n) = suc n < 256 ^ int_size

abbrev pub write_string : ℕ → Option (List ℕ) → List ℕ
write_string int_size none = 1 ∷ write_magnitude int_size 1
write_string int_size (some bytes) = write_int int_size (pos (length bytes)) ++ bytes

eight_steps : (m : ℕ) → 2 ^ suc (suc (suc (suc (suc (suc (suc (suc m))))))) ≡ 256 * 2 ^ m
eight_steps m = omega arith

power-next : (i : ℕ) → 2 ^ (8 * (i + 1)) ≡ 256 * 2 ^ (8 * i)
power-next i =
    let m = 8 * i in
    let steps : 8 * (i + 1) ≡ suc (suc (suc (suc (suc (suc (suc (suc m))))))) = omega arith in
    rw steps (eight_steps m)

low_bytes : (value q r p : ℕ) → value + r * p + q * (256 * p) ≡ value + (256 * q + r) * p
low_bytes value q r p = omega arith

magnitude-back :
    (size index value n : ℕ) (rest : List ℕ)
    → n < 256 ^ size
    → read_magnitude size index value (write_magnitude size n ++ rest)
      ≡ got (value + n * 2 ^ (8 * index)) rest
unfolding read_magnitude
magnitude-back zero index value n rest small =
    let none_left : n ≡ 0 = omega arith in rw none_left (ap (λ v. got v rest) (omega arith))
magnitude-back (suc size) index value n rest small =
    let ih =
      magnitude-back size (index + 1) (value + (n % 256) * 2 ^ (8 * index)) (n / 256) rest
        (omega arith) in
    let split : n ≡ 256 * (n / 256) + n % 256 = omega arith in
    let sum : value + (n % 256) * 2 ^ (8 * index) + (n / 256) * (256 * 2 ^ (8 * index))
        ≡ value + (256 * (n / 256) + n % 256) * 2 ^ (8 * index) =
      low_bytes value (n / 256) (n % 256) (2 ^ (8 * index)) in
    ih
    ∙ ap (λ v. got v rest)
        (ap (λ p. value + (n % 256) * 2 ^ (8 * index) + (n / 256) * p) (power-next index)
          ∙ sum
          ∙ ap (λ m. value + m * 2 ^ (8 * index)) (sym split))

magnitude-read :
    (int_size n : ℕ) (rest : List ℕ)
    → n < 256 ^ int_size
    → read_magnitude int_size 0 0 (write_magnitude int_size n ++ rest) ≡ got n rest
magnitude-read int_size n rest small =
    magnitude-back int_size 0 0 n rest small ∙ ap (λ v. got v rest) (omega arith)

-- Archives from 1.10 on have a sign byte.
abbrev pub IsSigned : ℕ → Type 0
IsSigned version = ltb (make_archive_version 1 0 0) version ≡ true

pub int-read :
    (int_size version : ℕ) (n : ℤ) (rest : List ℕ)
    → IsSigned version
    → Fits int_size n
    → read_archive_int int_size version (write_int int_size n ++ rest) ≡ got n rest
unfolding read_archive_int
int-read int_size version (pos n) rest s small = rw (s, magnitude-read int_size n rest small) refl
int-read int_size version (negsuc n) rest s small =
    rw (s, magnitude-read int_size (suc n) rest small) refl

take-length : (xs ys : List ℕ) → take (length xs) (xs ++ ys) ≡ xs
take-length [] ys = refl
take-length (x ∷ xs) ys = ap (λ zs. x ∷ zs) (take-length xs ys)

drop-length : (xs ys : List ℕ) → drop (length xs) (xs ++ ys) ≡ ys
drop-length [] ys = refl
drop-length (x ∷ xs) ys = drop-length xs ys

-- A string that the reader takes and that the width of an integer can state the length of.
abbrev pub IsShort : ℕ → Option (List ℕ) → Type 0
IsShort int_size none = 1 < 256 ^ int_size
IsShort int_size (some bytes) = (length bytes ≤ 8192) × (length bytes < 256 ^ int_size)

abbrev pub decoded : Decode → Option (List ℕ) → Option String
decoded decode none = none
decoded decode (some bytes) = some (decode bytes)

pub string-read :
    (decode : Decode) (int_size version : ℕ) (text : Option (List ℕ)) (rest : List ℕ)
    → IsSigned version
    → IsShort int_size text
    → read_archive_string decode int_size version (write_string int_size text ++ rest)
      ≡ got (decoded decode text) rest
unfolding read_archive_string read_archive_int
string-read decode int_size version none rest s short =
    rw (s, magnitude-read int_size 1 rest short) refl
string-read decode int_size version (some bytes) rest s (short, small) =
    let fits : ltb 8192 (length bytes) ≡ false = ground arith in
    let there : ltb (length (bytes ++ rest)) (length bytes) ≡ false =
      ground (arith, length-append bytes rest) in
    let start : read_archive_int int_size version (write_string int_size (some bytes) ++ rest)
        ≡ got (pos (length bytes)) (bytes ++ rest) =
      rw (append_assoc (write_int int_size (pos (length bytes))) bytes rest)
        (int-read int_size version (pos (length bytes)) (bytes ++ rest) s small) in
    ap (λ r. then_read r (read_sized decode)) start
    ∙ rw (fits, there, take-length bytes rest, drop-length bytes rest) refl
