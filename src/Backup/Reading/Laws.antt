-- ===== src/Backup/Reading/Laws.antt =====
-- Readers that a longer sample does not change.
use Prim.Native.Nat.{zero, suc}
use nouva_agent.Prelude.{
  ℕ, ◌≡◌, refl, ap, ◌≤◌, ltb, String, Bool, true, false, none, List, [], ◌∷◌, ◌++◌, length,
  length-append, arith, Bool-cases, inl, inr, ◌⊎◌, if◌then◌else◌,
}
use nouva_agent.Prelude.Integer.{ℤ, pos, negsuc}
use nouva_agent.Backup.Reading.{
  Category, Read, got, refused, Reader, ◌>>=◌, pure, require, refuse, read_byte, take, drop,
  read_magnitude, read_archive_int, read_archive_string, read_text, read_sized, read_sign, Decode,
}

-- What is read of some bytes is read of more bytes that begin with them, and what is left grows.
abbrev pub IsStable : {A : Type 0} → Reader A → Type 0
IsStable {A} m =
    (bytes more : List ℕ) (a : A) (rest : List ℕ)
    → m bytes ≡ got a rest
    → m (bytes ++ more) ≡ got a (rest ++ more)

pub Read-cases :
    {A : Type 0} (r : Read A)
    → ((a : A) × (rest : List ℕ) × (r ≡ got a rest))
      ⊎ ((c : Category) × (s : String) × (r ≡ refused c s))
Read-cases (got a rest) = inl (a, rest, refl)
Read-cases (refused c s) = inr (c, s, refl)

pub bind-IsStable :
    {A B : Type 0} (m : Reader A) (f : A → Reader B)
    → IsStable m
    → ((a : A) → IsStable (f a))
    → IsStable (m >>= f)
bind-IsStable m f hm hf bytes more b rest e = elim (Read-cases (m bytes)) [
  | inl (a, middle, g) ↦ rw (hm bytes more a middle g) (hf a middle more b rest (rw g at e))
  | inr (c, s, g) ↦ absurd (cc (rw g at e))
]

pub pure-IsStable : {A : Type 0} (a : A) → IsStable (pure a)
pure-IsStable a bytes more b rest e = ground arith

pub refuse-IsStable : {A : Type 0} (c : Category) (s : String) → IsStable (refuse {A = A} c s)
refuse-IsStable c s bytes more b rest e = cc

pub require-IsStable : (b : Bool) (c : Category) (s : String) → IsStable (require b c s)
require-IsStable true c s = pure-IsStable tt
require-IsStable false c s = refuse-IsStable c s

pub if-IsStable :
    {A : Type 0} (b : Bool) (m n : Reader A)
    → IsStable m
    → IsStable n
    → IsStable (if b then m else n)
if-IsStable true m n hm hn = hm
if-IsStable false m n hm hn = hn

pub read_byte-IsStable : IsStable read_byte
read_byte-IsStable [] more a rest e = cc
read_byte-IsStable (b ∷ bytes) more a rest e = ground arith

magnitude-IsStable : (size index value : ℕ) → IsStable (read_magnitude size index value)
unfolding read_magnitude
magnitude-IsStable zero index value = pure-IsStable value
magnitude-IsStable (suc size) index value =
    bind-IsStable read_byte _ read_byte-IsStable (λ b. magnitude-IsStable size _ _)

pub read_archive_int-IsStable :
    (int_size version : ℕ) → IsStable (read_archive_int int_size version)
unfolding read_archive_int
read_archive_int-IsStable int_size version =
    bind-IsStable (read_sign version) _
      (if-IsStable _ read_byte (pure 0) read_byte-IsStable (pure-IsStable 0))
      (λ sign.
        bind-IsStable (read_magnitude int_size 0 0) _ (magnitude-IsStable int_size 0 0)
          (λ v. pure-IsStable _))

take-append : (n : ℕ) (xs ys : List ℕ) → n ≤ length xs → take n (xs ++ ys) ≡ take n xs
take-append zero xs ys h = refl
take-append (suc n) [] ys h = ground arith
take-append (suc n) (x ∷ xs) ys h = ap (λ zs. x ∷ zs) (take-append n xs ys (ground arith))

drop-append : (n : ℕ) (xs ys : List ℕ) → n ≤ length xs → drop n (xs ++ ys) ≡ drop n xs ++ ys
drop-append zero xs ys h = refl
drop-append (suc n) [] ys h = ground arith
drop-append (suc n) (x ∷ xs) ys h = drop-append n xs ys (ground arith)

abbrev grow : {A : Type 0} → List ℕ → Read A → Read A
grow more (got a rest) = got a (rest ++ more)
grow more (refused c s) = refused c s

module _ (decode : Decode) where
  text-IsStable : (n : ℕ) → IsStable (read_text decode n)
  text-IsStable n bytes more a rest e = elim (Bool-cases (ltb (length bytes) n)) [
    | inl short ↦ absurd (cc (rw short at e))
    | inr enough ↦
        let longer : ltb (length (bytes ++ more)) n ≡ false =
          ground (arith, length-append bytes more) in
        rw
          (longer, take-append n bytes more (ground arith), drop-append n bytes more (ground arith))
          (ap (grow more) (rw enough at e))
  ]

  sized-IsStable : (n : ℤ) → IsStable (read_sized decode n)
  sized-IsStable (negsuc n) = pure-IsStable none
  sized-IsStable (pos n) =
      if-IsStable _ _ (read_text decode n) (refuse-IsStable _ _) (text-IsStable n)

  pub read_archive_string-IsStable :
      (int_size version : ℕ) → IsStable (read_archive_string decode int_size version)
  unfolding read_archive_string
  read_archive_string-IsStable int_size version =
      bind-IsStable (read_archive_int int_size version) (read_sized decode)
        (read_archive_int-IsStable int_size version) sized-IsStable
