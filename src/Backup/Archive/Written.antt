-- ===== src/Backup/Archive/Written.antt =====
-- An archive header as `pg_dump` writes it, and its reading.
use nouva_agent.Prelude.{
  ℕ, ◌≡◌, refl, ap, ◌≤◌, ltb, ◌||◌, ◌&&◌, not, ◌==◌, leb, Bool, true, false, Option, some, List, [],
  ◌∷◌, ◌++◌, if◌then◌else◌, arith, inl, inr, Bool-cases,
}
use nouva_agent.Prelude.Integer.{ℤ}
use nouva_agent.Backup.Reading.{
  PostgresHeader, parsed, got, then_read, Decode, make_archive_version,
}
use nouva_agent.Backup.Archive.{
  parse_postgres_custom_dump_header, skip_compression, parse_postgres_major_version, leb, skip_ints,
  pure, format_archive_version, read_postgres_header, read_fields,
}
use nouva_agent.Backup.Archive.Strings.{
  Fits, write_int, write_string, decoded, IsSigned, IsShort, int-read, string-read,
}

-- The level that is written below 1.15, -1 for the default, and the algorithm's byte from 1.15 on.
pub record Compression : Type 0 where
  pub level : ℤ
  pub algorithm : ℕ

-- An archive of a version from 1.10 to 1.16, as `pg_dump` lays its head out.
pub record Head : Type 0 where
  pub minor : ℕ
  pub revision : ℕ
  pub int_size : ℕ
  pub offset_size : ℕ
  pub compression : Compression
  pub second : ℤ
  pub minute : ℤ
  pub hour : ℤ
  pub day : ℤ
  pub month : ℤ
  pub year : ℤ
  -- -1 where it is not known.
  pub is_dst : ℤ
  pub database : Option (List ℕ)
  pub engine : List ℕ
  pub dump : Option (List ℕ)

abbrev pub version_of : Head → ℕ
version_of a = make_archive_version 1 a.minor a.revision

abbrev pub write_compression : Head → List ℕ
write_compression a =
    if leb (make_archive_version 1 15 0) (version_of a)
    then a.compression.algorithm ∷ []
    else write_int a.int_size a.compression.level

abbrev pub write_time : Head → List ℕ → List ℕ
write_time a rest =
    let put = λ (n : ℤ) (tail : List ℕ). write_int a.int_size n ++ tail in
    put a.second
      (put a.minute (put a.hour (put a.day (put a.month (put a.year (put a.is_dst rest))))))

abbrev pub write_head : Head → List ℕ → List ℕ
write_head a rest =
    80
    ∷ 71
    ∷ 68
    ∷ 77
    ∷ 80
    ∷ 1
    ∷ a.minor
    ∷ a.revision
    ∷ a.int_size
    ∷ a.offset_size
    ∷ 1
    ∷ (write_compression a
        ++ write_time a (
            write_string a.int_size a.database
            ++ (write_string a.int_size (some a.engine)
                ++ (write_string a.int_size a.dump ++ rest))))

pub record IsWritable (decode : Decode) (a : Head) : Type 0 where
  pub known : 10 ≤ a.minor
  pub readable : version_of a ≤ make_archive_version 1 16 0
  pub wide : (1 ≤ a.int_size) × (a.int_size ≤ 8)
  pub level : Fits a.int_size a.compression.level
  pub clock :
      Fits a.int_size a.second
      × Fits a.int_size a.minute
      × Fits a.int_size a.hour
      × Fits a.int_size a.day
      × Fits a.int_size a.month
      × Fits a.int_size a.year
      × Fits a.int_size a.is_dst
  pub database_short : IsShort a.int_size a.database
  pub engine_short : IsShort a.int_size (some a.engine)
  pub dump_short : IsShort a.int_size a.dump
  pub engine_known : (major : ℕ) × (parse_postgres_major_version (decode a.engine) ≡ some major)

-- The header that stands in a head.
abbrev pub read_back : Decode → Head → PostgresHeader
read_back decode a = record {
  archive_version = format_archive_version 1 a.minor a.revision;
  source_engine_version = decode a.engine;
  dump_version = decoded decode a.dump;
  source_database = decoded decode a.database;
}

module _ (decode : Decode) (a : Head) (w : IsWritable decode a) where
  signed : IsSigned (version_of a)
  signed = let k = w.known in ground arith

  abbrev is_late : Bool
  is_late = leb (make_archive_version 1 15 0) (version_of a)

  compression-read :
      (rest : List ℕ)
      → skip_compression a.int_size (version_of a) (write_compression a ++ rest) ≡ got tt rest
  compression-read rest = elim (Bool-cases is_late) [
    | inl late ↦ rw late refl
    | inr early ↦
        let second : leb (make_archive_version 1 2 0) (version_of a) ≡ true =
          let k = w.known in ground arith in
        let fourth : ltb (version_of a) (make_archive_version 1 4 0) ≡ false =
          let k = w.known in ground arith in
        rw (early, second, fourth)
          (ap (λ r. then_read r (λ n. pure tt))
            (int-read a.int_size (version_of a) a.compression.level rest signed w.level))
  ]

  time-read :
      (rest : List ℕ) → skip_ints 7 a.int_size (version_of a) (write_time a rest) ≡ got tt rest
  time-read rest =
      let (s, m, h, d, mo, y, i) = w.clock in
      let read = λ (n : ℤ) (tail : List ℕ) (small : Fits a.int_size n).
        int-read a.int_size (version_of a) n tail signed small in
      rw
        (
          read a.second _ s,
          read a.minute _ m,
          read a.hour _ h,
          read a.day _ d,
          read a.month _ mo,
          read a.year _ y,
          read a.is_dst _ i,
        )
        refl

  fields-read :
      (rest : List ℕ)
      → read_fields decode (format_archive_version 1 a.minor a.revision) a.int_size (version_of a) (
          a.offset_size
          ∷ 1
          ∷ (write_compression a
              ++ write_time a (
                  write_string a.int_size a.database
                  ++ (write_string a.int_size (some a.engine)
                      ++ (write_string a.int_size a.dump ++ rest)))))
        ≡ got (read_back decode a) rest
  fields-read rest =
      let k = w.known in
      let (major, e) = w.engine_known in
      let seven : leb (make_archive_version 1 7 0) (version_of a) ≡ true = ground arith in
      let four : leb (make_archive_version 1 4 0) (version_of a) ≡ true = ground arith in
      let ten : leb (make_archive_version 1 10 0) (version_of a) ≡ true = ground arith in
      let read = λ (text : Option (List ℕ)) (tail : List ℕ) (short : IsShort a.int_size text).
        string-read decode a.int_size (version_of a) text tail signed short in
      rw
        (
          seven,
          compression-read _,
          four,
          time-read _,
          read a.database _ w.database_short,
          ten,
          read (some a.engine) _ w.engine_short,
          read a.dump rest w.dump_short,
          e,
        )
        refl

-- A head of an archive of version 1.10 to 1.16 in the layout of `pg_dump`, with strings that are not
-- over the sample's size, numbers of either sign whose magnitudes fit the width of an integer and a
-- server version that is read, is parsed to what it says, whatever data follows it.
pub parse-written :
    (decode : Decode) (a : Head) (rest : List ℕ)
    → IsWritable decode a
    → parse_postgres_custom_dump_header decode (write_head a rest) ≡ parsed (read_back decode a)
unfolding parse_postgres_custom_dump_header read_postgres_header
parse-written decode a rest w =
    let k = w.known in
    let r = w.readable in
    let (low, high) = w.wide in
    let revised : ltb 1 1 || (1 == 1 && ltb 0 a.minor) ≡ true = ground arith in
    let known : not (ltb (make_archive_version 1 16 0) (version_of a)) ≡ true = ground arith in
    let wide : leb 1 a.int_size && leb a.int_size 8 ≡ true = ground arith in
    rw (revised, known, wide, fields-read decode a w rest) refl
