-- ===== src/Backup/Archive/Laws.antt =====
-- A longer sample of an archive, and an archive that is written and read back.
use Prim.Native.Nat.{zero, suc}
use nouva_agent.Prelude.{ℕ, ◌≡◌, String, Option, none, some, List, [], ◌∷◌, ◌++◌, inl, inr}
use nouva_agent.Backup.Reading.{
  PostgresHeader, ◌>>◌, parsed, Reader, pure, require, read_byte, read_archive_int, Decode,
  make_archive_version,
}
use nouva_agent.Backup.Reading.Laws.{
  IsStable, bind-IsStable, pure-IsStable, refuse-IsStable, require-IsStable, if-IsStable,
  read_byte-IsStable, read_archive_int-IsStable, read_archive_string-IsStable, Read-cases,
}
use nouva_agent.Backup.Archive.{
  format_archive_version, expect_all, read_revision, skip_byte_from, skip_compression, skip_ints,
  read_database, finish_header, read_fields, read_after_version, read_postgres_header,
  parse_postgres_custom_dump_header, pgdmp, suc,
}

skip-IsStable : {A : Type 0} (m : Reader A) → IsStable m → IsStable (m >> pure tt)
skip-IsStable m h = bind-IsStable m _ h (λ a. pure-IsStable tt)

expect_all-IsStable : (codes : List ℕ) → IsStable (expect_all codes)
expect_all-IsStable [] = pure-IsStable tt
expect_all-IsStable (c ∷ cs) =
    bind-IsStable read_byte _ read_byte-IsStable
      (λ b. bind-IsStable (require _ _ _) _ (require-IsStable _ _ _) (λ o. expect_all-IsStable cs))

compression-IsStable : (int_size version : ℕ) → IsStable (skip_compression int_size version)
compression-IsStable int_size version =
    let byte = skip-IsStable read_byte read_byte-IsStable in
    let int =
      skip-IsStable (read_archive_int int_size version)
        (read_archive_int-IsStable int_size version) in
    if-IsStable _ _ _ byte (if-IsStable _ _ _ (pure-IsStable tt) (if-IsStable _ _ _ byte int))

ints-IsStable : (fields int_size version : ℕ) → IsStable (skip_ints fields int_size version)
ints-IsStable zero int_size version = pure-IsStable tt
ints-IsStable (suc fields) int_size version =
    bind-IsStable (read_archive_int int_size version) _ (read_archive_int-IsStable int_size version)
      (λ a. ints-IsStable fields int_size version)

module _ (decode : Decode) where
  database-IsStable : (int_size version : ℕ) → IsStable (read_database decode int_size version)
  database-IsStable int_size version =
      if-IsStable _ _ _
        (bind-IsStable (skip_ints 7 int_size version) _ (ints-IsStable 7 int_size version)
          (λ o. read_archive_string-IsStable decode int_size version))
        (pure-IsStable none)

  finish-IsStable :
      (archive : String) (database engine dump : Option String)
      → IsStable (finish_header decode archive database engine dump)
  finish-IsStable archive database none dump = refuse-IsStable _ _
  finish-IsStable archive database (some engine) dump =
      bind-IsStable (require _ _ _) _ (require-IsStable _ _ _) (λ o. pure-IsStable _)

  fields-IsStable :
      (archive : String) (int_size version : ℕ)
      → IsStable (read_fields decode archive int_size version)
  fields-IsStable archive int_size version =
      let text = read_archive_string-IsStable decode int_size version in
      bind-IsStable (skip_byte_from _ version) _
        (if-IsStable _ _ _ (skip-IsStable read_byte read_byte-IsStable) (pure-IsStable tt))
        (λ o. bind-IsStable read_byte _ read_byte-IsStable (λ b.
          bind-IsStable (require _ _ _) _ (require-IsStable _ _ _) (λ o.
            bind-IsStable (skip_compression int_size version) _
              (compression-IsStable int_size version)
              (λ o.
                bind-IsStable (read_database decode int_size version) _
                  (database-IsStable int_size version)
                  (λ d. bind-IsStable (require _ _ _) _ (require-IsStable _ _ _) (λ o.
                    bind-IsStable _ _ text
                      (λ e. bind-IsStable _ _ text (λ v. finish-IsStable archive d e v))))))))

  after-IsStable :
      (major minor revision : ℕ) → IsStable (read_after_version decode major minor revision)
  after-IsStable major minor revision =
      bind-IsStable (require _ _ _) _ (require-IsStable _ _ _) (λ o.
        bind-IsStable read_byte _ read_byte-IsStable (λ width.
          bind-IsStable (require _ _ _) _ (require-IsStable _ _ _) (λ o.
            fields-IsStable (format_archive_version major minor revision) width
              (make_archive_version major minor revision))))

  header-IsStable : IsStable (read_postgres_header decode)
  unfolding read_postgres_header
  header-IsStable = bind-IsStable (expect_all pgdmp) _ (expect_all-IsStable pgdmp) (λ o.
      bind-IsStable read_byte _ read_byte-IsStable (λ major.
        bind-IsStable read_byte _ read_byte-IsStable (λ minor.
          bind-IsStable (read_revision major minor) _
            (if-IsStable _ _ _ read_byte-IsStable (pure-IsStable 0))
            (λ revision. after-IsStable major minor revision))))

  -- A header that is read of a sample is read, the same, of every longer sample.
  pub parse-longer :
      (bytes more : List ℕ) (h : PostgresHeader)
      → parse_postgres_custom_dump_header decode bytes ≡ parsed h
      → parse_postgres_custom_dump_header decode (bytes ++ more) ≡ parsed h
  unfolding parse_postgres_custom_dump_header
  parse-longer bytes more h e = elim (Read-cases (read_postgres_header decode bytes)) [
    | inl (a, rest, f) ↦ rw (header-IsStable bytes more a rest f) (rw f at e)
    | inr (c, s, f) ↦ absurd (cc (rw f at e))
  ]
