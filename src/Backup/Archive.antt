-- ===== src/Backup/Archive.antt =====
-- `parsePostgresCustomDumpHeader` of packages/runtime/src/external-backup-import.ts: the uncompressed
-- prefix of a `pg_dump --format=custom` archive. `pgdmp` are the codes of its signature.
pub mod Laws
pub mod Strings
pub mod Written
use Prim.Native.Nat.{zero, suc}
use nouva_agent.Prelude.{
  ℕ, ◌==◌, leb, ltb, String, ◌<>◌, decimal, Bool, true, false, not, ◌&&◌, ◌||◌, Option, none, some,
  List, [], ◌∷◌, if◌then◌else◌,
}
use nouva_agent.Backup.Reading.{
  PostgresHeader, Header, postgres_header, Parse, parse_of, Reader, pure, refuse, require, ◌>>=◌,
  ◌>>◌, read_byte, make_archive_version, read_archive_int, read_archive_string, Decode,
  format_unreadable, format_mismatch, engine_version_incompatible,
}
use nouva_agent.Backup.Versions.{parse_postgres_major_version}

abbrev pub pgdmp : List ℕ
pgdmp = 80 ∷ 71 ∷ 68 ∷ 77 ∷ 80 ∷ []

abbrev pub expect_all : List ℕ → Reader (Unit {0})
expect_all [] = pure tt
expect_all (c ∷ cs) = do
  b ← read_byte
  require (b == c) format_mismatch
      "Artifact does not start with the PGDMP signature of a pg_dump custom-format archive"
  expect_all cs

abbrev pub format_archive_version : ℕ → ℕ → ℕ → String
format_archive_version major minor revision =
    let short = decimal major <> ("." <> decimal minor) in
    if revision == 0 then short else short <> ("." <> decimal revision)

-- The revision is recorded after version 1.0.
abbrev pub read_revision : ℕ → ℕ → Reader ℕ
read_revision major minor = if ltb 1 major || (major == 1 && ltb 0 minor) then read_byte else pure 0

abbrev pub skip_byte_from : ℕ → ℕ → Reader (Unit {0})
skip_byte_from first version = if leb first version then (read_byte >> pure tt) else pure tt

abbrev pub skip_compression : ℕ → ℕ → Reader (Unit {0})
skip_compression int_size version =
    if leb (make_archive_version 1 15 0) version
    then (read_byte >> pure tt)
    else if not (leb (make_archive_version 1 2 0) version)
    then pure tt
    else if ltb version (make_archive_version 1 4 0)
    then (read_byte >> pure tt)
    else (read_archive_int int_size version >> pure tt)

abbrev pub skip_ints : ℕ → ℕ → ℕ → Reader (Unit {0})
skip_ints zero int_size version = pure tt
skip_ints (suc fields) int_size version =
    read_archive_int int_size version >> skip_ints fields int_size version

module _ (decode : Decode) where
  abbrev pub read_database : ℕ → ℕ → Reader (Option String)
  read_database int_size version =
      if leb (make_archive_version 1 4 0) version
      then (do skip_ints 7 int_size version; read_archive_string decode int_size version)
      else pure none

  abbrev is_known : Option ℕ → Bool
  is_known none = false
  is_known (some major) = true

  abbrev pub finish_header :
      String → Option String → Option String → Option String → Reader PostgresHeader
  finish_header archive database none dump =
      refuse format_unreadable "Archive header does not carry a readable source server version"
  finish_header archive database (some engine) dump = do
    require (is_known (parse_postgres_major_version engine)) format_unreadable
        "Archive header does not carry a readable source server version"
    let h : PostgresHeader = record {
      archive_version = archive;
      source_engine_version = engine;
      dump_version = dump;
      source_database = database;
    }
    pure h

  -- What follows the version and the width of an integer.
  abbrev pub read_fields : String → ℕ → ℕ → Reader PostgresHeader
  read_fields archive int_size version = do
    skip_byte_from (make_archive_version 1 7 0) version
    archive_format ← read_byte
    require (archive_format == 1) format_mismatch
        "Archive is not in pg_dump custom format; re-dump with `pg_dump --format=custom`"
    skip_compression int_size version
    database ← read_database int_size version
    require (leb (make_archive_version 1 10 0) version) format_unreadable (
        "Archive predates PostgreSQL 9.2 and does not record the server version it was taken from, "
        <> "so compatibility with the destination cannot be verified")
    engine ← read_archive_string decode int_size version
    dump ← read_archive_string decode int_size version
    finish_header archive database engine dump

  abbrev pub read_after_version : ℕ → ℕ → ℕ → Reader PostgresHeader
  read_after_version major minor revision = do
    require (not (ltb (make_archive_version 1 16 0) (make_archive_version major minor revision)))
        engine_version_incompatible
        ("Archive format version "
          <> (format_archive_version major minor revision
              <> (" is newer than this platform can read; re-dump with a pg_dump matching your "
                  <> "destination version")))
    int_size ← read_byte
    require (leb 1 int_size && leb int_size 8) format_unreadable
        "Archive header declares an unsupported integer width"
    read_fields (format_archive_version major minor revision) int_size
        (make_archive_version major minor revision)

  unfoldable pub read_postgres_header : Reader PostgresHeader
  unfolding read_archive_int read_archive_string
  read_postgres_header = do
    expect_all pgdmp
    major ← read_byte
    minor ← read_byte
    revision ← read_revision major minor
    read_after_version major minor revision

  unfoldable pub parse_postgres_custom_dump_header : List ℕ → Parse PostgresHeader
  unfolding read_postgres_header
  parse_postgres_custom_dump_header bytes = parse_of (read_postgres_header bytes)
