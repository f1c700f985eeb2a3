-- ===== src/Backup/Admission.antt =====
-- `verifyExternalBackupArtifact` of packages/runtime/src/external-backup-import.ts, and the words of
-- a receipt that its result may carry.
pub mod Laws
use nouva_agent.Prelude.{
  ℕ, ◌^◌, ◌==◌, leb, ltb, String, str_eq, ◌<>◌, decimal, Bool, true, false, not, ◌&&◌, ◌||◌, Option,
  none, some, List, if◌then◌else◌, get_or_else,
}
use nouva_agent.Prelude.Number.{Number, finite, is_integer, is_above, is_below}
use nouva_agent.Backup.Reading.{
  Category, integrity_mismatch, format_mismatch, format_unreadable, engine_version_incompatible,
  Format, postgres_custom_dump_v1, redis_rdb_v1, Variant, postgres, redis, variant_by_format,
  PostgresHeader, Header, postgres_header, redis_header, Parse, parsed, rejected, Decode,
}
use nouva_agent.Backup.Versions.{
  parse_postgres_major_version, read_postgres_release_version, get_max_readable_rdb_version, Limit,
  up_to, inherited, is_sha256_digest, is_engine_release, is_rdb_source,
}
use nouva_agent.Backup.Archive.{parse_postgres_custom_dump_header}
use nouva_agent.Backup.Snapshot.{parse_redis_rdb_header}

pub record Declaration : Type 0 where
  pub format : Format
  pub sha256 : String
  pub size_bytes : Number

pub record Artifact : Type 0 where
  pub sha256 : String
  pub size_bytes : Number
  pub header_sample : List ℕ

pub record Destination : Type 0 where
  pub variant : Variant
  pub version : String

pub record Verified : Type 0 where
  pub header : Header
  pub source_engine_version : String

abbrev pub format_name : Format → String
format_name postgres_custom_dump_v1 = "postgres-custom-dump-v1"
format_name redis_rdb_v1 = "redis-rdb-v1"

abbrev pub variant_name : Variant → String
variant_name postgres = "postgres"
variant_name redis = "redis"

abbrev pub same_variant : Variant → Variant → Bool
same_variant postgres postgres = true
same_variant redis redis = true
same_variant _ _ = false

-- `===` of two finite numbers.
abbrev pub same_number : Number → Number → Bool
same_number (finite s a b) (finite t c d) =
    a == c && b == d && ((a == 0 && b == 0) || (s && t) || (not s && not t))
same_number _ _ = false

-- `Number.isSafeInteger(n) && n > 0`
abbrev pub is_byte_count : Number → Bool
is_byte_count n = is_integer n && is_below n (2 ^ 53) && is_above n 0

abbrev pub of_postgres : Parse PostgresHeader → Parse Header
of_postgres (parsed h) = parsed (postgres_header h)
of_postgres (rejected category message) = rejected category message

abbrev pub of_redis : Parse ℕ → Parse Header
of_redis (parsed version) = parsed (redis_header version)
of_redis (rejected category message) = rejected category message

abbrev pub admit : Header → String → Parse Verified
admit h version = parsed (record { header = h; source_engine_version = version })

-- Whether a dump of one PostgreSQL may go into another.
abbrev pub judge_majors : PostgresHeader → String → Option ℕ → Option ℕ → Parse Verified
judge_majors h version none target =
    rejected format_unreadable "Archive header does not carry a readable source server version"
judge_majors h version (some source) none =
    rejected engine_version_incompatible
      ("Destination PostgreSQL version \"" <> (version <> "\" is not a recognized major version"))
judge_majors h version (some source) (some target) =
    if ltb target source
    then rejected engine_version_incompatible (
        "Archive was taken from PostgreSQL "
        <> (decimal source
            <> ("; a dump cannot be restored into the older PostgreSQL "
                <> (decimal target <> " destination"))))
    else admit (postgres_header h)
        (get_or_else (read_postgres_release_version h.source_engine_version) (decimal source))

abbrev pub judge_limit : ℕ → String → Option Limit → Parse Verified
judge_limit rdb version none =
    rejected engine_version_incompatible
      ("Destination Redis version \"" <> (version <> "\" has no recorded RDB compatibility range"))
judge_limit rdb version (some inherited) = admit (redis_header rdb) ("rdb-" <> decimal rdb)
judge_limit rdb version (some (up_to limit)) =
    if ltb limit rdb
    then rejected engine_version_incompatible (
        "Snapshot uses RDB version "
        <> (decimal rdb
            <> ("; Redis " <> (version <> (" reads up to RDB version " <> decimal limit)))))
    else admit (redis_header rdb) ("rdb-" <> decimal rdb)

abbrev pub judge_engine : String → Parse Header → Parse Verified
judge_engine version (rejected category message) = rejected category message
judge_engine version (parsed (postgres_header h)) =
    judge_majors h version (parse_postgres_major_version h.source_engine_version)
      (parse_postgres_major_version version)
judge_engine version (parsed (redis_header rdb)) =
    judge_limit rdb version (get_max_readable_rdb_version version)

module _ (decode : Decode) where
  abbrev pub parse_external_backup_artifact_header : Format → List ℕ → Parse Header
  parse_external_backup_artifact_header postgres_custom_dump_v1 bytes =
      of_postgres (parse_postgres_custom_dump_header decode bytes)
  parse_external_backup_artifact_header redis_rdb_v1 bytes = of_redis (parse_redis_rdb_header bytes)

  unfoldable pub verify_external_backup_artifact :
      Declaration → Artifact → Destination → Parse Verified
  verify_external_backup_artifact declared observed destination =
      if not (is_sha256_digest declared.sha256)
      then rejected integrity_mismatch "Registered digest is not a SHA-256 hex digest"
      else if not (is_sha256_digest observed.sha256)
      then rejected integrity_mismatch "Artifact digest was not reported as a SHA-256 hex digest"
      else if not (str_eq observed.sha256 declared.sha256)
      then rejected integrity_mismatch
          "Uploaded artifact does not match the SHA-256 digest registered for this import"
      else if not (is_byte_count observed.size_bytes)
      then rejected integrity_mismatch "Artifact size was not reported as a positive byte count"
      else if not (same_number observed.size_bytes declared.size_bytes)
      then rejected integrity_mismatch
          "Uploaded artifact does not match the byte count registered for this import"
      else if not (same_variant (variant_by_format declared.format) destination.variant)
      then rejected format_mismatch (
          "A "
          <> (format_name declared.format
              <> (" artifact cannot be imported into a "
                  <> (variant_name destination.variant <> " service"))))
      else judge_engine destination.version
          (parse_external_backup_artifact_header declared.format observed.header_sample)

-- `sourceEngineVersion` of EXTERNAL_BACKUP_IMPORT_PROOF_VOCABULARY
abbrev pub is_source_version : String → Bool
is_source_version s = is_engine_release s || is_rdb_source s
