-- ===== src/Backup/Tests.antt =====
-- A dump of PostgreSQL 16.4 and a snapshot of Redis 7.2.
use Prim.Native.Char.{Char}
use nouva_agent.Prelude.{
  ℕ, ◌≡◌, refl, ◌==◌, ◌↔◌, String, true, none, some, List, [], ◌∷◌, ◌++◌, arith, if◌then◌else◌,
}
use nouva_agent.Prelude.Integer.{pos, negsuc}
use nouva_agent.Prelude.Number.{of_ℕ}
use nouva_agent.Backup.Reading.{redis_header, parsed, redis_rdb_v1, redis}
use nouva_agent.Backup.Archive.{parse_postgres_custom_dump_header}
use nouva_agent.Backup.Archive.Laws.{parse-longer}
use nouva_agent.Backup.Archive.Written.{Head, IsWritable, write_head, read_back, parse-written}
use nouva_agent.Backup.Snapshot.{parse_redis_rdb_header}
use nouva_agent.Backup.Snapshot.Laws.{write_snapshot, snapshot_round_trip}
use nouva_agent.Backup.Admission.{
  Declaration, Artifact, Destination, Verified, verify_external_backup_artifact, is_source_version,
}
use nouva_agent.Backup.Admission.Laws.{IsAdmissible, verified_iff, verified-kept}
unfoldable use nouva_agent.Backup.Admission.{verify_external_backup_artifact}
unfoldable use nouva_agent.Backup.Versions.{
  parse_postgres_major_version, is_sha256_digest, get_max_readable_rdb_version,
}
unfoldable use nouva_agent.Prelude.{decimal}
unfoldable use nouva_agent.Backup.Snapshot.{parse_redis_rdb_header}

-- The ASCII digits and the dot.
abbrev ascii : ℕ → Char
ascii b =
    if b == 46
    then "."
    else if b == 49
    then "1"
    else if b == 52
    then "4"
    else if b == 54
    then "6"
    else if b == 55
    then "7"
    else "?"

-- A decoder for the texts of this file, which are not long.
abbrev decode : List ℕ → String
decode (a ∷ b ∷ c ∷ d ∷ []) = Prim.Native.String.◌∷◌ (ascii a) (
    Prim.Native.String.◌∷◌ (ascii b)
      (Prim.Native.String.◌∷◌ (ascii c) (Prim.Native.String.◌∷◌ (ascii d) "")))
decode _ = "?"

abbrev head : Head
head = record {
  minor = 14;
  revision = 0;
  int_size = 4;
  offset_size = 8;
  compression = record { level = negsuc 0; algorithm = 0 };
  second = pos 59;
  minute = pos 30;
  hour = pos 12;
  day = pos 24;
  month = pos 11;
  year = pos 125;
  is_dst = negsuc 0;
  database = some (49 ∷ 49 ∷ 46 ∷ 52 ∷ []);
  engine = 49 ∷ 54 ∷ 46 ∷ 52 ∷ [];
  dump = none;
}

engine-known : parse_postgres_major_version "16.4" ≡ some 16
unfolding parse_postgres_major_version
engine-known = refl

head-IsWritable : IsWritable decode head
head-IsWritable = record {
  known = ground arith;
  readable = ground arith;
  wide = (ground arith, ground arith);
  level = ground arith;
  clock = (
    ground arith,
    ground arith,
    ground arith,
    ground arith,
    ground arith,
    ground arith,
    ground arith,
  );
  database_short = (ground arith, ground arith);
  engine_short = (ground arith, ground arith);
  dump_short = ground arith;
  engine_known = (16, engine-known);
}

parse-written_example :
    parse_postgres_custom_dump_header decode (write_head head (7 ∷ 7 ∷ []))
    ≡ parsed (read_back decode head)
parse-written_example = parse-written decode head (7 ∷ 7 ∷ []) head-IsWritable

parse-longer_example :
    parse_postgres_custom_dump_header decode (write_head head [] ++ (9 ∷ []))
    ≡ parsed (read_back decode head)
parse-longer_example =
    parse-longer decode (write_head head []) (9 ∷ []) (read_back decode head)
      (parse-written decode head [] head-IsWritable)

snapshot_round_trip_example : parse_redis_rdb_header (write_snapshot 11 (250 ∷ [])) ≡ parsed 11
snapshot_round_trip_example = snapshot_round_trip 11 (250 ∷ []) (ground arith) (ground arith)

abbrev digest : String
digest = "0123456789abcdef0123456789abcdef0123456789abcdef0123456789abcdef"

abbrev declared : Declaration
declared = record { format = redis_rdb_v1; sha256 = digest; size_bytes = of_ℕ 10 }

abbrev observed : Artifact
observed = record {
  sha256 = digest;
  size_bytes = of_ℕ 10;
  header_sample = write_snapshot 11 (250 ∷ []);
}

abbrev destination : Destination
destination = record { variant = redis; version = "7.2" }

abbrev result : Verified
result = record { header = redis_header 11; source_engine_version = "rdb-11" }

verified_iff_example :
    ((v : Verified) × (verify_external_backup_artifact decode declared observed destination
        ≡ parsed v)
      × (v.header ≡ redis_header 11))
    ↔ IsAdmissible decode declared observed destination (redis_header 11)
verified_iff_example = verified_iff decode declared observed destination (redis_header 11)

is-verified : verify_external_backup_artifact decode declared observed destination ≡ parsed result
unfolding verify_external_backup_artifact is_sha256_digest parse_redis_rdb_header
    get_max_readable_rdb_version decimal
is-verified = refl

verified-kept_example : is_source_version result.source_engine_version ≡ true
verified-kept_example = verified-kept decode declared observed destination result is-verified
