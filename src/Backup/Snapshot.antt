-- ===== src/Backup/Snapshot.antt =====
-- `parseRedisRdbHeader` of packages/runtime/src/external-backup-import.ts.
pub mod Laws
use nouva_agent.Prelude.{
  ℕ, ◌+◌, ◌-◌, ◌*◌, ◌==◌, leb, ltb, String, Bool, true, false, not, ◌&&◌, ◌||◌, List, [], ◌∷◌,
  length, if◌then◌else◌, ◌<>◌,
}
use nouva_agent.Backup.Reading.{Parse, parsed, rejected, format_unreadable, format_mismatch}

abbrev pub redis_magic : List ℕ
redis_magic = 82 ∷ 69 ∷ 68 ∷ 73 ∷ 83 ∷ []

abbrev pub read_version : ℕ → List ℕ → Parse ℕ
read_version value [] =
    if ltb value 1 then rejected format_unreadable "RDB header declares version 0" else parsed value
read_version value (digit ∷ digits) =
    let rest = read_version (value * 10 + (digit - 48)) digits in
    if ltb digit 48 || ltb 57 digit
    then rejected format_unreadable "RDB header does not carry a four-digit version"
    else rest

-- The bytes after the signature, of which four are digits.
abbrev pub read_digits : List ℕ → Parse ℕ
read_digits (a ∷ b ∷ c ∷ d ∷ rest) = read_version 0 (a ∷ b ∷ c ∷ d ∷ [])
read_digits _ = rejected format_unreadable "Artifact is too short to contain an RDB header"

abbrev pub match_magic : List ℕ → List ℕ → Parse ℕ
match_magic [] bytes = read_digits bytes
match_magic (c ∷ cs) [] =
    rejected format_unreadable "Artifact is too short to contain an RDB header"
match_magic (c ∷ cs) (b ∷ bytes) =
    let rest = match_magic cs bytes in
    if b == c
    then rest
    else rejected format_mismatch (
        "Artifact does not start with the REDIS signature of an RDB snapshot; an AOF file or a "
        <> "compressed RDB is not accepted")

unfoldable pub parse_redis_rdb_header : List ℕ → Parse ℕ
parse_redis_rdb_header bytes =
    if ltb (length bytes) 9
    then rejected format_unreadable "Artifact is too short to contain an RDB header"
    else match_magic redis_magic bytes
