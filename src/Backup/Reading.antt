-- ===== src/Backup/Reading.antt =====
-- The results and the byte reader of packages/runtime/src/external-backup-import.ts. A cursor is the
-- bytes that are left, each below 256. An exception for a header that ended early is the rejection
-- that parsePostgresCustomDumpHeader makes of it.
pub mod Laws
use Prim.Native.Nat.{zero, suc}
use nouva_agent.Prelude.{
  ℕ, ◌+◌, ◌*◌, ◌^◌, ◌==◌, ltb, String, Bool, true, false, not, Option, none, some, List, [], ◌∷◌,
  length, if◌then◌else◌,
}
use nouva_agent.Prelude.Integer.{ℤ, pos, negsuc}

pub data Category : Type 0 where
  artifact_missing integrity_mismatch format_unreadable format_mismatch : Category
  engine_version_incompatible restore_failed validation_failed : Category

pub data Format : Type 0 where
  postgres_custom_dump_v1 redis_rdb_v1 : Format

pub data Variant : Type 0 where
  postgres redis : Variant

-- `EXTERNAL_BACKUP_IMPORT_VARIANT_BY_FORMAT`
abbrev pub variant_by_format : Format → Variant
variant_by_format postgres_custom_dump_v1 = postgres
variant_by_format redis_rdb_v1 = redis

pub record PostgresHeader : Type 0 where
  pub archive_version : String
  pub source_engine_version : String
  pub dump_version : Option String
  pub source_database : Option String

pub data Header : Type 0 where
  postgres_header : PostgresHeader → Header
  redis_header : (rdb_version : ℕ) → Header

pub data Parse (A : Type 0) : Type 0 where
  parsed : A → Parse A
  rejected : (category : Category) (message : String) → Parse A

-- A read takes bytes from the front, or ends the parse.
pub data Read (A : Type 0) : Type 0 where
  got : A → (rest : List ℕ) → Read A
  refused : (category : Category) (message : String) → Read A

abbrev pub Reader : Type 0 → Type 0
Reader A = List ℕ → Read A

abbrev pub pure : {A : Type 0} → A → Reader A
pure a bytes = got a bytes

abbrev pub refuse : {A : Type 0} → Category → String → Reader A
refuse category message bytes = refused category message

abbrev pub then_read : {A B : Type 0} → Read A → (A → Reader B) → Read B
then_read (got a rest) f = f a rest
then_read (refused category message) f = refused category message

infixl 5 ◌>>=◌ ◌>>◌
abbrev pub ◌>>=◌ : {A B : Type 0} → Reader A → (A → Reader B) → Reader B
◌>>=◌ m f bytes = then_read (m bytes) f

abbrev pub ◌>>◌ : {A B : Type 0} → Reader A → Reader B → Reader B
◌>>◌ m k bytes = then_read (m bytes) (λ _. k)

-- Goes on where the condition holds.
abbrev pub require : Bool → Category → String → Reader (Unit {0})
require true category message = pure tt
require false category message = refuse category message

abbrev pub parse_of : {A : Type 0} → Read A → Parse A
parse_of (got a rest) = parsed a
parse_of (refused category message) = rejected category message

-- `HeaderTruncatedError`
abbrev pub truncated : {A : Type 0} → String → Reader A
truncated message = refuse format_unreadable message

abbrev pub read_byte : Reader ℕ
read_byte [] = truncated "Artifact header ended before the archive header was complete" []
read_byte (b ∷ rest) = got b rest

abbrev pub take : ℕ → List ℕ → List ℕ
take zero bytes = []
take (suc n) [] = []
take (suc n) (b ∷ bytes) = b ∷ take n bytes

abbrev pub drop : ℕ → List ℕ → List ℕ
drop zero bytes = bytes
drop (suc n) [] = []
drop (suc n) (b ∷ bytes) = drop n bytes

-- `makeArchiveVersion`
abbrev pub make_archive_version : ℕ → ℕ → ℕ → ℕ
make_archive_version major minor revision = (major * 256 + minor) * 256 + revision

abbrev pub header_sample_bytes : ℕ
header_sample_bytes = 8192

abbrev pub signed_int : Bool → ℕ → ℤ
signed_int false n = pos n
signed_int true zero = pos 0
signed_int true (suc n) = negsuc n

-- The magnitude's bytes, from the one at `index`. Beyond 2^53 the double is rounded, which no test
-- of it sees.
unfoldable pub read_magnitude : ℕ → ℕ → ℕ → Reader ℕ
read_magnitude zero index value = pure value
read_magnitude (suc size) index value = do
  b ← read_byte
  read_magnitude size (index + 1) (value + b * 2 ^ (8 * index))

abbrev pub read_sign : ℕ → Reader ℕ
read_sign version = if ltb (make_archive_version 1 0 0) version then read_byte else pure 0

unfoldable pub read_archive_int : ℕ → ℕ → Reader ℤ
unfolding read_magnitude
read_archive_int int_size version = do
  sign ← read_sign version
  value ← read_magnitude int_size 0 0
  pure (signed_int (not (sign == 0)) value)

-- `TextDecoder` is the platform's.
abbrev pub Decode : Type 0
Decode = List ℕ → String

module _ (decode : Decode) where
  abbrev pub read_text : ℕ → Reader (Option String)
  read_text n bytes =
      if ltb (length bytes) n
      then refused format_unreadable "Artifact header ended inside an archive header string"
      else got (some (decode (take n bytes))) (drop n bytes)

  abbrev pub read_sized : ℤ → Reader (Option String)
  read_sized (negsuc n) = pure none
  read_sized (pos n) =
      if ltb header_sample_bytes n
      then truncated "Archive header declares an implausibly long string"
      else read_text n

  unfoldable pub read_archive_string : ℕ → ℕ → Reader (Option String)
  unfolding read_archive_int
  read_archive_string int_size version = do
    length ← read_archive_int int_size version
    read_sized length
