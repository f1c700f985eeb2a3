-- ===== src/Backup/Admission/Laws.antt =====
-- What a verified artifact has shown.
use nouva_agent.Prelude.{
  ℕ, ◌≡◌, refl, ◌≤◌, ltb, String, eq_iff, true, false, Option, none, some, List, arith, Bool-cases,
  inl, inr, ◌↔◌, eq_refl, subst,
}
use nouva_agent.Backup.Reading.{
  Format, postgres_custom_dump_v1, redis_rdb_v1, variant_by_format, Header, postgres_header,
  redis_header, Parse, parsed, rejected, Decode, PostgresHeader,
}
use nouva_agent.Backup.Versions.{
  parse_postgres_major_version, get_max_readable_rdb_version, Limit, up_to, inherited,
  is_sha256_digest,
}
use nouva_agent.Backup.Versions.Laws.{release-kept, release-there, rdb-kept}
use nouva_agent.Backup.Snapshot.Laws.{snapshot-le}
use nouva_agent.Backup.Snapshot.{parse_redis_rdb_header}
use nouva_agent.Backup.Archive.{parse_postgres_custom_dump_header}
use nouva_agent.Backup.Admission.{
  is_source_version, of_postgres, of_redis, Declaration, Artifact, Destination, Verified, admit,
  same_variant, same_number, is_byte_count, judge_majors, judge_limit, judge_engine,
  parse_external_backup_artifact_header, verify_external_backup_artifact,
}

-- An RDB version that a limit admits. Nothing is above what an object inherits.
abbrev pub IsWithin : ℕ → Limit → Type 0
IsWithin rdb (up_to limit) = rdb ≤ limit
IsWithin rdb inherited = Unit {0}

-- The destination's engine can restore what the header's engine wrote.
abbrev pub IsReadable : Header → String → Type 0
IsReadable (postgres_header h) version =
    (source : ℕ) × (target : ℕ) × (parse_postgres_major_version h.source_engine_version
      ≡ some source)
    × (parse_postgres_major_version version ≡ some target)
    × (source ≤ target)
IsReadable (redis_header rdb) version =
    (limit : Limit) × (get_max_readable_rdb_version version ≡ some limit) × IsWithin rdb limit

abbrev pub IsAdmissible : Decode → Declaration → Artifact → Destination → Header → Type 0
IsAdmissible decode d a t h =
    (is_sha256_digest d.sha256 ≡ true)
    × (a.sha256 ≡ d.sha256)
    × (is_byte_count a.size_bytes ≡ true)
    × (same_number a.size_bytes d.size_bytes ≡ true)
    × (same_variant (variant_by_format d.format) t.variant ≡ true)
    × (parse_external_backup_artifact_header decode d.format a.header_sample ≡ parsed h)
    × IsReadable h t.version

admitted-header : (h : Header) (s : String) (v : Verified) → admit h s ≡ parsed v → v.header ≡ h
admitted-header h s v e = cc

majors-admit :
    (h : PostgresHeader) (version : String) (s t : Option ℕ) (v : Verified)
    → judge_majors h version s t ≡ parsed v
    → (v.header ≡ postgres_header h)
      × ((source : ℕ) × (target : ℕ) × (s ≡ some source) × (t ≡ some target) × (source ≤ target))
majors-admit h version none t v e = absurd (cc)
majors-admit h version (some s) none v e = absurd (cc)
majors-admit h version (some s) (some t) v e = elim (Bool-cases (ltb t s)) [
  | inl newer ↦ absurd (cc (rw newer at e))
  | inr fits ↦
      (admitted-header (postgres_header h) _ v (rw fits at e), (s, t, refl, refl, ground arith))
]

limit-admits :
    (rdb : ℕ) (version : String) (l : Option Limit) (v : Verified)
    → judge_limit rdb version l ≡ parsed v
    → (v.header ≡ redis_header rdb) × ((limit : Limit) × (l ≡ some limit) × IsWithin rdb limit)
limit-admits rdb version none v e = absurd (cc)
limit-admits rdb version (some inherited) v e =
    (admitted-header (redis_header rdb) _ v e, (inherited, refl, tt))
limit-admits rdb version (some (up_to limit)) v e = elim (Bool-cases (ltb limit rdb)) [
  | inl newer ↦ absurd (cc (rw newer at e))
  | inr fits ↦
      (admitted-header (redis_header rdb) _ v (rw fits at e), (up_to limit, refl, ground arith))
]

engine-admits :
    (version : String) (p : Parse Header) (v : Verified)
    → judge_engine version p ≡ parsed v
    → (p ≡ parsed v.header) × IsReadable v.header version
engine-admits version (rejected category message) v e = absurd (cc)
engine-admits version (parsed (postgres_header h)) v e =
    let (same, fits) = majors-admit h version _ _ v e in (rw same refl, rw same fits)
engine-admits version (parsed (redis_header rdb)) v e =
    let (same, fits) = limit-admits rdb version _ v e in (rw same refl, rw same fits)

majors-admissible :
    (h : PostgresHeader) (version : String) (s t : ℕ)
    → s ≤ t
    → (v : Verified) × (judge_majors h version (some s) (some t) ≡ parsed v)
      × (v.header ≡ postgres_header h)
majors-admissible h version s t fits =
    let within : ltb t s ≡ false = ground arith in rw within (_, refl, refl)

limit-admissible :
    (rdb : ℕ) (version : String) (l : Limit)
    → IsWithin rdb l
    → (v : Verified) × (judge_limit rdb version (some l) ≡ parsed v) × (v.header ≡ redis_header rdb)
limit-admissible rdb version inherited fits = (_, refl, refl)
limit-admissible rdb version (up_to limit) fits =
    let within : ltb limit rdb ≡ false = ground arith in rw within (_, refl, refl)

engine-admissible :
    (version : String) (h : Header)
    → IsReadable h version
    → (v : Verified) × (judge_engine version (parsed h) ≡ parsed v) × (v.header ≡ h)
engine-admissible version (postgres_header h) (s, t, e, f, fits) =
    rw (e, f) (majors-admissible h version s t fits)
engine-admissible version (redis_header rdb) (l, e, fits) =
    rw e (limit-admissible rdb version l fits)

-- The words of a result.
version_of_admitted :
    (h : Header) (s : String) (v : Verified) → admit h s ≡ parsed v → v.source_engine_version ≡ s
version_of_admitted h s v e = cc

majors-kept :
    (h : PostgresHeader) (version : String) (s t : Option ℕ) (v : Verified)
    → parse_postgres_major_version h.source_engine_version ≡ s
    → judge_majors h version s t ≡ parsed v
    → is_source_version v.source_engine_version ≡ true
majors-kept h version none t v m e = absurd (cc)
majors-kept h version (some s) none v m e = absurd (cc)
majors-kept h version (some s) (some t) v m e = elim (Bool-cases (ltb t s)) [
  | inl newer ↦ absurd (cc (rw newer at e))
  | inr fits ↦
      let (r, there) = release-there h.source_engine_version s m in
      rw
        (
          version_of_admitted (postgres_header h) _ v (rw (fits) at e),
          there,
          release-kept h.source_engine_version r there,
        )
        refl
]

limit-kept :
    (rdb : ℕ) (version : String) (l : Option Limit) (v : Verified)
    → rdb ≤ 9999
    → judge_limit rdb version l ≡ parsed v
    → is_source_version v.source_engine_version ≡ true
limit-kept rdb version none v low e = absurd (cc)
limit-kept rdb version (some inherited) v low e =
    rw (version_of_admitted (redis_header rdb) _ v e, rdb-kept rdb low) (ground arith)
limit-kept rdb version (some (up_to limit)) v low e = elim (Bool-cases (ltb limit rdb)) [
  | inl newer ↦ absurd (cc (rw newer at e))
  | inr fits ↦
      rw (version_of_admitted (redis_header rdb) _ v (rw fits at e), rdb-kept rdb low)
        (ground arith)
]

header-kept :
    (decode : Decode) (f : Format) (bytes : List ℕ) (version : String) (v : Verified)
    → judge_engine version (parse_external_backup_artifact_header decode f bytes) ≡ parsed v
    → is_source_version v.source_engine_version ≡ true
header-kept decode postgres_custom_dump_v1 bytes version v e =
    go (parse_postgres_custom_dump_header decode bytes) e
  where
    go :
        (p : Parse PostgresHeader)
        → judge_engine version (of_postgres p) ≡ parsed v
        → is_source_version v.source_engine_version ≡ true
    go (rejected category message) f = absurd (cc)
    go (parsed h) f = majors-kept h version _ _ v refl f
header-kept decode redis_rdb_v1 bytes version v e =
    go (parse_redis_rdb_header bytes) (λ rdb f. (snapshot-le bytes rdb f).1) e
  where
    go :
        (p : Parse ℕ)
        → ((rdb : ℕ) → p ≡ parsed rdb → rdb ≤ 9999)
        → judge_engine version (of_redis p) ≡ parsed v
        → is_source_version v.source_engine_version ≡ true
    go (rejected category message) low f = absurd (cc)
    go (parsed rdb) low f = limit-kept rdb version _ v (low rdb refl) f

module _ (decode : Decode) where
  verified-IsAdmissible :
      (d : Declaration) (a : Artifact) (t : Destination) (v : Verified)
      → verify_external_backup_artifact decode d a t ≡ parsed v
      → IsAdmissible decode d a t v.header
  unfolding verify_external_backup_artifact
  verified-IsAdmissible d a t v e = ground (
    arith,
    (eq_iff a.sha256 d.sha256).0,
    engine-admits t.version (parse_external_backup_artifact_header decode d.format a.header_sample)
        v,
  )

  -- The engine version of a verified artifact has the form that a receipt keeps: a release of up to
  -- three numbers, or an RDB version of up to four digits.
  pub verified-kept :
      (d : Declaration) (a : Artifact) (t : Destination) (v : Verified)
      → verify_external_backup_artifact decode d a t ≡ parsed v
      → is_source_version v.source_engine_version ≡ true
  unfolding verify_external_backup_artifact
  verified-kept d a t v e = ground (arith, header-kept decode d.format a.header_sample t.version v)

  admissible-verified :
      (d : Declaration) (a : Artifact) (t : Destination) (h : Header)
      → IsAdmissible decode d a t h
      → (v : Verified) × (verify_external_backup_artifact decode d a t ≡ parsed v) × (v.header ≡ h)
  unfolding verify_external_backup_artifact
  admissible-verified d a t h (digest, same, count, size, variant, header, readable) =
      rw (same, digest, eq_refl d.sha256, count, size, variant, header)
        (engine-admissible t.version h readable)

  -- An artifact is verified as one with a header exactly where that header is admissible: both digests
  -- and sizes agree, it is the header of the format that was declared, and the destination is of the
  -- format's kind and can read it. For PostgreSQL that is a major version not above the destination's;
  -- for Redis an RDB version not above the destination's limit, where it is a number.
  pub verified_iff :
      (d : Declaration) (a : Artifact) (t : Destination) (h : Header)
      → ((v : Verified) × (verify_external_backup_artifact decode d a t ≡ parsed v)
          × (v.header ≡ h))
        ↔ IsAdmissible decode d a t h
  verified_iff d a t h = (
    λ (v, e, same). subst (IsAdmissible decode d a t) same (verified-IsAdmissible d a t v e),
    admissible-verified d a t h,
  )
