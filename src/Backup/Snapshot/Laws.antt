-- ===== src/Backup/Snapshot/Laws.antt =====
-- The versions of RDB snapshots.
use nouva_agent.Prelude.{
  ℕ, ◌≡◌, ◌≤◌, ◌+◌, ◌/◌, ◌%◌, ltb, ◌==◌, List, [], ◌∷◌, length, arith, Bool-cases, inl, inr,
}
use nouva_agent.Backup.Reading.{parsed}
use nouva_agent.Backup.Snapshot.{redis_magic, read_version, match_magic, parse_redis_rdb_header}

-- The head of a snapshot: the signature and four digits.
abbrev pub write_snapshot : ℕ → List ℕ → List ℕ
write_snapshot version body =
    82
    ∷ 69
    ∷ 68
    ∷ 73
    ∷ 83
    ∷ (48 + version / 1000)
    ∷ (48 + version / 100 % 10)
    ∷ (48 + version / 10 % 10)
    ∷ (48 + version % 10)
    ∷ body

read_version-le :
    (a b c d v : ℕ) → read_version 0 (a ∷ b ∷ c ∷ d ∷ []) ≡ parsed v → (1 ≤ v) × (v ≤ 9999)
read_version-le a b c d v e = ground arith

match-le :
    (codes bytes : List ℕ) (v : ℕ) → match_magic codes bytes ≡ parsed v → (1 ≤ v) × (v ≤ 9999)
match-le [] (a ∷ b ∷ c ∷ d ∷ rest) v e = read_version-le a b c d v e
match-le [] [] v e = absurd (cc)
match-le [] (a ∷ []) v e = absurd (cc)
match-le [] (a ∷ b ∷ []) v e = absurd (cc)
match-le [] (a ∷ b ∷ c ∷ []) v e = absurd (cc)
match-le (c ∷ cs) [] v e = absurd (cc)
match-le (c ∷ cs) (b ∷ bytes) v e = elim (Bool-cases (b == c)) [
  | inl same ↦ match-le cs bytes v (rw same at e)
  | inr other ↦ absurd (cc (rw other at e))
]

pub snapshot-le :
    (bytes : List ℕ) (v : ℕ) → parse_redis_rdb_header bytes ≡ parsed v → (1 ≤ v) × (v ≤ 9999)
unfolding parse_redis_rdb_header
snapshot-le bytes v e = elim (Bool-cases (ltb (length bytes) 9)) [
  | inl short ↦ absurd (cc (rw short at e))
  | inr long ↦ match-le redis_magic bytes v (rw long at e)
]

-- What a snapshot of a version from 1 to 9999 begins with is read as that version, whatever follows
-- it.
pub snapshot_round_trip :
    (version : ℕ) (body : List ℕ)
    → 1 ≤ version
    → version ≤ 9999
    → parse_redis_rdb_header (write_snapshot version body) ≡ parsed version
unfolding parse_redis_rdb_header
snapshot_round_trip version body low high = ground arith
