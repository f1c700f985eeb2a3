-- ===== src/Agent/Wipe/Laws.antt =====
-- A write of a receipt that may be cut off anywhere, and what a retry of the wipe reads after it.
use nouva_agent.Prelude.{
  ℕ, ◌≡◌, refl, ap, String, eq_iff, eq_refl, true, Option, some, List, [], ◌∷◌, ◌⊎◌, inl, inr, ◌↔◌,
  arith,
}
use nouva_agent.Prelude.Effects.{ok}
use nouva_agent.Agent.Wipe.{
  Receipt, Parsed, object, Files, found, Replaced, receipt_of, Operation, write_temporary, apply,
  write_volume_wipe_receipt, read_volume_wipe_receipt, has_replaced_volume_for_generation,
  is_volume_wipe_receipt, recognise,
}

abbrev Torn : Operation → Files → Files → Type 0
Torn (write_temporary s) a b = (part : String) × (b ≡ record a { temporary = found part })
Torn _ a b = ⊥

-- The files that a process may leave which starts on these operations: as they are after any number of
-- them, or with any part of a text that was being written.
abbrev pub LeavesFrom : List Operation → Files → Files → Type 0
LeavesFrom [] a b = b ≡ a
LeavesFrom (o ∷ ops) a b = (b ≡ a) ⊎ (Torn o a b ⊎ LeavesFrom ops (apply o a) b)

-- The receipt that `r` leaves is read, and decides of exactly its volume and its generation.
abbrev pub IsRecorded : (String → Option Parsed) → Replaced → String → Files → Type 0
IsRecorded parse r now b =
    (read_volume_wipe_receipt parse b ≡ ok (some (receipt_of r now)))
    × ((volume_name : String) (generation : ℕ)
        → (has_replaced_volume_for_generation (some (receipt_of r now)) volume_name generation
            ≡ true)
          ↔ ((r.volume_name ≡ volume_name) × (r.repository_generation ≡ generation)))

decides_iff :
    (r : Replaced) (now volume_name : String) (generation : ℕ)
    → (has_replaced_volume_for_generation (some (receipt_of r now)) volume_name generation ≡ true)
      ↔ ((r.volume_name ≡ volume_name) × (r.repository_generation ≡ generation))
unfolding has_replaced_volume_for_generation
decides_iff r now volume_name generation = (
  λ e. ((eq_iff r.volume_name volume_name).0 (ground arith), ground arith),
  λ e. rw (← e.0, ← e.1, eq_refl r.volume_name) ground arith,
)

module _ (parse : String → Option Parsed) (stringify : Receipt → String) (r : Replaced)
    (now : String)
    (reads : parse (stringify (receipt_of r now)) ≡ some (object (receipt_of r now))) where
  renamed-IsRecorded :
      (b : Files) → b.receipt ≡ found (stringify (receipt_of r now)) → IsRecorded parse r now b
  unfolding read_volume_wipe_receipt recognise is_volume_wipe_receipt
  renamed-IsRecorded b e = (rw (e, reads) refl, decides_iff r now)

  -- What a cut leaves: the receipt's file as it was, or the new one.
  cut_off :
      (a b : Files)
      → LeavesFrom (write_volume_wipe_receipt stringify r now) a b
      → (b.receipt ≡ a.receipt) ⊎ (b.receipt ≡ found (stringify (receipt_of r now)))
  cut_off a b (inl e) = inl (ap Files.receipt e)
  cut_off a b (inr (inl never)) = elim never [ ]
  cut_off a b (inr (inr (inl e))) = inl (ap Files.receipt e)
  cut_off a b (inr (inr (inr (inl (part, e))))) = inl (ap Files.receipt e)
  cut_off a b (inr (inr (inr (inr (inl e))))) = inl (ap Files.receipt e)
  cut_off a b (inr (inr (inr (inr (inr (inl never)))))) = elim never [ ]
  cut_off a b (inr (inr (inr (inr (inr (inr e)))))) = inr (ap Files.receipt e)

-- With a JSON reader that reads back the text of the receipt that is written: a process that writes a
-- receipt may end after any of its file operations, or within the write of the temporary file. What
-- a retry reads then is what was read before, be it a receipt, none or an error, or it is the new
-- receipt, which says of exactly its own volume and generation that the volume is replaced.
pub write-IsAtomic :
    (parse : String → Option Parsed) (stringify : Receipt → String) (r : Replaced) (now : String)
    (a b : Files)
    → parse (stringify (receipt_of r now)) ≡ some (object (receipt_of r now))
    → LeavesFrom (write_volume_wipe_receipt stringify r now) a b
    → (read_volume_wipe_receipt parse b ≡ read_volume_wipe_receipt parse a)
      ⊎ IsRecorded parse r now b
unfolding read_volume_wipe_receipt
write-IsAtomic parse stringify r now a b reads leaves =
    elim (cut_off parse stringify r now reads a b leaves) [
      | inl same ↦ inl (rw same refl)
      | inr new ↦ inr (renamed-IsRecorded parse stringify r now reads b new)
    ]
