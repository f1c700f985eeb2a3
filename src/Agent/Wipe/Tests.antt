-- ===== src/Agent/Wipe/Tests.antt =====
-- A write that is cut off.
use nouva_agent.Prelude.{
  if◌then◌else◌, ◌≡◌, refl, String, str_eq, Option, some, none, ◌⊎◌, inl, inr,
}
use nouva_agent.Agent.Wipe.{
  Parsed, object, Files, found, not_found, Replaced, receipt_of, read_volume_wipe_receipt,
}
use nouva_agent.Agent.Wipe.Laws.{IsRecorded, write-IsAtomic}

-- A process that ends while it writes the temporary file of a second wipe's receipt.
abbrev replaced : Replaced
replaced = record { volume_name = "data"; repository_generation = 2; work_item_id = none }

abbrev json : String → Option Parsed
json s = if str_eq s "second" then some (object (receipt_of replaced "now")) else none

abbrev torn_files : Files
torn_files = record { receipt = not_found; temporary = found "sec" }

write-IsAtomic_example :
    (read_volume_wipe_receipt json torn_files
      ≡ read_volume_wipe_receipt json (record { receipt = not_found; temporary = not_found }))
    ⊎ IsRecorded json replaced "now" torn_files
write-IsAtomic_example =
    write-IsAtomic json (λ c. "second") replaced "now"
      (record { receipt = not_found; temporary = not_found }) torn_files refl
      (inr (inr (inr (inl ("sec", refl)))))
