-- ===== src/Agent/Wipe.antt =====
-- agent/src/volume-wipe-receipt.ts: the receipt of a volume's replacement, over any JSON reader and
-- writer. A volume's directory is the receipt's file and the temporary one beside it.
pub mod Laws
mod Tests
use nouva_agent.Prelude.{
  ℕ, ◌==◌, String, str_eq, Bool, true, false, ◌&&◌, Option, none, some, List, [], ◌∷◌,
  if◌then◌else◌,
}
use nouva_agent.Prelude.Integer.{ℤ, pos}
use nouva_agent.Prelude.Effects.{Result, ok, threw}

-- A field of a parsed object.
pub data Field : Type 0 where
  absent null_field other_field : Field
  text : String → Field
  whole : ℤ → Field
  -- A number with a fraction.
  fractional : Field

-- What JSON.parse returns: an object with the fields of a receipt, or anything else.
pub record Receipt : Type 0 where
  pub version : Field
  pub volume_name : Field
  pub repository_generation : Field
  pub phase : Field
  pub work_item_id : Field
  pub recorded_at : Field

pub data Parsed : Type 0 where
  object : Receipt → Parsed
  not_an_object : Parsed

pub data Thrown : Type 0 where
  could_not_be_read not_valid_json no_recognised_shape : Thrown

pub data Contents : Type 0 where
  found : String → Contents
  not_found unreadable : Contents

pub record Files : Type 0 where
  pub receipt : Contents
  pub temporary : Contents

abbrev is_whole_one : Field → Bool
is_whole_one (whole (pos n)) = n == 1
is_whole_one _ = false

abbrev is_whole : Field → Bool
is_whole (whole n) = true
is_whole _ = false

abbrev is_string : Field → Bool
is_string (text s) = true
is_string _ = false

abbrev is_text : Field → String → Bool
is_text (text t) s = str_eq t s
is_text _ s = false

abbrev is_number : Field → ℕ → Bool
is_number (whole (pos n)) m = n == m
is_number _ m = false

unfoldable pub is_volume_wipe_receipt : Receipt → Bool
is_volume_wipe_receipt c =
    is_whole_one c.version
    && is_string c.volume_name
    && is_whole c.repository_generation
    && is_text c.phase "volume-replaced"

unfoldable pub recognise : Option Parsed → Result Thrown (Option Receipt)
unfolding is_volume_wipe_receipt
recognise none = threw not_valid_json
recognise (some not_an_object) = threw no_recognised_shape
recognise (some (object c)) =
    if is_volume_wipe_receipt c then ok (some c) else threw no_recognised_shape

module _ (parse : String → Option Parsed) where
  abbrev pub read_contents : Contents → Result Thrown (Option Receipt)
  read_contents not_found = ok none
  read_contents unreadable = threw could_not_be_read
  read_contents (found contents) = recognise (parse contents)

  unfoldable pub read_volume_wipe_receipt : Files → Result Thrown (Option Receipt)
  read_volume_wipe_receipt files = read_contents files.receipt

-- What a wipe records.
pub record Replaced : Type 0 where
  pub volume_name : String
  pub repository_generation : ℕ
  pub work_item_id : Option String

abbrev nullable : Option String → Field
nullable none = null_field
nullable (some s) = text s

abbrev pub receipt_of : Replaced → String → Receipt
receipt_of r now = record {
  version = whole (pos 1);
  volume_name = text r.volume_name;
  repository_generation = whole (pos r.repository_generation);
  phase = text "volume-replaced";
  work_item_id = nullable r.work_item_id;
  recorded_at = text now;
}

-- The file operations of a write, in order.
pub data Operation : Type 0 where
  make_directory rename_temporary : Operation
  -- A process that ends meanwhile may leave any part of the text.
  write_temporary : String → Operation

abbrev pub apply : Operation → Files → Files
apply make_directory files = files
apply (write_temporary contents) files = record files { temporary = found contents }
apply rename_temporary files = record { receipt = files.temporary; temporary = not_found }

abbrev pub write_volume_wipe_receipt : (Receipt → String) → Replaced → String → List Operation
write_volume_wipe_receipt stringify r now =
    make_directory ∷ write_temporary (stringify (receipt_of r now)) ∷ rename_temporary ∷ []

unfoldable pub has_replaced_volume_for_generation : Option Receipt → String → ℕ → Bool
has_replaced_volume_for_generation none volume_name generation = false
has_replaced_volume_for_generation (some c) volume_name generation =
    is_text c.volume_name volume_name && is_number c.repository_generation generation
