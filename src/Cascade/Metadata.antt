-- ===== src/Cascade/Metadata.antt =====
-- internal/cascade/metadata.go: parseMetadataSnapshot, and MetadataContextLength of session.go. The
-- body comes as what encoding/json reads in it: `none` if it is not the JSON of entries, and no
-- entries for an empty body. Errors keep what they are about, not their wording.
pub mod Accepted
use oh_my_api.Base.{
  ℕ, ◌+◌, Bool, true, false, Option, none, some, List, [], ◌∷◌, length, ltb, if◌then◌else◌, Text,
  Map, lookup, insert, ℤ, pos, leb_ℤ, is_some,
}

-- MetadataModel
pub record MetadataModel : Type 0 where
  pub model : Text
  pub context_length : Option ℤ

pub data SnapshotError : Type 0 where
  wrong_type empty_id bad_body too_many empty_name long_name duplicate_name not_positive :
      SnapshotError

pub data Snapshot : Type 0 where
  refused : SnapshotError → Snapshot
  accepted : Map ℤ → Snapshot

-- MaxMetadataSnapshotEntries and MaxMetadataModelNameBytes
abbrev pub max_metadata_snapshot_entries : ℕ
max_metadata_snapshot_entries = 1000

abbrev pub max_metadata_model_name_bytes : ℕ
max_metadata_model_name_bytes = 256

-- The bytes of a code point and of a text in UTF-8.
abbrev pub char_bytes : ℕ → ℕ
char_bytes c = if ltb c 128 then 1 else if ltb c 2048 then 2 else if ltb c 65536 then 3 else 4

unfoldable pub byte_length : Text → ℕ
byte_length [] = 0
byte_length (c ∷ cs) = char_bytes c + byte_length cs

abbrev pub is_blank : Text → Bool
is_blank [] = true
is_blank (c ∷ cs) = false

-- What is stored for an entry: 0 for no length, nothing for one that is not positive.
unfoldable pub stored_length : Option ℤ → Option ℤ
stored_length none = some (pos 0)
stored_length (some n) = if leb_ℤ n (pos 0) then none else some n

-- The body of the loop.
unfoldable pub add_entry : MetadataModel → Map ℤ → Snapshot
add_entry e out =
    if is_blank e.model
    then refused empty_name
    else if ltb max_metadata_model_name_bytes (byte_length e.model)
    then refused long_name
    else if is_some (lookup e.model out)
    then refused duplicate_name
    else elim (stored_length e.context_length) [
      | none ↦ refused not_positive
      | some n ↦ accepted (insert e.model n out)
    ]

abbrev pub after_entry : Snapshot → (Map ℤ → Snapshot) → Snapshot
after_entry (refused e) rest = refused e
after_entry (accepted out) rest = rest out

unfoldable pub add_entries : List MetadataModel → Map ℤ → Snapshot
add_entries [] out = accepted out
add_entries (e ∷ entries) out = after_entry (add_entry e out) (add_entries entries)

abbrev pub with_body : Option (List MetadataModel) → Snapshot
with_body none = refused bad_body
with_body (some entries) =
    if ltb max_metadata_snapshot_entries (length entries)
    then refused too_many
    else add_entries entries []

-- parseMetadataSnapshot
unfoldable pub parse_metadata_snapshot :
    (is_snapshot : Bool) → Text → Option (List MetadataModel) → Snapshot
parse_metadata_snapshot is_snapshot id body =
    if is_snapshot
    then if is_blank id then refused empty_id else with_body body
    else refused wrong_type

abbrev pub if_positive : Option ℤ → Option ℤ
if_positive none = none
if_positive (some n) = if leb_ℤ n (pos 0) then none else some n

-- MetadataContextLength
unfoldable pub metadata_context_length : Map ℤ → Text → Option ℤ
metadata_context_length metadata model = if_positive (lookup model metadata)
