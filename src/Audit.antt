-- ===== src/Audit.antt =====
-- Audit events and their canonical text (packages/contracts/src/audit.ts), and in child
-- modules the tables, the chain's operations, its histories and its evidence of tampering.
pub mod Tables
pub mod Chain
pub mod Sorting
pub mod Links
pub mod Append
pub mod History
pub mod Tamper
pub mod Early
mod Examples
use maman_agent.Prelude.{
  ℕ, ◌+◌, ◌-◌, ◌*◌, ◌/◌, ◌%◌, ltb, leb, ◌==◌, if◌then◌else◌, Bool, true, false, ◌||◌, ◌&&◌, not,
  String, Option, none, some, List, [], ◌∷◌, ◌++◌, codes, map, flat_map,
}
use maman_agent.Engine.Digest.{hex}

pub data AuditActorType : Type 0 where
  user device service system : AuditActorType

pub data AuditOutcome : Type 0 where
  success denied failure : AuditOutcome

-- A value of the metadata; a number is kept as the text that `JSON.stringify` prints for it.
pub data MetaValue : Type 0 where
  text : String → MetaValue
  number : String → MetaValue
  flag : Bool → MetaValue

pub record AuditEvent : Type 0 where
  pub id : String
  pub organization_id : String
  pub actor_type : AuditActorType
  pub actor_id : String
  pub action : String
  pub resource_type : String
  pub resource_id : Option String
  pub outcome : AuditOutcome
  pub reason_code : Option String
  pub metadata : List (String × MetaValue)
  pub request_id : Option String
  pub occurred_at : String

abbrev pub actor_name : AuditActorType → String
actor_name user = "user"
actor_name device = "device"
actor_name service = "service"
actor_name system = "system"

abbrev pub outcome_name : AuditOutcome → String
outcome_name success = "success"
outcome_name denied = "denied"
outcome_name failure = "failure"

-- `Array.prototype.sort` compares texts by their UTF-16 code units.
abbrev utf16 : ℕ → List ℕ
utf16 c =
    if ltb c 0x10000
    then c ∷ []
    else (0xd800 + (c - 0x10000) / 0x400) ∷ (0xdc00 + (c - 0x10000) % 0x400) ∷ []

abbrev units_le : List ℕ → List ℕ → Bool
units_le [] bs = true
units_le (a ∷ as_) [] = false
units_le (a ∷ as_) (b ∷ bs) = ltb a b || a == b && units_le as_ bs

abbrev key_le : String → String → Bool
key_le a b = units_le (flat_map utf16 (codes a)) (flat_map utf16 (codes b))

module _ {ℓ} {A : Type ℓ} where
  abbrev insert_entry : String × A → List (String × A) → List (String × A)
  insert_entry e [] = e ∷ []
  insert_entry e (f ∷ fs) =
      let later = f ∷ insert_entry e fs in if key_le (e.0) (f.0) then e ∷ f ∷ fs else later

  abbrev sort_entries : List (String × A) → List (String × A)
  sort_entries [] = []
  sort_entries (e ∷ es) = insert_entry e (sort_entries es)

-- How `JSON.stringify` escapes one character of a text.
abbrev escape : ℕ → List ℕ
escape c =
    if c == 34
    then 92 ∷ 34 ∷ []
    else if c == 92
    then 92 ∷ 92 ∷ []
    else if c == 8
    then 92 ∷ b'b' ∷ []
    else if c == 9
    then 92 ∷ b't' ∷ []
    else if c == 10
    then 92 ∷ b'n' ∷ []
    else if c == 12
    then 92 ∷ b'f' ∷ []
    else if c == 13
    then 92 ∷ b'r' ∷ []
    else if ltb c 32
    then 92 ∷ b'u' ∷ hex 4 c
    else c ∷ []

abbrev quote : String → List ℕ
quote s = 34 ∷ flat_map escape (codes s) ++ 34 ∷ []

abbrev meta_json : MetaValue → List ℕ
meta_json (text s) = quote s
meta_json (number digits) = codes digits
meta_json (flag true) = codes "true"
meta_json (flag false) = codes "false"

-- The entries of an object between its braces, by commas.
abbrev entries_json : List (String × List ℕ) → List ℕ
entries_json [] = []
entries_json ((key, value) ∷ []) = quote key ++ 58 ∷ value
entries_json ((key, value) ∷ e ∷ es) = quote key ++ 58 ∷ value ++ 44 ∷ entries_json (e ∷ es)

abbrev object_json : List (String × List ℕ) → List ℕ
object_json es = 123 ∷ entries_json es ++ 125 ∷ []

abbrev optional : String → Option String → List (String × List ℕ)
optional key none = []
optional key (some value) = (key, quote value) ∷ []

abbrev metadata_json : List (String × MetaValue) → List ℕ
metadata_json metadata = object_json (map (λ e. (e.0, meta_json (e.1))) (sort_entries metadata))

-- `Object.keys(event)` with the values, those that are undefined left out.
abbrev event_entries : AuditEvent → List (String × List ℕ)
event_entries e =
    ("id", quote e.id)
      ∷ ("organization_id", quote e.organization_id)
      ∷ ("actor_type", quote (actor_name e.actor_type))
      ∷ ("actor_id", quote e.actor_id)
      ∷ ("action", quote e.action)
      ∷ ("resource_type", quote e.resource_type)
      ∷ ("outcome", quote (outcome_name e.outcome))
      ∷ ("metadata", metadata_json e.metadata)
      ∷ ("occurred_at", quote e.occurred_at)
      ∷ optional "resource_id" e.resource_id
    ++ optional "reason_code" e.reason_code
    ++ optional "request_id" e.request_id

unfoldable pub canonical_audit_json : AuditEvent → List ℕ
unfolding hex
canonical_audit_json e = object_json (sort_entries (event_entries e))
