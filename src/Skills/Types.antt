-- ===== src/Skills/Types.antt =====
-- The rows of the skill tables (prisma/schema.prisma), the versions of a skill and the vettings of a
-- version held inside it, each list with the newest first. An id is a number. Of a version's config
-- the `__source` entry is kept.
use psychic_octo_invention.Prelude.{ℕ, String, Bool, Option, List, [], head?}
use psychic_octo_invention.Json.{Json}
use psychic_octo_invention.Security.Types.{DetectedRisk}

pub data SourceType : Type 0 where
  builtin uploaded git_repo marketplace : SourceType

pub data VettingResult : Type 0 where
  passed failed warning pending : VettingResult

pub data ReviewerType : Type 0 where
  system manual : ReviewerType

pub record Vetting : Type 0 where
  pub result : VettingResult
  pub reviewer_type : ReviewerType
  pub reasons : List String
  pub detected_risks : List DetectedRisk
  pub code_hash : String
  pub reviewer_note : Option String

pub record Version : Type 0 where
  pub id : ℕ
  pub version : String
  pub code_hash : String
  pub config_source : Option String
  pub vettings : List Vetting

pub record Skill : Type 0 where
  pub id : ℕ
  pub slug : String
  pub display_name : String
  pub description : Option String
  pub source_type : SourceType
  pub source_url : Option String
  pub source_ref : Option String
  pub metadata : Option Json
  pub enabled : Bool
  pub current_version_id : Option ℕ
  pub versions : List Version

-- An entry of the audit log, with the reason or the code hash of its metadata.
pub record AuditEntry : Type 0 where
  pub actor_id : Option String
  pub action : String
  pub target_id : ℕ
  pub detail : String

pub record Store : Type 0 where
  pub skills : List Skill
  pub audits : List AuditEntry
  pub next_id : ℕ

-- `SkillIngestInput`
pub record IngestInput : Type 0 where
  pub slug : String
  pub display_name : String
  pub description : Option String
  pub source_type : SourceType
  pub source_url : Option String
  pub source_ref : Option String
  pub metadata : Option Json
  pub version : String
  pub source : String

abbrev pub empty_store : Store
empty_store = record { skills = []; audits = []; next_id = 0 }

-- `vettingResults[0]`
abbrev pub latest_vetting : Version → Option Vetting
latest_vetting v = head? v.vettings
