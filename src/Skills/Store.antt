-- ===== src/Skills/Store.antt =====
-- The queries and updates of the skill tables that the services make.
use psychic_octo_invention.Prelude.{
  ℕ, String, Option, none, some, List, [], ◌∷◌, find, head?, eqb, ◌==◌, if◌then◌else◌,
}
use psychic_octo_invention.Skills.Types.{Skill, Version, Vetting, AuditEntry, Store}

-- `skill.findUnique({ where: { slug } })` and `{ where: { id } }`
unfoldable pub find_by_slug : String → Store → Option Skill
find_by_slug slug store = find (λ s. s.slug == slug) store.skills

unfoldable pub find_by_id : ℕ → Store → Option Skill
find_by_id id store = find (λ s. eqb s.id id) store.skills

unfoldable pub find_version : ℕ → List Version → Option Version
find_version id versions = find (λ v. eqb v.id id) versions

-- `currentVersion`
abbrev pub current_version : Skill → Option Version
current_version s = elim s.current_version_id [ none ↦ none | some id ↦ find_version id s.versions ]

-- `currentVersion ?? versions[0]`
abbrev pub display_version : Skill → Option Version
display_version s = elim (current_version s) [ some v ↦ some v | none ↦ head? s.versions ]

-- `skill.update({ where: { id }, data })`
unfoldable pub update_skill : ℕ → (Skill → Skill) → List Skill → List Skill
update_skill id f [] = []
update_skill id f (s ∷ ss) = (if eqb s.id id then f s else s) ∷ update_skill id f ss

-- `skillVettingResult.create` for the version of an id; ids are unique.
unfoldable pub add_vetting : ℕ → Vetting → List Version → List Version
add_vetting id t [] = []
add_vetting id t (v ∷ vs) =
    if eqb v.id id then record v { vettings = t ∷ v.vettings } ∷ vs else v ∷ add_vetting id t vs

abbrev pub log : AuditEntry → Store → Store
log entry store = record store { audits = entry ∷ store.audits }
