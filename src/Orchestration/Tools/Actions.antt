-- ===== src/Orchestration/Tools/Actions.antt =====
-- The actions that the model is offered, against those that the dispatcher takes.
use psychic_octo_invention.Prelude.{
  ◌≡◌, refl, Bool, true, ◌&&◌, ◌==◌, eq_iff, Bool-cases, inl, inr, String, some, List, [], ◌∷◌, All,
  includes, if◌then◌else◌,
}
use psychic_octo_invention.Json.{str}
use psychic_octo_invention.Orchestration.Tools.Definitions.{bookkeeping_actions, followup_actions}
use psychic_octo_invention.Orchestration.Tools.Definitions.Ghl.{ghl_crm_actions}
use psychic_octo_invention.Orchestration.Tools.Arguments.{
  choose_action, valid_ghl_actions, valid_bookkeeping_actions, valid_followup_actions,
}

abbrev replaced_actions : List String
replaced_actions = "get_task" ∷ "get_appointment" ∷ "update_invoice" ∷ []

agree : (String → String) → (String → String) → List String → Bool
agree f g [] = true
agree f g (x ∷ xs) = (f x == g x) && agree f g xs

-- Two functions that agree by the test on each element of a list are equal on it.
all_agree :
    (f g : String → String) (xs : List String) → agree f g xs ≡ true → All (λ x. f x ≡ g x) xs
unfolding agree
all_agree f g [] h = tt
all_agree f g (x ∷ xs) h = elim (Bool-cases (f x == g x)) [
  | inl same ↦ ((eq_iff (f x) (g x)).0 same, all_agree f g xs (rw same at h))
  | inr other ↦ let impossible = rw other at h in cc
]

-- The action that the dispatcher passes on for the action of a call.
abbrev pub ghl_action : String → String
ghl_action a = choose_action valid_ghl_actions "search_contact" (some (str a))

abbrev pub bookkeeping_action : String → String
bookkeeping_action a = choose_action valid_bookkeeping_actions "process_receipt" (some (str a))

abbrev pub followup_action : String → String
followup_action a = choose_action valid_followup_actions "find_stale" (some (str a))

abbrev expected : String → String
expected a = if includes replaced_actions a then "search_contact" else a

-- Every action that the definitions of the first-party tools offer is the one that the dispatcher
-- passes on, except for get_task, get_appointment and update_invoice of the CRM tool: for these it
-- searches for a contact.
pub choose_action-offered :
    All
      (λ a. ghl_action a ≡ (if includes replaced_actions a then "search_contact" else a))
      ghl_crm_actions
    × All (λ a. bookkeeping_action a ≡ a) bookkeeping_actions
    × All (λ a. followup_action a ≡ a) followup_actions
unfolding choose_action agree
choose_action-offered = (
  all_agree ghl_action expected ghl_crm_actions refl,
  all_agree bookkeeping_action (λ a. a) bookkeeping_actions refl,
  all_agree followup_action (λ a. a) followup_actions refl,
)
