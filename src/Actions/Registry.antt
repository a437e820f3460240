-- ===== src/Actions/Registry.antt =====
-- The registered actions (apps/api/src/action-engine/action-registry.ts), less the labels and the
-- domains. What an action does is a part of the domain that the engine runs on.
use ndy_hub.Common.{Bool, true, false, Option, none, some, List, [], ◌∷◌, String}
use ndy_hub.Common.Table.{find}
use text.Mathlib.Text.{◌==◌ as str_eq}

-- `ActionRiskTier`
pub data RiskTier : Type 0 where
  low medium high critical : RiskTier

abbrev pub is_low : RiskTier → Bool
is_low low = true
is_low _ = false

abbrev pub is_critical : RiskTier → Bool
is_critical critical = true
is_critical _ = false

-- `ActionRegistryEntry`
pub record Entry : Type 0 where
  pub action_key : String
  pub risk_tier : RiskTier
  pub required_scopes : List String
  pub reversible : Bool
  pub reverse_action_key : Option String

abbrev pub calendar_event_create : Entry
calendar_event_create = record {
  action_key = "calendar.event.create";
  risk_tier = medium;
  required_scopes = "calendar" ∷ [];
  reversible = true;
  reverse_action_key = some "calendar.event.delete";
}

abbrev pub contact_create : Entry
contact_create = record {
  action_key = "contact.create";
  risk_tier = low;
  required_scopes = "contacts" ∷ [];
  reversible = true;
  reverse_action_key = none;
}

abbrev pub task_create : Entry
task_create = record {
  action_key = "task.create";
  risk_tier = low;
  required_scopes = "tasks" ∷ [];
  reversible = true;
  reverse_action_key = none;
}

abbrev pub note_create : Entry
note_create = record {
  action_key = "note.create";
  risk_tier = low;
  required_scopes = "ndyspace" ∷ [];
  reversible = true;
  reverse_action_key = none;
}

-- `ACTION_REGISTRY`
abbrev pub action_registry : List Entry
action_registry = calendar_event_create ∷ contact_create ∷ task_create ∷ note_create ∷ []

-- `findActionDefinition`
abbrev pub find_action_definition : String → Option Entry
find_action_definition action_key = find (λ a. str_eq a.action_key action_key) action_registry
