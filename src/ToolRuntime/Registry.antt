-- ===== src/ToolRuntime/Registry.antt =====
-- `ToolRegistry.materialize` of tools/registry.py.
use Prim.Native.String.{◌++◌}
use codepilot_stable.Base.{
  ◌≡◌, refl, ◌⊎◌, inl, inr, String, none, some, dict_get, str_eq, if◌then◌else◌, List,
}
use codepilot_stable.ToolRuntime.Types.{MaterializedTool, ToolRegistration}

-- What the look-up says: the exceptions are told apart by their class.
pub data Materialized (Input : Type 0) : Type 0 where
  not_found stale : String → Materialized Input
  found : ToolRegistration Input → Materialized Input

unfoldable pub materialize :
    {Input : Type 0} → List (String × MaterializedTool Input) → String → String → Materialized Input
unfolding dict_get
materialize registrations name registration_id = elim (dict_get name registrations) [
  | none ↦ not_found ("Tool registration not found: " ++ name)
  | some tool ↦
      if str_eq tool.registration_id registration_id
      then found tool.registration
      else stale ("Tool registration is stale: " ++ name ++ " (" ++ registration_id ++ ")")
]

pub Materialized-cases :
    {Input : Type 0} (m : Materialized Input)
    → ((message : String) × (m ≡ not_found message))
      ⊎ (((message : String) × (m ≡ stale message))
          ⊎ ((registration : ToolRegistration Input) × (m ≡ found registration)))
Materialized-cases (not_found message) = inl (message, refl)
Materialized-cases (stale message) = inr (inl (message, refl))
Materialized-cases (found registration) = inr (inr (registration, refl))
