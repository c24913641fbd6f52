-- ===== src/Examples/Config.antt =====
-- The theorem on the settings, in production with Jira switched off.
use gov_flow.Prelude.{String, none, some, List, [], ◌∷◌, ◌==◌, if◌then◌else◌}
use gov_flow.Js.Value.{not_a_number}
use gov_flow.Config.Values.{Variables}
use gov_flow.Config.Load.{load_settings}
use gov_flow.Config.Checked.{Tells, IsComplete}
use gov_flow.Config.Started.{IsSound, load_settings-Tells}

abbrev variable : List (String × String) → Variables
variable [] name = none
variable ((key, value) ∷ rest) name = if key == name then some value else variable rest name

abbrev production : Variables
production = variable (
    ("DB_HOST", "db")
    ∷ ("DB_PORT", "5432")
    ∷ ("DB_USER", "govflow")
    ∷ ("DB_PASSWORD", "pw")
    ∷ ("DB_NAME", "govflow")
    ∷ ("JWT_SECRET", "0123456789abcdef0123456789abcdef")
    ∷ ("REDIS_PASSWORD", "redis")
    ∷ ("TRUST_PROXY_HOPS", "2")
    ∷ [])

load_settings-Tells_example :
    Tells
      (λ s. IsComplete production × IsSound s)
      (IsComplete production)
      (load_settings (λ text. not_a_number) production)
load_settings-Tells_example = load_settings-Tells (λ text. not_a_number) production
