-- ===== src/Admin.antt =====
-- gateway/routes/admin.py. Admin/Keys has the routes on API keys and users, Admin/Flush the one that
-- empties the cache, and Admin/Stats the counts over the request log. Here: what all routes share.
pub mod Keys
pub mod Flush
pub mod Stats
mod Tests
use adaptive_gateway.Prelude.{Bool, true, false}
use adaptive_gateway.Prelude.Results.{Exc, value_error, unicode_error, os_error, Result, ok, raise}
use adaptive_gateway.Prelude.Texts.{Text, str}
use adaptive_gateway.Prelude.{Option}
use adaptive_gateway.Auth.{Answer, answer, refuse}
use adaptive_gateway.Auth.Middleware.{State, require_admin}
use adaptive_gateway.Config.Rules.{Active}

-- Depends(require_admin), on every route of the router: the route is run for the principal.
unfoldable pub as_admin : {A : Type 0} → State → (Text → A) → Answer A
as_admin state route = elim (require_admin state) [
  | refuse status detail ↦ refuse status detail
  | answer principal ↦ answer (route principal)
]

-- except (ValueError, OSError)
abbrev is_invalid : Exc → Bool
is_invalid value_error = true
is_invalid unicode_error = true
is_invalid os_error = true
is_invalid _ = false

-- `reload_config`, given what the load did.
unfoldable pub reload_config :
    {F : Type 0} → Result (Option Text) × Active F → Result (Answer (Option Text)) × Active F
reload_config (ok path, active) = (ok (answer path), active)
reload_config (raise e, active) = elim (is_invalid e) [
  | true ↦ (ok (refuse 400 (str "invalid configuration; active policy retained")), active)
  | false ↦ (raise e, active)
]
