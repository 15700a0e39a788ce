-- ===== src/Registry/Admin.antt =====
-- contracts/registry/src/lib.rs, `initialize` and the two-step handover of the admin role.
use stellar_rwa_contracts.Base.{not, none, some, Option, ◌==◌}
use stellar_rwa_contracts.Base.Int.{pos}
use stellar_rwa_contracts.Base.Host.{
  Address, Result, ◌>>=◌, ◌>>◌, ok, panic_if, or_panic, require_auth,
}
use stellar_rwa_contracts.Registry.State.{
  Env, Registry, Error, Event, Outcome, publish, is_some, require_admin, already_initialized,
  not_initialized, unauthorized, no_pending_admin,
}

unfoldable pub initialize : Env → Address → Registry → Outcome
initialize env admin s = do
  panic_if (is_some s.admin) already_initialized
  require_auth env.authorized admin
  ok (
      publish (Event.init admin) (record s {
        admin = some admin;
        counter = some 0;
        active = some 0;
        total_valuation = some (pos 0);
      }))

unfoldable pub get_admin : Registry → Result Error Address
get_admin s = or_panic s.admin not_initialized

unfoldable pub get_pending_admin : Registry → Option Address
get_pending_admin s = s.pending_admin

unfoldable pub propose_admin : Env → Address → Address → Registry → Outcome
unfolding require_admin
propose_admin env admin new_admin s = do
  require_admin env admin s
  ok (publish (Event.proposed admin new_admin) (record s { pending_admin = some new_admin }))

unfoldable pub cancel_admin_proposal : Env → Address → Registry → Outcome
unfolding require_admin
cancel_admin_proposal env admin s = do
  require_admin env admin s
  panic_if (not (is_some s.pending_admin)) no_pending_admin
  ok (publish (Event.cancelled admin) (record s { pending_admin = none }))

unfoldable pub accept_admin : Env → Address → Registry → Outcome
accept_admin env new_admin s = do
  require_auth env.authorized new_admin
  pending ← or_panic s.pending_admin no_pending_admin
  panic_if (not (pending == new_admin)) unauthorized
  old_admin ← or_panic s.admin not_initialized
  ok (
      publish (Event.set_admin old_admin new_admin)
        (record s { admin = some new_admin; pending_admin = none }))
