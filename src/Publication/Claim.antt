-- ===== src/Publication/Claim.antt =====
-- The checks of a claimed lease in `run` of features/uploaded-file/publication/coordinator.ts.
use sdcorejs_nestjs.Base.{Bool, true, false, ◌&&◌, Text, text_eq, leb, ok, ◌>>=◌, ◌>>◌, guard}
use sdcorejs_nestjs.Publication.Intent.{
  invalid_descriptor, publication, Checked, max_safe, Intent, part,
}
use sdcorejs_nestjs.Publication.Target.{Runtime, Config, verify}
use sdcorejs_nestjs.Publication.Ports.{Action, unrecognised, Lease}

unfoldable pub is_known : Action → Bool
is_known unrecognised = false
is_known _ = true

-- The checks of a claimed lease, and the lease with the verified intent.
unfoldable pub is_claim : Text → Intent → Lease → Bool
unfolding text_eq is_known
is_claim intent_id intent work =
    text_eq intent.id intent_id
    && leb work.revision max_safe
    && leb work.lease_until max_safe
    && is_known work.action

unfoldable pub check_lease : Runtime → Config → Text → Lease → Checked Lease
unfolding verify is_claim part
check_lease runtime config intent_id work = do
  intent ← verify runtime config work.intent
  guard (is_claim intent_id intent work) (publication invalid_descriptor)
  token ← part work.token
  ok (record work { intent = intent })
