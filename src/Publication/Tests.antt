-- ===== src/Publication/Tests.antt =====
-- Runs of features/uploaded-file/publication/coordinator.ts over a small world, a clock.
use sdcorejs_nestjs.Base.{
  ℕ, ◌≡◌, refl, true, false, some, none, [], ◌∷◌, ◌++◌, Text, lit, ok, suc, trim, has_unit, text_eq,
}
use sdcorejs_nestjs.Publication.Intent.{
  Binding, Source, Target, Intent, publication, invalid_descriptor,
}
use sdcorejs_nestjs.Publication.Target.{Runtime, Config, verify}
use sdcorejs_nestjs.Publication.Ports.{
  Ports, publish, Lease, ready, absent, acknowledged, public_file, Trace,
}
use sdcorejs_nestjs.Publication.Protocol.{IsSound}
use sdcorejs_nestjs.Publication.Run.{run}
use sdcorejs_nestjs.Publication.Stages.{run-IsSound}
use sdcorejs_nestjs.Publication.Entry.{stage, project}
use sdcorejs_nestjs.Publication.Verified.{IsVerified, verify-IsVerified}
use sdcorejs_nestjs.Publication.Outcomes.{Shown, project-IsShown}
use sdcorejs_nestjs.Publication.Staging.{IsStored, stage-IsStored}
use sdcorejs_nestjs.Publication.Refusals.{IsRefused, run-IsRefused}

abbrev binding : Binding
binding = record {
  environment = lit "prod";
  module_name = lit "shop";
  scope_id = lit "t 1";
  binding_id = lit "b";
  generation = lit "g";
}

abbrev digest : Text
digest = lit "0123456789abcdef0123456789abcdef0123456789abcdef0123456789abcdef"

abbrev source : Source
source = record {
  id = lit "s";
  version = lit "1";
  locator = lit "private/x";
  sha256 = digest;
  size = 10;
  content_type = lit "image/png";
}

abbrev target : Target
target = record {
  key = lit "prod/goods/public/t%201/h/" ++ digest;
  url = lit "https://cdn.example/prod/goods/public/t%25201/h/" ++ digest;
  external = true;
}

abbrev intent : Intent
intent = record {
  id = lit "i";
  binding = binding;
  source = source;
  target = target;
  descriptor_hash = lit "h";
  created_at = 5;
}

abbrev runtime : Runtime
runtime = record {
  publication_hash = λ s. lit "h";
  descriptor_json = λ b s t. t.key;
  binding_json = λ b. b.binding_id;
  identity_json = λ b g. b ++ g;
  parse_url = λ v.
      some (record {
        is_https = true;
        username = [];
        password = [];
        search = [];
        hash = [];
        href = v;
      });
}

abbrev config : Config
config = record {
  environment = lit "prod";
  key_prefix = [];
  module_prefixes = (lit "shop", lit "goods") ∷ [];
  cdn_base_url = some (lit "https://cdn.example");
  is_external = true;
  lease_ms = none;
  retry_ms = none;
}

abbrev lease : ℕ → Lease
lease revision = record {
  intent = intent;
  token = lit "k";
  revision = revision;
  lease_until = 1000;
  action = publish;
}

abbrev ports : ℕ → Ports ℕ
ports revision = record {
  clock = λ w. w;
  new_id = λ w. (lit "i", w);
  aborted = λ w. false;
  claim = λ id token now until w. (ok (some (lease revision)), suc w);
  is_current = λ l w. (ok true, suc w);
  commit_ready = λ l now w. (ok ready, suc w);
  record_state = λ l s n next w. (ok true, suc w);
  inspect = λ i w. (ok absent, suc w);
  publish_object = λ i w. (ok acknowledged, suc w);
  remove_exact = λ i w. (ok acknowledged, suc w);
  resolve = λ w. (ok (public_file binding source), suc w);
  retire_logical = λ e m s b w. (ok tt, suc w);
  stage = λ i w. (ok i, suc w);
  retire = λ b w. (ok tt, suc w);
  read_current = λ b w. (ok (some (record { intent = intent; state = ready })), suc w);
}

abbrev start : Trace ℕ
start = record { world = 0; events = [] }

run-IsSound_example :
    IsSound runtime config (lit "i") (run (ports 1) config runtime (lit "i") start)
run-IsSound_example = run-IsSound runtime config (lit "i") (ports 1) 0

-- The run publishes and commits.
published_run : (run (ports 1) config runtime (lit "i") start).0 ≡ ok ready
unfolding run trim has_unit
published_run = refl

-- A revision beyond the safe integers.
abbrev beyond : ℕ
beyond = 9007199254740992

run-IsRefused_example :
    IsRefused
      (ports beyond)
      runtime
      config
      (lit "i")
      (run (ports beyond) config runtime (lit "i") start)
      (publication invalid_descriptor)
unfolding run trim has_unit
run-IsRefused_example =
    run-IsRefused (ports beyond) runtime config (lit "i") 0 (publication invalid_descriptor) refl

verify-IsVerified_example : (intent ≡ intent) × IsVerified runtime config intent
unfolding verify trim has_unit text_eq
verify-IsVerified_example = verify-IsVerified runtime config intent intent refl

project-IsShown_example : Shown (ports 1) runtime config binding 0 target.url
unfolding project trim has_unit
project-IsShown_example =
    project-IsShown (ports 1) runtime config binding 0 1
      (record { url = some target.url; state = some ready }) target.url refl refl

stage-IsStored_example :
    (b : Binding) × ((s : Source) × (((ports 1).resolve 0).0 ≡ ok (public_file b s))
      × IsStored (ports 1) runtime config (lit "i") b s)
unfolding stage trim has_unit
stage-IsStored_example = stage-IsStored (ports 1) runtime config 0 2 (lit "i") refl
