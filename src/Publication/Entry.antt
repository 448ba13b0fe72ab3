-- ===== src/Publication/Entry.antt =====
-- `stage`, `retire` and `project` of features/uploaded-file/publication/coordinator.ts.
use sdcorejs_nestjs.Base.{
  Bool, true, false, ◌&&◌, Option, none, some, Text, text_eq, ok, err, if◌then◌else◌,
}
use sdcorejs_nestjs.Publication.Intent.{
  invalid_descriptor, policy_denied, generation_conflict, Failure, publication, Checked, Binding,
  Source, Target, Intent, checked_source,
}
use sdcorejs_nestjs.Publication.Target.{
  Runtime, Config, authorized_binding, target_for, descriptor, verify,
}
use sdcorejs_nestjs.Publication.Ports.{
  Ports, Resolved, private_file, public_file, neither, Row, State, ready, unrecognised,
}

-- A computation outside a run: no deadline holds.
abbrev pub Step : Type 0 → Type 0 → Type 0
Step W A = W → Checked A × W

abbrev pub return : {W A : Type 0} → A → Step W A
return a w = (ok a, w)

abbrev pub throw : {W A : Type 0} → Failure → Step W A
throw e w = (err e, w)

abbrev pub lift : {W A : Type 0} → Checked A → Step W A
lift r w = (r, w)

abbrev pub continue : {W A B : Type 0} → Checked A → (A → Step W B) → Step W B
continue (err e) f w = (err e, w)
continue (ok a) f w = f a w

infixl 5 ◌>>=◌ ◌>>◌
abbrev pub ◌>>=◌ : {W A B : Type 0} → Step W A → (A → Step W B) → Step W B
◌>>=◌ m f w = let (r, w') = m w in continue r f w'

abbrev pub ◌>>◌ : {W A B : Type 0} → Step W A → Step W B → Step W B
m >> n = m >>= λ _. n

-- What `stage` answers.
pub data Staged : Type 0 where
  kept_private : Staged
  made_public : Text → Staged

-- What `project` answers; `none` is the state 'private'.
pub record Projection : Type 0 where
  pub url : Option Text
  pub state : Option State

abbrev pub binding_of : Resolved → Binding
binding_of (private_file b) = b
binding_of (public_file b s) = b
binding_of (neither b) = b

unfoldable pub is_ready : State → Bool
is_ready ready = true
is_ready _ = false

unfoldable pub is_recognised : State → Bool
is_recognised unrecognised = false
is_recognised _ = true

module _ {W : Type 0} (ports : Ports W) (runtime : Runtime) (config : Config) where
  -- The intent's fields in the order in which they are computed.
  abbrev pub new_intent : Binding → Source → Target → Step W Intent
  new_intent binding source target w =
      let (id, w') = ports.new_id w in
      (
        ok (record {
          id = id;
          binding = binding;
          source = source;
          target = target;
          descriptor_hash = descriptor runtime config binding source target;
          created_at = ports.clock w';
        }),
        w',
      )

  -- A retry may return the first identifier and time, but the same descriptor.
  unfoldable pub same_descriptor : Intent → Intent → Step W Staged
  unfolding text_eq
  same_descriptor intent stored =
      if text_eq stored.descriptor_hash intent.descriptor_hash
      then return (made_public stored.id)
      else throw (publication generation_conflict)

  -- The rest of the public branch, from each of its calls on.
  unfoldable pub compare : Intent → Intent → Step W Staged
  unfolding verify same_descriptor
  compare intent answer = lift (verify runtime config answer) >>= same_descriptor intent

  unfoldable pub store : Intent → Step W Staged
  unfolding compare
  store intent = ports.stage intent >>= compare intent

  unfoldable pub send : Intent → Step W Staged
  unfolding verify store
  send drafted = lift (verify runtime config drafted) >>= store

  unfoldable pub draft : Binding → Source → Target → Step W Staged
  unfolding descriptor send
  draft binding source target = new_intent binding source target >>= send

  unfoldable pub aim : Binding → Source → Step W Staged
  unfolding target_for draft
  aim binding source = lift (target_for runtime config binding source) >>= draft binding source

  unfoldable pub stage_public : Binding → Source → Step W Staged
  unfolding checked_source aim
  stage_public binding given = lift (checked_source given) >>= aim binding

  unfoldable pub stage_resolved : Resolved → Binding → Step W Staged
  unfolding stage_public
  stage_resolved (private_file b) binding = do
    ports.retire_logical binding.environment binding.module_name binding.scope_id binding.binding_id
    return kept_private
  stage_resolved (public_file b source) binding = stage_public binding source
  stage_resolved (neither b) binding = throw (publication policy_denied)

  unfoldable pub stage : Step W Staged
  unfolding authorized_binding stage_resolved
  stage = do
    resolved ← ports.resolve
    binding ← lift (authorized_binding runtime config (binding_of resolved))
    stage_resolved resolved binding

  unfoldable pub retire : Binding → Step W (Unit {0})
  unfolding authorized_binding
  retire given = do binding ← lift (authorized_binding runtime config given); ports.retire binding

  unfoldable pub shows : Binding → Intent → State → Bool
  unfolding is_recognised text_eq
  shows binding intent state =
      is_recognised state
      && text_eq (runtime.binding_json intent.binding) (runtime.binding_json binding)

  abbrev pub url_when : Bool → Intent → Option Text
  url_when true intent = some intent.target.url
  url_when false intent = none

  unfoldable pub project_verified : Binding → State → Checked Intent → Checked Projection
  unfolding shows is_ready
  project_verified binding state (err e) = err e
  project_verified binding state (ok intent) =
      if shows binding intent state
      then ok (record { url = url_when (is_ready state) intent; state = some state })
      else err (publication invalid_descriptor)

  unfoldable pub project_row : Binding → Option Row → Checked Projection
  unfolding verify project_verified
  project_row binding none = ok (record { url = none; state = none })
  project_row binding (some row) =
      project_verified binding row.state (verify runtime config row.intent)

  unfoldable pub project : Binding → Step W Projection
  unfolding authorized_binding project_row
  project given = do
    binding ← lift (authorized_binding runtime config given)
    row ← ports.read_current binding
    lift (project_row binding row)
