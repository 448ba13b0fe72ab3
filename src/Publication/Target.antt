-- ===== src/Publication/Target.antt =====
-- The configuration of the coordinator, the target of a rendition and the check of a stored intent
-- (features/uploaded-file/publication/coordinator.ts). The digest, the two JSON texts that are
-- hashed and the URL parser are the runtime's: parameters.
use sdcorejs_nestjs.Base.{
  ℕ, Bool, true, false, not, ◌&&◌, ◌||◌, Option, none, some, List, [], ◌∷◌, ◌++◌, Text, lit, length,
  is_empty, any, keep, trim, reverse, has_unit, text_eq, ok, ◌>>=◌, ◌>>◌, guard, leb, ◌==◌,
  split_on, join, lookup, is_some, or_default, if◌then◌else◌,
}
use sdcorejs_nestjs.Publication.Intent.{
  publication, invalid_descriptor, not_configured, namespace_denied, Checked, fail, max_safe,
  Binding, Source, Target, Intent, has_control_character, encode_component, part, checked_binding,
  checked_source,
}

-- What the code reads of a parsed URL.
pub record Url : Type 0 where
  pub is_https : Bool
  pub username : Text
  pub password : Text
  pub search : Text
  pub hash : Text
  pub href : Text

pub record Config : Type 0 where
  pub environment : Text
  pub key_prefix : Text
  pub module_prefixes : List (Text × Text)
  pub cdn_base_url : Option Text
  pub is_external : Bool
  pub lease_ms : Option ℕ
  pub retry_ms : Option ℕ

-- What the runtime supplies: sha256 in hex, the JSON texts of a descriptor, a binding and an identity,
-- and the URL parser.
pub record Runtime : Type 0 where
  pub publication_hash : Text → Text
  pub descriptor_json : Binding → Source → Target → Text
  pub binding_json : Binding → Text
  pub identity_json : Text → Text → Text
  pub parse_url : Text → Option Url

-- One of `.`, `%2e` and `%2E` at the front is taken off.
abbrev without_escape : Text → Option Text
without_escape (a ∷ b ∷ c ∷ s) =
    if (a == b'%') && (b == b'2') && ((c == b'e') || (c == b'E')) then some s else none
without_escape _ = none

unfoldable pub without_dot : Text → Option Text
without_dot [] = none
without_dot (c ∷ s) = if c == b'.' then some s else without_escape (c ∷ s)

-- `/^(?:\.|%2e){1,2}$/i`
abbrev ends : Option Text → Bool
ends none = false
ends (some s) = is_empty s

abbrev dots_after : Option Text → Bool
dots_after none = false
dots_after (some s) = is_empty s || ends (without_dot s)

unfoldable pub is_dots : Text → Bool
unfolding without_dot
is_dots s = dots_after (without_dot s)

unfoldable pub is_raw_base : Text → Bool
is_raw_base s = not (is_empty s) && text_eq s (trim s) && leb (length s) 2048

unfoldable pub is_base : Text → Url → Bool
unfolding has_control_character is_dots
is_base value url =
    url.is_https
    && is_empty url.username
    && is_empty url.password
    && not (has_unit b'?' value)
    && not (has_unit b'#' value)
    && is_empty url.search
    && is_empty url.hash
    && not (has_unit b'\\' value)
    && not (has_control_character value)
    && not (any is_dots (split_on b'/' value))

abbrev drop_slashes : Text → Text
drop_slashes [] = []
drop_slashes (c ∷ s) = if c == b'/' then drop_slashes s else c ∷ s

-- `.replace(/\/+$/, '')`
unfoldable pub without_slashes : Text → Text
without_slashes s = reverse (drop_slashes (reverse s))

abbrev pub base_of : Text → Option Url → Checked Text
base_of value none = fail not_configured
base_of value (some url) =
    if is_base value url then ok (without_slashes url.href) else fail not_configured

-- `list.map(f)`, where f may throw.
unfoldable pub each : (Text → Checked Text) → List Text → Checked (List Text)
each f [] = ok []
each f (s ∷ parts) = do here ← f s; later ← each f parts; ok (here ∷ later)

-- `config.leaseMs ?? 30_000`, and the same of `retryMs`.
abbrev pub interval : Option ℕ → ℕ
interval ms = or_default ms 30000

module _ (runtime : Runtime) (config : Config) where
  -- publicationCdnBase
  unfoldable pub cdn_base : Option Text → Checked Text
  unfolding is_raw_base is_base without_slashes
  cdn_base none = fail not_configured
  cdn_base (some value) =
      if is_raw_base value then base_of value (runtime.parse_url value) else fail not_configured

  -- The check of the intervals when the coordinator is created.
  abbrev is_interval : ℕ → Bool
  is_interval ms = leb 1 ms && leb ms 3600000

  unfoldable pub create : Checked Config
  create = do
    guard (is_interval (interval config.lease_ms) && is_interval (interval config.retry_ms))
        (publication invalid_descriptor)
    ok config

  -- `Object.hasOwn(config.modulePrefixes, name)`, and the prefix.
  abbrev pub module_prefix : Text → Option Text
  module_prefix name = lookup name config.module_prefixes

  unfoldable pub in_namespace : Binding → Bool
  unfolding lookup
  in_namespace binding =
      text_eq binding.environment config.environment && is_some (module_prefix binding.module_name)

  unfoldable pub authorized_binding : Binding → Checked Binding
  unfolding checked_binding in_namespace part lookup
  authorized_binding value = do
    binding ← checked_binding value
    guard (in_namespace binding) (publication namespace_denied)
    prefix ← part (or_default (module_prefix binding.module_name) [])
    ok binding

  unfoldable pub key_prefix : Checked Text
  unfolding each part split_on join
  key_prefix =
      if is_empty config.key_prefix
      then ok []
      else each part (split_on b'/' config.key_prefix) >>= λ parts. ok (join (lit "/") parts)

  unfoldable pub object_key : Text → Text → Text → Text → Binding → Source → Text
  unfolding join
  object_key prefix environment own_prefix scope binding source =
      let identity =
        runtime.publication_hash (runtime.identity_json binding.binding_id binding.generation) in
      let segments =
        prefix ∷ environment ∷ own_prefix ∷ lit "public" ∷ scope ∷ identity ∷ source.sha256 ∷ [] in
      join (lit "/") (keep (λ s. not (is_empty s)) segments)

  unfoldable pub target_at : Text → Text → Checked Target
  unfolding encode_component join each split_on
  target_at base key = do
    encoded ← each encode_component (split_on b'/' key)
    ok (record { key = key; url = base ++ lit "/" ++ join (lit "/") encoded; external = true })

  unfoldable pub target_for : Binding → Source → Checked Target
  unfolding in_namespace cdn_base key_prefix part encode_component lookup object_key target_at
  target_for binding source = do
    guard (config.is_external && in_namespace binding) (publication not_configured)
    base ← cdn_base config.cdn_base_url
    prefix ← key_prefix
    own_prefix ← part (or_default (module_prefix binding.module_name) [])
    environment ← part binding.environment
    scope ← encode_component binding.scope_id
    target_at base (object_key prefix environment own_prefix scope binding source)

  -- The descriptor's hash.
  unfoldable pub descriptor : Binding → Source → Target → Text
  descriptor binding source target =
      runtime.publication_hash (runtime.descriptor_json binding source target)

  unfoldable pub is_intent : Intent → Target → Text → Bool
  is_intent input target hash =
      text_eq input.target.key target.key
      && text_eq input.target.url target.url
      && input.target.external
      && leb input.created_at max_safe
      && text_eq input.descriptor_hash hash

  unfoldable pub verify : Intent → Checked Intent
  unfolding authorized_binding checked_source target_for is_intent descriptor part
  verify input = do
    binding ← authorized_binding input.binding
    source ← checked_source input.source
    target ← target_for binding source
    guard (is_intent input target (descriptor binding source target))
        (publication invalid_descriptor)
    id ← part input.id
    ok (record {
      id = id;
      binding = binding;
      source = source;
      target = target;
      descriptor_hash = input.descriptor_hash;
      created_at = input.created_at;
    })
