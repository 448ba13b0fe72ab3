-- ===== src/Publication/Verified.antt =====
-- What the checks of features/uploaded-file/publication/coordinator.ts establish of an intent.
use sdcorejs_nestjs.Base.{
  ◌≡◌, sym, ◌∙◌, true, [], Text, text_eq_sound, ok, arith, >>=-eq-ok, guard-ok, guard, ◌&&◌,
  or_default, split_on, Bool-cases, inl, inr,
}
use sdcorejs_nestjs.Publication.Intent.{
  publication, invalid_descriptor, namespace_denied, not_configured, encode_component, Binding,
  Source, Target, Intent, is_part, part, checked_binding, is_source, checked_source,
}
use sdcorejs_nestjs.Publication.Target.{
  module_prefix, each, object_key, target_at, cdn_base, key_prefix, Runtime, Config, in_namespace,
  authorized_binding, target_for, descriptor, is_intent, verify,
}

part-same : (v u : Text) → part v ≡ ok u → u ≡ v
unfolding part
part-same v u h = elim (Bool-cases (is_part v)) [
  | inl fine ↦ cc (rw fine at h)
  | inr bad ↦ cc (rw bad at h)
]

checked_binding-same : (v b : Binding) → checked_binding v ≡ ok b → b ≡ v
unfolding checked_binding
checked_binding-same v b h =
    let (e, he, h1) = >>=-eq-ok (part v.environment) _ h in
    let (m, hm, h2) = >>=-eq-ok (part v.module_name) _ h1 in
    let (s, hs, h3) = >>=-eq-ok (part v.scope_id) _ h2 in
    let (i, hi, h4) = >>=-eq-ok (part v.binding_id) _ h3 in
    let (g, hg, h5) = >>=-eq-ok (part v.generation) _ h4 in
    ground (
      arith,
      part-same v.environment e he,
      part-same v.module_name m hm,
      part-same v.scope_id s hs,
      part-same v.binding_id i hi,
      part-same v.generation g hg,
    )

pub checked_source-same : (v s : Source) → checked_source v ≡ ok s → s ≡ v
unfolding checked_source
checked_source-same v s h =
    let (u, hu, h1) = >>=-eq-ok (guard (is_source v) (publication invalid_descriptor)) _ h in
    let (i, hi, h2) = >>=-eq-ok (part v.id) _ h1 in
    let (r, hr, h3) = >>=-eq-ok (part v.version) _ h2 in
    ground (arith, part-same v.id i hi, part-same v.version r hr)

module _ (runtime : Runtime) (config : Config) where
  pub authorized_binding-same : (v b : Binding) → authorized_binding runtime config v ≡ ok b → b ≡ v
  unfolding authorized_binding
  authorized_binding-same v b h =
      let (c, hc, h1) = >>=-eq-ok (checked_binding v) _ h in
      let (u, hu, h2) =
        >>=-eq-ok (guard (in_namespace runtime config c) (publication namespace_denied)) _ h1 in
      let (p, hp, h3) =
        >>=-eq-ok (part (or_default (module_prefix runtime config c.module_name) [])) _ h2 in
      let same = checked_binding-same v c hc in let last : c ≡ b = cc in sym last ∙ same

  target_at-external :
      (base key : Text) (t : Target) → target_at runtime config base key ≡ ok t → t.external ≡ true
  unfolding target_at
  target_at-external base key t h =
      let (encoded, hx, h1) = >>=-eq-ok (each encode_component (split_on b'/' key)) _ h in cc

  target_for-external :
      (b : Binding) (s : Source) (t : Target)
      → target_for runtime config b s ≡ ok t
      → t.external ≡ true
  unfolding target_for
  target_for-external b s t h =
      let (u, hu, h1) =
        >>=-eq-ok
          (guard (config.is_external && in_namespace runtime config b) (publication not_configured))
          _ h in
      let (base, hb, h2) = >>=-eq-ok (cdn_base runtime config config.cdn_base_url) _ h1 in
      let (prefix, hp, h3) = >>=-eq-ok (key_prefix runtime config) _ h2 in
      let (own, ho, h4) =
        >>=-eq-ok (part (or_default (module_prefix runtime config b.module_name) [])) _ h3 in
      let (environment, he, h5) = >>=-eq-ok (part b.environment) _ h4 in
      let (scope, hs, h6) = >>=-eq-ok (encode_component b.scope_id) _ h5 in
      target_at-external base (object_key runtime config prefix environment own scope b s) t h6

  -- What `verify` has checked of an intent.
  pub record IsVerified (input : Intent) : Type 0 where
    pub authorized : authorized_binding runtime config input.binding ≡ ok input.binding
    pub sound : checked_source input.source ≡ ok input.source
    pub targeted : target_for runtime config input.binding input.source ≡ ok input.target
    pub hashed :
        input.descriptor_hash ≡ descriptor runtime config input.binding input.source input.target
    pub named : part input.id ≡ ok input.id

  is_intent-same :
      (input : Intent) (t : Target) (hash : Text)
      → is_intent runtime config input t hash ≡ true
      → t.external ≡ true
      → (t ≡ input.target) × (input.descriptor_hash ≡ hash)
  unfolding is_intent
  is_intent-same input t hash h e =
      let key = text_eq_sound input.target.key t.key in
      let url = text_eq_sound input.target.url t.url in
      let keys : t.key ≡ input.target.key = ground (arith, key) in
      let urls : t.url ≡ input.target.url = ground (arith, url) in
      let externals : t.external ≡ input.target.external = ground arith in
      (
        λ i. record { key = keys i; url = urls i; external = externals i },
        ground (arith, text_eq_sound input.descriptor_hash hash),
      )

  checks-IsVerified :
      (input intent : Intent) (b : Binding) (s : Source) (t : Target) (i : Text)
      → authorized_binding runtime config input.binding ≡ ok b
      → checked_source input.source ≡ ok s
      → target_for runtime config b s ≡ ok t
      → is_intent runtime config input t (descriptor runtime config b s t) ≡ true
      → part input.id ≡ ok i
      → record input { id = i; binding = b; source = s; target = t } ≡ intent
      → (intent ≡ input) × IsVerified input
  checks-IsVerified input intent b s t i hb hs ht fine hi last =
      let same_b = authorized_binding-same input.binding b hb in
      let same_s = checked_source-same input.source s hs in
      let same_i = part-same input.id i hi in
      let (same_t, hashed) =
        is_intent-same input t (descriptor runtime config b s t) fine
          (target_for-external b s t ht) in
      (
        sym last ∙ (λ k. record input {
          id = same_i k;
          binding = same_b k;
          source = same_s k;
          target = same_t k;
        }),
        record { authorized = cc; sound = cc; targeted = cc; hashed = cc; named = cc },
      )

  -- An intent that is verified is returned as it is. Its binding is authorized, its source sound, its
  -- target is the one that the configuration gives that binding and source, and its hash is that of
  -- the three together: no stored field can redirect a rendition.
  pub verify-IsVerified :
      (input intent : Intent)
      → verify runtime config input ≡ ok intent
      → (intent ≡ input) × IsVerified input
  unfolding verify
  verify-IsVerified input intent h =
      let (b, hb, h1) = >>=-eq-ok (authorized_binding runtime config input.binding) _ h in
      let (s, hs, h2) = >>=-eq-ok (checked_source input.source) _ h1 in
      let (t, ht, h3) = >>=-eq-ok (target_for runtime config b s) _ h2 in
      let (u, hu, h4) =
        >>=-eq-ok
          (guard (is_intent runtime config input t (descriptor runtime config b s t))
            (publication invalid_descriptor))
          _ h3 in
      let (i, hi, h5) = >>=-eq-ok (part input.id) _ h4 in
      checks-IsVerified input intent b s t i hb hs ht (guard-ok _ _ u hu) hi cc
