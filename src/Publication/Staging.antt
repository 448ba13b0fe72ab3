-- ===== src/Publication/Staging.antt =====
-- What the answers of `stage` and the errors of `run` say
-- (features/uploaded-file/publication/coordinator.ts).
use sdcorejs_nestjs.Base.{
  ◌≢◌, arith, text_eq_iff, ◌≡◌, sym, ◌∙◌, ap, subst, Text, text_eq, text_eq_sound, ok, Bool-cases,
  inl, inr,
}
use sdcorejs_nestjs.Publication.Intent.{Binding, Source, Target, Intent, checked_source}
use sdcorejs_nestjs.Publication.Target.{
  Runtime, Config, authorized_binding, target_for, descriptor, verify,
}
use sdcorejs_nestjs.Publication.Ports.{Ports, Resolved, private_file, public_file, neither}
use sdcorejs_nestjs.Publication.Entry.{
  made_public, aim, draft, send, store, compare, binding_of, same_descriptor, stage_public,
  stage_resolved, stage, new_intent, lift,
}
use sdcorejs_nestjs.Publication.Verified.{
  IsVerified, verify-IsVerified, authorized_binding-same, checked_source-same,
}
use sdcorejs_nestjs.Publication.Outcomes.{>>=-ok}

-- What hashes the same: one descriptor's JSON text, or two texts that make a collision.
pub data SameDescriptor (runtime : Runtime) (sent kept : Text) : Type 0 where
  same_text : sent ≡ kept → SameDescriptor runtime sent kept
  collision :
      sent ≢ kept
      → runtime.publication_hash sent ≡ runtime.publication_hash kept
      → SameDescriptor runtime sent kept

-- The JSON text of an intent's binding, source and target.
abbrev pub text_of : Runtime → Intent → Text
text_of runtime i = runtime.descriptor_json i.binding i.source i.target

module _ {W : Type 0} (ports : Ports W) (runtime : Runtime) (config : Config) where
  same_hash-SameDescriptor :
      (sent kept : Intent)
      → IsVerified runtime config sent
      → IsVerified runtime config kept
      → kept.descriptor_hash ≡ sent.descriptor_hash
      → SameDescriptor runtime (text_of runtime sent) (text_of runtime kept)
  unfolding descriptor
  same_hash-SameDescriptor sent kept v w same =
      elim (Bool-cases (text_eq (text_of runtime sent) (text_of runtime kept))) [
        | inl equal ↦ same_text (text_eq_sound _ _ equal)
        | inr other ↦
            collision
              (λ e. absurd (
                ground
                  (arith, text_eq_iff (text_of runtime sent) (text_of runtime kept), e, other)))
              (sym v.hashed ∙ sym same ∙ w.hashed)
      ]

  -- A verified intent of the binding and the source was sent, and the repository answered a verified
  -- one under the identifier, with the descriptor that was sent.
  pub record IsStored (id : Text) (b : Binding) (s : Source) : Type 0 where
    pub before : W
    pub intent : Intent
    pub stored : Intent
    pub verified : IsVerified runtime config intent
    pub of_binding : intent.binding ≡ b
    pub of_source : intent.source ≡ s
    pub answered : (ports.stage intent before).0 ≡ ok stored
    pub stored_verified : IsVerified runtime config stored
    pub same_hash : stored.descriptor_hash ≡ intent.descriptor_hash
    pub same_descriptor : SameDescriptor runtime (text_of runtime intent) (text_of runtime stored)
    pub named : id ≡ stored.id

  same_descriptor-made :
      (intent stored : Intent) (v w : W) (id : Text)
      → same_descriptor ports runtime config intent stored v ≡ (ok (made_public id), w)
      → (stored.descriptor_hash ≡ intent.descriptor_hash) × (id ≡ stored.id)
  unfolding same_descriptor
  same_descriptor-made intent stored v w id h =
      elim (Bool-cases (text_eq stored.descriptor_hash intent.descriptor_hash)) [
        | inl same ↦ (text_eq_sound _ _ same, cc (rw same at h))
        | inr other ↦ cc (rw other at h)
      ]

  new_intent-fields :
      (b : Binding) (s : Source) (t : Target) (v : W) (drafted : Intent)
      → (new_intent ports runtime config b s t v).0 ≡ ok drafted
      → (drafted.binding ≡ b) × (drafted.source ≡ s)
  new_intent-fields b s t v drafted h = (cc, cc)

  send-IsStored :
      (b : Binding) (given s : Source) (t : Target) (drafted : Intent) (v before w : W) (id : Text)
      → s ≡ given
      → (new_intent ports runtime config b s t v).0 ≡ ok drafted
      → send ports runtime config drafted before ≡ (ok (made_public id), w)
      → IsStored id b given
  unfolding send store compare
  send-IsStored b given s t drafted v before w id same_source hd h =
      let (intent, hi, h1) =
        >>=-ok (lift (verify runtime config drafted)) (store ports runtime config) before w
          (made_public id) h in
      let (answer, ha, h2) =
        >>=-ok (ports.stage intent) (compare ports runtime config intent) before w (made_public id)
          h1 in
      let after = (ports.stage intent before).1 in
      let (stored, hv, h3) =
        >>=-ok (lift (verify runtime config answer)) (same_descriptor ports runtime config intent)
          after w (made_public id) h2 in
      let (same_intent, verified) = verify-IsVerified runtime config drafted intent hi in
      let (same_stored, stored_verified) = verify-IsVerified runtime config answer stored hv in
      let (same_hash, named) = same_descriptor-made intent stored after w id h3 in
      let (of_binding, of_source) = new_intent-fields b s t v drafted hd in
      record {
        before = before;
        intent = intent;
        stored = stored;
        verified = subst (IsVerified runtime config) (sym same_intent) verified;
        of_binding = ap (λ (x : Intent). x.binding) same_intent ∙ of_binding;
        of_source = ap (λ (x : Intent). x.source) same_intent ∙ of_source ∙ same_source;
        answered = ha ∙ ap ok (sym same_stored);
        stored_verified = subst (IsVerified runtime config) (sym same_stored) stored_verified;
        same_hash = same_hash;
        same_descriptor =
            same_hash-SameDescriptor intent stored
              (subst (IsVerified runtime config) (sym same_intent) verified)
              (subst (IsVerified runtime config) (sym same_stored) stored_verified) same_hash;
        named = named;
      }

  stage_public-IsStored :
      (b : Binding) (given : Source) (v w : W) (id : Text)
      → stage_public ports runtime config b given v ≡ (ok (made_public id), w)
      → IsStored id b given
  unfolding stage_public
  stage_public-IsStored b given v w id h =
      let (s, hs, h1) =
        >>=-ok (lift (checked_source given)) (aim ports runtime config b) v w (made_public id) h in
      let (t, ht, h2) =
        >>=-ok (lift (target_for runtime config b s)) (draft ports runtime config b s) v w
          (made_public id) h1 in
      let (drafted, hd, h3) =
        >>=-ok (new_intent ports runtime config b s t) (send ports runtime config) v w
          (made_public id) h2 in
      send-IsStored b given s t drafted v (new_intent ports runtime config b s t v).1 w id
        (checked_source-same given s hs) hd h3

  staged-IsStored :
      (r : Resolved) (b : Binding) (v w : W) (id : Text)
      → b ≡ binding_of r
      → stage_resolved ports runtime config r b v ≡ (ok (made_public id), w)
      → (s : Source) × (r ≡ public_file b s) × IsStored id b s
  unfolding stage_resolved
  staged-IsStored (neither c) b v w id e h = cc
  staged-IsStored (private_file c) b v w id e h =
      let (u, hu, h1) =
        >>=-ok (ports.retire_logical b.environment b.module_name b.scope_id b.binding_id) _ v w
          (made_public id) h in
      cc
  staged-IsStored (public_file c s) b v w id e h =
      (s, ap (λ x. public_file x s) (sym e), stage_public-IsStored b s v w id h)

  -- Only an assignment that the policy resolved as public is staged as public, and then a verified
  -- intent of exactly that binding and source was sent, and the repository answered one that is
  -- verified itself and has the answered identifier, a retry's first one included. The JSON text of
  -- the binding, the source and the target of what was answered is that of what was sent, unless the
  -- two texts differ and are a collision of the hash.
  pub stage-IsStored :
      (w w' : W) (id : Text)
      → stage ports runtime config w ≡ (ok (made_public id), w')
      → (b : Binding) × ((s : Source) × ((ports.resolve w).0 ≡ ok (public_file b s))
          × IsStored id b s)
  unfolding stage
  stage-IsStored w w' id h =
      let (r, hr, h1) = >>=-ok ports.resolve _ w w' (made_public id) h in
      let v = (ports.resolve w).1 in
      let (b, hb, h2) =
        >>=-ok (lift (authorized_binding runtime config (binding_of r)))
          (stage_resolved ports runtime config r) v w' (made_public id) h1 in
      let same = authorized_binding-same runtime config (binding_of r) b hb in
      let (s, public, stored) = staged-IsStored r b v w' id same h2 in
      (b, (s, hr ∙ ap ok public, stored))
