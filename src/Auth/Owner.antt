-- ===== src/Auth/Owner.antt =====
-- Whose permissions the guard of auth/permission/auth.guard.ts decides with, and whose identity wins.
use sdcorejs_nestjs.Base.{
  [], lookup, ◌≡◌, refl, sym, ◌∙◌, ap, subst, true, false, Option, none, some, List, Text,
  text_eq_sound, is_some, or_default, ok, err, Bool-cases, Option-cases, Result-cases, inl, inr,
}
use sdcorejs_nestjs.Context.Identity.{Checked, Claims, Identity, or_else, normalize_identity}
use sdcorejs_nestjs.Context.Complete.{normalize_identity-IsComplete}
use sdcorejs_nestjs.Context.Store.{Principal, Store}
use sdcorejs_nestjs.Auth.Agreement.{IsConsistent, has_conflict-IsConsistent}
use sdcorejs_nestjs.Auth.Recorded.{
  CustomWins, IsRecorded, merged_custom-CustomWins, with_identity-IsRecorded,
}
use sdcorejs_nestjs.Auth.Guard.{
  Request, Session, Strategy, or_invalid, normalized, verified_identity, resolved_by, conflicts,
  no_identity, is_for, merge_identity, keep_permissions, adopt, accept, recall, trusted_of,
  sync_verified_identity,
}

is_for_sound : (a b : Option Text) → is_for a b ≡ true → a ≡ b
is_for_sound none none h = refl
is_for_sound (some s) (some t) h = ap some (text_eq_sound s t h)
is_for_sound none (some t) h = cc
is_for_sound (some s) none h = cc

-- Permissions that are kept on the request are the user's.
pub record IsOwned (user : Option Text) (r : Request) : Type 0 where
  pub owner : (codes : List Text) → r.permissions ≡ some codes → r.resolved_for ≡ user

keep_permissions-IsOwned : (i : Identity) (r : Request) → IsOwned i.user_id (keep_permissions i r)
unfolding keep_permissions
keep_permissions-IsOwned i r = elim (Option-cases i.permissions) [
  | inr (codes, given) ↦ rw given (record { owner = λ c h. refl })
  | inl missing ↦ elim (Bool-cases (is_for r.resolved_for i.user_id)) [
    | inl same ↦
        rw (missing, same) (record { owner = λ c h. is_for_sound r.resolved_for i.user_id same })
    | inr other ↦ rw (missing, other) (record { owner = λ c h. cc })
  ]
]

-- A value of the verified identity wins over the gateway's.
abbrev Wins : {A : Type 0} → Option A → Option A → Type 0
Wins {A} verified merged = (a : A) → verified ≡ some a → merged ≡ some a

or_else-Wins : {A : Type 0} (v t : Option A) → Wins v (or_else v t)
or_else-Wins (some b) t a h = h
or_else-Wins none t a h = cc

-- What the guard has established of the identity that it answers.
pub record IsVerified (verified : Identity) (trusted : Option Identity) (i : Identity) (s : Session)
    : Type 0 where
  pub user : i.user_id ≡ verified.user_id
  pub tenant : Wins verified.tenant i.tenant
  pub roles : Wins verified.roles i.roles
  pub permissions : Wins verified.permissions i.permissions
  pub permission_version : Wins verified.permission_version i.permission_version
  pub custom : CustomWins verified.custom i.custom
  pub recorded : (t : Store) → s.store ≡ some t → IsRecorded i t
  pub consistent : (t : Identity) → trusted ≡ some t → IsConsistent t verified
  pub owned : IsOwned verified.user_id s.request

conflicts-none :
    (trusted : Option Identity) (verified t : Identity)
    → conflicts trusted verified ≡ false
    → trusted ≡ some t
    → IsConsistent t verified
conflicts-none none verified t h e = cc
conflicts-none (some u) verified t h e =
    let same : u ≡ t = cc in
    subst (λ x. IsConsistent x verified) same (has_conflict-IsConsistent u verified h)

accept-IsVerified :
    (verified i : Identity) (s s' : Session)
    → accept verified s ≡ (ok i, s')
    → IsVerified verified s.request.trusted i s'
unfolding accept merge_identity
accept-IsVerified verified i s s' h = elim (Bool-cases (conflicts s.request.trusted verified)) [
  | inl clash ↦ cc (rw clash at h)
  | inr fine ↦
      let m = merge_identity s.request s.request.trusted verified in
      let done : adopt m s ≡ (ok i, s') = rw fine at h in
      let same : m ≡ i = cc in
      let kept : keep_permissions m s.request ≡ s'.request = λ k. (done k).1.request in
      let trusted = or_default s.request.trusted no_identity in
      record {
        user = λ k. (sym same k).user_id;
        tenant = λ a e.
            ap (λ (x : Identity). x.tenant) (sym same)
            ∙ or_else-Wins verified.tenant trusted.tenant a e;
        roles = λ a e.
            ap (λ (x : Identity). x.roles) (sym same)
            ∙ or_else-Wins verified.roles trusted.roles a e;
        permissions = λ a e.
            ap (λ (x : Identity). x.permissions) (sym same)
            ∙ or_else-Wins verified.permissions _ a e;
        permission_version = λ a e.
            ap (λ (x : Identity). x.permission_version) (sym same)
            ∙ or_else-Wins verified.permission_version trusted.permission_version a e;
        custom = λ values k d e f.
            ap (λ (x : Identity). lookup k (or_default x.custom [])) (sym same)
            ∙ merged_custom-CustomWins trusted.custom verified.custom values k d e f;
        recorded = λ t e.
            subst (λ x. IsRecorded x t) same
              (with_identity-IsRecorded m s.request.user s.store t ((λ k. (done k).1.store) ∙ e));
        consistent = λ t e. conflicts-none s.request.trusted verified t fine e;
        owned = subst (IsOwned verified.user_id) kept (keep_permissions-IsOwned m s.request);
      }
]

normalized-named :
    (c : Checked (Option Claims)) (i : Identity) → normalized c ≡ ok i → is_some i.user_id ≡ true
normalized-named (err e) i h = cc
normalized-named (ok none) i h = unfold normalize_identity in cc
normalized-named (ok (some claims)) i h =
    (normalize_identity-IsComplete claims true i h).user_required.present refl

or_invalid-ok : (c : Checked Identity) (i : Identity) → or_invalid c ≡ ok i → c ≡ ok i
or_invalid-ok (err e) i h = cc
or_invalid-ok (ok j) i h = cc

verified_identity-named :
    (strategy : Strategy) (user : Option Principal) (i : Identity)
    → verified_identity strategy user ≡ ok i
    → is_some i.user_id ≡ true
unfolding verified_identity
verified_identity-named strategy none i h = cc
verified_identity-named strategy (some p) i h =
    normalized-named (resolved_by strategy.principal_resolver p) i (or_invalid-ok _ i h)

-- The principal was mapped to an identity with a user, and the guard's answer is of that identity.
pub record IsSynced (strategy : Strategy) (s : Session) (i : Identity) (s' : Session) : Type 0 where
  pub verified : Identity
  pub mapped : verified_identity strategy s.request.user ≡ ok verified
  pub named : is_some verified.user_id ≡ true
  pub established : IsVerified verified (trusted_of s.store s.request.trusted) i s'

-- Whenever the guard accepts a request, the principal mapped to an identity with a user, and every
-- value of it, each custom value included, is that of the merged identity, whatever the trusted
-- gateway gave. The gateway's identity does not conflict with it: the user, tenant and version are
-- equal wherever both give one, roles and permissions hold the same strings, and custom values of one
-- key are the same JSON value. The permissions that stay on the request are
-- marked as that user's, and the store of the context, if there is one, then holds the merged identity
-- as that of a verified principal.
pub sync_verified_identity-IsSynced :
    (strategy : Strategy) (s s' : Session) (i : Identity)
    → sync_verified_identity strategy s ≡ (ok i, s')
    → IsSynced strategy s i s'
unfolding sync_verified_identity
sync_verified_identity-IsSynced strategy s s' i h =
    elim (Result-cases (verified_identity strategy s.request.user)) [
      | inr (e, bad) ↦ cc (rw bad at h)
      | inl (verified, good) ↦ record {
        verified = verified;
        mapped = good;
        named = verified_identity-named strategy s.request.user verified good;
        established = accept-IsVerified verified i (recall s) s' (rw good at h);
      }
    ]
