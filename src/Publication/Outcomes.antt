-- ===== src/Publication/Outcomes.antt =====
-- What the answers of `stage`, `project` and `run` say
-- (features/uploaded-file/publication/coordinator.ts).
use sdcorejs_nestjs.Base.{
  ◌≡◌, refl, ◌∙◌, ap, subst, Bool, true, false, Option, none, some, Text, text_eq_sound, ok, err,
  arith, Bool-cases, Result-cases, inl, inr,
}
use sdcorejs_nestjs.Publication.Intent.{Checked, Binding, Intent}
use sdcorejs_nestjs.Publication.Target.{Runtime, Config, authorized_binding, verify}
use sdcorejs_nestjs.Publication.Ports.{
  Ports, Row, State, pending, uncertain, ready, retiring, retired, blocked, unrecognised,
}
use sdcorejs_nestjs.Publication.Entry.{
  Step, continue, ◌>>=◌, Projection, is_ready, shows, project_row, project_verified, url_when,
  project, lift,
}
use sdcorejs_nestjs.Publication.Verified.{IsVerified, verify-IsVerified, authorized_binding-same}

module _ {W A B : Type 0} where
  continue-ok :
      (r : Checked A) (f : A → Step W B) (v w : W) (b : B)
      → continue r f v ≡ (ok b, w)
      → (a : A) × (r ≡ ok a) × (f a v ≡ (ok b, w))
  continue-ok (ok a) f v w b h = (a, refl, h)
  continue-ok (err e) f v w b h = cc

  -- A chain that succeeds has succeeded at each step.
  pub >>=-ok :
      (m : Step W A) (f : A → Step W B) (v w : W) (b : B)
      → (m >>= f) v ≡ (ok b, w)
      → (a : A) × ((m v).0 ≡ ok a) × (f a (m v).1 ≡ (ok b, w))
  >>=-ok m f v w b h = continue-ok (m v).0 f (m v).1 w b h

is_ready-ready : (s : State) → is_ready s ≡ true → s ≡ ready
unfolding is_ready
is_ready-ready pending h = cc
is_ready-ready uncertain h = cc
is_ready-ready ready h = refl
is_ready-ready retiring h = cc
is_ready-ready retired h = cc
is_ready-ready blocked h = cc
is_ready-ready unrecognised h = cc

module _ {W : Type 0} (ports : Ports W) (runtime : Runtime) (config : Config) where
  -- The row that the repository answers is ready, and its verified intent is the binding's.
  pub record IsShown (b : Binding) (u : Text) (row : Row) : Type 0 where
    pub is_ready_now : row.state ≡ ready
    pub verified : IsVerified runtime config row.intent
    pub target_url : u ≡ row.intent.target.url
    pub same_binding : runtime.binding_json row.intent.binding ≡ runtime.binding_json b

  url_when-some :
      (c : Bool) (intent : Intent) (u : Text)
      → url_when ports runtime config c intent ≡ some u
      → (c ≡ true) × (u ≡ intent.target.url)
  url_when-some true intent u h = (refl, cc)
  url_when-some false intent u h = cc

  project_verified-IsShown :
      (b : Binding) (row : Row) (p : Projection) (u : Text)
      → IsVerified runtime config row.intent
      → project_verified ports runtime config b row.state (ok row.intent) ≡ ok p
      → p.url ≡ some u
      → IsShown b u row
  unfolding project_verified shows
  project_verified-IsShown b row p u verified h hu =
      elim (Bool-cases (shows ports runtime config b row.intent row.state)) [
        | inr hidden ↦ cc (rw hidden at h)
        | inl shown ↦
            let url : url_when ports runtime config (is_ready row.state) row.intent ≡ p.url =
              cc (rw shown at h) in
            let (now, target) = url_when-some (is_ready row.state) row.intent u (url ∙ hu) in
            record {
              is_ready_now = is_ready-ready row.state now;
              verified = verified;
              target_url = target;
              same_binding = ground (
                arith,
                text_eq_sound (runtime.binding_json row.intent.binding) (runtime.binding_json b),
              );
            }
      ]

  project_row-IsShown :
      (b : Binding) (row : Row) (p : Projection) (u : Text)
      → project_row ports runtime config b (some row) ≡ ok p
      → p.url ≡ some u
      → IsShown b u row
  unfolding project_row
  project_row-IsShown b row p u h hu = elim (Result-cases (verify runtime config row.intent)) [
    | inr (e, bad) ↦ unfold project_verified in cc (rw bad at h)
    | inl (intent, good) ↦
        let (same, verified) = verify-IsVerified runtime config row.intent intent good in
        project_verified-IsShown b row p u verified (rw (good, same) at h) hu
  ]

  abbrev pub Shown : Binding → W → Text → Type 0
  Shown b w u =
      (authorized_binding runtime config b ≡ ok b)
      × ((row : Row) × ((ports.read_current b w).0 ≡ ok (some row)) × IsShown b u row)

  project_answer-Shown :
      (b : Binding) (w : W) (p : Projection) (u : Text) (answer : Option Row)
      → (ports.read_current b w).0 ≡ ok answer
      → project_row ports runtime config b answer ≡ ok p
      → p.url ≡ some u
      → (row : Row) × ((ports.read_current b w).0 ≡ ok (some row)) × IsShown b u row
  unfolding project_row
  project_answer-Shown b w p u none read h hu = cc
  project_answer-Shown b w p u (some row) read h hu =
      (row, read, project_row-IsShown b row p u h hu)

  -- A projection with a URL: the configuration authorizes the binding itself, the repository answered a row of it that is
  -- ready, its intent is verified, and the URL is that intent's target.
  pub project-IsShown :
      (given : Binding) (w w' : W) (p : Projection) (u : Text)
      → project ports runtime config given w ≡ (ok p, w')
      → p.url ≡ some u
      → Shown given w u
  unfolding project
  project-IsShown given w w' p u h hu =
      let (b, hb, h1) = >>=-ok (lift (authorized_binding runtime config given)) _ w w' p h in
      let same = authorized_binding-same runtime config given b hb in
      let (answer, read, h2) = >>=-ok (ports.read_current b) _ w w' p h1 in
      let found : project_row ports runtime config b answer ≡ ok p = λ i. (h2 i).0 in
      let allowed : authorized_binding runtime config b ≡ ok b =
        ap (authorized_binding runtime config) same ∙ hb in
      subst (λ g. Shown g w u) same (allowed, project_answer-Shown b w p u answer read found hu)
