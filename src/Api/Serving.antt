-- ===== src/Api/Serving.antt =====
-- What a client of the routes of internal/api/handlers.go may count on.
use libvirt_volume_provision.Base.{
  ◌∷◌, ◌+◌, [], ◌≡◌, ◌≢◌, ◌⊎◌, inl, inr, refl, true, false, some, none, arith, Option, Option-cases,
  ap, Bool, ℕ, if◌then◌else◌,
}
use libvirt_volume_provision.Text.{Text, text_eq, codes}
use libvirt_volume_provision.Text.Laws.{text_eq_of_eq}
use libvirt_volume_provision.Act.{Result, ok, err, panicked}
use libvirt_volume_provision.Types.{ProvisionRequest, ErrorResponse}
use libvirt_volume_provision.Auth.{Validator, Credentials, unauthorized, middleware}
use libvirt_volume_provision.Auth.Access.{Admits, middleware_iff}
use libvirt_volume_provision.Api.{
  JobManager, Server, Response, Route, error_body, respond, guarded, is_guarded, handle, serve,
  provision_volume, Metrics, noted, with_metrics, is_crash,
}

pub not_empty : (t : Text) → t ≢ [] → text_eq t [] ≡ false
unfolding text_eq
not_empty [] h = absurd (h refl)
not_empty (c ∷ t) h = refl

refusal_lem :
    (v : Validator) (c : Credentials) (e : ErrorResponse)
    → middleware v c ≡ some e
    → e ≡ unauthorized
unfolding middleware
refusal_lem v c e h = ground arith

module _ {S : Type 0} (jobs : JobManager S) (version : Text) (v : Validator) where
  -- A request for a route of the API that presents no valid token, and whose context holds no
  -- connection with a peer certificate, is answered with status 401, and the server stays as it was,
  -- but for the count of the request.
  pub serve_refused :
      (route : Route) (c : Credentials) (body : Result ProvisionRequest) (s : Server S)
      → is_guarded route ≡ true
      → ¬ Admits v c
      → serve jobs version v route c body s
        ≡ (respond 401 (error_body unauthorized), noted route 401 s)
  unfolding serve middleware with_metrics
  serve_refused route c body s g refused = kept (Option-cases (middleware v c))
    where
      kept :
          (middleware v c ≡ none) ⊎ ((e : ErrorResponse) × (middleware v c ≡ some e))
          → serve jobs version v route c body s
            ≡ (respond 401 (error_body unauthorized), noted route 401 s)
      kept (inl e) = absurd (refused ((middleware_iff v c).0 e))
      kept (inr (e, h)) =
          rw (g, h)
            (ap (λ (x : ErrorResponse). (respond 401 (error_body x), noted route 401 s))
              (refusal_lem v c e h))

  -- A request that the middleware lets through reaches its handler.
  pub serve_admitted :
      (route : Route) (c : Credentials) (body : Result ProvisionRequest) (s : Server S)
      → Admits v c
      → serve jobs version v route c body s
        ≡ with_metrics route (handle jobs version v route body s)
  unfolding serve
  serve_admitted route c body s ad = rw ((middleware_iff v c).1 ad) (either_way (is_guarded route))
    where
      either_way :
          (b : Bool)
          → with_metrics route
              (if b then handle jobs version v route body s else handle jobs version v route body s)
            ≡ with_metrics route (handle jobs version v route body s)
      either_way true = refl
      either_way false = refl

  -- The request is counted, with the status of its reply.
  abbrev pub IsCounted : ℕ → Metrics → Metrics → Type 0
  IsCounted code before m =
      m.requests ≡ (codes "POST", codes "/api/v1/provision", code) ∷ before.requests

  -- The reply to a provision request and the server after it, by what the job manager returned: 202
  -- and one more started job, or 500 and one more failed job.
  abbrev pub Replied : Result Text × S → Metrics → Response × Server S → Type 0
  Replied (ok id, m) before t =
      (t.0.status ≡ 202)
      × (t.1.manager ≡ m)
      × (t.1.metrics.started ≡ before.started + 1)
      × (t.1.metrics.failed ≡ before.failed)
      × IsCounted 202 before t.1.metrics
  Replied (err e, m) before t =
      (t.0.status ≡ 500)
      × (t.1.manager ≡ m)
      × (t.1.metrics.failed ≡ before.failed + 1)
      × (t.1.metrics.started ≡ before.started)
      × IsCounted 500 before t.1.metrics
  Replied (panicked, m) before t = (t.0.status ≡ 500) × (t.1.manager ≡ m) × (t.1.metrics ≡ before)

  -- What a reply that starts nothing leaves alone.
  abbrev pub StartsNothing : Server S → Response × Server S → Type 0
  StartsNothing s t =
      (t.0.status ≢ 202)
      × (t.1.manager ≡ s.manager)
      × (t.1.metrics.started ≡ s.metrics.started)
      × (t.1.metrics.failed ≡ s.metrics.failed)

  -- A provision request that cannot be bound, or names no image URL or no volume, is answered with a
  -- status other than 202, and leaves the job manager and the counters of jobs as they were.
  pub serve_provision_invalid :
      (c : Credentials) (body : Result ProvisionRequest) (s : Server S)
      → ((req : ProvisionRequest) → body ≡ ok req → (req.image_url ≡ []) ⊎ (req.volume_name ≡ []))
      → StartsNothing s (serve jobs version v Route.provision c body s)
  unfolding serve handle provision_volume with_metrics
  serve_provision_invalid c body s h = through (middleware v c) (unstarted body refl)
    where
      missing : Result ProvisionRequest → Response × Server S
      missing b = provision_volume jobs version b s

      counted :
          (r : Response × Server S)
          → (r.0.status ≢ 202) × (r.1 ≡ s)
          → StartsNothing s (with_metrics Route.provision r)
      counted (r, t) (other, same) = by_body (is_crash r.body)
        where
          by_body :
              (b : Bool) → StartsNothing s (r, if b then t else noted Route.provision r.status t)
          by_body true = (
            other,
            ap (λ (x : Server S). x.manager) same,
            ap (λ (x : Server S). x.metrics.started) same,
            ap (λ (x : Server S). x.metrics.failed) same,
          )
          by_body false = (
            other,
            ap (λ (x : Server S). x.manager) same,
            ap (λ (x : Server S). x.metrics.started) same,
            ap (λ (x : Server S). x.metrics.failed) same,
          )

      unstarted :
          (b : Result ProvisionRequest)
          → body ≡ b
          → ((missing b).0.status ≢ 202) × ((missing b).1 ≡ s)
      unstarted (err e) eb = ground arith
      unstarted panicked eb = ground arith
      unstarted (ok req) eb = elim (h req eb) [
        | inl e ↦ ground (arith, text_eq_of_eq req.image_url [] e)
        | inr e ↦ ground (arith, text_eq_of_eq req.volume_name [] e)
      ]

      through :
          (o : Option ErrorResponse)
          → ((missing body).0.status ≢ 202) × ((missing body).1 ≡ s)
          → StartsNothing s (with_metrics Route.provision (guarded o (missing body) s))
      through none h' = counted (missing body) h'
      through (some e) h' = ((λ q. omega arith), refl, refl, refl)
