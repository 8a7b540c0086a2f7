-- ===== src/Examples/Api.antt =====
-- The middleware and the handlers on concrete requests.
use libvirt_volume_provision.Base.{
  ℕ, suc, [], ◌∷◌, ◌≡◌, ◌↔◌, inl, refl, false, none, some, pos, arith,
}
use libvirt_volume_provision.Text.{Text, codes, text_eq}
use libvirt_volume_provision.Act.{ok, err}
use libvirt_volume_provision.Types.{ProvisionRequest}
use libvirt_volume_provision.Auth.{Validator, Credentials, middleware, unauthorized}
use libvirt_volume_provision.Auth.Access.{middleware_token_iff, HasToken, Admits, middleware_iff}
use libvirt_volume_provision.Api.{
  JobManager, Server, Response, Route, error_body, respond, serve, noted,
}
use libvirt_volume_provision.Api.Serving.{serve_refused, serve_provision_invalid, StartsNothing}
use libvirt_volume_provision.Types.{failed}
use libvirt_volume_provision.Storage.Saving.{no_faults}
use libvirt_volume_provision.Jobs.{State}
use libvirt_volume_provision.Job.Saving.{Json}
use libvirt_volume_provision.Service.{service}

-- A manager that accepts jobs up to a number of them.
abbrev jobs : JobManager ℕ
jobs = record {
  start_job = λ r n. (ok (codes "id"), suc n);
  get_job_status = λ id n. err (codes "job not found");
  cancel_job = λ id n. (err (codes "job not found"), n);
  get_active_jobs = λ n. n;
  get_job_cache_info = λ id n. err (codes "job not found");
}

abbrev validator : Validator
validator = record { client_cas = []; client_ca_loaded = false; api_tokens = codes "secret" ∷ [] }

abbrev anonymous : Credentials
anonymous = record { authorization = []; x_api_token = []; peer_certificates = none }

abbrev with_token : Credentials
with_token = record {
  authorization = codes "Bearer secret";
  x_api_token = [];
  peer_certificates = none;
}

abbrev request : Text → ProvisionRequest
request url = record {
  image_url = url;
  volume_name = codes "v";
  volume_size_gb = pos 1;
  image_type = codes "raw";
}

abbrev server : Server ℕ
server = record {
  manager = 0;
  metrics = record { requests = []; started = 0; failed = 0; active = 0 };
}

middleware_token_iff_example :
    (middleware validator with_token ≡ none) ↔ HasToken validator with_token
middleware_token_iff_example = middleware_token_iff validator with_token refl

anonymous-refused : ¬ Admits validator anonymous
unfolding middleware text_eq
anonymous-refused h =
    let e : middleware validator anonymous ≡ none = (middleware_iff validator anonymous).1 h in
    ground arith

serve_refused_example :
    serve jobs (codes "1.0") validator Route.provision anonymous (ok (request (codes "u"))) server
    ≡ (respond 401 (error_body unauthorized), noted Route.provision 401 server)
serve_refused_example =
    serve_refused jobs (codes "1.0") validator Route.provision anonymous (ok (request (codes "u")))
      server refl anonymous-refused

abbrev accepted : Response × Server ℕ
accepted =
    serve jobs (codes "1.0") validator Route.provision with_token (ok (request (codes "u"))) server

serve_provision_invalid_example :
    StartsNothing jobs
      (codes "1.0")
      validator
      server
      (serve jobs (codes "1.0") validator Route.provision with_token (ok (request [])) server)
serve_provision_invalid_example =
    serve_provision_invalid jobs (codes "1.0") validator with_token (ok (request [])) server
      (λ req e. inl cc)

-- A manager of jobs that names every job "a".
abbrev json : Json
json = record { request = λ r. r.volume_name; progress = λ i. i.stage }

abbrev calls : JobManager State
calls = service json (λ s. codes "a") (λ s. 7) (λ s. no_faults)

abbrev empty_server : Server State
empty_server = record {
  manager = record { threads = []; slots = 0; store = some [] };
  metrics = server.metrics;
}

abbrev request_of : Route → Server State → Response × Server State
request_of route s =
    serve calls (codes "1.0") validator route with_token (ok (request (codes "u"))) s

abbrev one : Response × Server State
one = request_of Route.provision empty_server

abbrev two : Response × Server State
two = request_of (Route.status (codes "a")) one.1

abbrev three : Response × Server State
three = request_of (Route.cancel (codes "a")) two.1

abbrev four : Response × Server State
four = request_of (Route.status (codes "a")) three.1
