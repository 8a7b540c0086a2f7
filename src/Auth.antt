-- ===== src/Auth.antt =====
-- internal/auth/certificates.go: the tokens and the middleware that asks for one. The files and the
-- parser of certificates are parameters.
pub mod Access
use libvirt_volume_provision.Base.{
  ℕ, List, [], ◌∷◌, ◌++◌, Bool, true, false, not, ◌&&◌, ◌||◌, Option, none, some, ltb, length, take,
  drop, if◌then◌else◌,
}
use libvirt_volume_provision.Text.{Text, codes, text_eq, trim_space, split, or_text}
use libvirt_volume_provision.Act.{Result, ok, err, panicked}
use libvirt_volume_provision.Types.{ErrorResponse}

-- `client_cas` holds the files whose certificates are in the pool, `api_tokens` the keys of the map of
-- Go, whose values are all true.
pub record Validator : Type 0 where
  pub client_cas : List Text
  pub client_ca_loaded : Bool
  pub api_tokens : List Text

-- Of a file: that it is missing, that it cannot be read, or its content.
pub data File : Type 0 where
  missing : File
  unreadable : Text → File
  readable : Text → File

-- The non-empty lines, trimmed.
unfoldable pub tokens_of_lines : List Text → List Text
tokens_of_lines [] = []
tokens_of_lines (line ∷ lines) =
    let rest = tokens_of_lines lines in
    let token = trim_space line in if text_eq token [] then rest else token ∷ rest

-- loadAPITokens
unfoldable pub load_api_tokens : File → Result (List Text)
unfolding tokens_of_lines
load_api_tokens missing = ok (codes "dev-token-12345" ∷ [])
load_api_tokens (unreadable e) = err (codes "failed to read API tokens: " ++ e)
load_api_tokens (readable content) = ok (tokens_of_lines (split content b'\n'))

-- loadClientCAs: the file whose certificates were loaded, if any. `parses` is AppendCertsFromPEM.
unfoldable pub load_client_cas : (Text → Bool) → File → Result (Option Text)
load_client_cas parses missing = ok none
load_client_cas parses (unreadable e) = err (codes "failed to read CA cert: " ++ e)
load_client_cas parses (readable content) =
    if parses content then ok (some content) else err (codes "failed to parse CA cert")

abbrev pub validator_of : Result (Option Text) → Result (List Text) → Result Validator
validator_of (ok none) (ok tokens) =
    ok (record { client_cas = []; client_ca_loaded = false; api_tokens = tokens })
validator_of (ok (some pem)) (ok tokens) =
    ok (record { client_cas = pem ∷ []; client_ca_loaded = true; api_tokens = tokens })
validator_of (ok loaded) (err e) = err (codes "failed to load API tokens: " ++ e)
validator_of (ok loaded) panicked = panicked
validator_of (err e) tokens = err (codes "failed to load client CAs: " ++ e)
validator_of panicked tokens = panicked

-- NewValidator, over the environment and the files.
unfoldable pub new_validator : (Text → Text) → (Text → File) → (Text → Bool) → Result Validator
unfolding load_client_cas load_api_tokens
new_validator getenv file parses =
    validator_of
      (load_client_cas parses (
        file
          (or_text (getenv (codes "CLIENT_CA_CERT")) (codes "/etc/ssl/certs/ca-certificates.crt"))))
      (load_api_tokens (
        file (
          or_text (getenv (codes "API_TOKENS_FILE"))
            (codes "/etc/libvirt-volume-provisioner/tokens"))))

-- IsClientCALoaded
unfoldable pub is_client_ca_loaded : Validator → Bool
is_client_ca_loaded v = v.client_ca_loaded

-- GetClientCAs
unfoldable pub get_client_cas : Validator → List Text
get_client_cas v = v.client_cas

-- What the middleware reads of a request: the two headers, empty when they are missing, and the
-- number of peer certificates if the context holds the connection.
pub record Credentials : Type 0 where
  pub authorization : Text
  pub x_api_token : Text
  pub peer_certificates : Option ℕ

unfoldable pub is_token : Text → List Text → Bool
is_token token [] = false
is_token token (t ∷ ts) = text_eq t token || is_token token ts

abbrev pub bearer : Text
bearer = codes "Bearer "

-- authHeader != "" && len(authHeader) > 7 && authHeader[:7] == "Bearer "
unfoldable pub is_bearer : Text → Bool
is_bearer header = ltb 7 (length header) && text_eq (take 7 header) bearer

-- validateAPIToken
unfoldable pub validate_api_token : Validator → Credentials → Bool
unfolding is_bearer is_token
validate_api_token v c =
    if is_bearer c.authorization
    then is_token (drop 7 c.authorization) v.api_tokens
    else if not (text_eq c.x_api_token [])
    then is_token c.x_api_token v.api_tokens
    else false

abbrev pub has_certificate : Option ℕ → Bool
has_certificate none = false
has_certificate (some n) = ltb 0 n

abbrev pub unauthorized : ErrorResponse
unauthorized = record {
  error = codes "authentication required";
  message = codes "provide valid API token or client certificate";
  code = 401;
}

-- Middleware: `none` lets the request through.
unfoldable pub middleware : Validator → Credentials → Option ErrorResponse
unfolding validate_api_token
middleware v c =
    if validate_api_token v c
    then none
    else if has_certificate c.peer_certificates
    then none
    else some unauthorized
