-- ===== src/Minio/Setup.antt =====
-- NewClient of internal/minio/client.go. The environment, the parser of URLs and minio.New are
-- parameters.
use libvirt_volume_provision.Base.{
  [], ◌++◌, ◌≡◌, ◌⊎◌, Bool, true, false, not, ◌&&◌, arith, if◌then◌else◌,
}
use libvirt_volume_provision.Text.{Text, codes, text_eq, or_text}
use libvirt_volume_provision.Act.{Result, ok, err, panicked}
use libvirt_volume_provision.Host.{Url}
use libvirt_volume_provision.Retry.{Config}
use libvirt_volume_provision.Retry.Settings.{
  IsUsable, parse_retry_config, parse_retry_config-IsUsable,
}

-- `M` is the type *minio.Client.
pub record Client (M : Type 0) : Type 0 where
  pub minio_client : M
  pub retry_config : Config

module _ {M : Type 0} (getenv : Text → Text) (parse_url : Text → Result Url)
    (minio_new : Text → Text → Text → Bool → Result M) where
  unfoldable pub endpoint : Text
  endpoint = or_text (getenv (codes "MINIO_ENDPOINT")) (codes "https://minio.example.com")

  unfoldable pub access_key : Text
  access_key = or_text (getenv (codes "MINIO_ACCESS_KEY")) (getenv (codes "MINIO_ACCESS_KEY_ID"))

  unfoldable pub secret_key : Text
  secret_key =
      or_text (getenv (codes "MINIO_SECRET_KEY")) (getenv (codes "MINIO_SECRET_ACCESS_KEY"))

  abbrev pub env_retry : Config
  env_retry =
      parse_retry_config (getenv (codes "MINIO_RETRY_ATTEMPTS"))
        (getenv (codes "MINIO_RETRY_BACKOFF_MS"))

  abbrev pub made : Url → Result M → Result (Client M)
  made u (ok m) = ok (record { minio_client = m; retry_config = env_retry })
  made u (err e) = err (codes "failed to create MinIO client for " ++ u.host ++ codes ": " ++ e)
  made u panicked = panicked

  abbrev pub connected : Result Url → Result (Client M)
  connected (err e) = err (
      codes "invalid MINIO_ENDPOINT '"
      ++ endpoint
      ++ codes "': "
      ++ e
      ++ codes " (expected format: https://hostname:port)")
  connected panicked = panicked
  connected (ok u) =
      if not (text_eq u.scheme (codes "http")) && not (text_eq u.scheme (codes "https"))
      then err
          (codes "invalid MINIO_ENDPOINT scheme '" ++ u.scheme ++ codes "': must be http or https")
      else if text_eq u.host []
      then err (codes "invalid MINIO_ENDPOINT '" ++ endpoint ++ codes "': missing hostname")
      else made u (minio_new u.host access_key secret_key (text_eq u.scheme (codes "https")))

  -- NewClient
  unfoldable pub new_client : Result (Client M)
  unfolding endpoint access_key secret_key
  new_client =
      if text_eq access_key []
      then err (
          codes "MINIO_ACCESS_KEY or MINIO_ACCESS_KEY_ID environment variable is required "
          ++ codes "(check /etc/default/libvirt-volume-provisioner)")
      else if text_eq secret_key []
      then err (
          codes "MINIO_SECRET_KEY or MINIO_SECRET_ACCESS_KEY environment variable is required "
          ++ codes "(check /etc/default/libvirt-volume-provisioner)")
      else connected (parse_url endpoint)

  -- The settings that a client was made with.
  abbrev pub IsConfigured : Client M → Type 0
  IsConfigured client =
      (text_eq access_key [] ≡ false)
      × (text_eq secret_key [] ≡ false)
      × (u : Url) × (parse_url endpoint ≡ ok u)
      × ((text_eq u.scheme (codes "http") ≡ true) ⊎ (text_eq u.scheme (codes "https") ≡ true))
      × (text_eq u.host [] ≡ false)
      × (minio_new u.host access_key secret_key (text_eq u.scheme (codes "https"))
          ≡ ok client.minio_client)
      × IsUsable client.retry_config

  -- A client that NewClient makes has two keys that are not empty and an endpoint that parses, with the
  -- scheme http or https and a host; minio.New made it for this host and these keys, with TLS exactly
  -- for https; and its retry configuration is usable.
  pub new_client_ok : (client : Client M) → new_client ≡ ok client → IsConfigured client
  unfolding new_client
  new_client_ok client h = ground (
    arith,
    parse_retry_config-IsUsable (getenv (codes "MINIO_RETRY_ATTEMPTS"))
        (getenv (codes "MINIO_RETRY_BACKOFF_MS")),
  )
