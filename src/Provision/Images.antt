-- ===== src/Provision/Images.antt =====
-- getOrDownloadImage of internal/jobs/manager.go: what it leaves of the image.
use libvirt_volume_provision.Base.{
  [], ◌≡◌, ◌≢◌, refl, sym, ap, ◌∙◌, Option, none, some, arith, ℕ, Option-cases, inl, inr,
}
use libvirt_volume_provision.Text.{Text, codes, trim_suffix}
use libvirt_volume_provision.Act.{
  Result, ok, err, panicked, OnOk, of_OnOk, then-OnOk, continue-OnOk, continue_ok,
}
use libvirt_volume_provision.Host.{Host, Disk}
use libvirt_volume_provision.Cache.{
  ImageCache, check_cache, create_cache_entry, make_dir, stat, checksum_file, checksum_found,
  image_found, allocate_image_file, get_image_name_from_url, delete_image,
}
use libvirt_volume_provision.Cache.Entries.{append-ne}
use libvirt_volume_provision.Minio.{download_image_to_path}
use libvirt_volume_provision.Minio.Downloading.{download_image_to_path_ok}
use libvirt_volume_provision.Provision.{
  Parts, on_disk, or_else, catch, cleaned, set_stage, get_image_checksum, download_and_cache,
  use_cached, get_or_download_image, entry_checksum,
}

-- A file that os.Stat gives a size has a content.
stat-some :
    (d : Disk) (path : Text) (size : ℕ)
    → stat d path ≡ ok (some size)
    → (content : Text) × (d.files path ≡ some content)
unfolding stat
stat-some d path size h = elim (Option-cases (d.files path)) [
  | inl missing ↦ absurd (ground (arith, missing))
  | inr there ↦ there
]

image_found-some :
    (path checksum : Text) (r : Result (Option ℕ)) (image : ImageCache)
    → image_found path checksum r ≡ ok (some image)
    → (size : ℕ) × (r ≡ ok (some size)) × (image.path ≡ path)
image_found-some path checksum (ok none) image h = ground arith
image_found-some path checksum (ok (some size)) image h = (size, refl, ground arith)
image_found-some path checksum (err e) image h = cc
image_found-some path checksum panicked image h = cc

checksum_found-some :
    (d : Disk) (file checksum : Text) (r : Result (Option ℕ)) (image : ImageCache)
    → checksum_found d file checksum r ≡ ok (some image)
    → (content : Text) × (d.files image.path ≡ some content)
checksum_found-some d file checksum (ok none) image h = ground arith
checksum_found-some d file checksum (ok (some n)) image h =
    let path = trim_suffix file (codes ".sha256") in
    let (size, sized, same) = image_found-some path checksum (stat d path) image h in
    let (content, there) = stat-some d path size sized in (content, ap d.files same ∙ there)
checksum_found-some d file checksum (err e) image h = cc
checksum_found-some d file checksum panicked image h = cc

check_cache_present :
    (pool checksum : Text) (d : Disk) (image : ImageCache)
    → (check_cache pool checksum d).0 ≡ ok (some image)
    → (content : Text) × ((check_cache pool checksum d).1.files image.path ≡ some content)
unfolding check_cache
check_cache_present pool checksum d image h =
    let x = make_dir (codes "failed to access cache directory: ") d in
    let (u, made, same) = continue_ok _ x h in
    let (content, there) =
      checksum_found-some x.1 (checksum_file pool checksum) checksum
        (stat x.1 (checksum_file pool checksum)) image
        (ap (λ (y : Result (Option ImageCache) × Disk). y.0) (sym same) ∙ h) in
    (content, ap (λ (y : Result (Option ImageCache) × Disk). y.1.files image.path) same ∙ there)

-- The entry is another file than the image.
files-create_cache_entry :
    (path checksum : Text) (d : Disk)
    → (create_cache_entry path checksum d).1.files path ≡ d.files path
unfolding create_cache_entry
files-create_cache_entry path checksum d = ground (arith, append-ne path)

module _ {W : Type 0} (p : Parts W) where
  state-or_else : {A : Type 0} (r : Result A) (a : A) (h : Host W) → (or_else p r a h).1 ≡ h
  state-or_else (ok b) a h = refl
  state-or_else (err e) a h = refl
  state-or_else panicked a h = refl

  or_else-some :
      {A : Type 0} (r : Result (Option A)) (a : A) (h : Host W)
      → (or_else p r none h).0 ≡ ok (some a)
      → r ≡ ok (some a)
  or_else-some (ok o) a h e = e
  or_else-some (err m) a h e = ground arith
  or_else-some panicked a h e = cc

  cleaned_ok :
      (path : Text) (x : Result (Unit {0}) × Host W) (u : Unit {0})
      → (cleaned p path x.0 x.1).0 ≡ ok u
      → (x.0 ≡ ok tt) × ((cleaned p path x.0 x.1).1 ≡ x.1)
  unfolding delete_image
  cleaned_ok path (ok v, h) u e = (refl, refl)
  cleaned_ok path (err m, h) u e = cc
  cleaned_ok path (panicked, h) u e = cc

  -- The image is a file on the disk, and the job names it.
  abbrev pub IsPresent : Text → Host W → Type 0
  IsPresent image h =
      (content : Text) × (h.disk.files image ≡ some content) × (h.job.image_path ≡ image)

  -- The entry is made for a file that is there, and the job is told.
  after_entry :
      (path key content : Text) (h : Host W)
      → h.disk.files path ≡ some content
      → let x = catch p tt (on_disk p (create_cache_entry path key)) h in
        x.1.disk.files path ≡ some content
  after_entry path key content h there =
      let r = create_cache_entry path key h.disk in
      ap (λ (y : Host W). y.disk.files path) (state-or_else r.0 tt (record h { disk = r.1 }))
      ∙ files-create_cache_entry path key h.disk
      ∙ there

  downloaded :
      (url path : Text) (h : Host W)
      → p.minio_retry.delays ≢ []
      → (download_image_to_path p.sys p.minio_retry url path h).0 ≡ ok tt
      → (bytes : Text) × ((download_image_to_path p.sys p.minio_retry url path h).1.disk.files path
          ≡ some bytes)
  downloaded url path h some_delay e =
      let (o, parsed, inside, w, total, known, (reads, bytes, got, all, size, holds)) =
        download_image_to_path_ok p.sys p.minio_retry url path h some_delay e in
      (bytes, holds)

  after_download :
      (url checksum : Text) (h : Host W)
      → p.minio_retry.delays ≢ []
      → OnOk IsPresent (download_and_cache p url checksum h)
  unfolding download_and_cache
  after_download url checksum h some_delay =
      continue-OnOk IsPresent (codes "failed to allocate cache file: ") _
        (on_disk p (allocate_image_file p.pool (get_image_name_from_url url)) h)
        λ path made.
          let h1 = (on_disk p (allocate_image_file p.pool (get_image_name_from_url url)) h).1 in
          then-OnOk IsPresent _ (set_stage p (codes "downloading") 10 h1) λ u staged.
            let h2 = (set_stage p (codes "downloading") 10 h1).1 in
            let x = download_image_to_path p.sys p.minio_retry url path h2 in
            then-OnOk IsPresent _ (cleaned p path x.0 x.1) λ v got.
              let h3 = (cleaned p path x.0 x.1).1 in
              let key = entry_checksum p url path checksum h3.disk in
              let (fetched, same) = cleaned_ok path x v got in
              let (bytes, there) = downloaded url path h2 some_delay fetched in
              then-OnOk IsPresent _ (catch p tt (on_disk p (create_cache_entry path key)) h3) λ w e.
                (
                  bytes,
                  after_entry path key bytes h3
                      (ap (λ (y : Host W). y.disk.files path) same ∙ there),
                  refl,
                )

  after_lookup :
      (url checksum : Text) (cached : Option ImageCache) (h : Host W)
      → p.minio_retry.delays ≢ []
      → ((image : ImageCache)
          → cached ≡ some image
          → (content : Text) × (h.disk.files image.path ≡ some content))
      → OnOk IsPresent (use_cached p url checksum cached h)
  after_lookup url checksum none h some_delay known = after_download url checksum h some_delay
  after_lookup url checksum (some image) h some_delay known =
      let (content, there) = known image refl in (content, there, refl)

  after_image :
      (url : Text) (h : Host W)
      → p.minio_retry.delays ≢ []
      → OnOk IsPresent (get_or_download_image p url h)
  unfolding get_or_download_image
  after_image url h some_delay =
      then-OnOk IsPresent _ (catch p url (get_image_checksum p url) h) λ checksum e.
        let h1 = (catch p url (get_image_checksum p url) h).1 in
        let r = check_cache p.pool checksum h1.disk in
        then-OnOk IsPresent _ (catch p none (on_disk p (check_cache p.pool checksum)) h1)
          λ cached e'. after_lookup url checksum cached _ some_delay λ image same.
            let h2 : Host W = record h1 { disk = r.1 } in
            let (content, there) =
              check_cache_present p.pool checksum h1.disk image
                (or_else-some r.0 image h2 (e' ∙ ap (λ (o : Option ImageCache). ok o) same)) in
            (
              content,
              ap (λ (y : Host W). y.disk.files image.path) (state-or_else r.0 none h2) ∙ there,
            )

  -- When getOrDownloadImage, with a delay between the attempts of a download to wait for, returns an
  -- image, from the cache or from the server, there is a file of this name on the disk, and the job
  -- names it as its image.
  pub get_or_download_image-IsPresent :
      (url image : Text) (h : Host W)
      → p.minio_retry.delays ≢ []
      → (get_or_download_image p url h).0 ≡ ok image
      → IsPresent image (get_or_download_image p url h).1
  get_or_download_image-IsPresent url image h some_delay e =
      of_OnOk IsPresent (get_or_download_image p url h) image (after_image url h some_delay) e
