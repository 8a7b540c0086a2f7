-- ===== src/Provision/Whole.antt =====
-- ProvisionVolume of internal/jobs/manager.go from its first step to its last.
use libvirt_volume_provision.Base.{
  ℕ, List, ◌≡◌, ◌⊎◌, inl, inr, Option-cases, refl, sym, ap, ◌∙◌, none, some, arith,
}
use libvirt_volume_provision.Text.{Text, codes}
use libvirt_volume_provision.Act.{
  Result, ok, err, panicked, Act, continue_ok, continue-prefixed, ◌>>=◌, ◌>>◌, wrap,
}
use libvirt_volume_provision.Types.{ProvisionRequest, ProgressInfo, whole}
use libvirt_volume_provision.Host.{Host}
use libvirt_volume_provision.Retry.Settings.{IsUsable}
use libvirt_volume_provision.Lvm.{create_volume, populate_volume}
use libvirt_volume_provision.Lvm.Success.{
  LastRan, populate_volume_ok, FillsFrom, populate_argv-FillsFrom,
}
use libvirt_volume_provision.Provision.Rollback.{populated_err}
use libvirt_volume_provision.Provision.{
  Parts, set_stage, initialized, on_job, get_or_download_image, fill_volume, populated,
  provision_volume,
}

module _ {W : Type 0} (p : Parts W) where
  -- The job stands at a stage with a percentage.
  abbrev pub StandsAt : Text → ℕ → Host W → Type 0
  StandsAt stage percent h =
      (info : ProgressInfo) × (h.job.progress ≡ some info)
      × (info.stage ≡ stage)
      × (info.percent ≡ whole percent)

  set_stage-StandsAt :
      (stage : Text) (percent : ℕ) (h : Host W)
      → (set_stage p stage percent h).0 ≡ ok tt
      → StandsAt stage percent (set_stage p stage percent h).1
        × ((set_stage p stage percent h).1.ran ≡ h.ran)
        × ((set_stage p stage percent h).1.world ≡ h.world)
  unfolding set_stage
  set_stage-StandsAt stage percent h e = (staged_at (Option-cases h.job.progress), refl, refl)
    where
      staged_at :
          (h.job.progress ≡ none) ⊎ ((info : ProgressInfo) × (h.job.progress ≡ some info))
          → StandsAt stage percent (set_stage p stage percent h).1
      staged_at (inl missing) = absurd (ground (arith, missing))
      staged_at (inr (info, there)) =
          (record info { stage = stage; percent = whole percent }, rw there refl, refl, refl)

  -- What the end of a success says: the last command run is the one that fills the volume from the
  -- image, it succeeded, and the job stands at its last stage.
  abbrev pub Filled : ProvisionRequest → Text → Host W → Type 0
  Filled req image h =
      (argv : List Text) × FillsFrom p.sys p.lvm image req.volume_name req.image_type argv
      × LastRan p.sys p.lvm argv h
      × StandsAt (codes "finalizing") 100 h

  populated_ok :
      (volume : Text) (x : Result (Unit {0}) × Host W)
      → (populated p volume x.0 x.1).0 ≡ ok tt
      → (x.0 ≡ ok tt) × (populated p volume x.0 x.1 ≡ set_stage p (codes "finalizing") 100 x.1)
  populated_ok volume (ok u, h) e = (refl, refl)
  populated_ok volume (err m, h) e = cc ((populated_err p volume m h).0)
  populated_ok volume (panicked, h) e = cc

  -- The end of ProvisionVolume behind the stage "converting".
  abbrev converted : ProvisionRequest → Text → Act (Host W) (Unit {0})
  converted req image h =
      let (r, h') = populate_volume p.sys p.lvm image req.volume_name req.image_type h in
      populated p req.volume_name r h'

  converted_ok :
      (req : ProvisionRequest) (image : Text) (h : Host W)
      → IsUsable p.lvm.retry_config
      → (converted req image h).0 ≡ ok tt
      → Filled req image (converted req image h).1
  converted_ok req image h u e =
      let x : Result (Unit {0}) × Host W =
        populate_volume p.sys p.lvm image req.volume_name req.image_type h in
      let (good, same) = populated_ok req.volume_name x e in
      let (argv, known, (before, w, ran, succeeded, world)) =
        populate_volume_ok p.sys p.lvm image req.volume_name req.image_type h u good in
      let (stands, ran', world') =
        set_stage-StandsAt (codes "finalizing") 100 x.1
          (ap (λ (y : Result (Unit {0}) × Host W). y.0) (sym same) ∙ e) in
      rw same (
        argv,
        populate_argv-FillsFrom p.sys p.lvm image req.volume_name req.image_type argv known,
        (before, w, ran' ∙ ran, succeeded, world' ∙ world),
        stands,
      )

  fill_volume_ok :
      (req : ProvisionRequest) (image : Text) (h : Host W)
      → IsUsable p.lvm.retry_config
      → (fill_volume p req image h).0 ≡ ok tt
      → Filled req image (fill_volume p req image h).1
  unfolding fill_volume
  fill_volume_ok req image h u e =
      let (v, staged, same) =
        continue_ok (λ v. converted req image) (set_stage p (codes "converting") 75 h) e in
      rw same (
        converted_ok req image (set_stage p (codes "converting") 75 h).1 u
          (ap (λ (y : Result (Unit {0}) × Host W). y.0) (sym same) ∙ e))

  -- The host when ProvisionVolume looks for the image, and when it makes the volume.
  abbrev pub at_image : Host W → Host W
  at_image h = (set_stage p (codes "checking_cache") 5 (on_job p (initialized p) h).1).1

  abbrev pub at_volume : Host W → Host W
  at_volume h = (set_stage p (codes "creating_volume") 50 h).1

  abbrev making : ProvisionRequest → Text → Act (Host W) (Unit {0})
  making req image = do
    set_stage p (codes "creating_volume") 50
    wrap (codes "failed to create volume: ")
        (create_volume p.sys p.lvm req.volume_name req.volume_size_gb)
    fill_volume p req image

  abbrev getting : ProvisionRequest → Act (Host W) (Unit {0})
  getting req = do
    image ← wrap (codes "failed to get image: ") (get_or_download_image p req.image_url)
    making req image

  making_ok :
      (req : ProvisionRequest) (image : Text) (h : Host W)
      → IsUsable p.lvm.retry_config
      → (making req image h).0 ≡ ok tt
      → ((create_volume p.sys p.lvm req.volume_name req.volume_size_gb (at_volume h)).0 ≡ ok tt)
        × Filled req image (making req image h).1
  making_ok req image h u e =
      let (v, staged, same) =
        continue_ok
          (λ v.
            wrap (codes "failed to create volume: ")
              (create_volume p.sys p.lvm req.volume_name req.volume_size_gb)
            >> fill_volume p req image)
          (set_stage p (codes "creating_volume") 50 h) e in
      let e' = ap (λ (y : Result (Unit {0}) × Host W). y.0) (sym same) ∙ e in
      let (v', created, same') =
        continue-prefixed (codes "failed to create volume: ") (λ v. fill_volume p req image)
          (create_volume p.sys p.lvm req.volume_name req.volume_size_gb (at_volume h)) e' in
      (
        created,
        rw (same, same')
            (fill_volume_ok req image
              (create_volume p.sys p.lvm req.volume_name req.volume_size_gb (at_volume h)).1 u
              (ap (λ (y : Result (Unit {0}) × Host W). y.0) (sym same') ∙ e')),
      )

  -- When ProvisionVolume succeeds, with usable retry settings for LVM, the image was got from the cache
  -- or the server, then CreateVolume succeeded for the requested name and size, and the last command
  -- that was run is the one that fills this volume from that image; it succeeded, and the job stands
  -- at the stage "finalizing" with 100%.
  pub provision_volume_ok :
      (req : ProvisionRequest) (h : Host W)
      → IsUsable p.lvm.retry_config
      → (provision_volume p req h).0 ≡ ok tt
      → (image : Text) × ((get_or_download_image p req.image_url (at_image h)).0 ≡ ok image)
        × ((create_volume p.sys p.lvm req.volume_name req.volume_size_gb
              (at_volume (get_or_download_image p req.image_url (at_image h)).1)).0
            ≡ ok tt)
        × Filled req image (provision_volume p req h).1
  unfolding provision_volume
  provision_volume_ok req h u e =
      let (v, staged, same) =
        continue_ok (λ v. getting req)
          (set_stage p (codes "checking_cache") 5 (on_job p (initialized p) h).1) e in
      let e' = ap (λ (y : Result (Unit {0}) × Host W). y.0) (sym same) ∙ e in
      let (image, got, same') =
        continue-prefixed (codes "failed to get image: ") (making req)
          (get_or_download_image p req.image_url (at_image h)) e' in
      let (created, filled) =
        making_ok req image (get_or_download_image p req.image_url (at_image h)).1 u
          (ap (λ (y : Result (Unit {0}) × Host W). y.0) (sym same') ∙ e') in
      (image, got, created, rw (same, same') filled)
