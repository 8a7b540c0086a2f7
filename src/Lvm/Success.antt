-- ===== src/Lvm/Success.antt =====
-- What a successful CreateVolume or PopulateVolume of internal/lvm/manager.go has done, and how often
-- they try.
use libvirt_volume_provision.Base.{
  ℕ, ◌+◌, ◌≤◌, List, [], ◌∷◌, ◌++◌, ◌≡◌, ◌≢◌, refl, true, false, none, ℤ, pos, length,
  length-append, arith, Bool-cases, inl, inr, Option, some, some_inj, sym, ◌⊎◌,
}
use libvirt_volume_provision.Text.{Text, codes, text_eq}
use libvirt_volume_provision.Text.Laws.{eq_of_text_eq}
use libvirt_volume_provision.Text.Number.{format_int}
use libvirt_volume_provision.Act.{ok, prefixed-eq_ok}
use libvirt_volume_provision.Retry.{with_retry}
use libvirt_volume_provision.Retry.Settings.{IsUsable}
use libvirt_volume_provision.Retry.Bounds.{with_retry_calls, with_retry-ok}
use libvirt_volume_provision.Host.{System, Host, wait_host}
use libvirt_volume_provision.Lvm.{
  create_volume, create_volume_once, populate_volume, populate_volume_once, populate_with,
}
use libvirt_volume_provision.Volume.{
  Manager, exists_argv, create_argv, populate_argv, test_argv, convert_argv, copy_argv, device_path,
}
use libvirt_volume_provision.Lvm.Commands.{answer, Exists}

module _ {W : Type 0} (sys : System W) (m : Manager) where
  -- The last command that was run is `argv`, and it succeeded.
  abbrev pub LastRan : List Text → Host W → Type 0
  LastRan argv h =
      (before : List (List Text)) × (w : W) × (h.ran ≡ before ++ argv ∷ [])
      × ((sys.exec argv w).0.success ≡ true)
      × (h.world ≡ (sys.exec argv w).1)

  -- The command line of `lvcreate` for a name and a size in GiB.
  abbrev pub lvcreate : Text → ℤ → List Text
  lvcreate volume gb =
      codes "lvcreate"
      ∷ codes "-L"
      ∷ (format_int gb ++ codes "G")
      ∷ codes "-n"
      ∷ volume
      ∷ m.vg_name
      ∷ []

  -- The command line that fills a volume from an image of a type: a qcow2 image is converted, a raw one
  -- copied, to the volume's device.
  abbrev pub FillsFrom : Text → Text → Text → List Text → Type 0
  FillsFrom image volume image_type argv =
      ((image_type ≡ codes "qcow2")
        × (argv
            ≡ codes "qemu-img"
              ∷ codes "convert"
              ∷ codes "-f"
              ∷ codes "qcow2"
              ∷ codes "-O"
              ∷ codes "raw"
              ∷ image
              ∷ (codes "/dev/" ++ m.vg_name ++ b'/' ∷ volume)
              ∷ []))
      ⊎ ((image_type ≡ codes "raw")
          × (argv
              ≡ codes "dd"
                ∷ (codes "if=" ++ image)
                ∷ (codes "of=" ++ codes "/dev/" ++ m.vg_name ++ b'/' ∷ volume)
                ∷ codes "bs=4M"
                ∷ codes "status=progress"
                ∷ codes "conv=fdatasync"
                ∷ []))

  pub populate_argv-FillsFrom :
      (image volume image_type : Text) (argv : List Text)
      → populate_argv m image volume image_type ≡ some argv
      → FillsFrom image volume image_type argv
  unfolding populate_argv convert_argv copy_argv device_path
  populate_argv-FillsFrom image volume image_type argv e =
      elim (Bool-cases (text_eq image_type (codes "qcow2"))) [
        | inl q ↦ inl (eq_of_text_eq image_type (codes "qcow2") q, sym (some_inj (rw q at e)))
        | inr nq ↦ elim (Bool-cases (text_eq image_type (codes "raw"))) [
          | inl r ↦ inr (eq_of_text_eq image_type (codes "raw") r, sym (some_inj (rw (nq, r) at e)))
          | inr nr ↦ absurd (cc (rw (nq, nr) at e))
        ]
      ]

  create_once_ok :
      (volume : Text) (gb : ℤ) (h : Host W)
      → (create_volume_once sys m volume gb h).0 ≡ ok tt
      → LastRan (create_argv m volume gb) (create_volume_once sys m volume gb h).1
  unfolding create_volume_once
  create_once_ok volume gb h e =
      elim (Bool-cases (answer sys m (create_argv m volume gb) h).success) [
        | inl good ↦ (h.ran, h.world, ground arith, good, ground arith)
        | inr bad ↦ ground arith
      ]

  length-create_once :
      (volume : Text) (gb : ℤ) (h : Host W)
      → length (create_volume_once sys m volume gb h).1.ran ≡ length h.ran + 1
  unfolding create_volume_once
  length-create_once volume gb h =
      ground (arith, length-append h.ran (create_argv m volume gb ∷ []))

  -- The host after the `lvs` that looks for a volume.
  abbrev looked : Text → Host W → Host W
  looked volume t = record t {
    world = (sys.exec (exists_argv m volume) t.world).1;
    ran = t.ran ++ exists_argv m volume ∷ [];
  }

  not_found :
      (volume : Text) (h : Host W)
      → ¬ Exists sys m volume h
      → (answer sys m (exists_argv m volume) h).success ≡ false
  not_found volume h ne = ground (arith, ne)

  -- With a usable retry configuration, a CreateVolume that finds no volume of the name runs one `lvs`
  -- and then at most `max_attempts` commands.
  pub create_volume_calls :
      (volume : Text) (gb : ℤ) (n : ℕ) (h : Host W)
      → IsUsable m.retry_config
      → m.retry_config.max_attempts ≡ pos n
      → ¬ Exists sys m volume h
      → length (create_volume sys m volume gb h).1.ran ≤ length h.ran + 1 + n
  unfolding create_volume
  create_volume_calls volume gb n h u en missing = rw (not_found volume h missing) (
      omega (
        arith,
        length-append h.ran (exists_argv m volume ∷ []),
        with_retry_calls (wait_host sys) (create_volume_once sys m volume gb) m.retry_config
            (λ (t : Host W). length t.ran) n u en (λ d t. unfold wait_host in refl)
            (length-create_once volume gb) (looked volume h),
      ))

  -- When a CreateVolume that found no volume of the name succeeds, with a usable retry configuration,
  -- the last command it ran was the `lvcreate` for the requested name and size, and that succeeded.
  pub create_volume_fresh :
      (volume : Text) (gb : ℤ) (h : Host W)
      → IsUsable m.retry_config
      → ¬ Exists sys m volume h
      → (create_volume sys m volume gb h).0 ≡ ok tt
      → LastRan (lvcreate volume gb) (create_volume sys m volume gb h).1
  unfolding create_volume create_argv
  create_volume_fresh volume gb h u missing e = rw (not_found volume h missing) (
      with_retry-ok (wait_host sys) (create_volume_once sys m volume gb) m.retry_config
        (LastRan (create_argv m volume gb)) u.waits (create_once_ok volume gb) (looked volume h)
        (prefixed-eq_ok (codes "failed to create volume " ++ volume ++ codes " after retries: ")
          (with_retry (wait_host sys) (create_volume_once sys m volume gb) m.retry_config
            (looked volume h)).0
          (rw (not_found volume h missing) at e)))

  -- With a usable retry configuration and an image type that is neither `qcow2` nor `raw`,
  -- PopulateVolume never succeeds.
  pub populate_volume_unsupported :
      (image volume image_type : Text) (h : Host W)
      → IsUsable m.retry_config
      → populate_argv m image volume image_type ≡ none
      → (populate_volume sys m image volume image_type h).0 ≢ ok tt
  unfolding populate_volume populate_volume_once
  populate_volume_unsupported image volume image_type h u missing e =
      with_retry-ok (wait_host sys) (populate_volume_once sys m image volume image_type)
        m.retry_config (λ t. ⊥) u.waits (λ t. once_unsupported t) h
        (prefixed-eq_ok (codes "failed to populate volume " ++ volume ++ codes " after retries: ")
          (with_retry (wait_host sys) (populate_volume_once sys m image volume image_type)
            m.retry_config h).0
          e)
    where
      once_unsupported :
          (t : Host W) → (populate_volume_once sys m image volume image_type t).0 ≢ ok tt
      once_unsupported t = rw missing (ground arith)

  -- What the attempt does behind the test of the device, when it succeeds.
  populate_with_ok :
      (o : Option (List Text)) (image_type : Text) (h : Host W)
      → (populate_with sys m o image_type h).0 ≡ ok tt
      → (argv : List Text) × (o ≡ some argv) × LastRan argv (populate_with sys m o image_type h).1
  unfolding populate_volume_once
  populate_with_ok none image_type h e = absurd (ground arith)
  populate_with_ok (some argv) image_type h e = elim (Bool-cases (answer sys m argv h).success) [
    | inl good ↦ (argv, refl, (h.ran, h.world, rw good refl, good, rw good refl))
    | inr bad ↦ absurd (ground (arith, bad))
  ]

  populate_once_ok :
      (image volume image_type : Text) (h : Host W)
      → (populate_volume_once sys m image volume image_type h).0 ≡ ok tt
      → (argv : List Text) × (populate_argv m image volume image_type ≡ some argv)
        × LastRan argv (populate_volume_once sys m image volume image_type h).1
  unfolding populate_volume_once
  populate_once_ok image volume image_type h e =
      elim (Bool-cases (answer sys m (test_argv m volume) h).success) [
        | inl good ↦
            rw good (
              populate_with_ok (populate_argv m image volume image_type) image_type _
                (rw good at e))
        | inr bad ↦ absurd (ground (arith, bad))
      ]

  -- When PopulateVolume succeeds, with a delay to wait for, the image type was one it knows, and the
  -- last command that was run is the one for that type, from the image to the volume's device, and it
  -- succeeded.
  pub populate_volume_ok :
      (image volume image_type : Text) (h : Host W)
      → IsUsable m.retry_config
      → (populate_volume sys m image volume image_type h).0 ≡ ok tt
      → (argv : List Text) × (populate_argv m image volume image_type ≡ some argv)
        × LastRan argv (populate_volume sys m image volume image_type h).1
  unfolding populate_volume
  populate_volume_ok image volume image_type h u e =
      with_retry-ok (wait_host sys) (populate_volume_once sys m image volume image_type)
        m.retry_config
        (λ t.
          (argv : List Text) × (populate_argv m image volume image_type ≡ some argv)
          × LastRan argv t)
        u.waits (populate_once_ok image volume image_type) h
        (prefixed-eq_ok (codes "failed to populate volume " ++ volume ++ codes " after retries: ")
          (with_retry (wait_host sys) (populate_volume_once sys m image volume image_type)
            m.retry_config h).0
          e)
