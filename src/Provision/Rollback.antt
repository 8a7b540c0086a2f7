-- ===== src/Provision/Rollback.antt =====
-- The rollback of ProvisionVolume in internal/jobs/manager.go.
use libvirt_volume_provision.Base.{
  Bool, true, false, ◌∙◌, [], ◌∷◌, ◌++◌, ◌≡◌, ◌≢◌, refl, arith, List,
}
use libvirt_volume_provision.Text.{Text, codes}
use libvirt_volume_provision.Act.{continue, fail, Result, ok, err, panicked}
use libvirt_volume_provision.Types.{ProvisionRequest}
use libvirt_volume_provision.Host.{Host}
use libvirt_volume_provision.Lvm.{populate_volume, delete_volume}
use libvirt_volume_provision.Volume.{exists_argv}
use libvirt_volume_provision.Lvm.Commands.{lvremove, delete_volume_cases, Deleted, answer}
use libvirt_volume_provision.Provision.{Parts, set_stage, fill_volume, rolled_back, populated}

module _ {W : Type 0} (p : Parts W) where
  delete_volume-ne-panicked :
      (volume : Text) (h : Host W) → (delete_volume p.sys p.lvm volume h).0 ≢ panicked
  unfolding delete_volume
  delete_volume-ne-panicked volume h = ground arith

  pub populated_err :
      (volume e : Text) (h : Host W)
      → ((populated p volume (err e) h).0 ≡ err (codes "failed to populate volume: " ++ e))
        × ((populated p volume (err e) h).1.ran ≡ (delete_volume p.sys p.lvm volume h).1.ran)
  populated_err volume e h =
      concluded (delete_volume p.sys p.lvm volume h) (delete_volume-ne-panicked volume h)
    where
      concluded :
          (x : Result (Unit {0}) × Host W)
          → x.0 ≢ panicked
          → ((continue {S = Host W} {B = Unit {0}}
                (rolled_back p volume x.0 x.1).0
                (λ u. fail (codes "failed to populate volume: " ++ e))
                (rolled_back p volume x.0 x.1).1).0
              ≡ err (codes "failed to populate volume: " ++ e))
            × ((continue {S = Host W} {B = Unit {0}}
                  (rolled_back p volume x.0 x.1).0
                  (λ u. fail (codes "failed to populate volume: " ++ e))
                  (rolled_back p volume x.0 x.1).1).1.ran
                ≡ x.1.ran)
      concluded (ok u, t) ne = (refl, refl)
      concluded (err m, t) ne = (refl, refl)
      concluded (panicked, t) ne = absurd (ne refl)

  -- The commands of a rollback, by what `lvs` says of the volume.
  abbrev pub rollback_commands : Bool → Text → List (List Text)
  rollback_commands true volume = exists_argv p.lvm volume ∷ lvremove p.sys p.lvm volume ∷ []
  rollback_commands false volume = exists_argv p.lvm volume ∷ []

  ran-delete_volume :
      (volume : Text) (h : Host W)
      → (delete_volume p.sys p.lvm volume h).1.ran
        ≡ h.ran
          ++ rollback_commands (answer p.sys p.lvm (exists_argv p.lvm volume) h).success volume
  ran-delete_volume volume h =
      by_answer (answer p.sys p.lvm (exists_argv p.lvm volume) h).success
        (delete_volume_cases p.sys p.lvm volume h)
    where
      by_answer :
          (b : Bool)
          → Deleted p.sys p.lvm b volume h (delete_volume p.sys p.lvm volume h)
          → (delete_volume p.sys p.lvm volume h).1.ran ≡ h.ran ++ rollback_commands b volume
      by_answer true d = d.0
      by_answer false d = d.0

  -- When PopulateVolume fails, the provisioning fails with its error, and the last commands it runs are
  -- those of the rollback: `lvs`, and an `lvremove` of the volume if that finds it. This asks nothing
  -- of who created the volume.
  pub fill_volume_rollback :
      (req : ProvisionRequest) (image e : Text) (h h' : Host W)
      → (set_stage p (codes "converting") 75 h).0 ≡ ok tt
      → populate_volume p.sys p.lvm image req.volume_name req.image_type
          (set_stage p (codes "converting") 75 h).1
        ≡ (err e, h')
      → ((fill_volume p req image h).0 ≡ err (codes "failed to populate volume: " ++ e))
        × ((fill_volume p req image h).1.ran
            ≡ h'.ran
              ++ rollback_commands
                  (answer p.sys p.lvm (exists_argv p.lvm req.volume_name) h').success
                  req.volume_name)
  unfolding fill_volume
  fill_volume_rollback req image e h h' es ep =
      let (failed, ran) = populated_err req.volume_name e h' in
      rw (es, ep) (failed, ran ∙ ran-delete_volume req.volume_name h')
