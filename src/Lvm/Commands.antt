-- ===== src/Lvm/Commands.antt =====
-- Which programs the operations of internal/lvm/manager.go run, in which order, and what their
-- success means.
use libvirt_volume_provision.Base.{
  Bool, List, [], ◌∷◌, ◌++◌, append_assoc, ◌≡◌, ◌⊎◌, ◌↔◌, inl, inr, ◌∙◌, true, ℤ, arith, Bool-cases,
  false, refl,
}
use libvirt_volume_provision.Text.{Text, codes}
use libvirt_volume_provision.Act.{prefixed, state-continue-lift, err, Result, ok}
use libvirt_volume_provision.Host.{System, Host, CmdResult}
use libvirt_volume_provision.Lvm.{
  create_volume, delete_volume, get_volume_info, validate_existing_volume,
}
use libvirt_volume_provision.Volume.{
  Manager, exists_argv, info_argv, remove_argv, full_path, check_volume,
}

module _ {W : Type 0} (sys : System W) (m : Manager) where
  -- What a command says when it is the next to run.
  abbrev pub answer : List Text → Host W → CmdResult
  answer argv h = (sys.exec argv h.world).0

  abbrev pub Exists : Text → Host W → Type 0
  Exists volume h = (answer (exists_argv m volume) h).success ≡ true

  get_volume_info_ran :
      (volume : Text) (h : Host W)
      → ((get_volume_info sys m volume h).1.ran ≡ h.ran ++ exists_argv m volume ∷ [])
        ⊎ ((get_volume_info sys m volume h).1.ran
            ≡ h.ran ++ exists_argv m volume ∷ info_argv m volume ∷ [])
  unfolding get_volume_info
  get_volume_info_ran volume h = elim (Bool-cases (answer (exists_argv m volume) h).success) [
    | inl found ↦ inr (
        ground
          (arith, found, append_assoc h.ran (exists_argv m volume ∷ []) (info_argv m volume ∷ [])))
    | inr missing ↦ inl (ground (arith, missing))
  ]

  validate_ran :
      (volume : Text) (gb : ℤ) (h : Host W)
      → (validate_existing_volume sys m volume gb h).1 ≡ (get_volume_info sys m volume h).1
  unfolding validate_existing_volume
  validate_ran volume gb h =
      state-continue-lift
        (prefixed (codes "failed to get volume info: ") (get_volume_info sys m volume h).0)
        (check_volume gb) (get_volume_info sys m volume h).1

  -- When `lvs` finds the volume, CreateVolume runs only `lvs` again: to see that the volume is still
  -- there, and then, if it is, to read its size and state.
  pub create_volume_existing :
      (volume : Text) (gb : ℤ) (h : Host W)
      → Exists volume h
      → ((create_volume sys m volume gb h).1.ran
          ≡ h.ran ++ exists_argv m volume ∷ exists_argv m volume ∷ [])
        ⊎ ((create_volume sys m volume gb h).1.ran
            ≡ h.ran ++ exists_argv m volume ∷ exists_argv m volume ∷ info_argv m volume ∷ [])
  unfolding create_volume
  create_volume_existing volume gb h e =
      let h' = record h {
        world = (sys.exec (exists_argv m volume) h.world).1;
        ran = h.ran ++ exists_argv m volume ∷ [];
      } in
      rw (e, validate_ran volume gb h') (shifted (get_volume_info_ran volume h'))
    where
      shifted :
          {r : List (List Text)}
          → (r ≡ (h.ran ++ exists_argv m volume ∷ []) ++ exists_argv m volume ∷ [])
            ⊎ (r
                ≡ (h.ran ++ exists_argv m volume ∷ [])
                  ++ exists_argv m volume ∷ info_argv m volume ∷ [])
          → (r ≡ h.ran ++ exists_argv m volume ∷ exists_argv m volume ∷ [])
            ⊎ (r ≡ h.ran ++ exists_argv m volume ∷ exists_argv m volume ∷ info_argv m volume ∷ [])
      shifted (inl p) = inl (p ∙ append_assoc h.ran (exists_argv m volume ∷ []) _)
      shifted (inr p) = inr (p ∙ append_assoc h.ran (exists_argv m volume ∷ []) _)

  -- The command line of `lvremove` for a name.
  abbrev pub lvremove : Text → List Text
  lvremove volume = codes "lvremove" ∷ codes "-f" ∷ (m.vg_name ++ b'/' ∷ volume) ∷ []

  -- What DeleteVolume does: with the answer of `lvs` that the volume exists it runs `lvremove` and
  -- returns what that says, with the other it runs nothing more and reports an error.
  abbrev pub Deleted : Bool → Text → Host W → Result (Unit {0}) × Host W → Type 0
  Deleted true volume h r =
      (r.1.ran ≡ h.ran ++ exists_argv m volume ∷ lvremove volume ∷ [])
      × ((r.0 ≡ ok tt) ↔ (
          (sys.exec (lvremove volume) (sys.exec (exists_argv m volume) h.world).1).0.success
          ≡ true))
  Deleted false volume h r =
      (r.1.ran ≡ h.ran ++ exists_argv m volume ∷ [])
      × (r.0 ≡ err (codes "volume " ++ volume ++ codes " does not exist"))

  -- DeleteVolume asks `lvs` for the volume. If that finds it, `lvremove` is run, and its success is that
  -- of the operation; if not, nothing more is run and the error says that the volume does not exist.
  pub delete_volume_cases :
      (volume : Text) (h : Host W)
      → Deleted (answer (exists_argv m volume) h).success volume h (delete_volume sys m volume h)
  unfolding delete_volume remove_argv full_path
  delete_volume_cases volume h = elim (Bool-cases (answer (exists_argv m volume) h).success) [
    | inl found ↦ rw found (
      ground (arith, append_assoc h.ran (exists_argv m volume ∷ []) (lvremove volume ∷ [])),
      ground arith,
    )
    | inr missing ↦ rw missing (refl, refl)
  ]
