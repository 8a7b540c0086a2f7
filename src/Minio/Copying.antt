-- ===== src/Minio/Copying.antt =====
-- The copy loop of internal/minio/client.go: what it has left in the file when it ends without an
-- error.
use libvirt_volume_provision.Base.{
  ℕ, zero, suc, ◌+◌, [], ◌∷◌, ◌++◌, append_assoc, append-nil, ◌≡◌, inl, inr, refl, sym, ap, ◌∙◌,
  Option, none, some, ℤ, pos, negsuc, length, length-append, arith, Option-cases,
}
use libvirt_volume_provision.Text.{Text, codes}
use libvirt_volume_provision.Text.Laws.{text_eq_refl}
use libvirt_volume_provision.Act.{
  Result, ok, Act, continue, prefixed, prefixed-eq_ok, fail, continue-prefixed,
}
use libvirt_volume_provision.Retry.{Config}
use libvirt_volume_provision.Host.{System, Host, Disk, Reads, chunk, eof, broken}
use libvirt_volume_provision.Minio.{take_bytes, copy_loop, report_download, append_file}

-- The bytes that a reader returns, if it comes to its end without an error.
abbrev pub prepended : Text → Option Text → Option Text
prepended bytes none = none
prepended bytes (some rest) = some (bytes ++ rest)

unfoldable pub received : Reads → Option Text
received (chunk bytes rest) = prepended bytes (received rest)
received (eof bytes) = some bytes
received (broken bytes e) = none

module _ {W : Type 0} (sys : System W) (cfg : Config) where
  -- The file at `path` holds `content`.
  abbrev pub Holds : Text → Text → Host W → Type 0
  Holds path content h = h.disk.files path ≡ some content

  pub disk-report_download :
      (total : ℤ) (n : ℕ) (h : Host W) → (report_download sys cfg total n h).disk ≡ h.disk
  unfolding report_download
  disk-report_download (pos zero) n h = refl
  disk-report_download (pos (suc t)) n h = refl
  disk-report_download (negsuc t) n h = refl

  append_file-Holds :
      (path bytes c : Text) (h : Host W)
      → Holds path c h
      → Holds path (c ++ bytes) (append_file sys cfg path bytes h)
  unfolding append_file
  append_file-Holds path bytes c h e = ground (arith, text_eq_refl path, e)

  take_bytes-Holds :
      (path : Text) (round : ℕ) (total : ℤ) (n m : ℕ) (bytes c : Text) (h : Host W)
      → Holds path c h
      → (take_bytes sys cfg path round total n bytes h).0 ≡ ok m
      → (m ≡ n + length bytes)
        × Holds path (c ++ bytes) (take_bytes sys cfg path round total n bytes h).1
  unfolding take_bytes
  take_bytes-Holds path round total n m [] c h e r = (ground (arith, r), rw (append-nil c) e)
  take_bytes-Holds path round total n m (b ∷ bytes) c h e r =
      elim (Option-cases (sys.write_error h.world round)) [
        | inl fine ↦ (
          ground (arith, rw (fine, take_bytes) at r),
          rw (fine, take_bytes)
              (ap (λ (d : Disk). d.files path)
                  (disk-report_download total (n + length (b ∷ bytes))
                    (append_file sys cfg path (b ∷ bytes) h))
                ∙ append_file-Holds path (b ∷ bytes) c h e),
        )
        | inr fault ↦ absurd (ground (arith, rw (fault.1, take_bytes) at r))
      ]

  -- The reader came to its end, the count went up by the number of its bytes, and the file holds them
  -- behind what it held before.
  abbrev pub Copied : Text → Text → ℕ → Reads → Result ℕ × Host W → Type 0
  Copied path c n reads r =
      (bytes : Text) × (received reads ≡ some bytes)
      × (r.0 ≡ ok (n + length bytes))
      × Holds path (c ++ bytes) r.1

  pub copy_loop-Copied :
      (path what c : Text) (total : ℤ) (round n m : ℕ) (reads : Reads) (h : Host W)
      → Holds path c h
      → (copy_loop sys cfg path what total round n reads h).0 ≡ ok m
      → Copied path c n reads (copy_loop sys cfg path what total round n reads h)
  unfolding copy_loop received
  copy_loop-Copied path what c total round n m (chunk bytes rest) h e r =
      elim (Option-cases (sys.ctx_done h.world round)) [
        | inl go ↦
            let k : ℕ → Act (Host W) ℕ =
              λ x. copy_loop sys cfg path what total (suc round) x rest in
            let r' : (continue (prefixed what (take_bytes sys cfg path round total n bytes h).0) k
                  (take_bytes sys cfg path round total n bytes h).1).0
                ≡ ok m =
              rw (go, copy_loop) at r in
            let (n', done, same) =
              continue-prefixed what k (take_bytes sys cfg path round total n bytes h) r' in
            let (counted, held) = take_bytes-Holds path round total n n' bytes c h e done in
            let (bs, all, ended, holds) =
              copy_loop-Copied path what (c ++ bytes) total (suc round) n' m rest
                (take_bytes sys cfg path round total n bytes h).1 held
                (ap (λ (y : Result ℕ × Host W). y.0) (sym same) ∙ r') in
            (
              bytes ++ bs,
              ap (prepended bytes) all,
              rw (go, same) (ended ∙ ap ok (omega (arith, counted, length-append bytes bs))),
              rw (go, same) (holds ∙ ap some (append_assoc c bytes bs)),
            )
        | inr stop ↦ absurd (ground (arith, rw (stop.1, copy_loop) at r))
      ]
  copy_loop-Copied path what c total round n m (eof bytes) h e r =
      elim (Option-cases (sys.ctx_done h.world round)) [
        | inl go ↦
            let r' : prefixed what (take_bytes sys cfg path round total n bytes h).0 ≡ ok m =
              rw (go, copy_loop) at r in
            let done : (take_bytes sys cfg path round total n bytes h).0 ≡ ok m =
              prefixed-eq_ok what (take_bytes sys cfg path round total n bytes h).0 r' in
            let (counted, held) = take_bytes-Holds path round total n m bytes c h e done in
            (bytes, refl, rw go (r' ∙ ap ok counted), rw go held)
        | inr stop ↦ absurd (ground (arith, rw (stop.1, copy_loop) at r))
      ]
  copy_loop-Copied path what c total round n m (broken bytes x) h e r =
      elim (Option-cases (sys.ctx_done h.world round)) [
        | inl go ↦
            let (n', done, same) =
              continue-prefixed {B = ℕ} what (λ y. fail (codes "failed to read from MinIO: " ++ x))
                (take_bytes sys cfg path round total n bytes h) (rw (go, copy_loop) at r) in
            absurd (
              ground
                (arith, ap (λ (y : Result ℕ × Host W). y.0) (sym same) ∙ (rw (go, copy_loop) at r)))
        | inr stop ↦ absurd (ground (arith, rw (stop.1, copy_loop) at r))
      ]
