-- ===== src/Minio/Keeping.antt =====
-- The one file that the copy loop of internal/minio/client.go writes.
use libvirt_volume_provision.Base.{
  ℕ, suc, ◌+◌, length, [], ◌∷◌, ◌++◌, ◌≡◌, refl, false, Option, none, some, ℤ,
}
use libvirt_volume_provision.Text.{Text, codes, text_eq}
use libvirt_volume_provision.Act.{Act, prefixed, continue-rule, fail}
use libvirt_volume_provision.Retry.{Config}
use libvirt_volume_provision.Host.{System, Host, Disk, store_file, Reads, chunk, eof, broken}
use libvirt_volume_provision.Minio.{
  take_bytes, copy_loop, report_download, append_file, cancelled_or,
}
use libvirt_volume_provision.Minio.Copying.{disk-report_download}

-- Two disks that differ at most in the file of one path.
abbrev pub SameBut : Text → Disk → Disk → Type 0
SameBut path d d' =
    (d'.remove_error ≡ d.remove_error)
    × ((q : Text) → text_eq path q ≡ false → d'.files q ≡ d.files q)

pub SameBut-store_file :
    (path : Text) (content : Option Text) (d d' : Disk)
    → SameBut path d d'
    → SameBut path d (store_file path content d')
SameBut-store_file path content d d' (e, same) = (e, λ q other. rw other (same q other))

module _ {W : Type 0} (sys : System W) (cfg : Config) (path : Text) (d : Disk) where
  -- The host's disk differs from `d` at most in the file of the path.
  abbrev pub Kept : Host W → Type 0
  Kept h = SameBut path d h.disk

  append_file-Kept : (bytes : Text) (h : Host W) → Kept h → Kept (append_file sys cfg path bytes h)
  unfolding append_file
  append_file-Kept bytes h k = SameBut-store_file path _ d h.disk k

  report_download-Kept :
      (total : ℤ) (n : ℕ) (h : Host W) → Kept h → Kept (report_download sys cfg total n h)
  report_download-Kept total n h k = rw (disk-report_download sys cfg total n h) k

  take_bytes-Kept :
      (round : ℕ) (total : ℤ) (n : ℕ) (bytes : Text) (h : Host W)
      → Kept h
      → Kept (take_bytes sys cfg path round total n bytes h).1
  unfolding take_bytes
  take_bytes-Kept round total n [] h k = k
  take_bytes-Kept round total n (b ∷ bytes) h k = by_fault (sys.write_error h.world round) refl
    where
      by_fault :
          (o : Option (Text × Text))
          → sys.write_error h.world round ≡ o
          → Kept (take_bytes sys cfg path round total n (b ∷ bytes) h).1
      by_fault none e =
          rw (e, take_bytes)
            (report_download-Kept total (n + length (b ∷ bytes))
              (append_file sys cfg path (b ∷ bytes) h) (append_file-Kept (b ∷ bytes) h k))
      by_fault (some fault) e = rw (e, take_bytes) (append_file-Kept fault.1 h k)

  cancelled-Kept :
      (o : Option Text) (m : Act (Host W) ℕ) (h : Host W)
      → Kept h
      → Kept (m h).1
      → Kept (cancelled_or sys cfg o m h).1
  cancelled-Kept none m h k k' = k'
  cancelled-Kept (some e) m h k k' = k

  pub copy_loop-Kept :
      (what : Text) (total : ℤ) (round n : ℕ) (reads : Reads) (h : Host W)
      → Kept h
      → Kept (copy_loop sys cfg path what total round n reads h).1
  unfolding copy_loop
  copy_loop-Kept what total round n (chunk bytes rest) h k =
      cancelled-Kept (sys.ctx_done h.world round) _ h k (
        continue-rule Kept (λ n'. copy_loop sys cfg path what total (suc round) n' rest)
          (prefixed what (take_bytes sys cfg path round total n bytes h).0)
          (take_bytes sys cfg path round total n bytes h).1
          (take_bytes-Kept round total n bytes h k)
          (λ n' t. copy_loop-Kept what total (suc round) n' rest t))
  copy_loop-Kept what total round n (eof bytes) h k =
      cancelled-Kept (sys.ctx_done h.world round) _ h k (take_bytes-Kept round total n bytes h k)
  copy_loop-Kept what total round n (broken bytes x) h k =
      cancelled-Kept (sys.ctx_done h.world round) _ h k (
        continue-rule Kept
          (λ (n' : ℕ). fail {S = Host W} {A = ℕ} (codes "failed to read from MinIO: " ++ x))
          (prefixed what (take_bytes sys cfg path round total n bytes h).0)
          (take_bytes sys cfg path round total n bytes h).1
          (take_bytes-Kept round total n bytes h k) (λ n' t k'. k'))
