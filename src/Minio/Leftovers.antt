-- ===== src/Minio/Leftovers.antt =====
-- The files that downloadImageOnce of internal/minio/client.go touches.
use libvirt_volume_provision.Minio.Keeping.{SameBut, SameBut-store_file, Kept, copy_loop-Kept}
use libvirt_volume_provision.Base.{
  subst, [], ◌++◌, ◌≡◌, ◌≢◌, inl, inr, refl, sym, ap, ◌∙◌, Option, none, some, Bool-cases,
}
use libvirt_volume_provision.Text.{Text, codes, text_eq}
use libvirt_volume_provision.Text.Laws.{eq_of_text_eq}
use libvirt_volume_provision.Act.{
  Result, ok, err, panicked, Act, continue, prefixed, continue-rule, pure, lift, wrap, ◌>>=◌, ◌>>◌,
}
use libvirt_volume_provision.Retry.{Config, with_retry}
use libvirt_volume_provision.Retry.Attempts.{with_retry_rule}
use libvirt_volume_provision.Host.{System, Host, Disk, wait_host, store_file}
use libvirt_volume_provision.Cache.{remove_file}
use libvirt_volume_provision.Minio.{
  copy_loop, verify_size, parse_image_url, stat_object, get_object, Object,
}
use libvirt_volume_provision.Minio.TempFile.{
  removing, removed, fresh_file, download_image_once, download_image, kept_path, wait_pair,
  result_path, try_once,
}

-- Two disks with the same files, where the same removals fail.
abbrev pub Same : Disk → Disk → Type 0
Same d d' = (d'.remove_error ≡ d.remove_error) × ((q : Text) → d'.files q ≡ d.files q)

-- What a download leaves: a success one new file, an error none.
abbrev pub Left : Disk → Result Text → Disk → Type 0
Left d (ok path) d' = SameBut path d d'
Left d (err e) d' = Same d d'
Left d panicked d' = Unit

Same-SameBut :
    (path : Text) (d d' d'' : Disk) → Same d d' → SameBut path d' d'' → SameBut path d d''
Same-SameBut path d d' d'' (e, same) (e', same') = (e' ∙ e, λ q other. same' q other ∙ same q)

Same-trans : (d d' d'' : Disk) → Same d d' → Same d' d'' → Same d d''
Same-trans d d' d'' (e, same) (e', same') = (e' ∙ e, λ q. same' q ∙ same q)

Left-after : (d d' d'' : Disk) (r : Result Text) → Same d d' → Left d' r d'' → Left d r d''
Left-after d d' d'' (ok path) s l = Same-SameBut path d d' d'' s l
Left-after d d' d'' (err e) s l = Same-trans d d' d'' s l
Left-after d d' d'' panicked s l = tt

remove_file-Same :
    (path : Text) (d d' : Disk)
    → d.files path ≡ none
    → d.remove_error path ≡ none
    → SameBut path d d'
    → Same d (remove_file path d')
unfolding remove_file
remove_file-Same path d d' fresh removable (e, same) =
    rw (ap (λ (f : Text → Option Text). f path) e ∙ removable, remove_file) (e, gone)
  where
    gone : (q : Text) → (store_file path none d').files q ≡ d.files q
    gone q = elim (Bool-cases (text_eq path q)) [
      | inl hit ↦ rw hit (sym (ap d.files (sym (eq_of_text_eq path q hit)) ∙ fresh))
      | inr miss ↦ rw miss (same q miss)
    ]

module _ {W : Type 0} (sys : System W) (cfg : Config) (create_temp : Host W → Result Text) where
  -- os.CreateTemp makes a file that was not there, and that can be removed.
  abbrev pub IsFresh : Type 0
  IsFresh =
      (t : Host W) (path : Text)
      → create_temp t ≡ ok path
      → (t.disk.files path ≡ none) × (t.disk.remove_error path ≡ none)

  abbrev attempt : Text → Object → Act (Host W) (Unit {0})
  attempt path object = do
    total ← wrap (codes "failed to stat object: ") (stat_object sys cfg object)
    reads ← wrap (codes "failed to get object: ") (get_object sys cfg object)
    downloaded ← copy_loop sys cfg path (codes "failed to write to temp file: ") total 0 0 reads
    lift (verify_size sys cfg total downloaded)

  attempt-Kept :
      (path : Text) (d : Disk) (object : Object) (h : Host W)
      → Kept sys cfg path d h
      → Kept sys cfg path d (attempt path object h).1
  unfolding stat_object get_object
  attempt-Kept path d object h k =
      continue-rule (Kept sys cfg path d) _
        (prefixed (codes "failed to stat object: ") (stat_object sys cfg object h).0)
        (stat_object sys cfg object h).1 k
        (λ total t kt.
          continue-rule (Kept sys cfg path d) _
            (prefixed (codes "failed to get object: ") (get_object sys cfg object t).0)
            (get_object sys cfg object t).1 kt
            (λ reads u ku.
              continue-rule (Kept sys cfg path d) (λ n. lift (verify_size sys cfg total n))
                (copy_loop sys cfg path (codes "failed to write to temp file: ") total 0 0 reads
                  u).0
                (copy_loop sys cfg path (codes "failed to write to temp file: ") total 0 0 reads
                  u).1
                (copy_loop-Kept sys cfg path d (codes "failed to write to temp file: ") total 0 0
                  reads u ku)
                (λ n w kw. kw)))

  abbrev filled : Text → Object → Act (Host W) Text
  filled path object = do removing path (attempt path object); pure path

  filled-Left :
      (path : Text) (d : Disk) (x : Result (Unit {0}) × Host W)
      → d.files path ≡ none
      → d.remove_error path ≡ none
      → SameBut path d x.1.disk
      → let y = removed path x in
        let z = continue {S = Host W} y.0 (λ u. pure path) y.1 in Left d z.0 z.1.disk
  filled-Left path d (ok u, h) fresh removable k = k
  filled-Left path d (err e, h) fresh removable k = remove_file-Same path d h.disk fresh removable k
  filled-Left path d (panicked, h) fresh removable k = tt

  -- The attempt from the temporary file on, and from the URL's object on.
  abbrev from_object : Object → Act (Host W) Text
  from_object object = do
    path ← λ h. fresh_file sys cfg create_temp (create_temp h) h
    filled path object

  from_object-Left :
      (object : Object) (h : Host W)
      → IsFresh
      → Left h.disk (from_object object h).0 (from_object object h).1.disk
  from_object-Left object h fresh = by_temp (create_temp h) refl
    where
      by_temp :
          (r : Result Text)
          → create_temp h ≡ r
          → let x =
              continue {S = Host W}
                (fresh_file sys cfg create_temp r h).0
                (λ path. filled path object)
                (fresh_file sys cfg create_temp r h).1 in
            Left h.disk x.0 x.1.disk
      by_temp (err e) made = (refl, λ q. refl)
      by_temp panicked made = tt
      by_temp (ok path) made =
          let t : Host W = record h { disk = store_file path (some []) h.disk } in
          let (new, removable) = fresh h path made in
          filled-Left path h.disk (attempt path object t) new removable (
            attempt-Kept path h.disk object t
              (SameBut-store_file path (some []) h.disk h.disk (refl, λ q other. refl)))

  once-Left :
      (url : Text) (h : Host W)
      → IsFresh
      → Left h.disk
          (download_image_once sys cfg create_temp url h).0
          (download_image_once sys cfg create_temp url h).1.disk
  unfolding download_image_once
  once-Left url h fresh = by_url (parse_image_url sys cfg url)
    where
      by_url :
          (r : Result Object)
          → let x = continue {S = Host W} r from_object h in Left h.disk x.0 x.1.disk
      by_url (err e) = (refl, λ q. refl)
      by_url panicked = tt
      by_url (ok object) = from_object-Left object h fresh

  -- The state of the retries of DownloadImage: the host, and the path of the last attempt.
  abbrev Outcome : Disk → Result (Unit {0}) → Host W × Text → Type 0
  Outcome d (ok u) (h, path) = SameBut path d h.disk
  Outcome d (err e) (h, path) = Same d h.disk
  Outcome d panicked (h, path) = Unit

  tried :
      (d d' : Disk) (r : Result Text) (t : Host W)
      → Same d d'
      → Left d' r t.disk
      → let x = kept_path sys cfg create_temp (r, t) in Outcome d x.0 x.1
  tried d d' (ok path) t s l = Same-SameBut path d d' t.disk s l
  tried d d' (err e) t s l = Same-trans d d' t.disk s l
  tried d d' panicked t s l = tt

  returned :
      (d : Disk) (what : Text) (x : Result (Unit {0}) × (Host W × Text))
      → Outcome d x.0 x.1
      → let y = result_path sys cfg create_temp x in Left d (prefixed what y.0) y.1.disk
  returned d what (ok u, (h, path)) o = o
  returned d what (err e, (h, path)) o = o
  returned d what (panicked, (h, path)) o = tt

  -- When os.CreateTemp makes new files that can be removed and there is a delay to wait for, a
  -- DownloadImage that succeeds has changed no file but the one whose path it returns, and one that
  -- reports an error has left every file as it was.
  pub download_image_files :
      (url : Text) (h : Host W)
      → IsFresh
      → cfg.delays ≢ []
      → Left h.disk
          (download_image sys cfg create_temp url h).0
          (download_image sys cfg create_temp url h).1.disk
  unfolding download_image
  download_image_files url h fresh some_delay =
      returned h.disk (codes "failed to download image from " ++ url ++ codes " after retries: ")
        (with_retry (wait_pair sys cfg create_temp) (try_once sys cfg create_temp url) cfg (h, []))
        (with_retry_rule (wait_pair sys cfg create_temp) (try_once sys cfg create_temp url) cfg
          (λ k s. Same h.disk s.0.disk) (Outcome h.disk) (λ k d s i. unfold wait_host in i)
          (λ k m s i. i)
          (λ k s i e.
            subst (λ r. Outcome h.disk r (try_once sys cfg create_temp url s).1) e (ended s i))
          (λ k m s i e.
            subst (λ r. Outcome h.disk r (try_once sys cfg create_temp url s).1) e (ended s i))
          (λ k s i e. tt) some_delay (h, []) (refl, λ q. refl))
    where
      ended :
          (s : Host W × Text)
          → Same h.disk s.0.disk
          → Outcome h.disk
              (try_once sys cfg create_temp url s).0
              (try_once sys cfg create_temp url s).1
      ended s i =
          tried h.disk s.0.disk (download_image_once sys cfg create_temp url s.0).0
            (download_image_once sys cfg create_temp url s.0).1 i (once-Left url s.0 fresh)
