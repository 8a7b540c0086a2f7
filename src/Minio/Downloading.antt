-- ===== src/Minio/Downloading.antt =====
-- What a download of internal/minio/client.go that reports success has left in the file.
use libvirt_volume_provision.Base.{
  ℕ, [], ◌++◌, subst, ◌≡◌, ◌≢◌, inl, inr, sym, ap, ◌∙◌, false, some, ℤ, pos, negsuc, length, arith,
  Bool-cases, if◌then◌else◌,
}
use libvirt_volume_provision.Text.{Text, codes}
use libvirt_volume_provision.Text.Laws.{text_eq_refl}
use libvirt_volume_provision.Act.{
  Result, ok, Act, continue, prefixed-eq_ok, fail, lift, wrap, ◌>>=◌, ◌>>◌, continue-prefixed,
  continue_ok,
}
use libvirt_volume_provision.Retry.{Config, with_retry}
use libvirt_volume_provision.Retry.Bounds.{with_retry-ok}
use libvirt_volume_provision.Host.{System, Host, wait_host, Reads}
use libvirt_volume_provision.Cache.{is_outside}
use libvirt_volume_provision.Minio.{
  copy_loop, verify_size, parse_image_url, stat_object, get_object, Object, download_image_to_path,
  download_image_to_path_once, create_file,
}
use libvirt_volume_provision.Minio.Copying.{received, Holds, copy_loop-Copied}

ok_inj : {A : Type 0} {a b : A} → Path (Result A) (ok a) (ok b) → a ≡ b
ok_inj e = cc

module _ {W : Type 0} (sys : System W) (cfg : Config) where
  verify_size_ok : (total : ℤ) (n : ℕ) → verify_size sys cfg total n ≡ ok tt → total ≡ pos n
  unfolding verify_size
  verify_size_ok (pos t) n e = ground arith
  verify_size_ok (negsuc t) n e = ground arith

  create_file-Holds :
      (path : Text) (h : Host W)
      → (create_file sys cfg path h).0 ≡ ok tt
      → Holds sys cfg path [] (create_file sys cfg path h).1
  unfolding create_file
  create_file-Holds path h e = ground (arith, text_eq_refl path)

  -- What follows the creation of the file: the bytes are copied and counted.
  filled :
      (path what : Text) (total : ℤ) (reads : Reads) (h : Host W)
      → Holds sys cfg path [] h
      → let r =
          continue
            (copy_loop sys cfg path what total 0 0 reads h).0
            (λ n. lift (verify_size sys cfg total n))
            (copy_loop sys cfg path what total 0 0 reads h).1 in
        r.0 ≡ ok tt
        → (bytes : Text) × (received reads ≡ some bytes)
          × (total ≡ pos (length bytes))
          × Holds sys cfg path bytes r.1
  filled path what total reads h e r =
      let (n, copied, same) =
        continue_ok (λ n. lift (verify_size sys cfg total n))
          (copy_loop sys cfg path what total 0 0 reads h) r in
      let (bytes, all, counted, holds) =
        copy_loop-Copied sys cfg path what [] total 0 0 n reads h e copied in
      let verified : verify_size sys cfg total n ≡ ok tt =
        ap (λ (y : Result (Unit {0}) × Host W). y.0) (sym same) ∙ r in
      (
        bytes,
        all,
        verify_size_ok total n verified ∙ ap pos (omega (arith, ok_inj (sym copied ∙ counted))),
        rw same holds,
      )

  world-create_file : (path : Text) (h : Host W) → (create_file sys cfg path h).1.world ≡ h.world
  unfolding create_file
  world-create_file path h = ground arith

  abbrev copying : Text → ℤ → Reads → Act (Host W) (Unit {0})
  copying path total reads = do
    downloaded ←
        copy_loop sys cfg path (codes "failed to write to destination file: ") total 0 0 reads
    lift (verify_size sys cfg total downloaded)

  -- The attempt from the creation of the file on.
  abbrev fetching : Text → Object → ℤ → Act (Host W) (Unit {0})
  fetching path o total = do
    reads ← wrap (codes "failed to get object: ") (get_object sys cfg o)
    copying path total reads

  abbrev filling : Text → Object → ℤ → Act (Host W) (Unit {0})
  filling path o total = do
    wrap (codes "failed to create destination file: ") (create_file sys cfg path)
    fetching path o total

  -- What a success from a point on says: the object's reader came to its end without an error, its
  -- bytes are as many as `total` says, and the file holds exactly them.
  abbrev pub Fetched : Text → Object → ℤ → W → Host W → Type 0
  Fetched path o total w h =
      (reads : Reads) × (bytes : Text) × ((sys.get_object o.bucket o.name w).0 ≡ ok reads)
      × (received reads ≡ some bytes)
      × (total ≡ pos (length bytes))
      × Holds sys cfg path bytes h

  fetching_ok :
      (path : Text) (o : Object) (total : ℤ) (h : Host W)
      → Holds sys cfg path [] h
      → (fetching path o total h).0 ≡ ok tt
      → Fetched path o total h.world (fetching path o total h).1
  unfolding get_object
  fetching_ok path o total h e r =
      let (reads, got, same) =
        continue-prefixed (codes "failed to get object: ") (copying path total)
          (get_object sys cfg o h) r in
      let (bytes, all, size, holds) =
        filled path (codes "failed to write to destination file: ") total reads
          (get_object sys cfg o h).1 e
          (ap (λ (y : Result (Unit {0}) × Host W). y.0) (sym same) ∙ r) in
      (reads, bytes, got, all, size, rw same holds)

  filling_ok :
      (path : Text) (o : Object) (total : ℤ) (h : Host W)
      → (filling path o total h).0 ≡ ok tt
      → Fetched path o total h.world (filling path o total h).1
  filling_ok path o total h r =
      let (u, made, same) =
        continue-prefixed (codes "failed to create destination file: ") (λ u. fetching path o total)
          (create_file sys cfg path h) r in
      let result =
        fetching_ok path o total (create_file sys cfg path h).1 (create_file-Holds path h made)
          (ap (λ (y : Result (Unit {0}) × Host W). y.0) (sym same) ∙ r) in
      rw same (
        subst (λ w. Fetched path o total w (fetching path o total (create_file sys cfg path h).1).1)
          (world-create_file path h) result)

  abbrev sized : Text → Object → ℤ → Act (Host W) (Unit {0})
  sized path o total =
      if is_outside path
      then fail (codes "invalid destination path: " ++ path)
      else filling path o total

  abbrev located : Text → Object → Act (Host W) (Unit {0})
  located path o = do
    total ← wrap (codes "failed to stat object: ") (stat_object sys cfg o)
    sized path o total

  sized_ok :
      (path : Text) (o : Object) (total : ℤ) (h : Host W)
      → (sized path o total h).0 ≡ ok tt
      → (is_outside path ≡ false) × Fetched path o total h.world (sized path o total h).1
  sized_ok path o total h r = elim (Bool-cases (is_outside path)) [
    | inl out ↦ absurd (ground (arith, out))
    | inr inside ↦ (inside, rw inside (filling_ok path o total h (rw inside at r)))
  ]

  -- When an attempt of DownloadImageToPath succeeds, the URL named an object, the path was one inside
  -- the libvirt directory, the object's reader came to its end without an error, and the file at the
  -- path holds exactly the bytes that it returned, as many as the object's size says.
  pub download_image_to_path_once_ok :
      (url path : Text) (h : Host W)
      → (download_image_to_path_once sys cfg url path h).0 ≡ ok tt
      → (o : Object) × (parse_image_url sys cfg url ≡ ok o)
        × (is_outside path ≡ false)
        × (total : ℤ) × ((sys.stat_object o.bucket o.name h.world).0 ≡ ok total)
        × Fetched path o total
            (sys.stat_object o.bucket o.name h.world).1
            (download_image_to_path_once sys cfg url path h).1
  unfolding download_image_to_path_once stat_object
  download_image_to_path_once_ok url path h r =
      let (o, parsed, at_object) = continue_ok (located path) (parse_image_url sys cfg url, h) r in
      let r' : (located path o h).0 ≡ ok tt =
        ap (λ (y : Result (Unit {0}) × Host W). y.0) (sym at_object) ∙ r in
      let (total, known, at_size) =
        continue-prefixed (codes "failed to stat object: ") (sized path o) (stat_object sys cfg o h)
          r' in
      let (inside, result) =
        sized_ok path o total (stat_object sys cfg o h).1
          (ap (λ (y : Result (Unit {0}) × Host W). y.0) (sym at_size) ∙ r') in
      (o, parsed, inside, total, known, rw (at_object, at_size) result)

  -- When DownloadImageToPath, with a delay to wait for, succeeds, the URL named an object, the path was
  -- one inside the libvirt directory, and from some state of the server on the object's reader came to
  -- its end without an error: the file at the path holds exactly the bytes that it returned, as many as
  -- the object's size says.
  pub download_image_to_path_ok :
      (url path : Text) (h : Host W)
      → cfg.delays ≢ []
      → (download_image_to_path sys cfg url path h).0 ≡ ok tt
      → (o : Object) × (parse_image_url sys cfg url ≡ ok o)
        × (is_outside path ≡ false)
        × (w : W) × (total : ℤ) × ((sys.stat_object o.bucket o.name w).0 ≡ ok total)
        × Fetched path o total
            (sys.stat_object o.bucket o.name w).1
            (download_image_to_path sys cfg url path h).1
  unfolding download_image_to_path
  download_image_to_path_ok url path h some_delay e =
      with_retry-ok (wait_host sys) (download_image_to_path_once sys cfg url path) cfg
        (λ t.
          (o : Object) × (parse_image_url sys cfg url ≡ ok o)
          × (is_outside path ≡ false)
          × (w : W) × (total : ℤ) × ((sys.stat_object o.bucket o.name w).0 ≡ ok total)
          × Fetched path o total (sys.stat_object o.bucket o.name w).1 t)
        some_delay
        (λ t r.
          let (o, parsed, inside, total, known, result) =
            download_image_to_path_once_ok url path t r in
          (o, parsed, inside, t.world, total, known, result))
        h
        (prefixed-eq_ok
          (codes "failed to download image from "
            ++ url
            ++ codes " to "
            ++ path
            ++ codes " after retries: ")
          (with_retry (wait_host sys) (download_image_to_path_once sys cfg url path) cfg h).0 e)
