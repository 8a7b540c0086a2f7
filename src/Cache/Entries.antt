-- ===== src/Cache/Entries.antt =====
-- When CheckCache of internal/libvirt/pool.go finds what CreateCacheEntry has written.
use mathlib.Core.List.{reverse-append, reverse-reverse}
use libvirt_volume_provision.Base.{
  ◌⊎◌, inl, inr, ℕ, [], ◌∷◌, ◌++◌, ◌≡◌, ◌≢◌, inl, inr, refl, true, false, some, none, arith, Option,
  Bool-cases, length, drop, reverse, ap, length-append, if◌then◌else◌,
}
use libvirt_volume_provision.Text.{Text, codes, trim_suffix, text_eq, trim_prefix, has_prefix}
use libvirt_volume_provision.Text.Laws.{text_eq_of_eq, eq_of_text_eq}
use libvirt_volume_provision.Act.{ok}
use libvirt_volume_provision.Host.{Disk, store_file}
use libvirt_volume_provision.Cache.{
  checksum_found, image_found, stat, checksum_file, check_cache, create_cache_entry,
}

abbrev pub suffix : Text
suffix = codes ".sha256"

drop_prefix : (a b : Text) → trim_prefix (a ++ b) a ≡ b
unfolding trim_prefix has_prefix
drop_prefix a b = rw (starts a b) (dropped a b)
  where
    starts : (a b : Text) → has_prefix (a ++ b) a ≡ true
    starts [] b = refl
    starts (c ∷ a) b = ground (arith, starts a b)

    dropped : (a b : Text) → drop (length a) (a ++ b) ≡ b
    dropped [] b = refl
    dropped (c ∷ a) b = dropped a b

trim_suffix_append : (s : Text) → trim_suffix (s ++ suffix) suffix ≡ s
unfolding trim_suffix
trim_suffix_append s =
    rw (reverse-append s suffix, drop_prefix (reverse suffix) (reverse s)) (reverse-reverse s)

abbrev size_of : Option Text → Option ℕ
size_of none = none
size_of (some content) = some (length content)

stat_lem :
    (d : Disk) (p : Text) (o : Option Text)
    → d.stat_error p ≡ none
    → d.files p ≡ o
    → stat d p ≡ ok (size_of o)
unfolding stat
stat_lem d p none e h = ground (arith, e, h)
stat_lem d p (some x) e h = ground (arith, e, h)

pub append-ne : (p : Text) → text_eq (p ++ suffix) p ≡ false
append-ne p = elim (Bool-cases (text_eq (p ++ suffix) p)) [
  | inl e ↦
      absurd (omega (arith, ap length (eq_of_text_eq (p ++ suffix) p e), length-append p suffix))
  | inr n ↦ n
]

-- The operating system reports no errors for the paths that the cache uses.
pub record IsCalm (d : Disk) (path : Text) : Type 0 where
  pub makes : d.mkdir_error ≡ none
  pub stats : (p : Text) → d.stat_error p ≡ none
  pub writes : d.write_fault (path ++ suffix) ≡ none

-- An image at `path` was given the checksum `checksum`, which no file of the pool was named for. If the
-- path is that of the checksum in the pool's directory, CheckCache finds the image, with its size.
-- Otherwise it finds nothing, although the entry was written without an error.
pub check_cache_created :
    (pool path checksum content : Text) (d : Disk)
    → IsCalm d path
    → d.files path ≡ some content
    → d.files (checksum_file pool checksum) ≡ none
    → ((create_cache_entry path checksum d).0 ≡ ok tt)
      × ((check_cache pool checksum (create_cache_entry path checksum d).1).0
          ≡ ok (
              if text_eq (path ++ suffix) (checksum_file pool checksum)
              then some (record { path = path; size = length content; checksum = checksum })
              else none))
unfolding check_cache create_cache_entry
check_cache_created pool path checksum content d c image missing =
    rw (created, c.makes) (refl, by_name (Bool-cases (text_eq (path ++ suffix) f)))
  where
    d' : Disk
    d' = store_file (path ++ suffix) (some checksum) d

    f : Text
    f = checksum_file pool checksum

    created : create_cache_entry path checksum d ≡ (ok tt, d')
    created = rw (c.writes, create_cache_entry) refl

    same :
        path ++ suffix ≡ f
        → checksum_found d' f checksum (stat d' f)
          ≡ ok (some (record { path = path; size = length content; checksum = checksum }))
    same e =
        rw
          (stat_lem d' f (some checksum) (c.stats f)
            (ground (arith, text_eq_of_eq (path ++ suffix) f e)))
          found
      where
        named : trim_suffix f suffix ≡ path
        named = rw⁻¹ e (trim_suffix_append path)

        found :
            image_found (trim_suffix f suffix) checksum (stat d' (trim_suffix f suffix))
            ≡ ok (some (record { path = path; size = length content; checksum = checksum }))
        found =
            rw
              (
                named,
                stat_lem d' path (some content) (c.stats path)
                    (ground (arith, append-ne path, image)),
              )
              refl

    other : path ++ suffix ≢ f → checksum_found d' f checksum (stat d' f) ≡ ok none
    other ne =
        rw
          (stat_lem d' f none (c.stats f)
            (ground (arith, missing, eq_of_text_eq (path ++ suffix) f, ne)))
          refl

    by_name :
        (text_eq (path ++ suffix) f ≡ true) ⊎ (text_eq (path ++ suffix) f ≡ false)
        → checksum_found d' f checksum (stat d' f)
          ≡ ok (
              if text_eq (path ++ suffix) f
              then some (record { path = path; size = length content; checksum = checksum })
              else none)
    by_name (inl e) = rw e (same (eq_of_text_eq (path ++ suffix) f e))
    by_name (inr ne) = rw ne (other (λ e. ground (arith, ne, text_eq_of_eq (path ++ suffix) f e)))
