-- ===== src/Cache/Names.antt =====
-- GetImageNameFromURL of internal/libvirt/pool.go: what of a URL the name of its file depends on.
use libvirt_volume_provision.Base.{
  ℕ, List, [], ◌∷◌, ◌++◌, ◌≡◌, refl, sym, ap, ◌∙◌, Bool-cases, inl, inr, ◌==◌, ==_iff,
}
use libvirt_volume_provision.Text.{Text, split}
use libvirt_volume_provision.Host.{Disk}
use libvirt_volume_provision.Cache.{last_part, get_image_name_from_url, allocate_image_file}

split_some : (s : Text) (sep : ℕ) → (p : Text) × (ps : List Text) × (split s sep ≡ p ∷ ps)
unfolding split
split_some [] sep = ([], [], refl)
split_some (c ∷ s) sep =
    let (p, ps, e) = split_some s sep in
    elim (Bool-cases (c == sep)) [
      | inl hit ↦ ([], split s sep, rw hit refl)
      | inr miss ↦ (c ∷ p, ps, rw (miss, e) refl)
    ]

-- Behind a separator the parts are those of the rest.
split_behind :
    (a f : Text) (sep : ℕ)
    → (p q : Text) × (ps : List Text) × (split (a ++ sep ∷ f) sep ≡ p ∷ q ∷ ps)
      × (last_part (q ∷ ps) ≡ last_part (split f sep))
unfolding split
split_behind [] f sep =
    let (q, ps, e) = split_some f sep in
    ([], q, ps, rw ((==_iff sep sep).1 refl, e) refl, ap last_part (sym e))
split_behind (c ∷ a) f sep =
    let (p, q, ps, e, same) = split_behind a f sep in
    elim (Bool-cases (c == sep)) [
      | inl hit ↦ ([], p, q ∷ ps, rw (hit, e) refl, same)
      | inr miss ↦ (c ∷ p, q, ps, rw (miss, e) refl, same)
    ]

last_part-split :
    (a f : Text) (sep : ℕ) → last_part (split (a ++ sep ∷ f) sep) ≡ last_part (split f sep)
last_part-split a f sep = let (p, q, ps, e, same) = split_behind a f sep in ap last_part e ∙ same

same_name :
    (a b f : Text)
    → get_image_name_from_url (a ++ b'/' ∷ f) ≡ get_image_name_from_url (b ++ b'/' ∷ f)
unfolding get_image_name_from_url
same_name a b f = rw (last_part-split a f b'/', last_part-split b f b'/') refl

-- Two URLs that end in the same element behind a slash get the same name and the same file in the
-- cache, whatever their servers, buckets and directories are.
pub same_file :
    (pool a b f : Text) (d : Disk)
    → (get_image_name_from_url (a ++ b'/' ∷ f) ≡ get_image_name_from_url (b ++ b'/' ∷ f))
      × (allocate_image_file pool (get_image_name_from_url (a ++ b'/' ∷ f)) d
          ≡ allocate_image_file pool (get_image_name_from_url (b ++ b'/' ∷ f)) d)
same_file pool a b f d =
    (same_name a b f, ap (λ name. allocate_image_file pool name d) (same_name a b f))
