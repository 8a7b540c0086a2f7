-- ===== src/Path.antt =====
-- What the source uses of the package path/filepath on Linux: Ext, Clean and Join.
use libvirt_volume_provision.Base.{
  List, [], ◌∷◌, ◌++◌, reverse, Bool, true, false, ◌||◌, ◌==◌, if◌then◌else◌,
}
use libvirt_volume_provision.Text.{Text, codes, text_eq, split, join}

-- The extension of a reversed path: what stands behind the last dot, if no slash follows the dot.
unfoldable pub ext_from : Text → Text → Text
ext_from out [] = []
ext_from out (c ∷ s) =
    let rest = ext_from (c ∷ out) s in if c == b'/' then [] else if c == b'.' then c ∷ out else rest

-- filepath.Ext(path)
unfoldable pub ext : Text → Text
unfolding ext_from
ext path = ext_from [] (reverse path)

-- One element of a path, over the elements before it, the last one first.
unfoldable pub pop_element : Bool → List Text → List Text
pop_element rooted [] = if rooted then [] else codes ".." ∷ []
pop_element rooted (top ∷ stack) =
    if text_eq top (codes "..") then codes ".." ∷ top ∷ stack else stack

unfoldable pub clean_step : Bool → List Text → Text → List Text
unfolding pop_element
clean_step rooted stack e =
    if text_eq e [] || text_eq e (codes ".")
    then stack
    else if text_eq e (codes "..")
    then pop_element rooted stack
    else e ∷ stack

unfoldable pub clean_elements : Bool → List Text → List Text → List Text
unfolding clean_step
clean_elements rooted stack [] = reverse stack
clean_elements rooted stack (e ∷ es) = clean_elements rooted (clean_step rooted stack e) es

abbrev pub or_dot : List Text → Text
or_dot [] = codes "."
or_dot (e ∷ es) = join (e ∷ es) b'/'

-- filepath.Clean(path)
unfoldable pub clean : Text → Text
unfolding clean_elements
clean [] = codes "."
clean (c ∷ s) =
    if c == b'/'
    then b'/' ∷ join (clean_elements true [] (split s b'/')) b'/'
    else or_dot (clean_elements false [] (split (c ∷ s) b'/'))

-- filepath.Join(dir, name)
unfoldable pub join_path : Text → Text → Text
unfolding clean
join_path [] [] = []
join_path [] (c ∷ s) = clean (c ∷ s)
join_path (d ∷ dir) name = clean ((d ∷ dir) ++ b'/' ∷ name)
