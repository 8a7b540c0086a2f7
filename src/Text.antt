-- ===== src/Text.antt =====
-- Go strings as lists of bytes, and what the source uses of the packages strings and strconv.
pub mod Laws
pub mod Number
use Prim.Native.Char.{code}
use Prim.Native.String.{String}
use libvirt_volume_provision.Base.{
  ℕ, zero, suc, ◌+◌, ◌-◌, List, [], ◌∷◌, ◌++◌, reverse, map, Bool, true, false, ◌&&◌, ◌||◌, ◌==◌,
  length, drop, if◌then◌else◌,
}

abbrev pub Text : Type 0
Text = List ℕ

-- The bytes of an ASCII literal.
abbrev pub codes : String → Text
codes String.[] = []
codes (String.◌∷◌ c s) = code c ∷ codes s

-- A text, or another one where it is empty, as for the variables of the environment.
abbrev pub or_text : Text → Text → Text
or_text [] d = d
or_text (c ∷ s) d = c ∷ s

unfoldable pub text_eq : Text → Text → Bool
text_eq [] [] = true
text_eq (a ∷ s) (b ∷ t) = a == b && text_eq s t
text_eq _ _ = false

-- strings.HasPrefix(s, prefix)
unfoldable pub has_prefix : Text → Text → Bool
has_prefix s [] = true
has_prefix [] (p ∷ ps) = false
has_prefix (c ∷ s) (p ∷ ps) = c == p && has_prefix s ps

-- strings.TrimPrefix(s, prefix)
unfoldable pub trim_prefix : Text → Text → Text
trim_prefix s prefix = if has_prefix s prefix then drop (length prefix) s else s

-- strings.TrimSuffix(s, suffix)
unfoldable pub trim_suffix : Text → Text → Text
trim_suffix s suffix = reverse (trim_prefix (reverse s) (reverse suffix))

-- strings.Contains(s, sub)
unfoldable pub contains : Text → Text → Bool
contains [] sub = has_prefix [] sub
contains (c ∷ s) sub = has_prefix (c ∷ s) sub || contains s sub

-- strings.ContainsAny(s, chars)
unfoldable pub contains_byte : Text → ℕ → Bool
contains_byte [] b = false
contains_byte (c ∷ s) b = c == b || contains_byte s b

unfoldable pub contains_any : Text → Text → Bool
contains_any s [] = false
contains_any s (b ∷ chars) = contains_byte s b || contains_any s chars

-- strings.Split(s, sep) for a separator of one byte.
abbrev cons_head : ℕ → List Text → List Text
cons_head c [] = (c ∷ []) ∷ []
cons_head c (p ∷ ps) = (c ∷ p) ∷ ps

unfoldable pub split : Text → ℕ → List Text
split [] sep = [] ∷ []
split (c ∷ s) sep = let rest = split s sep in if c == sep then [] ∷ rest else cons_head c rest

-- strings.Join(parts, sep)
unfoldable pub join : List Text → ℕ → Text
join [] sep = []
join (p ∷ []) sep = p
join (p ∷ q ∷ ps) sep = p ++ sep ∷ join (q ∷ ps) sep

-- strings.ReplaceAll(s, old, new) for texts of one byte.
unfoldable pub replace_all : Text → ℕ → ℕ → Text
replace_all [] old new = []
replace_all (c ∷ s) old new = (if c == old then new else c) ∷ replace_all s old new

-- The UTF-8 encodings of the code points that unicode.IsSpace accepts.
abbrev pub spaces : List Text
spaces =
    (0x09 ∷ [])
    ∷ (0x0a ∷ [])
    ∷ (0x0b ∷ [])
    ∷ (0x0c ∷ [])
    ∷ (0x0d ∷ [])
    ∷ (0x20 ∷ [])
    ∷ (0xc2 ∷ 0x85 ∷ [])
    ∷ (0xc2 ∷ 0xa0 ∷ [])
    ∷ (0xe1 ∷ 0x9a ∷ 0x80 ∷ [])
    ∷ (0xe2 ∷ 0x80 ∷ 0x80 ∷ [])
    ∷ (0xe2 ∷ 0x80 ∷ 0x81 ∷ [])
    ∷ (0xe2 ∷ 0x80 ∷ 0x82 ∷ [])
    ∷ (0xe2 ∷ 0x80 ∷ 0x83 ∷ [])
    ∷ (0xe2 ∷ 0x80 ∷ 0x84 ∷ [])
    ∷ (0xe2 ∷ 0x80 ∷ 0x85 ∷ [])
    ∷ (0xe2 ∷ 0x80 ∷ 0x86 ∷ [])
    ∷ (0xe2 ∷ 0x80 ∷ 0x87 ∷ [])
    ∷ (0xe2 ∷ 0x80 ∷ 0x88 ∷ [])
    ∷ (0xe2 ∷ 0x80 ∷ 0x89 ∷ [])
    ∷ (0xe2 ∷ 0x80 ∷ 0x8a ∷ [])
    ∷ (0xe2 ∷ 0x80 ∷ 0xa8 ∷ [])
    ∷ (0xe2 ∷ 0x80 ∷ 0xa9 ∷ [])
    ∷ (0xe2 ∷ 0x80 ∷ 0xaf ∷ [])
    ∷ (0xe2 ∷ 0x81 ∷ 0x9f ∷ [])
    ∷ (0xe3 ∷ 0x80 ∷ 0x80 ∷ [])
    ∷ []

-- How many bytes the encoding takes that the text begins with, 0 if it begins with none.
unfoldable pub space_len : List Text → Text → ℕ
space_len [] s = 0
space_len (e ∷ es) s = if has_prefix s e then length e else space_len es s

-- Drops `skip` bytes, then the encodings that stand at the front.
unfoldable pub trim_left : List Text → ℕ → Text → Text
trim_left es skip [] = []
trim_left es (suc k) (c ∷ s) = trim_left es k s
trim_left es zero (c ∷ s) = elim (space_len es (c ∷ s)) [ zero ↦ c ∷ s | suc k ↦ trim_left es k s ]

-- strings.TrimSpace
unfoldable pub trim_space : Text → Text
unfolding trim_left
trim_space s = reverse (trim_left (map reverse spaces) 0 (reverse (trim_left spaces 0 s)))

abbrev flush : Text → List Text → List Text
flush [] out = out
flush (c ∷ s) out = (c ∷ s) ∷ out

-- strings.Fields: `skip` bytes of a space are still to be passed, `cur` is the field so far.
unfoldable pub fields_from : ℕ → Text → Text → List Text
fields_from skip cur [] = flush cur []
fields_from (suc k) cur (c ∷ s) = fields_from k cur s
fields_from zero cur (c ∷ s) = elim (space_len spaces (c ∷ s)) [
  | zero ↦ fields_from zero (cur ++ c ∷ []) s
  | suc k ↦ flush cur (fields_from k [] s)
]

unfoldable pub fields : Text → List Text
unfolding fields_from
fields s = fields_from 0 [] s
