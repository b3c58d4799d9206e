-- ===== src/FileSystem/Names.antt =====
-- fs.c: the path elements. A loop over a path has fuel; none means that it did not meet the end.
use ut_os.Base.{
  ℕ, zero, suc, ◌+◌, ◌-◌, ◌==◌, leb, true, false, ◌&&◌, not, if◌then◌else◌, Option, none, some,
}
use ut_os.Strings.{Memory, store, memmove, strncmp}

-- DIRSIZ of fs.h.
abbrev pub dir_size : ℕ
dir_size = 14

-- The character `/`.
abbrev pub slash : ℕ
slash = 47

unfoldable pub namecmp : Memory → ℕ → ℕ → ℕ
namecmp m s t = strncmp m s t dir_size

-- `while(*path == '/') path++;`
unfoldable pub skip_slashes : ℕ → Memory → ℕ → Option ℕ
skip_slashes zero m p = none
skip_slashes (suc fuel) m p =
    let rest = skip_slashes fuel m (p + 1) in if m p == slash then rest else some p

-- `while(*path != '/' && *path != 0) path++;`
unfoldable pub element_end : ℕ → Memory → ℕ → Option ℕ
element_end zero m p = none
element_end (suc fuel) m p =
    let rest = element_end fuel m (p + 1) in
    if not (m p == slash) && not (m p == 0) then rest else some p

-- The copy of the element from `s` to `path` into `name`.
abbrev pub copy_name : Memory → ℕ → ℕ → ℕ → Memory
copy_name m name s len =
    if leb dir_size len
    then memmove m name s dir_size
    else store (memmove m name s len) (name + len) 0

-- The address is 0 for a path without an element.
unfoldable pub skipelem : ℕ → Memory → ℕ → ℕ → Option (ℕ × Memory)
unfolding skip_slashes element_end
skipelem fuel m path name = elim (skip_slashes fuel m path) [
  | none ↦ none
  | some s ↦ elim (m s == 0) [
    | true ↦ some (0, m)
    | false ↦ elim (element_end fuel m s) [
      | none ↦ none
      | some e ↦ elim (skip_slashes fuel (copy_name m name s (e - s)) e) [
        | none ↦ none
        | some q ↦ some (q, copy_name m name s (e - s))
      ]
    ]
  ]
]
