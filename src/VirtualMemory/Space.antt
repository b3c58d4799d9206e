-- ===== src/VirtualMemory/Space.antt =====
-- vm.c: a page directory and its tables in memory, and how stores and free pages touch them.
use ut_os.Base.{
  ℕ, ◌+◌, ◌*◌, ◌/◌, ◌%◌, ◌<◌, ◌^◌, ◌≡◌, ◌≢◌, ◌⊎◌, inl, inr, refl, ap₂, true, false, if◌then◌else◌,
  List, [], ◌∷◌, In, IsOther, arith,
}
use ut_os.Strings.{Memory, store_word, memset}
use ut_os.Strings.Fill.{memset_lem}
use ut_os.Kalloc.{page_size, load_word}
use ut_os.Kalloc.Chain.{IsPage, IsChain}
use ut_os.VirtualMemory.Entry.{pdx, ptx, is_present}
use ut_os.VirtualMemory.{page_table}

-- The entry `i` of the page at `p`.
unfoldable pub slot_of : Memory → ℕ → ℕ → ℕ
slot_of m p i = load_word m (p + 4 * i)

-- The page table entry of `va`, 0 where its table is missing.
unfoldable pub entry_of : Memory → ℕ → ℕ → ℕ
unfolding slot_of
entry_of m pgdir va =
    let e = slot_of m pgdir (pdx va) in
    if is_present e then slot_of m (page_table e) (ptx va) else 0

module _ (m : Memory) (pgdir va : ℕ) where
  pub entry_of-present :
      is_present (slot_of m pgdir (pdx va)) ≡ true
      → entry_of m pgdir va ≡ slot_of m (page_table (slot_of m pgdir (pdx va))) (ptx va)
  unfolding entry_of
  entry_of-present h = rw h refl

  pub entry_of-absent : is_present (slot_of m pgdir (pdx va)) ≡ false → entry_of m pgdir va ≡ 0
  unfolding entry_of
  entry_of-absent h = rw h refl

-- The entry of an address is that of its page.
pub entry_of-page :
    (m : Memory) (pgdir x y : ℕ)
    → x / page_size ≡ y / page_size
    → entry_of m pgdir x ≡ entry_of m pgdir y
unfolding entry_of
entry_of-page m pgdir x y h =
    let d : pdx x ≡ pdx y = omega arith in
    let t : ptx x ≡ ptx y = omega arith in
    ap₂ (λ i j. let e = slot_of m pgdir i in if is_present e then slot_of m (page_table e) j else 0)
      d t

pub slot_of-store :
    (m : Memory) (p i w : ℕ) → w < 2 ^ 32 → slot_of (store_word m (p + 4 * i) w) p i ≡ w
unfolding slot_of
slot_of-store m p i w h = ground arith

-- A store to an entry of one page changes no other entry of any page.
pub slot_of-store_ne :
    (m : Memory) (p i q j w : ℕ)
    → p % page_size ≡ 0
    → q % page_size ≡ 0
    → i < 1024
    → j < 1024
    → (p ≢ q) ⊎ (i ≢ j)
    → slot_of (store_word m (p + 4 * i) w) q j ≡ slot_of m q j
unfolding slot_of
slot_of-store_ne m p i q j w a b hi hj d = ground arith

pub slot_of-memset : (m : Memory) (p i : ℕ) → i < 1024 → slot_of (memset m p 0 page_size) p i ≡ 0
unfolding slot_of
slot_of-memset m p i h =
    rw
      (
        memset_lem m p 0 page_size (p + 4 * i),
        memset_lem m p 0 page_size (p + 4 * i + 1),
        memset_lem m p 0 page_size (p + 4 * i + 2),
        memset_lem m p 0 page_size (p + 4 * i + 3),
      )
      (ground arith)

pub slot_of-memset_ne :
    (m : Memory) (p c q i : ℕ)
    → p % page_size ≡ 0
    → q % page_size ≡ 0
    → i < 1024
    → p ≢ q
    → slot_of (memset m p c page_size) q i ≡ slot_of m q i
unfolding slot_of
slot_of-memset_ne m p c q i a b h d =
    rw
      (
        memset_lem m p c page_size (q + 4 * i),
        memset_lem m p c page_size (q + 4 * i + 1),
        memset_lem m p c page_size (q + 4 * i + 2),
        memset_lem m p c page_size (q + 4 * i + 3),
      )
      (ground arith)

-- The page `q` is neither the directory nor one of its tables.
abbrev pub IsApart : Memory → ℕ → ℕ → Type 0
IsApart m pgdir q =
    (q ≢ pgdir)
    × ((j : ℕ)
        → j < 1024
        → is_present (slot_of m pgdir j) ≡ true
        → page_table (slot_of m pgdir j) ≢ q)

module _ (kernel_end : ℕ) where
  -- A chain of free pages depends on the first words of its pages only.
  pub IsChain-same :
      (ps : List ℕ) (m m' : Memory) (head : ℕ)
      → ((p : ℕ) → In p ps → load_word m' p ≡ load_word m p)
      → IsChain kernel_end m head ps
      → IsChain kernel_end m' head ps
  IsChain-same [] m m' head f c = c
  IsChain-same (p ∷ ps) m m' head f c = (
    c.0,
    c.1,
    c.2,
    rw (f p (inl refl)) (IsChain-same ps m m' (load_word m p) (λ q i. f q (inr i)) c.3),
  )

  pub IsChain-IsPage :
      (ps : List ℕ) (m : Memory) (head p : ℕ)
      → IsChain kernel_end m head ps
      → In p ps
      → IsPage kernel_end p
  IsChain-IsPage [] m head p c i = elim i [ ]
  IsChain-IsPage (q ∷ ps) m head p c (inl e) = rw e c.1
  IsChain-IsPage (q ∷ ps) m head p c (inr i) = IsChain-IsPage ps m (load_word m q) p c.3 i

  -- The table of the directory entry `e` is a page that is neither free nor the directory.
  pub record IsTable (pgdir : ℕ) (ps : List ℕ) (t : ℕ) : Type 0 where
    pub page : IsPage kernel_end t
    pub not_free : IsOther t ps
    pub not_dir : t ≢ pgdir

  -- A directory whose tables are pages of their own, apart from the free pages `ps`.
  pub record IsSpace (m : Memory) (pgdir : ℕ) (ps : List ℕ) : Type 0 where
    pub dir : IsPage kernel_end pgdir
    pub dir_not_free : IsOther pgdir ps
    pub table :
        (i : ℕ)
        → i < 1024
        → is_present (slot_of m pgdir i) ≡ true
        → IsTable pgdir ps (page_table (slot_of m pgdir i))
    pub distinct :
        (i j : ℕ)
        → i < 1024
        → j < 1024
        → i ≢ j
        → is_present (slot_of m pgdir i) ≡ true
        → is_present (slot_of m pgdir j) ≡ true
        → page_table (slot_of m pgdir i) ≢ page_table (slot_of m pgdir j)
