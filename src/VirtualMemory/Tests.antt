-- ===== src/VirtualMemory/Tests.antt =====
-- Page tables at work.
use ut_os.Base.{
  inr, IsOther, List, [], ◌∷◌, ap, ◌⊎◌, Bool-cases, ◌==◌, ==→eq, Bool, ℕ, ◌+◌, ◌*◌, ◌%◌, ◌≤◌, ◌<◌,
  ◌≡◌, ◌≢◌, refl, sym, subst, ◌∙◌, inl, true, false, some, arith,
}
use ut_os.Strings.{Memory, store_word}
use ut_os.Kalloc.{Kmem, page_size, page_round_up}
use ut_os.Kalloc.Chain.{IsPage, IsFreeList}
use ut_os.VirtualMemory.{page_table, walkpgdir, mappages}
use ut_os.VirtualMemory.User.{allocuvm, deallocuvm}
use ut_os.VirtualMemory.Alloc.{AllocEnd, pages_between, allocuvm_lem}
use ut_os.VirtualMemory.Frames.{IsWithin, IsOwned}
use ut_os.VirtualMemory.Freeing.{Deallocated}
use ut_os.VirtualMemory.Dealloc.{deallocuvm_lem}
use ut_os.VirtualMemory.Entry.{p2v, pte_addr, pdx, is_present, page_round_down}
use ut_os.VirtualMemory.Space.{
  IsTable, IsApart, entry_of-page, slot_of, slot_of-store_ne, entry_of, entry_of-absent, IsSpace,
}
use ut_os.VirtualMemory.Find.{WalkEnd, walkpgdir_lem}
use ut_os.VirtualMemory.Mapping.{MapEnd}
use ut_os.VirtualMemory.Calls.{more_pages, mappages_lem}

abbrev pub kernel_end : ℕ
kernel_end = 0x80108000

abbrev pub dir : ℕ
dir = 0x80400000

abbrev pub other_dir : ℕ
other_dir = 0x80401000

abbrev pub first_page : ℕ
first_page = 0x80402000

abbrev pub second_page : ℕ
second_page = 0x80403000

-- Two free pages behind two empty directories.
abbrev pub bytes : Memory
bytes = store_word (λ x. 0) first_page second_page

abbrev pub pages : Kmem
pages = record { mem = bytes; use_lock = true; freelist = first_page }

pub in_range-IsPage : (v : ℕ) → v % page_size ≡ 0 → dir ≤ v → v < 0x80500000 → IsPage kernel_end v
in_range-IsPage v a l h = record {
  aligned = a;
  behind_kernel = omega arith;
  in_memory = omega arith;
  not_null = omega arith;
  word = omega arith;
}

zero_slot : (q j : ℕ) → slot_of (λ x. 0) q j ≡ 0
unfolding slot_of
zero_slot q j = refl

empty_slot : (q j : ℕ) → q % page_size ≡ 0 → first_page ≢ q → j < 1024 → slot_of bytes q j ≡ 0
empty_slot q j a n h =
    slot_of-store_ne (λ x. 0) first_page 0 q j second_page refl a (omega arith) h (inl n)
    ∙ zero_slot q j

pub absent :
    (q j : ℕ)
    → q % page_size ≡ 0
    → first_page ≢ q
    → j < 1024
    → is_present (slot_of bytes q j) ≡ false
absent q j a n h = subst (λ y. is_present y ≡ false) (sym (empty_slot q j a n h)) refl

pub free_pages : IsFreeList kernel_end pages (first_page ∷ second_page ∷ [])
free_pages = (
  refl,
  in_range-IsPage first_page refl (omega arith) (omega arith),
  (omega arith, tt),
  (refl, in_range-IsPage second_page refl (omega arith) (omega arith), tt, refl),
)

pub empty-IsSpace :
    (d : ℕ)
    → d % page_size ≡ 0
    → dir ≤ d
    → d < first_page
    → IsSpace kernel_end bytes d (first_page ∷ second_page ∷ [])
empty-IsSpace d a l h =
    let n : first_page ≢ d = omega arith in
    record {
      dir = in_range-IsPage d a l (omega arith);
      dir_not_free = (omega arith, (omega arith, tt));
      table = λ j hj p. absurd (clash (is_present (slot_of bytes d j)) p (absent d j a n hj));
      distinct =
          λ i j hi hj ne p q. absurd (clash (is_present (slot_of bytes d i)) p (absent d i a n hi));
    }
  where
    clash : (b : Bool) → b ≡ true → b ≡ false → ⊥
    clash b p q = cc

pub empty_entry : (d x : ℕ) → d % page_size ≡ 0 → d < first_page → entry_of bytes d x ≡ 0
empty_entry d x a h = entry_of-absent bytes d x (absent d (pdx x) a (omega arith) (omega arith))

walkpgdir_lem_example :
    let (k', pte) = walkpgdir pages dir 0x3000 true in
    WalkEnd kernel_end pages dir 0x3000 (first_page ∷ second_page ∷ []) k' pte
walkpgdir_lem_example =
    walkpgdir_lem kernel_end pages dir 0x3000 (first_page ∷ second_page ∷ [])
      (empty-IsSpace dir refl (omega arith) (omega arith)) free_pages

mappages_lem_example :
    (r : ℕ × Kmem) × (mappages pages dir 0x1080 0x2000 0x500000 6 ≡ some r)
    × MapEnd kernel_end pages dir
        (page_round_down 0x1080)
        (more_pages 0x1080 0x2000)
        (first_page ∷ second_page ∷ [])
        0x500000
        6
        r
mappages_lem_example =
    mappages_lem kernel_end pages dir 0x1080 0x2000 0x500000 6 (first_page ∷ second_page ∷ [])
      (omega arith) (omega arith) (omega arith)
      (λ i l.
        subst (λ y. is_present y ≡ false)
          (sym (empty_entry dir (page_round_down 0x1080 + i * page_size) refl (omega arith))) refl)
      (empty-IsSpace dir refl (omega arith) (omega arith)) free_pages

-- A directory with one table, which maps one page.
abbrev table_page : ℕ
table_page = 0x80404000

abbrev user_page : ℕ
user_page = 0x80405000

abbrev dir_bytes : Memory
dir_bytes = store_word bytes dir 0x404007

abbrev mapped_bytes : Memory
mapped_bytes = store_word dir_bytes table_page 0x405007

abbrev mapped : Kmem
mapped = record { mem = mapped_bytes; use_lock = true; freelist = first_page }

-- The store to the table and that to the directory leave other entries alone.
mapped_slot :
    (q j : ℕ)
    → q % page_size ≡ 0
    → j < 1024
    → (table_page ≢ q) ⊎ (0 ≢ j)
    → (dir ≢ q) ⊎ (0 ≢ j)
    → first_page ≢ q
    → slot_of mapped_bytes q j ≡ 0
mapped_slot q j a h t d n =
    slot_of-store_ne dir_bytes table_page 0 q j 0x405007 refl a (omega arith) h t
    ∙ (slot_of-store_ne bytes dir 0 q j 0x404007 refl a (omega arith) h d ∙ empty_slot q j a n h)

first_slot : slot_of mapped_bytes dir 0 ≡ 0x404007
unfolding slot_of
first_slot = refl

later_slot : (j : ℕ) → j < 1024 → 0 ≢ j → is_present (slot_of mapped_bytes dir j) ≡ false
later_slot j h n =
    subst (λ y. is_present y ≡ false) (sym (mapped_slot dir j refl h (inr n) (inr n) (omega arith)))
      refl

only_first : (j : ℕ) → j < 1024 → is_present (slot_of mapped_bytes dir j) ≡ true → 0 ≡ j
only_first j h p = elim (Bool-cases (0 == j)) [
  | inl e ↦ ==→eq 0 j e
  | inr e ↦ absurd (ground (arith, later_slot j h (ground (arith, e)), p))
]

mapped-table :
    (j : ℕ)
    → j < 1024
    → is_present (slot_of mapped_bytes dir j) ≡ true
    → page_table (slot_of mapped_bytes dir j) ≡ table_page
mapped-table j h p =
    subst (λ x. page_table (slot_of mapped_bytes dir x) ≡ table_page) (only_first j h p)
      (ap (λ y. page_table y) first_slot)

mapped-IsSpace : IsSpace kernel_end mapped_bytes dir (first_page ∷ second_page ∷ [])
mapped-IsSpace = record {
  dir = in_range-IsPage dir refl (omega arith) (omega arith);
  dir_not_free = (omega arith, (omega arith, tt));
  table = λ j hj p.
      subst (λ t. IsTable kernel_end dir (first_page ∷ second_page ∷ []) t)
        (sym (mapped-table j hj p))
        (record {
          page = in_range-IsPage table_page refl (omega arith) (omega arith);
          not_free = (omega arith, (omega arith, tt));
          not_dir = omega arith;
        });
  distinct = λ i j hi hj ne p q. absurd (omega (arith, only_first i hi p, only_first j hj q, ne));
}

mapped-free : IsFreeList kernel_end mapped (first_page ∷ second_page ∷ [])
mapped-free = (
  refl,
  in_range-IsPage first_page refl (omega arith) (omega arith),
  (omega arith, tt),
  (refl, in_range-IsPage second_page refl (omega arith) (omega arith), tt, refl),
)

mapped_entry : (x : ℕ) → x < 4096 → entry_of mapped_bytes dir x ≡ 0x405007
unfolding entry_of
mapped_entry x h = entry_of-page mapped_bytes dir x 0 (omega arith) ∙ at_zero
  where
    at_zero : entry_of mapped_bytes dir 0 ≡ 0x405007
    at_zero = refl

mapped-IsApart : IsApart mapped_bytes dir user_page
mapped-IsApart =
    (omega arith, λ j hj p. subst (λ t. t ≢ user_page) (sym (mapped-table j hj p)) (omega arith))

mapped-IsOwned : IsOwned kernel_end mapped_bytes dir (first_page ∷ second_page ∷ []) 0 0x800
mapped-IsOwned = record {
  page = λ x w p.
      subst (λ y. IsPage kernel_end (p2v (pte_addr y))) (sym (mapped_entry x (low x w)))
        (in_range-IsPage user_page refl (omega arith) (omega arith));
  not_free = λ x w p.
      subst (λ y. IsOther (p2v (pte_addr y)) (first_page ∷ second_page ∷ []))
        (sym (mapped_entry x (low x w))) (omega arith, (omega arith, tt));
  not_table = λ x w p.
      subst (λ y. IsApart mapped_bytes dir (p2v (pte_addr y))) (sym (mapped_entry x (low x w)))
        mapped-IsApart;
  once = λ x y v w n p q. absurd (omega (arith, low x v, low y w, n));
}
  where
    low : (x : ℕ) → IsWithin 0 0x800 x → x < 4096
    low x w = omega (arith, w.1)

deallocuvm_lem_example :
    (k' : Kmem) × ((ps' : List ℕ) × ((deallocuvm kernel_end mapped dir 0x800 0 ≡ some (0, k'))
        × Deallocated kernel_end mapped dir
            (page_round_up 0)
            0x800
            (first_page ∷ second_page ∷ [])
            k'
            ps'))
deallocuvm_lem_example =
    deallocuvm_lem kernel_end (omega arith) mapped dir 0x800 0 (first_page ∷ second_page ∷ [])
      (omega arith) (omega arith) mapped-IsSpace mapped-free mapped-IsOwned

allocuvm_lem_example :
    (r : ℕ × Kmem) × ((allocuvm kernel_end pages dir 0x1800 0x2800 ≡ some r)
      × AllocEnd kernel_end
          (omega arith)
          (record { mem = pages.mem; pages = first_page ∷ second_page ∷ [] })
          dir
          (page_round_up 0x1800)
          0x2800
          2
          (pages_between 0x1800 0x2800)
          r)
allocuvm_lem_example =
    allocuvm_lem kernel_end (omega arith) pages dir 0x1800 0x2800 (first_page ∷ second_page ∷ [])
      (omega arith) (omega arith) (λ x w. empty_entry dir x refl (omega arith))
      (empty-IsSpace dir refl (omega arith) (omega arith)) free_pages
