-- ===== src/VirtualMemory/Calls.antt =====
-- mappages, unmappages, uva2ka and clearpteu of vm.c, call by call.
use ut_os.Base.{
  [], ◌⊎◌, minus_one, ℕ, suc, ◌+◌, ◌-◌, ◌*◌, ◌/◌, ◌%◌, ◌≤◌, ◌<◌, ◌^◌, ◌≡◌, ◌≢◌, inl, inr, refl, sym,
  subst, ◌∙◌, ap, ap₂, Bool, Bool-cases, true, false, ◌==◌, ne→==, eq→==, some, if◌then◌else◌, List,
  ◌∷◌, length, wrap, sub_word, arith,
}
use ut_os.Strings.{Memory}
use ut_os.Kalloc.{Kmem, page_size, load_word}
use ut_os.Kalloc.Chain.{IsFreeList}
use ut_os.VirtualMemory.Entry.{p2v, pdx, ptx, pte_addr, is_present, is_user, page_round_down}
use ut_os.VirtualMemory.{
  page_table, set_pte, walkpgdir, map_pages, mappages, unmap_pages, unmappages, uva2ka,
}
use ut_os.VirtualMemory.Masks.{flagged, flagged_lem}
use ut_os.VirtualMemory.Space.{
  slot_of, entry_of, entry_of-present, entry_of-absent, entry_of-page, IsSpace,
}
use ut_os.VirtualMemory.Find.{walk-present}
use ut_os.VirtualMemory.Change.{Changed, Changed-eq, entered, set_pte-Changed}
use ut_os.VirtualMemory.Rounds.{filled, filled-zero, load-slot_of}
use ut_os.VirtualMemory.Mapping.{MapEnd, map_pages_lem}

-- The table of an address that has an entry is there.
pub table-present :
    (m : Memory) (pgdir va : ℕ)
    → entry_of m pgdir va ≢ 0
    → is_present (slot_of m pgdir (pdx va)) ≡ true
table-present m pgdir va h = elim (Bool-cases (is_present (slot_of m pgdir (pdx va)))) [
  | inl e ↦ e
  | inr e ↦ absurd (h (entry_of-absent m pgdir va e))
]

pub present-nonzero : (e : ℕ) → is_present e ≡ true → e ≢ 0
present-nonzero e h = ground arith

-- The number of pages after the first one that a range touches.
abbrev pub more_pages : ℕ → ℕ → ℕ
more_pages va size = (va + size - 1) / page_size - va / page_size

-- What a walk to an entry whose table is there reads.
pub walk-entry :
    (k : Kmem) (pgdir va : ℕ)
    → is_present (slot_of k.mem pgdir (pdx va)) ≡ true
    → load_word k.mem (page_table (slot_of k.mem pgdir (pdx va)) + 4 * ptx va)
      ≡ entry_of k.mem pgdir va
walk-entry k pgdir va h =
    load-slot_of k.mem (page_table (slot_of k.mem pgdir (pdx va))) (ptx va)
    ∙ sym (entry_of-present k.mem pgdir va h)

-- uva2ka of an address with a present entry gives the kernel address of the page that the entry names
-- when the page is the user's, and null otherwise.
pub uva2ka_lem :
    (k : Kmem) (pgdir va : ℕ)
    → is_present (entry_of k.mem pgdir va) ≡ true
    → uva2ka k pgdir va
      ≡ (if is_user (entry_of k.mem pgdir va) then p2v (pte_addr (entry_of k.mem pgdir va)) else 0)
unfolding uva2ka
uva2ka_lem k pgdir va h =
    let there = table-present k.mem pgdir va (present-nonzero (entry_of k.mem pgdir va) h) in
    rw (walk-present k pgdir va false there, walk-entry k pgdir va there) (ground arith)

module _ (va size : ℕ) (hs : 0 < size) (hv : va + size ≤ 2 ^ 32) where
  last_page :
      page_round_down (sub_word (wrap (va + size)) 1)
      ≡ page_round_down va + more_pages va size * page_size
  last_page = omega arith

  rounds_lem :
      suc (
        sub_word (page_round_down (sub_word (wrap (va + size)) 1)) (page_round_down va) / page_size)
      ≡ suc (more_pages va size)
  rounds_lem = omega arith

length-zero : (xs : List ℕ) → length xs ≤ 0 → xs ≡ []
length-zero [] h = refl
length-zero (x ∷ xs) h = absurd (omega arith)

below_or_not : (x a n : ℕ) → n ≡ 0 → (x < a) ⊎ (a + n * page_size ≤ x)
below_or_not x a n h = ground arith

only : (va i : ℕ) → va % page_size ≡ 0 → i ≤ 0 → page_round_down va + i * page_size ≡ va
only va i al h = omega arith

down : (va : ℕ) → va % page_size ≡ 0 → page_round_down va ≡ va
down va al = omega arith

pub if_same : (b : Bool) (x y : ℕ) → b ≡ true → (if b then x else y) ≡ x
if_same b x y h = rw h refl

-- An entry set and then cleared, which was 0.
pub back :
    (x va e e1 w : ℕ)
    → e1 ≡ (if x / page_size == va / page_size then w else e)
    → (x / page_size ≡ va / page_size → e ≡ 0)
    → (if x / page_size == va / page_size then 0 else e1) ≡ e
back x va e e1 w h z = ground arith

-- The last round of unmappages.
unmap_found :
    (f : ℕ) (k : Kmem) (pgdir a : ℕ)
    → (walkpgdir k pgdir a true).1 ≢ 0
    → load_word (walkpgdir k pgdir a true).0.mem (walkpgdir k pgdir a true).1 ≢ 0
    → unmap_pages (suc f) k pgdir a a
      ≡ some (0, set_pte (walkpgdir k pgdir a true).0 (walkpgdir k pgdir a true).1 0)
unfolding unmap_pages
unmap_found f k pgdir a n e =
    rw
      (
        ne→== (walkpgdir k pgdir a true).1 0 n,
        ne→== (load_word (walkpgdir k pgdir a true).0.mem (walkpgdir k pgdir a true).1) 0 e,
        eq→== a a refl,
        unmap_pages,
      )
      refl

unmap_last :
    (f : ℕ) (k : Kmem) (pgdir a pte : ℕ)
    → walkpgdir k pgdir a true ≡ (k, pte)
    → pte ≢ 0
    → load_word k.mem pte ≢ 0
    → unmap_pages (suc f) k pgdir a a ≡ some (0, set_pte k pte 0)
unmap_last f k pgdir a pte w =
    subst
      (λ (p : Kmem × ℕ).
        p.1 ≢ 0
        → load_word p.0.mem p.1 ≢ 0
        → unmap_pages (suc f) k pgdir a a ≡ some (0, set_pte p.0 p.1 0))
      w (unmap_found f k pgdir a)

unmap_one :
    (k : Kmem) (pgdir va pte : ℕ)
    → va % page_size ≡ 0
    → va < 2 ^ 32
    → walkpgdir k pgdir va true ≡ (k, pte)
    → pte ≢ 0
    → load_word k.mem pte ≢ 0
    → unmappages k pgdir va page_size ≡ some (0, set_pte k pte 0)
unfolding unmappages
unmap_one k pgdir va pte al hv w n e =
    let down_ : page_round_down va ≡ va = omega arith in
    let last : page_round_down (sub_word (wrap (va + page_size)) 1) ≡ va = omega arith in
    rw (down_, last) (unmap_last (sub_word va va / page_size) k pgdir va pte w n e)

module _ (kernel_end : ℕ) where
  -- mappages of a range that does not wrap around, none of whose pages is mapped, returns; it maps
  -- each page of the range to the page of physical memory in step with it and changes no other entry,
  -- or it returns -1 when the pages for tables run out.
  pub mappages_lem :
      (k : Kmem) (pgdir va size pa perm : ℕ) (ps : List ℕ)
      → 0 < size
      → va + size ≤ 2 ^ 32
      → pa < 2 ^ 32
      → ((i : ℕ)
          → i ≤ more_pages va size
          → is_present (entry_of k.mem pgdir (page_round_down va + i * page_size)) ≡ false)
      → IsSpace kernel_end k.mem pgdir ps
      → IsFreeList kernel_end k ps
      → (r : ℕ × Kmem) × (mappages k pgdir va size pa perm ≡ some r)
        × MapEnd kernel_end k pgdir (page_round_down va) (more_pages va size) ps pa perm r
  unfolding mappages
  mappages_lem k pgdir va size pa perm ps hs hv hp free s c =
      let a = page_round_down va in
      let n = more_pages va size in
      let last = page_round_down (sub_word (wrap (va + size)) 1) in
      let last_is : last ≡ a + n * page_size = last_page va size hs hv in
      let rounds : suc (sub_word last a / page_size) ≡ suc n = rounds_lem va size hs hv in
      let (r, ran, end) =
        map_pages_lem kernel_end n (suc n) k pgdir a pa perm ps (omega arith) (omega arith)
          (omega arith) hp free s c in
      (r, ap₂ (λ f l. map_pages f k pgdir a l pa perm) rounds last_is ∙ ran, end)

  -- What mappages does with one page: it sets the entry, or no page is free for the table.
  pub data MapOne (k : Kmem) (pgdir va pa perm : ℕ) (ps : List ℕ) (r : ℕ × Kmem) : Type 0 where
    set_one :
        (ps' : List ℕ)
        → r.0 ≡ 0
        → length ps ≤ length ps' + 1
        → Changed kernel_end k pgdir ps ps' r.1
            (entered (λ x. entry_of k.mem pgdir x) va (flagged pa perm))
        → MapOne k pgdir va pa perm ps r
    no_table :
        r.0 ≡ minus_one
        → ps ≡ []
        → Changed kernel_end k pgdir ps [] r.1 (λ x. entry_of k.mem pgdir x)
        → MapOne k pgdir va pa perm ps r

  pub map_single :
      (k : Kmem) (pgdir va pa perm : ℕ) (ps : List ℕ)
      → va % page_size ≡ 0
      → va + page_size ≤ 2 ^ 32
      → pa < 2 ^ 32
      → entry_of k.mem pgdir va ≡ 0
      → IsSpace kernel_end k.mem pgdir ps
      → IsFreeList kernel_end k ps
      → (r : ℕ × Kmem) × ((mappages k pgdir va page_size pa perm ≡ some r)
          × MapOne k pgdir va pa perm ps r)
  map_single k pgdir va pa perm ps al hv hp e s c =
      let zero_more : more_pages va page_size ≡ 0 = omega arith in
      let (r, ran, end) =
        mappages_lem k pgdir va page_size pa perm ps (omega arith) hv hp
          (λ i l.
            subst (λ y. is_present y ≡ false)
              (sym (ap (λ y. entry_of k.mem pgdir y) (only va i al (omega arith)) ∙ e)) refl)
          s c in
      (
        r,
        (
          ran,
          elim end [
            | inl f ↦ no_table f.result (length-zero ps (omega (arith, f.few, zero_more))) (
                Changed-eq kernel_end k pgdir ps [] r.1 (λ x. entry_of r.1.mem pgdir x)
                  (λ x. entry_of k.mem pgdir x)
                  (λ x l.
                    f.same x l
                      (below_or_not x (page_round_down va) (more_pages va page_size) zero_more))
                  f.change)
            | inr (ps', g) ↦ set_one ps' g.result (omega (arith, g.few, zero_more)) (
                Changed-eq kernel_end k pgdir ps ps' r.1
                  (filled (λ x. entry_of k.mem pgdir x) (page_round_down va)
                    (more_pages va page_size) pa perm)
                  (entered (λ x. entry_of k.mem pgdir x) va (flagged pa perm))
                  (λ x l.
                    ap₂ (λ b n. filled (λ y. entry_of k.mem pgdir y) b n pa perm x) (down va al)
                      zero_more
                    ∙ sym (filled-zero (λ y. entry_of k.mem pgdir y) va pa perm x al hp))
                  g.change)
          ],
        ),
      )

  -- mappages of one page whose entry is 0 succeeds while a page is free, and sets that entry and no
  -- other.
  pub map_one :
      (k : Kmem) (pgdir va pa perm p : ℕ) (ps : List ℕ)
      → va % page_size ≡ 0
      → va + page_size ≤ 2 ^ 32
      → pa < 2 ^ 32
      → entry_of k.mem pgdir va ≡ 0
      → IsSpace kernel_end k.mem pgdir (p ∷ ps)
      → IsFreeList kernel_end k (p ∷ ps)
      → (k' : Kmem) × (mappages k pgdir va page_size pa perm ≡ some (0, k'))
        × (ps' : List ℕ) × (length (p ∷ ps) ≤ length ps' + 1)
        × Changed kernel_end k pgdir
            (p ∷ ps)
            ps'
            k'
            (entered (λ x. entry_of k.mem pgdir x) va (flagged pa perm))
  map_one k pgdir va pa perm p ps al hv hp e s c =
      let (r, (ran, end)) = map_single k pgdir va pa perm (p ∷ ps) al hv hp e s c in
      elim end [
        | set_one ps' zero_now few change ↦
            (r.1, ran ∙ ap (λ x. some (x, r.1)) zero_now, ps', few, change)
        | no_table failed empty change ↦ absurd (omega (arith, ap length empty))
      ]

  -- unmappages of a page whose entry is not 0 clears that entry, and changes no other one.
  pub unmappages_lem :
      (k : Kmem) (pgdir va : ℕ) (ps : List ℕ)
      → va % page_size ≡ 0
      → va < 2 ^ 32
      → entry_of k.mem pgdir va ≢ 0
      → IsSpace kernel_end k.mem pgdir ps
      → IsFreeList kernel_end k ps
      → (k' : Kmem) × (unmappages k pgdir va page_size ≡ some (0, k'))
        × Changed kernel_end k pgdir ps ps k' (entered (λ x. entry_of k.mem pgdir x) va 0)
  unmappages_lem k pgdir va ps al hv n s c =
      let there = table-present k.mem pgdir va n in
      let pte = page_table (slot_of k.mem pgdir (pdx va)) + 4 * ptx va in
      let t = s.table (pdx va) (omega arith) there in
      (
        set_pte k pte 0,
        unmap_one k pgdir va pte al hv (walk-present k pgdir va true there)
            (omega (arith, t.page.not_null)) (λ e. n (sym (walk-entry k pgdir va there) ∙ e)),
        set_pte-Changed kernel_end k pgdir va 0 ps s c there hv (omega arith),
      )

  -- A page mapped and then unmapped leaves every entry as it was, where a page is free for the table.
  pub mappages-unmappages :
      (k : Kmem) (pgdir va pa perm p : ℕ) (ps : List ℕ)
      → va % page_size ≡ 0
      → va + page_size ≤ 2 ^ 32
      → pa % page_size ≡ 0
      → pa + page_size ≤ 2 ^ 32
      → perm < page_size
      → entry_of k.mem pgdir va ≡ 0
      → IsSpace kernel_end k.mem pgdir (p ∷ ps)
      → IsFreeList kernel_end k (p ∷ ps)
      → (k1 : Kmem) × (k2 : Kmem) × (mappages k pgdir va page_size pa perm ≡ some (0, k1))
        × (unmappages k1 pgdir va page_size ≡ some (0, k2))
        × ((x : ℕ) → x < 2 ^ 32 → entry_of k2.mem pgdir x ≡ entry_of k.mem pgdir x)
  mappages-unmappages k pgdir va pa perm p ps al hv aligned hp hf none_yet s c =
      let (k1, ran, ps', few, change) =
        map_one k pgdir va pa perm p ps al hv (omega arith) none_yet s c in
      let here : entry_of k1.mem pgdir va ≡ flagged pa perm =
        change.entries va (omega arith)
        ∙ if_same (va / page_size == va / page_size) (flagged pa perm) (entry_of k.mem pgdir va)
            (ground arith) in
      let (k2, ran2, change2) =
        unmappages_lem k1 pgdir va ps' al (omega arith)
          (λ e.
            present-nonzero (flagged pa perm) (flagged_lem pa perm aligned hp hf).0 (sym here ∙ e))
          change.space change.free in
      (
        k1,
        k2,
        ran,
        ran2,
        λ x hx.
            change2.entries x hx
            ∙ back x va (entry_of k.mem pgdir x) (entry_of k1.mem pgdir x) (flagged pa perm)
                (change.entries x hx) (λ e. entry_of-page k.mem pgdir x va e ∙ none_yet),
      )
