-- ===== src/VirtualMemory/Dealloc.antt =====
-- deallocuvm of vm.c: the pages it frees and the entries it clears.
use ut_os.Base.{
  ℕ, zero, suc, ◌+◌, ◌-◌, ◌*◌, ◌/◌, ◌%◌, ◌≤◌, ◌<◌, ◌^◌, ◌≡◌, ◌≢◌, inl, inr, refl, sym, subst, ◌∙◌,
  ap, ap₂, Bool-cases, true, false, ltb, leb, lt→ltb, ◌==◌, ne→==, some, none, Option, List, ◌∷◌,
  wrap, sub_word, arith,
}
use ut_os.Strings.{Memory}
use ut_os.Kalloc.{Kmem, page_size, kern_base, load_word, kfree, page_round_up}
use ut_os.Kalloc.Chain.{IsPage, IsFreeList}
use ut_os.VirtualMemory.Entry.{p2v, pdx, ptx, pgaddr, pte_addr, is_present}
use ut_os.VirtualMemory.{page_table, set_pte, walkpgdir}
use ut_os.VirtualMemory.User.{dealloc_pages, deallocuvm}
use ut_os.VirtualMemory.Space.{slot_of, entry_of, entry_of-absent, entry_of-page, IsSpace}
use ut_os.VirtualMemory.Find.{walk-present, walk-absent}
use ut_os.VirtualMemory.Calls.{walk-entry}
use ut_os.VirtualMemory.Frames.{frame_of, IsWithin, IsOwned, IsOwned-later}
use ut_os.VirtualMemory.Freeing.{
  entered_other, ahead, PageFreed, page_freed, Deallocated, Deallocated-none, Deallocated-skip,
  Deallocated-page,
}

pub next_page : (a hi : ℕ) → a < hi → hi ≤ kern_base → wrap (a + page_size) ≡ a + page_size
next_page a hi h l = omega arith

next_table :
    (a hi : ℕ)
    → a < hi
    → hi ≤ kern_base
    → wrap (sub_word (pgaddr (pdx a + 1)) page_size + page_size) ≡ (a / 4194304 + 1) * 4194304
next_table a hi h l = omega arith

no_entry :
    (m : Memory) (d a x : ℕ)
    → a ≤ x
    → x < (a / 4194304 + 1) * 4194304
    → is_present (slot_of m d (pdx a)) ≡ false
    → is_present (entry_of m d x) ≡ false
no_entry m d a x l u h =
    let same : pdx a ≡ pdx x = omega arith in
    subst (λ y. is_present y ≡ false)
      (sym (entry_of-absent m d x (subst (λ i. is_present (slot_of m d i) ≡ false) same h))) refl

module _ (kernel_end : ℕ) where
  module _ (f : ℕ) (d a hi : ℕ) where
    -- What a round does with the result of its walk.
    round : Kmem × ℕ → Option Kmem
    round (k1, pte) =
        let e = load_word k1.mem pte in
        elim (pte == 0) [
          | true ↦
              dealloc_pages kernel_end f k1 d
                (wrap (sub_word (pgaddr (pdx a + 1)) page_size + page_size)) hi
          | false ↦ elim (is_present e) [
            | false ↦ dealloc_pages kernel_end f k1 d (wrap (a + page_size)) hi
            | true ↦ elim (pte_addr e == 0) [
              | true ↦ none
              | false ↦ elim (kfree kernel_end k1 (p2v (pte_addr e))) [
                | none ↦ none
                | some k2 ↦
                    dealloc_pages kernel_end f (set_pte k2 pte 0) d (wrap (a + page_size)) hi
              ]
            ]
          ]
        ]

    dealloc_round :
        (k : Kmem)
        → a < hi
        → dealloc_pages kernel_end (suc f) k d a hi ≡ round (walkpgdir k d a false)
    unfolding dealloc_pages round
    dealloc_round k h = rw (lt→ltb a hi h, dealloc_pages) refl

    dealloc_done :
        (k : Kmem) → ltb a hi ≡ false → dealloc_pages kernel_end (suc f) k d a hi ≡ some k
    unfolding dealloc_pages
    dealloc_done k h = rw (h, dealloc_pages) refl

    round-absent :
        (k : Kmem)
        → round (k, 0)
          ≡ dealloc_pages kernel_end f k d
              (wrap (sub_word (pgaddr (pdx a + 1)) page_size + page_size))
              hi
    unfolding round
    round-absent k = refl

    round-unmapped :
        (k : Kmem) (pte : ℕ)
        → pte ≢ 0
        → is_present (load_word k.mem pte) ≡ false
        → round (k, pte) ≡ dealloc_pages kernel_end f k d (wrap (a + page_size)) hi
    unfolding round
    round-unmapped k pte n h = rw (ne→== pte 0 n, h, round) refl

    round-mapped :
        (k k2 : Kmem) (pte : ℕ)
        → pte ≢ 0
        → is_present (load_word k.mem pte) ≡ true
        → pte_addr (load_word k.mem pte) ≢ 0
        → kfree kernel_end k (p2v (pte_addr (load_word k.mem pte))) ≡ some k2
        → round (k, pte) ≡ dealloc_pages kernel_end f (set_pte k2 pte 0) d (wrap (a + page_size)) hi
    unfolding round
    round-mapped k k2 pte n h z r =
        rw (ne→== pte 0 n, h, ne→== (pte_addr (load_word k.mem pte)) 0 z, r, round) refl

  -- The owned pages from a later address on, with nothing changed.
  IsOwned-from :
      (m : Memory) (d : ℕ) (ps : List ℕ) (lo lo' hi : ℕ)
      → lo ≤ lo'
      → IsOwned kernel_end m d ps lo hi
      → IsOwned kernel_end m d ps lo' hi
  IsOwned-from m d ps lo lo' hi l o =
      IsOwned-later kernel_end m m d ps ps lo lo' hi l o (λ x w. refl)
        (λ x w p. o.not_free x ((omega (arith, w.0)), w.1, w.2) p)
        (λ x w p. o.not_table x ((omega (arith, w.0)), w.1, w.2) p)

  -- The pages behind the one that is freed stay owned.
  IsOwned-behind :
      (k k1 k2 : Kmem) (d lo hi pte : ℕ) (ps : List ℕ)
      → lo % page_size ≡ 0
      → lo < hi
      → lo < 2 ^ 32
      → is_present (entry_of k.mem d lo) ≡ true
      → PageFreed kernel_end k d lo ps k1 k2 pte
      → IsOwned kernel_end k.mem d ps lo hi
      → IsOwned kernel_end k2.mem d (frame_of k.mem d lo ∷ ps) (lo + page_size) hi
  IsOwned-behind k k1 k2 d lo hi pte ps al h hl p f o =
      IsOwned-later kernel_end k.mem k2.mem d ps (frame_of k.mem d lo ∷ ps) lo (lo + page_size) hi
        (omega arith) o
        (λ x w.
          f.entries x w.2
          ∙ entered_other (x / page_size == lo / page_size) (entry_of k.mem d x)
              (ahead x lo al w.0))
        (λ x w q.
          (let e = ahead x lo al w.0 in
            let wide : IsWithin lo hi x = ((omega (arith, w.0)), w.1, w.2) in
            (
              o.once x lo wide ((omega arith), (omega arith), hl) (ground (arith, e)) q p,
              o.not_free x wide q,
            )))
        (λ x w q.
          (let e = ahead x lo al w.0 in
            let wide : IsWithin lo hi x = ((omega (arith, w.0)), w.1, w.2) in
            f.tables (frame_of k.mem d x)
              (
                o.once x lo wide ((omega arith), (omega arith), hl) (ground (arith, e)) q p,
                o.not_free x wide q,
              )
              (o.not_table x wide q)))

  no_zero_frame :
      (e : ℕ) → kern_base < kernel_end → IsPage kernel_end (p2v (pte_addr e)) → pte_addr e ≢ 0
  no_zero_frame e h p = λ z. absurd (omega (arith, p.behind_kernel, z))

  module _ (above : kern_base < kernel_end) where
    dealloc_pages_lem :
        (fuel n d a hi : ℕ) (k : Kmem) (ps : List ℕ)
        → a % page_size ≡ 0
        → hi ≤ kern_base
        → n < fuel
        → hi ≤ a + n * page_size
        → IsSpace kernel_end k.mem d ps
        → IsFreeList kernel_end k ps
        → IsOwned kernel_end k.mem d ps a hi
        → (k' : Kmem) × ((ps' : List ℕ) × ((dealloc_pages kernel_end fuel k d a hi ≡ some k')
              × Deallocated kernel_end k d a hi ps k' ps'))
    dealloc_pages_lem zero n d a hi k ps al hk hf hn s c o = (
      k,
      (ps, (absurd (omega arith), Deallocated-none kernel_end k d a hi ps (omega arith) al s c)),
    )
    dealloc_pages_lem (suc f) n d a hi k ps al hk hf hn s c o = elim (Bool-cases (ltb a hi)) [
      | inr past ↦ (
        k,
        (
          ps,
          (
            dealloc_done f d a hi k past,
            Deallocated-none kernel_end k d a hi ps (ground arith) al s c,
          ),
        ),
      )
      | inl more ↦
          (let below : a < hi = ground (arith, more) in
            let step = dealloc_round f d a hi k below in
            let on = next_page a hi below hk in
            elim (Bool-cases (is_present (slot_of k.mem d (pdx a)))) [
              | inr no_table ↦
                  (let a' = (a / 4194304 + 1) * 4194304 in
                    let jump = next_table a hi below hk in
                    let (k', (ps', (ran, r))) =
                      dealloc_pages_lem f (n - 1) d a' hi k ps (omega arith) hk (omega arith)
                        (omega arith) s c (IsOwned-from k.mem d ps a a' hi (omega arith) o) in
                    (
                      k',
                      (
                        ps',
                        (
                          step
                              ∙ (ap (λ w. round f d a hi w) (walk-absent k d a no_table)
                                  ∙ (round-absent f d a hi k
                                      ∙ (ap (λ y. dealloc_pages kernel_end f k d y hi) jump
                                          ∙ ran))),
                          Deallocated-skip kernel_end k d a a' hi ps ps' k' (omega arith)
                              (omega arith) (λ x l u. no_entry k.mem d a x l u no_table) r,
                        ),
                      ),
                    ))
              | inl table ↦
                  (let pte = page_table (slot_of k.mem d (pdx a)) + 4 * ptx a in
                    let t = s.table (pdx a) (omega arith) table in
                    let nz : pte ≢ 0 = omega (arith, t.page.not_null) in
                    let held = walk-entry k d a table in
                    let walked = ap (λ w. round f d a hi w) (walk-present k d a false table) in
                    elim (Bool-cases (is_present (entry_of k.mem d a))) [
                      | inr unmapped ↦
                          (let (k', (ps', (ran, r))) =
                              dealloc_pages_lem f (n - 1) d (a + page_size) hi k ps (omega arith) hk
                                (omega arith) (omega arith) s c
                                (IsOwned-from k.mem d ps a (a + page_size) hi (omega arith) o) in
                            (
                              k',
                              (
                                ps',
                                (
                                  step
                                      ∙ (walked
                                          ∙ (round-unmapped f d a hi k pte nz (
                                                subst (λ y. is_present y ≡ false) (sym held)
                                                  unmapped)
                                              ∙ (ap (λ y. dealloc_pages kernel_end f k d y hi) on
                                                  ∙ ran))),
                                  Deallocated-skip kernel_end k d a (a + page_size) hi ps ps' k'
                                      (omega arith) (omega arith)
                                      (λ x l u.
                                        subst (λ y. is_present y ≡ false)
                                          (entry_of-page k.mem d a x (omega arith)) unmapped)
                                      r,
                                ),
                              ),
                            ))
                      | inl p ↦
                          (let here : IsWithin a hi a =
                              ((omega arith), (omega arith), (omega arith)) in
                            let page = o.page a here p in
                            let (k1, (k2, freed)) =
                              page_freed kernel_end k d a ps (omega arith) s c p page
                                (o.not_free a here p) (o.not_table a here p) in
                            let (k', (ps', (ran, r))) =
                              dealloc_pages_lem f (n - 1) d (a + page_size) hi k2
                                (frame_of k.mem d a ∷ ps) (omega arith) hk (omega arith)
                                (omega arith) freed.space freed.free
                                (IsOwned-behind k k1 k2 d a hi pte ps al below (omega arith) p freed
                                  o) in
                            (
                              k',
                              (
                                ps',
                                (
                                  step
                                      ∙ (walked
                                          ∙ (round-mapped f d a hi k k1 pte nz
                                                (subst (λ y. is_present y ≡ true) (sym held) p)
                                                (subst (λ y. pte_addr y ≢ 0) (sym held)
                                                  (no_zero_frame (entry_of k.mem d a) above page))
                                                (subst
                                                  (λ y.
                                                    kfree kernel_end k (p2v (pte_addr y)) ≡ some k1)
                                                  (sym held) freed.ran)
                                              ∙ (ap₂ (λ z y. dealloc_pages kernel_end f z d y hi)
                                                    (sym freed.is_set) on
                                                  ∙ ran))),
                                  Deallocated-page kernel_end k k1 k2 d a hi pte ps ps' k' al p
                                      below (omega arith) freed r,
                                ),
                              ),
                            ))
                    ])
            ])
    ]

    -- deallocuvm from a size up to the kernel's half to a smaller one, of a process whose pages
    -- between the two sizes are its own, succeeds: it frees exactly the pages mapped there, clears
    -- their entries and no other ones, and keeps the tables well-formed. The kernel ends above the
    -- start of its half.
    pub deallocuvm_lem :
        (k : Kmem) (d oldsz newsz : ℕ) (ps : List ℕ)
        → newsz < oldsz
        → oldsz ≤ kern_base
        → IsSpace kernel_end k.mem d ps
        → IsFreeList kernel_end k ps
        → IsOwned kernel_end k.mem d ps (page_round_up newsz) oldsz
        → (k' : Kmem) × ((ps' : List ℕ) × ((deallocuvm kernel_end k d oldsz newsz
                ≡ some (newsz, k'))
              × Deallocated kernel_end k d (page_round_up newsz) oldsz ps k' ps'))
    unfolding deallocuvm
    deallocuvm_lem k d oldsz newsz ps h l s c o =
        let (k', (ps', (ran, r))) =
          dealloc_pages_lem (suc (suc (oldsz / page_size))) (suc (oldsz / page_size)) d
            (page_round_up newsz) oldsz k ps (omega arith) l (omega arith) (omega arith) s c o in
        let test : leb oldsz newsz ≡ false = ground arith in
        (k', (ps', (rw (test, ran, deallocuvm) refl, r)))
