-- ===== src/VirtualMemory/Alloc.antt =====
-- allocuvm of vm.c: the pages it maps, and what it undoes when memory runs out.
use ut_os.Base.{
  length, ℕ, zero, suc, ◌+◌, ◌-◌, ◌*◌, ◌/◌, ◌%◌, ◌≤◌, ◌<◌, ◌^◌, ◌≡◌, ◌≢◌, inl, inr, refl, sym,
  subst, ◌∙◌, ap, Bool, Bool-cases, true, false, ltb, leb, lt→ltb, le→ltb, lt_int, if◌then◌else◌,
  ne→==, eq→==, some, List, [], ◌∷◌, wrap, arith,
}
use ut_os.Strings.{Memory, memset}
use ut_os.Kalloc.{Kmem, page_size, kern_base, v2p, kalloc, kfree, page_round_up}
use ut_os.Kalloc.Chain.{IsFreeList, kalloc_lem}
use ut_os.VirtualMemory.Entry.{p2v, pte_addr, is_present, is_user}
use ut_os.VirtualMemory.{mappages}
use ut_os.VirtualMemory.Masks.{flagged}
use ut_os.VirtualMemory.User.{alloc_pages, allocuvm, deallocuvm}
use ut_os.VirtualMemory.Space.{entry_of, IsSpace}
use ut_os.VirtualMemory.Calls.{map_single, set_one, no_table}
use ut_os.VirtualMemory.Opening.{user_flags, shared_entry, shared_flags}
use ut_os.VirtualMemory.Frames.{IsWithin}
use ut_os.VirtualMemory.Dealloc.{next_page}
use ut_os.VirtualMemory.Growing.{
  cleared-IsZero, Before, Accounts, taken-Accounts, changed-Accounts, Grown, Grown-taken,
  Grown-same, Grown-changed, taken-IsApart, taken-frames,
}
use ut_os.VirtualMemory.Growth.{Grown-mapped, mapped-Accounts, IsFlagged}
use ut_os.VirtualMemory.Undo.{Undone, undo, undo_page}

-- The page that kalloc hands out, zeroed.
abbrev zeroed : Kmem → Kmem
zeroed k = record (kalloc k).0 { mem = memset (kalloc k).0.mem (kalloc k).1 0 page_size }

lt→leb : (a b : ℕ) → b < a → leb a b ≡ false
lt→leb a b h = ground arith

shown : (b : Bool) (x p : ℕ) → (if b then x else 0) ≡ p → 0 < p → x ≡ p
shown b x p e h = ground arith

-- The entry of a zeroed page of the user.
user_page : (p : ℕ) → p % page_size ≡ 0 → p < 2 ^ 32 → 0 < p → IsFlagged p user_flags
user_page p a h z =
    let w = flagged (v2p p) user_flags in
    let (there, leads) = shared_entry p a h in
    (there, shown (is_user w) (p2v (pte_addr w)) p leads z, shared_flags p a h)

-- The number of pages that begin from the one size to the other.
abbrev pub pages_between : ℕ → ℕ → ℕ
pages_between oldsz newsz = (newsz - page_round_up oldsz + page_size - 1) / page_size

no_page : (e : ℕ) → e ≡ 0 → is_present e ≡ true → ⊥
no_page e z p = ground arith

grows :
    (oldsz a newsz : ℕ)
    → page_round_up oldsz ≤ a
    → ltb a newsz ≡ true
    → oldsz ≤ newsz
    → newsz ≤ kern_base
    → oldsz < newsz
grows oldsz a newsz la more h l = ground arith

module _ (kernel_end f : ℕ) (k : Kmem) (d a oldsz newsz : ℕ) where
  alloc_done :
      ltb a newsz ≡ false → alloc_pages kernel_end (suc f) k d a oldsz newsz ≡ some (newsz, k)
  unfolding alloc_pages
  alloc_done h = rw (h, alloc_pages) refl

  alloc_full :
      (r : ℕ × Kmem)
      → ltb a newsz ≡ true
      → (kalloc k).1 ≡ 0
      → deallocuvm kernel_end (kalloc k).0 d newsz oldsz ≡ some r
      → alloc_pages kernel_end (suc f) k d a oldsz newsz ≡ some (0, r.1)
  unfolding alloc_pages
  alloc_full r h e u = rw (h, eq→== (kalloc k).1 0 e, u, alloc_pages) refl

  module _ (r : ℕ × Kmem) (h : ltb a newsz ≡ true) (n : (kalloc k).1 ≢ 0)
      (m : mappages (zeroed k) d a page_size (v2p (kalloc k).1) user_flags ≡ some r) where
    alloc_unmapped :
        (s : ℕ × Kmem) (k3 : Kmem)
        → lt_int r.0 0 ≡ true
        → deallocuvm kernel_end r.1 d newsz oldsz ≡ some s
        → kfree kernel_end s.1 (kalloc k).1 ≡ some k3
        → alloc_pages kernel_end (suc f) k d a oldsz newsz ≡ some (0, k3)
    unfolding alloc_pages
    alloc_unmapped s k3 l u v = rw (h, ne→== (kalloc k).1 0 n, m, l, u, v, alloc_pages) refl

    alloc_next :
        lt_int r.0 0 ≡ false
        → alloc_pages kernel_end (suc f) k d a oldsz newsz
          ≡ alloc_pages kernel_end f r.1 d (wrap (a + page_size)) oldsz newsz
    unfolding alloc_pages
    alloc_next l = rw (h, ne→== (kalloc k).1 0 n, m, l, alloc_pages) refl

module _ (kernel_end : ℕ) (above : kern_base < kernel_end) where
  -- How allocuvm ends from `count` free pages with `rounds` pages to map: all pages mapped, or none,
  -- which takes fewer free pages than two for each page to map.
  pub data AllocEnd (was : Before) (d lo newsz count rounds : ℕ) (r : ℕ × Kmem) : Type 0 where
    all_mapped :
        (ps' : List ℕ)
        → r.0 ≡ newsz
        → Grown kernel_end was r.1 d lo (page_round_up newsz) newsz ps'
        → Accounts kernel_end was.pages r.1.mem d lo newsz ps'
        → AllocEnd was d lo newsz count rounds r
    none_mapped :
        (ps' : List ℕ)
        → r.0 ≡ 0
        → count < 2 * rounds
        → Undone kernel_end above was r.1 d ps'
        → AllocEnd was d lo newsz count rounds r

  AllocEnd-more :
      (was : Before) (d lo newsz count count' rounds : ℕ) (r : ℕ × Kmem)
      → 0 < rounds
      → count ≤ count' + 2
      → AllocEnd was d lo newsz count' (rounds - 1) r
      → AllocEnd was d lo newsz count rounds r
  AllocEnd-more was d lo newsz count count' rounds r h l (all_mapped ps' e g t) =
      all_mapped ps' e g t
  AllocEnd-more was d lo newsz count count' rounds r h l (none_mapped ps' e few u) =
      none_mapped ps' e (omega arith) u

  Grown-end :
      (was : Before) (k : Kmem) (d lo a hi : ℕ) (ps : List ℕ)
      → a % page_size ≡ 0
      → hi ≤ a
      → hi ≤ kern_base
      → Grown kernel_end was k d lo a hi ps
      → Grown kernel_end was k d lo (page_round_up hi) hi ps
  Grown-end was k d lo a hi ps al h l g = record {
    space = g.space;
    free = g.free;
    entries = g.entries;
    unmapped = λ x w. absurd (omega (arith, w.0, w.1));
    owned = g.owned;
    mapped = λ x w u. g.mapped x w (omega (arith, w.1));
    flags = λ x w u. g.flags x w (omega (arith, w.1));
    fresh = λ x w u. g.fresh x w (omega (arith, w.1));
    fewer = g.fewer;
  }

  -- What the loop of allocuvm comes to from a state where the pages below `a` are mapped.
  Ends : ℕ → Before → Kmem → ℕ → ℕ → ℕ → ℕ → ℕ → ℕ → Type 0
  Ends fuel was k d a oldsz newsz count rounds =
      (r : ℕ × Kmem) × ((alloc_pages kernel_end fuel k d a oldsz newsz ≡ some r)
        × AllocEnd was d (page_round_up oldsz) newsz count rounds r)

  -- A round that finds a free page, with the loop behind it.
  alloc_round :
      (f : ℕ) (was : Before) (k : Kmem) (d a oldsz newsz p rounds : ℕ) (ps : List ℕ)
      → 0 < rounds
      → a % page_size ≡ 0
      → page_round_up oldsz ≤ a
      → oldsz < newsz
      → newsz ≤ kern_base
      → a < newsz
      → ((x : ℕ) → IsWithin (page_round_up oldsz) newsz x → entry_of was.mem d x ≡ 0)
      → Grown kernel_end was k d (page_round_up oldsz) a newsz (p ∷ ps)
      → Accounts kernel_end was.pages k.mem d (page_round_up oldsz) newsz (p ∷ ps)
      → ((k' : Kmem) (ps' : List ℕ)
          → Grown kernel_end was k' d (page_round_up oldsz) (a + page_size) newsz ps'
          → Accounts kernel_end was.pages k'.mem d (page_round_up oldsz) newsz ps'
          → Ends f was k' d (a + page_size) oldsz newsz (length ps') (rounds - 1))
      → Ends (suc f) was k d a oldsz newsz (suc (length ps)) rounds
  unfolding Ends
  alloc_round f was k d a oldsz newsz p rounds ps some_left al la h l below z g account loop =
      let lo = page_round_up oldsz in
      let (head, still, _, same) = kalloc_lem kernel_end k (p ∷ ps) g.free in
      let k1 = (kalloc k).0 in
      let k2 : Kmem = record k1 { mem = memset k1.mem p 0 page_size } in
      let g2 = Grown-taken kernel_end was k k1 d lo a newsz p ps g same still in
      let u = taken-IsApart kernel_end was k k1 d lo a newsz p ps g same still in
      let n = taken-frames kernel_end was k k1 d lo a newsz p ps g same still in
      let pg = g.free.1 in
      let o = g.free.2 in
      let acc2 = taken-Accounts kernel_end was k k1 d lo a newsz p ps g same still account in
      let nz : (kalloc k).1 ≢ 0 = omega (arith, head, pg.not_null) in
      let test = lt→ltb a newsz below in
      let (r, (ran, end)) =
        map_single kernel_end k2 d a (v2p p) user_flags ps al (omega arith) (omega arith)
          (g2.unmapped a ((omega arith), (omega arith), (omega arith))) g2.space g2.free in
      let ran' : mappages (zeroed k) d a page_size (v2p (kalloc k).1) user_flags ≡ some r =
        subst
          (λ q.
            mappages (record k1 { mem = memset k1.mem q 0 page_size }) d a page_size (v2p q)
              user_flags
            ≡ some r)
          (sym head) ran in
      elim end [
        | set_one ps' ok few change ↦
            (let g3 =
                Grown-mapped kernel_end was k2 r.1 d lo a newsz p user_flags ps ps' g2 pg change
                  (user_page p pg.aligned pg.word pg.not_null) o (λ i. (g.fewer p i).0 refl) u
                  (cleared-IsZero k1.mem p) n al la below in
              let acc3 =
                mapped-Accounts kernel_end was k2 r.1 d lo a newsz p user_flags ps ps' g2 pg change
                  (user_page p pg.aligned pg.word pg.not_null) o (λ i. (g.fewer p i).0 refl) u
                  (cleared-IsZero k1.mem p) n al la below (omega (arith, l)) acc2 in
              let (r', (ran3, end3)) = loop r.1 ps' g3 acc3 in
              (
                r',
                (
                  alloc_next kernel_end f k d a oldsz newsz r test nz ran' (ap (λ x. lt_int x 0) ok)
                      ∙ (ap (λ x. alloc_pages kernel_end f r.1 d x oldsz newsz)
                            (next_page a newsz below l)
                          ∙ ran3),
                  AllocEnd-more was d lo newsz (suc (length ps)) (length ps') rounds r' some_left
                      (omega (arith, few)) end3,
                ),
              ))
        | no_table failed empty change ↦
            (let g3 = Grown-changed kernel_end was k2 r.1 d lo a newsz ps [] change g2 in
              let (k4, (k5, (ps5, (ran4, (ran5, done))))) =
                undo_page kernel_end above was r.1 d a oldsz newsz p [] h l z g3 pg tt
                  (change.tables p o u)
                  (λ x w q.
                    subst (λ y. p2v (pte_addr y) ≢ p) (sym (change.entries x w.2))
                      (n x w (subst (λ y. is_present y ≡ true) (change.entries x w.2) q)))
                  (changed-Accounts kernel_end was.pages k2 r.1 d lo newsz p ps [] change acc2) in
              (
                (0, k5),
                (
                  alloc_unmapped kernel_end f k d a oldsz newsz r test nz ran' (oldsz, k4) k5
                      (ap (λ x. lt_int x 0) failed) ran4
                      (subst (λ q. kfree kernel_end k4 q ≡ some k5) (sym head) ran5),
                  none_mapped ps5 refl (omega (arith, ap (λ (l : List ℕ). length l) empty)) done,
                ),
              ))
      ]

  alloc_stop :
      (f : ℕ) (was : Before) (k : Kmem) (d a oldsz newsz rounds : ℕ) (ps : List ℕ)
      → a % page_size ≡ 0
      → newsz ≤ kern_base
      → ltb a newsz ≡ false
      → Grown kernel_end was k d (page_round_up oldsz) a newsz ps
      → Accounts kernel_end was.pages k.mem d (page_round_up oldsz) newsz ps
      → Ends (suc f) was k d a oldsz newsz (length ps) rounds
  unfolding Ends
  alloc_stop f was k d a oldsz newsz rounds ps al l past g account = (
    (newsz, k),
    (
      alloc_done kernel_end f k d a oldsz newsz past,
      all_mapped ps refl
          (Grown-end was k d (page_round_up oldsz) a newsz ps al (ground (arith, past)) l g)
          account,
    ),
  )

  alloc_go :
      (f : ℕ) (was : Before) (k : Kmem) (d a oldsz newsz rounds : ℕ) (ps : List ℕ)
      → 0 < rounds
      → a % page_size ≡ 0
      → page_round_up oldsz ≤ a
      → newsz ≤ kern_base
      → ltb a newsz ≡ true
      → oldsz ≤ newsz
      → ((x : ℕ) → IsWithin (page_round_up oldsz) newsz x → entry_of was.mem d x ≡ 0)
      → Grown kernel_end was k d (page_round_up oldsz) a newsz ps
      → Accounts kernel_end was.pages k.mem d (page_round_up oldsz) newsz ps
      → ((k' : Kmem) (ps' : List ℕ)
          → Grown kernel_end was k' d (page_round_up oldsz) (a + page_size) newsz ps'
          → Accounts kernel_end was.pages k'.mem d (page_round_up oldsz) newsz ps'
          → Ends f was k' d (a + page_size) oldsz newsz (length ps') (rounds - 1))
      → Ends (suc f) was k d a oldsz newsz (length ps) rounds
  unfolding Ends
  alloc_go f was k d a oldsz newsz rounds [] some_left al la l more h z g account loop =
      let (zero_page, still, _, same) = kalloc_lem kernel_end k [] g.free in
      let g1 =
        Grown-same kernel_end was k (kalloc k).0 d (page_round_up oldsz) a newsz [] same still g in
      let (k', (ps', (ran, done))) =
        undo kernel_end above was (kalloc k).0 d a oldsz newsz [] (grows oldsz a newsz la more h l)
          l z g1
          (subst (λ (m : Memory). Accounts kernel_end was.pages m d (page_round_up oldsz) newsz [])
            (sym same) account) in
      (
        (0, k'),
        (
          alloc_full kernel_end f k d a oldsz newsz (oldsz, k') more zero_page ran,
          none_mapped ps' refl (omega arith) done,
        ),
      )
  alloc_go f was k d a oldsz newsz rounds (p ∷ ps) some_left al la l more h z g account loop =
      alloc_round f was k d a oldsz newsz p rounds ps some_left al la
        (grows oldsz a newsz la more h l) l (ground (arith, more)) z g account loop

  alloc_pages_lem :
      (fuel n : ℕ) (was : Before) (k : Kmem) (d a oldsz newsz : ℕ) (ps : List ℕ)
      → a % page_size ≡ 0
      → page_round_up oldsz ≤ a
      → oldsz ≤ newsz
      → newsz ≤ kern_base
      → n < fuel
      → newsz ≤ a + n * page_size
      → ((x : ℕ) → IsWithin (page_round_up oldsz) newsz x → entry_of was.mem d x ≡ 0)
      → Grown kernel_end was k d (page_round_up oldsz) a newsz ps
      → Accounts kernel_end was.pages k.mem d (page_round_up oldsz) newsz ps
      → Ends fuel was k d a oldsz newsz (length ps) n
  alloc_pages_lem zero n was k d a oldsz newsz ps al la h l hn hf z g account = absurd (omega arith)
  alloc_pages_lem (suc f) n was k d a oldsz newsz ps al la h l hn hf z g account =
      elim (Bool-cases (ltb a newsz)) [
        | inr past ↦ alloc_stop f was k d a oldsz newsz n ps al l past g account
        | inl more ↦
            alloc_go f was k d a oldsz newsz n ps (ground (arith, more)) al la l more h z g account
              (λ k' ps' g' account'.
                alloc_pages_lem f (n - 1) was k' d (a + page_size) oldsz newsz ps' (omega arith)
                  (omega arith) h l (ground (arith, more)) (ground (arith, more)) z g' account')
      ]

  -- allocuvm to a size that is not smaller and lies below the kernel's half, over addresses that are
  -- not mapped, returns: either the size, with every page between the two sizes mapped, for the
  -- user to read and write, to a page of its own that was free before and is full of zeroes, and no
  -- other entry changed; or 0 with every entry as it was. The tables stay well-formed, and no page is
  -- lost: one that was free is free afterwards, or a table, or mapped between the two sizes. It returns
  -- the size when two pages are free for each page to map. The kernel ends above the start of its half.
  pub allocuvm_lem :
      (k : Kmem) (d oldsz newsz : ℕ) (ps : List ℕ)
      → oldsz ≤ newsz
      → newsz < kern_base
      → ((x : ℕ) → IsWithin (page_round_up oldsz) newsz x → entry_of k.mem d x ≡ 0)
      → IsSpace kernel_end k.mem d ps
      → IsFreeList kernel_end k ps
      → (r : ℕ × Kmem) × ((allocuvm kernel_end k d oldsz newsz ≡ some r)
          × AllocEnd
              (record { mem = k.mem; pages = ps })
              d
              (page_round_up oldsz)
              newsz
              (length ps)
              (pages_between oldsz newsz)
              r)
  unfolding allocuvm Ends
  allocuvm_lem k d oldsz newsz ps h l z s c =
      let lo = page_round_up oldsz in
      let (r, (ran, end)) =
        alloc_pages_lem (suc (suc (newsz / page_size))) (pages_between oldsz newsz)
          (record { mem = k.mem; pages = ps }) k d lo oldsz newsz ps (omega arith) (omega arith) h
          (omega arith) (omega arith) (omega arith) z
          (record {
            space = s;
            free = c;
            entries = λ x u v. refl;
            unmapped = z;
            owned = record {
              page = λ x w p. absurd (no_page (entry_of k.mem d x) (z x w) p);
              not_free = λ x w p. absurd (no_page (entry_of k.mem d x) (z x w) p);
              not_table = λ x w p. absurd (no_page (entry_of k.mem d x) (z x w) p);
              once = λ x y v w n p q. absurd (no_page (entry_of k.mem d x) (z x v) p);
            };
            mapped = λ x w u. absurd (omega (arith, w.0));
            flags = λ x w u. absurd (omega (arith, w.0));
            fresh = λ x w u. absurd (omega (arith, w.0));
            fewer = λ q o. o;
          })
          (λ q o u n. o) in
      let high : leb kern_base newsz ≡ false = lt→leb kern_base newsz l in
      let less : ltb newsz oldsz ≡ false = le→ltb newsz oldsz h in
      (r, (rw (high, less, ran, allocuvm) refl, end))
