-- ===== src/VirtualMemory/Sharing.antt =====
-- Pages of vm.c that several processes open.
use ut_os.Base.{
  ℕ, ◌+◌, ◌*◌, ◌≤◌, ◌<◌, ◌^◌, ◌≡◌, refl, sym, subst, ◌∙◌, ap, true, some, none, if◌then◌else◌, List,
  [], ◌∷◌, update, wrap, arith,
}
use ut_os.Kalloc.{Kmem, page_size, v2p, page_round_up}
use ut_os.Kalloc.Chain.{IsPage}
use ut_os.Proc.{Proc}
use ut_os.VirtualMemory.{uva2ka}
use ut_os.VirtualMemory.Masks.{flagged}
use ut_os.VirtualMemory.Space.{entry_of, IsSpace}
use ut_os.VirtualMemory.Change.{Changed, entered}
use ut_os.VirtualMemory.Calls.{uva2ka_lem}
use ut_os.VirtualMemory.Entry.{p2v, pte_addr, is_present, is_user}
use ut_os.VirtualMemory.Disjoint.{
  IsDisjoint, IsDisjoint-sym, other-IsSpace, other-entry_of, other-IsDisjoint,
}
use ut_os.VirtualMemory.Shared.{ShmTable, Shared, n_shared_pages, find_open, open_sharedmem}
use ut_os.VirtualMemory.Segments.{IsOpen, AreSingle}
use ut_os.VirtualMemory.Singles.{found_lt, found-AreSingle}
use ut_os.VirtualMemory.Opening.{
  user_flags, shared_entry, same_page, IsReady, Opened, open_found, open_sharedmem_lem,
}

module _ (kernel_end : ℕ) where
  -- Every entry has a page, and no count is about to wrap around.
  pub record HasPages (t : ShmTable) : Type 0 where
    pub page : (i : ℕ) → i < n_shared_pages → IsPage kernel_end (t.pa i)
    pub count : (i : ℕ) → i < n_shared_pages → t.ref_count i + 1 < 2 ^ 32

  module _ (k : Kmem) (t : ShmTable) (p : Proc) (id i : ℕ) (ps ps' : List ℕ) (s : Shared)
      (o : Opened kernel_end k t p id i ps ps' s) (single : AreSingle t) (pages : HasPages t)
      (e : find_open t id n_shared_pages 0 none ≡ some i) where
    pub opened-IsOpen : IsOpen s.table id i
    opened-IsOpen =
        subst (λ (u : ShmTable). IsOpen u id i) (sym o.table)
          (
            (λ z. absurd (ground (arith, pages.count i (found_lt t id i single e), z))),
            ground arith,
          )

    pub opened-AreSingle : AreSingle s.table
    opened-AreSingle =
        subst (λ (u : ShmTable). AreSingle u) (sym o.table)
          (found-AreSingle t id i single e (update t.ref_count i (wrap (t.ref_count i + 1)))
            (update t.va p.pid (update (t.va p.pid) i (page_round_up p.sz))) (λ l d. ground arith))

    opened-pa : s.table.pa i ≡ t.pa i
    opened-pa = ap (λ (u : ShmTable). u.pa i) o.table

  -- An address of one directory leads to the same place after a change of the other one.
  other-uva2ka :
      (k : Kmem) (d e : ℕ) (ps ps' : List ℕ) (k' : Kmem) (f : ℕ → ℕ)
      → Changed kernel_end k d ps ps' k' f
      → IsSpace kernel_end k.mem e ps
      → IsDisjoint k.mem d e
      → (va : ℕ) → is_present (entry_of k.mem e va) ≡ true
      → uva2ka k' e va ≡ uva2ka k e va
  other-uva2ka k d e ps ps' k' f c s u va h =
      let same = other-entry_of kernel_end k d e ps ps' k' f c s u va in
      uva2ka_lem k' e va (subst (λ y. is_present y ≡ true) (sym same) h)
      ∙ (ap (λ y. if is_user y then p2v (pte_addr y) else 0) same ∙ sym (uva2ka_lem k e va h))

  mapped-present :
      (k : Kmem) (t : ShmTable) (p : Proc) (id i : ℕ) (ps ps' : List ℕ) (s : Shared)
      → Opened kernel_end k t p id i ps ps' s
      → p.sz + 2 * page_size ≤ 2 ^ 32
      → IsPage kernel_end (t.pa i)
      → is_present (entry_of s.kmem.mem p.pgdir (page_round_up p.sz)) ≡ true
  mapped-present k t p id i ps ps' s o h pg =
      let va = page_round_up p.sz in
      let w = flagged (v2p (t.pa i)) user_flags in
      subst (λ y. is_present y ≡ true)
        (sym (o.change.entries va (omega (arith, h)) ∙ same_page va w (entry_of k.mem p.pgdir va)))
        (shared_entry (t.pa i) pg.aligned pg.word).0

  -- Another process is as ready as before once one has opened a page.
  other-IsReady :
      (k : Kmem) (t : ShmTable) (p p' : Proc) (id i q q2 : ℕ) (ps ps' : List ℕ) (s : Shared)
      → Opened kernel_end k t p id i (q ∷ q2 ∷ ps) ps' s
      → IsReady kernel_end k p' q (q2 ∷ ps)
      → IsDisjoint k.mem p.pgdir p'.pgdir
      → (r : ℕ) × ((rs : List ℕ) × ((ps' ≡ (r ∷ rs)) × IsReady kernel_end s.kmem p' r rs))
  other-IsReady k t p p' id i q q2 ps [] s o r u = absurd (omega (arith, o.few))
  other-IsReady k t p p' id i q q2 ps (x ∷ xs) s o r u =
      let f =
        entered (λ y. entry_of k.mem p.pgdir y) (page_round_up p.sz)
          (flagged (v2p (t.pa i)) user_flags) in
      (
        x,
        (
          xs,
          (
            refl,
            record {
              kstack = r.kstack;
              pid = r.pid;
              size = r.size;
              unmapped =
                  other-entry_of kernel_end k p.pgdir p'.pgdir (q ∷ q2 ∷ ps) (x ∷ xs) s.kmem f
                    o.change r.space u (page_round_up p'.sz)
                  ∙ r.unmapped;
              space =
                  other-IsSpace kernel_end k p.pgdir p'.pgdir (q ∷ q2 ∷ ps) (x ∷ xs) s.kmem f
                    o.change r.space u;
              free = o.change.free;
            },
          ),
        ),
      )

  -- Two processes with page tables apart that open the same id, one after the other, both succeed, and
  -- then find the same page of physical memory at the addresses that the calls return. Before, no id
  -- is open twice, every entry has a page and a count below its end, an entry is open under the id or
  -- free, the pid of each process is below 64, the page behind its memory is not mapped and lies in the
  -- address space, and two pages are free for tables.
  pub open_sharedmem-shares :
      (k : Kmem) (t : ShmTable) (p p' : Proc) (id i q q2 : ℕ) (ps : List ℕ)
      → AreSingle t
      → HasPages t
      → find_open t id n_shared_pages 0 none ≡ some i
      → IsReady kernel_end k p q (q2 ∷ ps)
      → IsReady kernel_end k p' q (q2 ∷ ps)
      → IsDisjoint k.mem p.pgdir p'.pgdir
      → (s : Shared) × ((s' : Shared) × ((open_sharedmem k t p id ≡ some s)
            × ((open_sharedmem s.kmem s.table p' id ≡ some s')
                × ((uva2ka s'.kmem p.pgdir s.result ≡ t.pa i)
                    × (uva2ka s'.kmem p'.pgdir s'.result ≡ t.pa i)))))
  open_sharedmem-shares k t p p' id i q q2 ps single pages e r r' u =
      let hi = found_lt t id i single e in
      let (s, (ps', o)) = open_found kernel_end k t p id i q (q2 ∷ ps) r (pages.page i hi) e in
      let (x, (xs, (is_x, ready))) = other-IsReady k t p p' id i q q2 ps ps' s o r' u in
      let f =
        entered (λ y. entry_of k.mem p.pgdir y) (page_round_up p.sz)
          (flagged (v2p (t.pa i)) user_flags) in
      let pa_is = opened-pa k t p id i (q ∷ q2 ∷ ps) ps' s o single pages e in
      let (s', (ps2, o')) =
        open_sharedmem_lem kernel_end s.kmem s.table p' id i x xs
          (opened-AreSingle k t p id i (q ∷ q2 ∷ ps) ps' s o single pages e) hi
          (opened-IsOpen k t p id i (q ∷ q2 ∷ ps) ps' s o single pages e)
          (subst (λ v. IsPage kernel_end v) (sym pa_is) (pages.page i hi)) ready in
      let apart_now : IsDisjoint s.kmem.mem p'.pgdir p.pgdir =
        IsDisjoint-sym s.kmem.mem p.pgdir p'.pgdir (
          other-IsDisjoint kernel_end k p.pgdir p'.pgdir (q ∷ q2 ∷ ps) ps' s.kmem f o.change
            r'.space u) in
      let space_now : IsSpace kernel_end s.kmem.mem p.pgdir (x ∷ xs) =
        subst (λ l. IsSpace kernel_end s.kmem.mem p.pgdir l) is_x o.change.space in
      let kept =
        other-uva2ka s.kmem p'.pgdir p.pgdir (x ∷ xs) ps2 s'.kmem
          (entered (λ y. entry_of s.kmem.mem p'.pgdir y) (page_round_up p'.sz)
            (flagged (v2p (s.table.pa i)) user_flags))
          o'.change space_now apart_now (page_round_up p.sz)
          (mapped-present k t p id i (q ∷ q2 ∷ ps) ps' s o r.size (pages.page i hi)) in
      (
        s,
        (
          s',
          (
            o.ran,
            (
              o'.ran,
              (
                ap (λ a. uva2ka s'.kmem p.pgdir a) o.result ∙ (kept ∙ o.leads),
                ap (λ a. uva2ka s'.kmem p'.pgdir a) o'.result ∙ (o'.leads ∙ pa_is),
              ),
            ),
          ),
        ),
      )
