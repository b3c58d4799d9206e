-- ===== src/VirtualMemory/Closing.antt =====
-- A page of vm.c opened and closed again.
use ut_os.Base.{
  ℕ, ◌+◌, ◌<◌, ◌^◌, ◌≡◌, ◌≢◌, sym, subst, ◌∙◌, ap, some, none, ◌==◌, ==→eq, Bool-cases, inl, inr,
  List, ◌∷◌, update, wrap, sub_word, arith,
}
use ut_os.Kalloc.{Kmem, page_size, v2p, page_round_up}
use ut_os.Proc.{Proc}
use ut_os.VirtualMemory.{unmappages}
use ut_os.VirtualMemory.Masks.{flagged}
use ut_os.VirtualMemory.Space.{entry_of, entry_of-page}
use ut_os.VirtualMemory.Calls.{unmappages_lem, back, present-nonzero}
use ut_os.VirtualMemory.Shared.{
  ShmTable, Shared, n_shared_pages, find_open, find_close, lose, open_sharedmem, close_sharedmem,
}
use ut_os.VirtualMemory.Segments.{AreSingle, find_close_lem}
use ut_os.VirtualMemory.Singles.{found_lt, update_twice}
use ut_os.VirtualMemory.Opening.{
  user_flags, opened, shared_entry, same_page, close_run, IsReady, open_found,
}
use ut_os.VirtualMemory.Sharing.{HasPages, opened-IsOpen, opened-AreSingle}

recorded : (f : ℕ → ℕ → ℕ) (pid i va : ℕ) → update f pid (update (f pid) i va) pid i ≡ va
recorded f pid i va = ground arith

updated : (f : ℕ → ℕ) (i a : ℕ) → update f i a i ≡ a
updated f i a = ground arith

-- A count raised and lowered again.
counted :
    (f : ℕ → ℕ) (i : ℕ)
    → f i + 1 < 2 ^ 32
    → (j : ℕ)
    → update (update f i (wrap (f i + 1))) i (sub_word (update f i (wrap (f i + 1)) i) 1) j ≡ f j
counted f i h j = elim (Bool-cases (i == j)) [
  | inl e ↦
      (let e' : i ≡ j = ==→eq i j e in
        let self : update f i (wrap (f i + 1)) i ≡ f i + 1 =
          updated f i (wrap (f i + 1)) ∙ (omega arith) in
        let less : sub_word (f i + 1) 1 ≡ f i = omega arith in
        subst
          (λ x.
            update (update f i (wrap (f i + 1))) i (sub_word (update f i (wrap (f i + 1)) i) 1) x
            ≡ f x)
          e'
          (updated (update f i (wrap (f i + 1))) i (sub_word (update f i (wrap (f i + 1)) i) 1)
            ∙ (ap (λ y. sub_word y 1) self ∙ less)))
  | inr e ↦
      update_twice f i j (wrap (f i + 1)) (sub_word (update f i (wrap (f i + 1)) i) 1)
        (ground arith)
]

module _ (kernel_end : ℕ) where
  -- close_sharedmem by the process that has just opened the id, with no other process in between,
  -- undoes the opening: the process is as it was, every count is, and so is every entry of its page
  -- table. Before, no id is open twice, every entry has a page and a count below its end, an entry is
  -- open under the id or free, the pid of the process is below 64, the page behind its memory is not
  -- mapped and lies in the address space, and a page is free for a table.
  pub open_sharedmem-close_sharedmem :
      (k : Kmem) (t : ShmTable) (p : Proc) (id i q : ℕ) (ps : List ℕ)
      → AreSingle t
      → HasPages kernel_end t
      → find_open t id n_shared_pages 0 none ≡ some i
      → IsReady kernel_end k p q ps
      → (s : Shared) × ((s' : Shared) × ((open_sharedmem k t p id ≡ some s)
            × ((close_sharedmem (λ v. v) s.kmem s.table s.proc id ≡ some s')
                × ((s'.proc ≡ p)
                    × (((j : ℕ) → s'.table.ref_count j ≡ t.ref_count j)
                        × ((x : ℕ)
                            → x < 2 ^ 32
                            → entry_of s'.kmem.mem p.pgdir x ≡ entry_of k.mem p.pgdir x))))))
  open_sharedmem-close_sharedmem k t p id i q ps single pages e r =
      let hi = found_lt t id i single e in
      let pg = pages.page i hi in
      let (s, (ps', o)) = open_found kernel_end k t p id i q ps r pg e in
      let va = page_round_up p.sz in
      let w = flagged (v2p (t.pa i)) user_flags in
      let hs = r.size in
      let here : entry_of s.kmem.mem p.pgdir va ≡ w =
        o.change.entries va (omega (arith, hs)) ∙ same_page va w (entry_of k.mem p.pgdir va) in
      let (k2, ran, change) =
        unmappages_lem kernel_end s.kmem p.pgdir va ps' (omega arith) (omega (arith, hs))
          (λ z. present-nonzero w (shared_entry (t.pa i) pg.aligned pg.word).0 (sym here ∙ z))
          o.change.space o.change.free in
      let found =
        find_close_lem s.table id i
          (opened-AreSingle kernel_end k t p id i (q ∷ ps) ps' s o single pages e) hi
          (opened-IsOpen kernel_end k t p id i (q ∷ ps) ps' s o single pages e) in
      let t1 = opened t p i id va in
      let p1 = record p { sz = p.sz + page_size } in
      let nz : p.pgdir ≢ 0 = omega (arith, r.space.dir.not_null) in
      let run =
        close_run s.kmem t1 p1 id i k2 r.kstack nz r.pid
          (subst (λ (u : ShmTable). find_close u id n_shared_pages 0 ≡ some i) o.table found)
          (ap (λ a. unmappages s.kmem p.pgdir a page_size) (recorded t.va p.pid i va) ∙ ran) in
      let back_sz : sub_word (p.sz + page_size) page_size ≡ p.sz = omega (arith, hs) in
      (
        s,
        (
          record {
            result = 0;
            kmem = k2;
            table = lose t1 i;
            proc = record p1 { sz = sub_word p1.sz page_size };
          },
          (
            o.ran,
            (
              ap (λ (u : ShmTable). close_sharedmem (λ v. v) s.kmem u s.proc id) o.table
                  ∙ (ap (λ (x : Proc). close_sharedmem (λ v. v) s.kmem t1 x id) o.proc ∙ run),
              (
                ap {A = ℕ} {B = Proc} (λ n. record p { sz = n }) back_sz,
                (
                  counted t.ref_count i (pages.count i hi),
                  λ x hx.
                      change.entries x hx
                      ∙ back x va (entry_of k.mem p.pgdir x) (entry_of s.kmem.mem p.pgdir x) w
                          (o.change.entries x hx)
                          (λ z. entry_of-page k.mem p.pgdir x va z ∙ r.unmapped),
                ),
              ),
            ),
          ),
        ),
      )
