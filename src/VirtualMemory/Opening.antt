-- ===== src/VirtualMemory/Opening.antt =====
-- open_sharedmem and close_sharedmem of vm.c.
use ut_os.Base.{
  ℕ, ◌+◌, ◌*◌, ◌/◌, ◌%◌, ◌≤◌, ◌<◌, ◌^◌, ◌≡◌, ◌≢◌, inl, inr, refl, sym, subst, ◌∙◌, ap, true, false,
  ◌==◌, leb, some, none, if◌then◌else◌, List, ◌∷◌, length, update, wrap, sub_word, arith,
}
use ut_os.Kalloc.{Kmem, page_size, v2p, page_round_up}
use ut_os.Kalloc.Chain.{IsPage, IsFreeList}
use ut_os.Proc.{nproc, Proc}
use ut_os.VirtualMemory.{mappages, unmappages, uva2ka}
use ut_os.VirtualMemory.Entry.{p2v, pte_addr, pte_w, pte_u, is_user, is_present, or_bits, or_word}
use ut_os.VirtualMemory.Masks.{flagged, flagged_lem}
use ut_os.VirtualMemory.Space.{entry_of, IsSpace}
use ut_os.VirtualMemory.Change.{Changed, entered}
use ut_os.VirtualMemory.Calls.{uva2ka_lem, map_one}
use ut_os.VirtualMemory.Shared.{
  ShmTable, Shared, n_shared_pages, switchuvm, find_open, find_close, open_sharedmem, lose,
  close_sharedmem,
}
use ut_os.VirtualMemory.Segments.{IsOpen, AreSingle, find_open_lem}

-- The flags of a shared page, those of a user's page that can be written.
abbrev pub user_flags : ℕ
user_flags = or_word pte_w pte_u

user_flags-eq : user_flags ≡ 6
unfolding or_word or_bits
user_flags-eq = refl

-- The table once the entry `i` is opened under the id, or once more, at `va`.
abbrev pub opened : ShmTable → Proc → ℕ → ℕ → ℕ → ShmTable
opened t p i id va = record t {
  id = update t.id i id;
  ref_count = update t.ref_count i (wrap (t.ref_count i + 1));
  va = update t.va p.pid (update (t.va p.pid) i va);
}

switchuvm_lem : (p : Proc) → p.kstack ≢ 0 → p.pgdir ≢ 0 → switchuvm p ≡ some (v2p p.pgdir)
unfolding switchuvm
switchuvm_lem p a b = ground arith

module _ (k : Kmem) (t : ShmTable) (p : Proc) (id i : ℕ) (k' : Kmem) (a : p.kstack ≢ 0)
    (b : p.pgdir ≢ 0) (c : p.pid < nproc) where
  in_rows : leb nproc p.pid ≡ false
  in_rows = ground arith

  open_run :
      find_open t id n_shared_pages 0 none ≡ some i
      → mappages k p.pgdir (page_round_up p.sz) page_size (v2p (t.pa i)) user_flags ≡ some (0, k')
      → open_sharedmem k t p id
        ≡ some (record {
          result = page_round_up p.sz;
          kmem = k';
          table = opened t p i id (page_round_up p.sz);
          proc = record p { sz = wrap (p.sz + page_size) };
        })
  unfolding open_sharedmem
  open_run e m = rw (e, m, switchuvm_lem p a b, in_rows, open_sharedmem) refl

  pub close_run :
      find_close t id n_shared_pages 0 ≡ some i
      → unmappages k p.pgdir (t.va p.pid i) page_size ≡ some (0, k')
      → close_sharedmem (λ u. u) k t p id
        ≡ some (record {
          result = 0;
          kmem = k';
          table = lose t i;
          proc = record p { sz = sub_word p.sz page_size };
        })
  unfolding close_sharedmem
  close_run e m =
      let m' : unmappages k p.pgdir ((lose t i).va p.pid i) page_size ≡ some (0, k') = m in
      rw (e, in_rows, m', switchuvm_lem p a b, close_sharedmem) refl

pub same_page : (va x y : ℕ) → (if va / page_size == va / page_size then x else y) ≡ x
same_page va x y = ground arith

seventh :
    (e v : ℕ)
    → e % page_size ≡ 7
    → pte_addr e ≡ v2p v
    → v % page_size ≡ 0
    → v < 2 ^ 32
    → (if is_user e then p2v (pte_addr e) else 0) ≡ v
seventh e v f d a h = ground arith

-- The flags of the entry: present, may be written, the user's.
pub shared_flags :
    (v : ℕ) → v % page_size ≡ 0 → v < 2 ^ 32 → flagged (v2p v) user_flags % page_size ≡ 7
shared_flags v a h =
    let six : user_flags < page_size = rw user_flags-eq (omega arith) in
    (flagged_lem (v2p v) user_flags (omega arith) (omega arith) six).2
    ∙ rw user_flags-eq (omega arith)

-- The entry of a shared page lets the user in and leads to the page.
pub shared_entry :
    (v : ℕ)
    → v % page_size ≡ 0
    → v < 2 ^ 32
    → (is_present (flagged (v2p v) user_flags) ≡ true)
      × ((if is_user (flagged (v2p v) user_flags)
            then p2v (pte_addr (flagged (v2p v) user_flags))
            else 0)
          ≡ v)
shared_entry v a h =
    let six : user_flags < page_size = rw user_flags-eq (omega arith) in
    let (there, addr, flags) = flagged_lem (v2p v) user_flags (omega arith) (omega arith) six in
    let seven : flagged (v2p v) user_flags % page_size ≡ 7 =
      flags ∙ rw user_flags-eq (omega arith) in
    (there, seventh (flagged (v2p v) user_flags) v seven addr a h)

module _ (kernel_end : ℕ) where
  -- The process can open a page: its pid has a row in the table, its memory ends below the top of the
  -- address space, the page behind it is not mapped, and a page is free for a table.
  pub record IsReady (k : Kmem) (p : Proc) (q : ℕ) (ps : List ℕ) : Type 0 where
    pub kstack : p.kstack ≢ 0
    pub pid : p.pid < nproc
    pub size : p.sz + 2 * page_size ≤ 2 ^ 32
    pub unmapped : entry_of k.mem p.pgdir (page_round_up p.sz) ≡ 0
    pub space : IsSpace kernel_end k.mem p.pgdir (q ∷ ps)
    pub free : IsFreeList kernel_end k (q ∷ ps)

  -- The process, the table and the memory once the entry `i` is open under the id.
  pub record Opened (k : Kmem) (t : ShmTable) (p : Proc) (id i : ℕ) (ps ps' : List ℕ) (s : Shared)
      : Type 0 where
    pub ran : open_sharedmem k t p id ≡ some s
    pub result : s.result ≡ page_round_up p.sz
    pub table : s.table ≡ opened t p i id (page_round_up p.sz)
    pub proc : s.proc ≡ record p { sz = p.sz + page_size }
    pub change : Changed kernel_end k p.pgdir ps ps' s.kmem (
        entered
          (λ x. entry_of k.mem p.pgdir x)
          (page_round_up p.sz)
          (flagged (v2p (t.pa i)) user_flags))
    pub few : length ps ≤ length ps' + 1
    pub leads : uva2ka s.kmem p.pgdir (page_round_up p.sz) ≡ t.pa i

  pub open_found :
      (k : Kmem) (t : ShmTable) (p : Proc) (id i q : ℕ) (ps : List ℕ)
      → IsReady k p q ps
      → IsPage kernel_end (t.pa i)
      → find_open t id n_shared_pages 0 none ≡ some i
      → (s : Shared) × ((ps' : List ℕ) × Opened k t p id i (q ∷ ps) ps' s)
  open_found k t p id i q ps r pg e =
      let va = page_round_up p.sz in
      let hs = r.size in
      let al : va % page_size ≡ 0 = omega arith in
      let hv : va + page_size ≤ 2 ^ 32 = omega (arith, hs) in
      let v = v2p (t.pa i) in
      let (k', ran, ps', few, change) =
        map_one kernel_end k p.pgdir va v user_flags q ps al hv (omega arith) r.unmapped r.space
          r.free in
      let (there, leads) = shared_entry (t.pa i) pg.aligned pg.word in
      let here : entry_of k'.mem p.pgdir va ≡ flagged v user_flags =
        change.entries va (omega (arith, hv))
        ∙ same_page va (flagged v user_flags) (entry_of k.mem p.pgdir va) in
      let nz : p.pgdir ≢ 0 = omega (arith, r.space.dir.not_null) in
      let size : wrap (p.sz + page_size) ≡ p.sz + page_size = omega (arith, hs) in
      (
        record {
          result = va;
          kmem = k';
          table = opened t p i id va;
          proc = record p { sz = wrap (p.sz + page_size) };
        },
        (
          ps',
          record {
            ran = open_run k t p id i k' r.kstack nz r.pid e ran;
            result = refl;
            table = refl;
            proc = ap {A = ℕ} {B = Proc} (λ n. record p { sz = n }) size;
            change = change;
            few = few;
            leads =
                uva2ka_lem k' p.pgdir va (subst (λ y. is_present y ≡ true) (sym here) there)
                ∙ (ap (λ y. if is_user y then p2v (pte_addr y) else 0) here ∙ leads);
          },
        ),
      )

  -- open_sharedmem of an id that is open maps the page of the open entry behind the memory of the
  -- process, whatever other entries are free, and counts one more user of it.
  pub open_sharedmem_lem :
      (k : Kmem) (t : ShmTable) (p : Proc) (id i q : ℕ) (ps : List ℕ)
      → AreSingle t
      → i < n_shared_pages
      → IsOpen t id i
      → IsPage kernel_end (t.pa i)
      → IsReady k p q ps
      → (s : Shared) × ((ps' : List ℕ) × Opened k t p id i (q ∷ ps) ps' s)
  open_sharedmem_lem k t p id i q ps single hi o pg r =
      open_found k t p id i q ps r pg (elim (find_open_lem t id single) [
        | inl (j, hj, oj, e) ↦ e ∙ ap some (single j i hj hi oj.0 o.0 (oj.1 ∙ sym o.1))
        | inr (f, _) ↦ absurd (f i hi o.0 o.1)
      ])
