-- ===== src/VirtualMemory/Undo.antt =====
-- allocuvm of vm.c when memory runs out: everything is given back.
use ut_os.Base.{
  ℕ, ◌*◌, ◌/◌, ◌≤◌, ◌<◌, ◌^◌, ◌≡◌, ◌≢◌, ◌⊎◌, ◌∙◌, true, ◌&&◌, ltb, leb, if◌then◌else◌, some, List,
  ◌∷◌, IsOther, IsOther-In, sym, arith,
}
use ut_os.Kalloc.{Kmem, page_size, kern_base, kfree, page_round_up}
use ut_os.Kalloc.Chain.{IsPage, IsFreeList, kfree_lem}
use ut_os.VirtualMemory.Entry.{is_present}
use ut_os.VirtualMemory.User.{deallocuvm}
use ut_os.VirtualMemory.Space.{entry_of, IsApart, IsSpace}
use ut_os.VirtualMemory.Frames.{
  frame_of, IsWithin, freed-IsSpace, freed-entry_of, freed-IsApart_back,
}
use ut_os.VirtualMemory.Freeing.{Deallocated, IsOther-sub}
use ut_os.VirtualMemory.Dealloc.{deallocuvm_lem}
use ut_os.VirtualMemory.Growing.{Before, Accounts, Grown}

all_back :
    (e e0 x lo a hi : ℕ)
    → ((x < lo) ⊎ (hi ≤ x / page_size * page_size) → e ≡ e0)
    → (lo ≤ x → x / page_size * page_size < hi → e0 ≡ 0)
    → (a ≤ x → x / page_size * page_size < hi → e ≡ 0)
    → (lo ≤ x → x / page_size * page_size < hi → x < a → is_present e ≡ true)
    → (if is_present e && leb lo x && ltb (x / page_size * page_size) hi then 0 else e) ≡ e0
all_back e e0 x lo a hi f g h i = ground arith

module _ (kernel_end : ℕ) (above : kern_base < kernel_end) where
  -- What is left where no page was to be had: the tables are well-formed, every entry is as it
  -- was, and each page that was free is free again, or has become a table.
  pub record Undone (was : Before) (k : Kmem) (d : ℕ) (ps : List ℕ) : Type 0 where
    pub space : IsSpace kernel_end k.mem d ps
    pub free : IsFreeList kernel_end k ps
    pub entries : (x : ℕ) → x < 2 ^ 32 → entry_of k.mem d x ≡ entry_of was.mem d x
    pub none_lost : (q : ℕ) → IsOther q ps → IsApart k.mem d q → IsOther q was.pages

  -- The pages mapped so far given back.
  undo_entries :
      (was : Before) (k : Kmem) (d a oldsz newsz : ℕ) (ps : List ℕ)
      → oldsz < newsz
      → newsz ≤ kern_base
      → ((x : ℕ) → IsWithin (page_round_up oldsz) newsz x → entry_of was.mem d x ≡ 0)
      → Grown kernel_end was k d (page_round_up oldsz) a newsz ps
      → (k' : Kmem) × ((ps' : List ℕ) × ((deallocuvm kernel_end k d newsz oldsz ≡ some (oldsz, k'))
            × (Deallocated kernel_end k d (page_round_up oldsz) newsz ps k' ps'
                × ((x : ℕ) → x < 2 ^ 32 → entry_of k'.mem d x ≡ entry_of was.mem d x))))
  undo_entries was k d a oldsz newsz ps h l z g =
      let (k', (ps', (ran, r))) =
        deallocuvm_lem kernel_end above k d newsz oldsz ps h l g.space g.free g.owned in
      (
        k',
        (
          ps',
          (
            ran,
            (
              r,
              λ x hx.
                  r.entries x hx
                  ∙ all_back (entry_of k.mem d x) (entry_of was.mem d x) x (page_round_up oldsz) a
                      newsz (g.entries x hx) (λ u v. z x (u, v, hx))
                      (λ u v. g.unmapped x (u, v, hx)) (λ u v w. (g.mapped x (u, v, hx) w).0),
            ),
          ),
        ),
      )

  -- A page that is neither free nor a table behind deallocuvm was so before, and was not mapped.
  not_freed :
      (k : Kmem) (d lo hi : ℕ) (ps ps' : List ℕ) (k' : Kmem)
      → Deallocated kernel_end k d lo hi ps k' ps'
      → (q : ℕ) → IsOther q ps'
      → IsApart k'.mem d q
      → IsOther q ps
        × IsApart k.mem d q
        × ((x : ℕ)
            → IsWithin lo hi x
            → is_present (entry_of k.mem d x) ≡ true
            → frame_of k.mem d x ≢ q)
  not_freed k d lo hi ps ps' k' r q o u = (
    IsOther-sub q ps ps' r.kept o,
    r.tables_back q o u,
    λ x w h e. IsOther-In q (frame_of k.mem d x) ps' o (r.freed x w h) (sym e),
  )

  pub undo :
      (was : Before) (k : Kmem) (d a oldsz newsz : ℕ) (ps : List ℕ)
      → oldsz < newsz
      → newsz ≤ kern_base
      → ((x : ℕ) → IsWithin (page_round_up oldsz) newsz x → entry_of was.mem d x ≡ 0)
      → Grown kernel_end was k d (page_round_up oldsz) a newsz ps
      → Accounts kernel_end was.pages k.mem d (page_round_up oldsz) newsz ps
      → (k' : Kmem) × ((ps' : List ℕ) × ((deallocuvm kernel_end k d newsz oldsz ≡ some (oldsz, k'))
            × Undone was k' d ps'))
  undo was k d a oldsz newsz ps h l z g account =
      let lo = page_round_up oldsz in
      let (k', (ps', (ran, (r, back)))) = undo_entries was k d a oldsz newsz ps h l z g in
      (
        k',
        (
          ps',
          (
            ran,
            record {
              space = r.space;
              free = r.free;
              entries = back;
              none_lost = λ q o u.
                  let (o1, u1, n1) = not_freed k d lo newsz ps ps' k' r q o u in account q o1 u1 n1;
            },
          ),
        ),
      )

  -- The second way out of memory: the page taken is given back too.
  pub undo_page :
      (was : Before) (k : Kmem) (d a oldsz newsz p : ℕ) (ps : List ℕ)
      → oldsz < newsz
      → newsz ≤ kern_base
      → ((x : ℕ) → IsWithin (page_round_up oldsz) newsz x → entry_of was.mem d x ≡ 0)
      → Grown kernel_end was k d (page_round_up oldsz) a newsz ps
      → IsPage kernel_end p
      → IsOther p ps
      → IsApart k.mem d p
      → ((x : ℕ)
          → IsWithin (page_round_up oldsz) newsz x
          → is_present (entry_of k.mem d x) ≡ true
          → frame_of k.mem d x ≢ p)
      → Accounts kernel_end was.pages k.mem d (page_round_up oldsz) newsz (p ∷ ps)
      → (k1 : Kmem) × ((k2 : Kmem) × ((ps' : List ℕ) × ((deallocuvm kernel_end k d newsz oldsz
                ≡ some (oldsz, k1))
              × ((kfree kernel_end k1 p ≡ some k2) × Undone was k2 d ps'))))
  undo_page was k d a oldsz newsz p ps h l z g pg o u n account =
      let lo = page_round_up oldsz in
      let (k1, (ps1, (ran, (r, back)))) = undo_entries was k d a oldsz newsz ps h l z g in
      let o1 = r.only p o n in
      let u1 = r.tables p o1 u in
      let (k2, ran2, c2, out) = kfree_lem kernel_end k1 p ps1 pg o1 r.free in
      (
        k1,
        (
          k2,
          (
            p ∷ ps1,
            (
              ran,
              (
                ran2,
                record {
                  space = freed-IsSpace kernel_end k1.mem k2.mem d p ps1 r.space u1 pg.aligned out;
                  free = c2;
                  entries = λ x hx.
                      freed-entry_of kernel_end k1.mem k2.mem d p ps1 r.space u1 pg.aligned out x
                      ∙ back x hx;
                  none_lost = λ q o2 u2.
                      let down =
                        freed-IsApart_back kernel_end k1.mem k2.mem d p ps1 r.space u1 pg.aligned
                          out q u2 in
                      let (o3, u3, n3) = not_freed k d lo newsz ps ps1 k1 r q o2.1 down in
                      account q (o2.0, o3) u3 n3;
                },
              ),
            ),
          ),
        ),
      )
