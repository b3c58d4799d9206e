-- ===== src/VirtualMemory/Mapping.antt =====
-- mappages of vm.c, page by page.
use ut_os.Base.{
  IsOther, ℕ, zero, suc, ◌+◌, ◌*◌, ◌/◌, ◌%◌, ◌≤◌, ◌<◌, ◌^◌, ◌≡◌, ◌⊎◌, inl, inr, refl, sym, subst,
  ◌∙◌, ap, ap₂, true, false, ◌==◌, some, List, [], ◌∷◌, length, wrap, minus_one, arith,
}
use ut_os.Strings.{Memory}
use ut_os.Kalloc.{Kmem, page_size}
use ut_os.Kalloc.Chain.{IsFreeList}
use ut_os.VirtualMemory.Entry.{is_present, or_word, pte_p}
use ut_os.VirtualMemory.{set_pte, walkpgdir, map_pages}
use ut_os.VirtualMemory.Masks.{or_word-lt, flagged}
use ut_os.VirtualMemory.Space.{entry_of, IsApart, IsSpace}
use ut_os.VirtualMemory.Find.{IsFull, left_free, walkpgdir_lem}
use ut_os.VirtualMemory.Change.{Changed, Changed-trans, Changed-eq, entered}
use ut_os.VirtualMemory.Rounds.{
  filled, filled-zero, filled-suc, filled-of, if-false, if_last, if_next, next_lem, last_lem,
  map-full, map-round, Walked-Settable, Settable-free,
}

module _ (kernel_end : ℕ) where
  module _ (k : Kmem) (pgdir a n : ℕ) (ps : List ℕ) (r : ℕ × Kmem) where
    -- Every free page has become a table, and pages of the range, the last one among them, are not
    -- mapped for want of one.
    pub record MapFailed : Type 0 where
      pub result : r.0 ≡ minus_one
      pub few : length ps ≤ n
      pub change : Changed kernel_end k pgdir ps [] r.1 (λ x. entry_of r.1.mem pgdir x)
      pub same :
          (x : ℕ)
          → x < 2 ^ 32
          → (x < a) ⊎ (a + n * page_size ≤ x)
          → entry_of r.1.mem pgdir x ≡ entry_of k.mem pgdir x

    -- The pages of the range are mapped; a page at most for each has become a table.
    pub record MapDone (pa perm : ℕ) (ps' : List ℕ) : Type 0 where
      pub result : r.0 ≡ 0
      pub few : length ps ≤ length ps' + n + 1
      pub change :
          Changed kernel_end k pgdir ps ps' r.1 (filled (λ x. entry_of k.mem pgdir x) a n pa perm)

  abbrev pub MapEnd : Kmem → ℕ → ℕ → ℕ → List ℕ → ℕ → ℕ → ℕ × Kmem → Type 0
  MapEnd k pgdir a n ps pa perm r =
      MapFailed k pgdir a n ps r ⊎ ((ps' : List ℕ) × MapDone k pgdir a n ps r pa perm ps')

  full-MapFailed :
      (k k1 : Kmem) (pgdir a n : ℕ) (ps : List ℕ) (pte : ℕ)
      → IsSpace kernel_end k.mem pgdir ps
      → IsFull kernel_end k pgdir a ps k1 pte
      → MapFailed k pgdir a n ps (minus_one, k1)
  full-MapFailed k k1 pgdir a n ps pte s f = record {
    result = refl;
    few = rw f.no_page (omega arith);
    change = record {
      space =
          subst (λ (m : Memory). IsSpace kernel_end m pgdir []) (sym f.same)
            (subst (λ l. IsSpace kernel_end k.mem pgdir l) f.no_page s);
      free = f.still;
      entries = λ x l. refl;
      fewer = λ q o. tt;
      tables = λ q o u. subst (λ (m : Memory). IsApart m pgdir q) (sym f.same) u;
      none_lost = λ q o u. (
        subst (λ l. IsOther q l) (sym f.no_page) tt,
        subst (λ (m : Memory). IsApart m pgdir q) f.same u,
      );
      outside = λ q x al o u l h. ap (λ (m : Memory). m x) f.same;
    };
    same = λ x l h. ap (λ (m : Memory). entry_of m pgdir x) f.same;
  }

  length-left :
      (m : Memory) (pgdir a : ℕ) (ps : List ℕ) → length ps ≤ length (left_free m pgdir a ps) + 1
  length-left m pgdir a [] = omega arith
  length-left m pgdir a (p ∷ ps) = ground arith

  -- The pages after the first one, once the first one is mapped.
  map-rest :
      (k k2 : Kmem) (pgdir a n pa perm : ℕ) (ps ps1 : List ℕ) (r : ℕ × Kmem)
      → a % page_size ≡ 0
      → pa < 2 ^ 32
      → length ps ≤ length ps1 + 1
      → Changed kernel_end k pgdir ps ps1 k2
          (entered (λ x. entry_of k.mem pgdir x) a (flagged pa perm))
      → MapEnd k2 pgdir (a + page_size) n ps1 (wrap (pa + page_size)) perm r
      → MapEnd k pgdir a (suc n) ps pa perm r
  map-rest k k2 pgdir a n pa perm ps ps1 r al hp few c (inl e) = inl (record {
    result = e.result;
    few = omega (arith, e.few);
    change =
        Changed-trans kernel_end k k2 r.1 pgdir ps ps1 []
          (entered (λ x. entry_of k.mem pgdir x) a (flagged pa perm))
          (λ x. entry_of r.1.mem pgdir x) c e.change;
    same = λ x l h.
        e.same x l (omega arith)
        ∙ (c.entries x l
            ∙ if-false (x / page_size == a / page_size) (flagged pa perm) (entry_of k.mem pgdir x)
                (ground arith));
  })
  map-rest k k2 pgdir a n pa perm ps ps1 r al hp few c (inr (ps', e)) = inr (
    ps',
    record {
      result = e.result;
      few = omega (arith, e.few);
      change =
          Changed-trans kernel_end k k2 r.1 pgdir ps ps1 ps'
            (entered (λ x. entry_of k.mem pgdir x) a (flagged pa perm))
            (filled (λ x. entry_of k.mem pgdir x) a (suc n) pa perm) c
            (Changed-eq kernel_end k2 pgdir ps1 ps' r.1
              (filled (λ x. entry_of k2.mem pgdir x) (a + page_size) n (wrap (pa + page_size)) perm)
              (filled (λ x. entry_of k.mem pgdir x) a (suc n) pa perm)
              (λ x l.
                filled-of (λ y. entry_of k2.mem pgdir y)
                  (entered (λ y. entry_of k.mem pgdir y) a (flagged pa perm)) (a + page_size) n
                  (wrap (pa + page_size)) perm x (c.entries x l)
                ∙ filled-suc (λ y. entry_of k.mem pgdir y) a n pa perm x al hp)
              e.change);
    },
  )

  -- One page, and the loop over the others.
  pub map_pages_lem :
      (n fuel : ℕ) (k : Kmem) (pgdir a pa perm : ℕ) (ps : List ℕ)
      → n < fuel
      → a % page_size ≡ 0
      → a + n * page_size < 2 ^ 32
      → pa < 2 ^ 32
      → ((i : ℕ) → i ≤ n → is_present (entry_of k.mem pgdir (a + i * page_size)) ≡ false)
      → IsSpace kernel_end k.mem pgdir ps
      → IsFreeList kernel_end k ps
      → (r : ℕ × Kmem) × (map_pages fuel k pgdir a (a + n * page_size) pa perm ≡ some r)
        × MapEnd k pgdir a n ps pa perm r
  map_pages_lem n zero k pgdir a pa perm ps hf al hl hp free s c = absurd (omega arith)
  map_pages_lem zero (suc fuel) k pgdir a pa perm ps hf al hl hp free s c =
      let k1 = (walkpgdir k pgdir a true).0 in
      let pte = (walkpgdir k pgdir a true).1 in
      let v = flagged pa perm in
      elim (walkpgdir_lem kernel_end k pgdir a ps s c) [
        | inl f ↦ (
          (minus_one, k1),
          map-full fuel k pgdir a (a + 0 * page_size) pa perm f.null,
          inl (full-MapFailed k k1 pgdir a 0 ps pte s f),
        )
        | inr w ↦
            (let e = Walked-Settable kernel_end k pgdir a ps k1 pte (omega arith) w in
              (
                (0, set_pte k1 pte v),
                map-round fuel k pgdir a (a + 0 * page_size) pa perm e.not_null (
                      Settable-free kernel_end k pgdir a ps k1 pte e (
                        subst (λ y. is_present (entry_of k.mem pgdir y) ≡ false) (omega arith)
                          (free 0 (omega arith))))
                    ∙ if_last (a == a + 0 * page_size) (some (0, set_pte k1 pte v))
                        (map_pages fuel (set_pte k1 pte v) pgdir (wrap (a + page_size))
                          (a + 0 * page_size) (wrap (pa + page_size)) perm)
                        (ground arith),
                inr (
                  left_free k.mem pgdir a ps,
                  record {
                    result = refl;
                    few = omega (arith, length-left k.mem pgdir a ps);
                    change =
                        Changed-eq kernel_end k pgdir ps (left_free k.mem pgdir a ps)
                          (set_pte k1 pte v) (entered (λ x. entry_of k.mem pgdir x) a v)
                          (filled (λ x. entry_of k.mem pgdir x) a 0 pa perm)
                          (λ x l. filled-zero (λ y. entry_of k.mem pgdir y) a pa perm x al hp)
                          (e.set v (or_word-lt (or_word pa perm) pte_p));
                  },
                ),
              ))
      ]
  map_pages_lem (suc n) (suc fuel) k pgdir a pa perm ps hf al hl hp free s c =
      let k1 = (walkpgdir k pgdir a true).0 in
      let pte = (walkpgdir k pgdir a true).1 in
      let v = flagged pa perm in
      let k2 = set_pte k1 pte v in
      elim (walkpgdir_lem kernel_end k pgdir a ps s c) [
        | inl f ↦ (
          (minus_one, k1),
          map-full fuel k pgdir a (a + suc n * page_size) pa perm f.null,
          inl (full-MapFailed k k1 pgdir a (suc n) ps pte s f),
        )
        | inr w ↦
            (let e = Walked-Settable kernel_end k pgdir a ps k1 pte (omega arith) w in
              let change = e.set v (or_word-lt (or_word pa perm) pte_p) in
              let (r, ran, end) =
                map_pages_lem n fuel k2 pgdir (a + page_size) (wrap (pa + page_size)) perm
                  (left_free k.mem pgdir a ps) (omega arith) (omega arith) (omega arith)
                  (omega arith)
                  (λ i l.
                    subst (λ y. is_present y ≡ false)
                      (sym (
                        change.entries (a + page_size + i * page_size) (omega arith)
                        ∙ if-false ((a + page_size + i * page_size) / page_size == a / page_size) v
                            (entry_of k.mem pgdir (a + page_size + i * page_size)) (ground arith)))
                      (subst (λ y. is_present (entry_of k.mem pgdir y) ≡ false) (omega arith)
                        (free (suc i) (omega arith))))
                  change.space change.free in
              (
                r,
                map-round fuel k pgdir a (a + suc n * page_size) pa perm e.not_null (
                      Settable-free kernel_end k pgdir a ps k1 pte e (
                        subst (λ y. is_present (entry_of k.mem pgdir y) ≡ false) (omega arith)
                          (free 0 (omega arith))))
                    ∙ (if_next (a == a + suc n * page_size) (some (0, k2))
                          (map_pages fuel k2 pgdir (wrap (a + page_size)) (a + suc n * page_size)
                            (wrap (pa + page_size)) perm)
                          (ground arith)
                        ∙ (ap₂ (λ x y. map_pages fuel k2 pgdir x y (wrap (pa + page_size)) perm)
                              (next_lem a n hl) (last_lem a n)
                            ∙ ran)),
                map-rest k k2 pgdir a n pa perm ps (left_free k.mem pgdir a ps) r al hp
                    (length-left k.mem pgdir a ps) change end,
              ))
      ]
