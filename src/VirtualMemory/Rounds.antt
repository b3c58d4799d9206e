-- ===== src/VirtualMemory/Rounds.antt =====
-- A round of mappages of vm.c, and the entries that its rounds set.
use ut_os.Base.{
  ℕ, suc, ◌+◌, ◌-◌, ◌*◌, ◌/◌, ◌%◌, ◌≤◌, ◌<◌, ◌^◌, ◌≡◌, ◌≢◌, refl, sym, subst, ◌∙◌, ap, Bool, true,
  false, ◌&&◌, ltb, leb, ◌==◌, ne→==, some, Option, if◌then◌else◌, List, wrap, minus_one, arith,
}
use ut_os.Strings.{Memory}
use ut_os.Kalloc.{Kmem, page_size, load_word}
use ut_os.VirtualMemory.Entry.{pdx, ptx, is_present}
use ut_os.VirtualMemory.{page_table, set_pte, walkpgdir, map_pages}
use ut_os.VirtualMemory.Masks.{flagged}
use ut_os.VirtualMemory.Space.{slot_of, entry_of, entry_of-present}
use ut_os.VirtualMemory.Find.{Walked, left_free}
use ut_os.VirtualMemory.Change.{
  Changed, Changed-trans, Changed-eq, Walked-Changed, set_pte-Changed, entered,
}

-- The entries with those of the `n + 1` pages from `a` on set to the pages from `pa` on.
abbrev pub filled : (ℕ → ℕ) → ℕ → ℕ → ℕ → ℕ → ℕ → ℕ
filled f a n pa perm x =
    if leb a x && ltb x (a + n * page_size + page_size)
    then flagged (wrap (pa + (x / page_size * page_size - a))) perm
    else f x

pub filled-zero :
    (f : ℕ → ℕ) (a pa perm x : ℕ)
    → a % page_size ≡ 0
    → pa < 2 ^ 32
    → entered f a (flagged pa perm) x ≡ filled f a 0 pa perm x
filled-zero f a pa perm x h l =
    let same : x / page_size ≡ a / page_size → wrap (pa + (x / page_size * page_size - a)) ≡ pa =
      λ e. omega arith in
    ground (arith, same, ap (λ p. flagged p perm))

pub filled-suc :
    (f : ℕ → ℕ) (a n pa perm x : ℕ)
    → a % page_size ≡ 0
    → pa < 2 ^ 32
    → filled (entered f a (flagged pa perm)) (a + page_size) n (wrap (pa + page_size)) perm x
      ≡ filled f a (suc n) pa perm x
filled-suc f a n pa perm x h l =
    let same : x / page_size ≡ a / page_size → wrap (pa + (x / page_size * page_size - a)) ≡ pa =
      λ e. omega arith in
    let later : a + page_size ≤ x
        → wrap (wrap (pa + page_size) + (x / page_size * page_size - (a + page_size)))
          ≡ wrap (pa + (x / page_size * page_size - a)) =
      λ e. omega arith in
    ground (arith, same, later, ap (λ p. flagged p perm))

pub filled-of :
    (f g : ℕ → ℕ) (a n pa perm x : ℕ) → f x ≡ g x → filled f a n pa perm x ≡ filled g a n pa perm x
filled-of f g a n pa perm x e =
    ap
      (λ y.
        if leb a x && ltb x (a + n * page_size + page_size)
        then flagged (wrap (pa + (x / page_size * page_size - a))) perm
        else y)
      e

module _ (b : Bool) (x y : Option (ℕ × Kmem)) where
  pub if_last : b ≡ true → (elim b as (λ c. Option (ℕ × Kmem)) [ true ↦ x | false ↦ y ]) ≡ x
  if_last h = rw h refl

  pub if_next : b ≡ false → (elim b as (λ c. Option (ℕ × Kmem)) [ true ↦ x | false ↦ y ]) ≡ y
  if_next h = rw h refl

pub next_lem : (a n : ℕ) → a + suc n * page_size < 2 ^ 32 → wrap (a + page_size) ≡ a + page_size
next_lem a n h = omega arith

pub last_lem : (a n : ℕ) → a + suc n * page_size ≡ a + page_size + n * page_size
last_lem a n = omega arith

pub if-false : (b : Bool) (x y : ℕ) → b ≡ false → (if b then x else y) ≡ y
if-false b x y h = rw h refl

module _ (f : ℕ) (k : Kmem) (pgdir a last pa perm : ℕ) where
  pub map-full :
      (walkpgdir k pgdir a true).1 ≡ 0
      → map_pages (suc f) k pgdir a last pa perm ≡ some (minus_one, (walkpgdir k pgdir a true).0)
  unfolding map_pages
  map-full e = rw (e, map_pages) refl

  -- A round whose entry is found and not present.
  pub map-round :
      (walkpgdir k pgdir a true).1 ≢ 0
      → is_present (load_word (walkpgdir k pgdir a true).0.mem (walkpgdir k pgdir a true).1) ≡ false
      → map_pages (suc f) k pgdir a last pa perm ≡ (
          let k2 =
            set_pte (walkpgdir k pgdir a true).0 (walkpgdir k pgdir a true).1 (flagged pa perm) in
          elim (a == last) as (λ b. Option (ℕ × Kmem)) [
            | true ↦ some (0, k2)
            | false ↦ map_pages f k2 pgdir (wrap (a + page_size)) last (wrap (pa + page_size)) perm
          ])
  unfolding map_pages
  map-round n h = rw (ne→== (walkpgdir k pgdir a true).1 0 n, h, map_pages) refl

pub load-slot_of : (m : Memory) (p i : ℕ) → load_word m (p + 4 * i) ≡ slot_of m p i
unfolding slot_of
load-slot_of m p i = refl

module _ (kernel_end : ℕ) where
  -- The entry of `a` can be set: walkpgdir finds it, and it is not present.
  pub record Settable (k : Kmem) (pgdir a : ℕ) (ps : List ℕ) (k1 : Kmem) (pte : ℕ) : Type 0 where
    pub not_null : pte ≢ 0
    pub held : load_word k1.mem pte ≡ entry_of k.mem pgdir a
    pub set :
        (w : ℕ)
        → w < 2 ^ 32
        → Changed kernel_end k pgdir ps
            (left_free k.mem pgdir a ps)
            (set_pte k1 pte w)
            (entered (λ x. entry_of k.mem pgdir x) a w)

  pub Walked-Settable :
      (k : Kmem) (pgdir a : ℕ) (ps : List ℕ) (k1 : Kmem) (pte : ℕ)
      → a < 2 ^ 32
      → Walked kernel_end k pgdir a ps (left_free k.mem pgdir a ps) k1 pte
      → Settable k pgdir a ps k1 pte
  Walked-Settable k pgdir a ps k1 pte ha w =
      let there = w.space.table (pdx a) (omega arith) w.present in
      record {
        not_null = omega (arith, w.pte_is, there.page.not_null);
        held =
            ap (λ p. load_word k1.mem p) w.pte_is
            ∙ (load-slot_of k1.mem (page_table (slot_of k1.mem pgdir (pdx a))) (ptx a)
                ∙ (sym (entry_of-present k1.mem pgdir a w.present) ∙ w.entries a));
        set = λ v hv.
            let ps1 = left_free k.mem pgdir a ps in
            subst
              (λ p.
                Changed kernel_end k pgdir ps ps1 (set_pte k1 p v)
                  (entered (λ x. entry_of k.mem pgdir x) a v))
              (sym w.pte_is)
              (Changed-trans kernel_end k k1
                (set_pte k1 (page_table (slot_of k1.mem pgdir (pdx a)) + 4 * ptx a) v) pgdir ps ps1
                ps1 (λ x. entry_of k.mem pgdir x) (entered (λ x. entry_of k.mem pgdir x) a v)
                (Walked-Changed kernel_end k pgdir a ps k1 pte w)
                (Changed-eq kernel_end k1 pgdir ps1 ps1
                  (set_pte k1 (page_table (slot_of k1.mem pgdir (pdx a)) + 4 * ptx a) v)
                  (entered (λ x. entry_of k1.mem pgdir x) a v)
                  (entered (λ x. entry_of k.mem pgdir x) a v)
                  (λ x hx. ap (λ e. if x / page_size == a / page_size then v else e) (w.entries x))
                  (set_pte-Changed kernel_end k1 pgdir a v ps1 w.space w.free w.present ha hv)));
      }

  pub Settable-free :
      (k : Kmem) (pgdir a : ℕ) (ps : List ℕ) (k1 : Kmem) (pte : ℕ)
      → Settable k pgdir a ps k1 pte
      → is_present (entry_of k.mem pgdir a) ≡ false
      → is_present (load_word k1.mem pte) ≡ false
  Settable-free k pgdir a ps k1 pte e h = subst (λ y. is_present y ≡ false) (sym e.held) h
