-- ===== src/VirtualMemory/Singles.antt =====
-- The table of shared pages of vm.c across open_sharedmem and close_sharedmem: no id is open twice.
use ut_os.Base.{
  ℕ, ◌+◌, ◌<◌, ◌≡◌, ◌≢◌, inl, inr, sym, subst, ◌∙◌, Bool-cases, Option-cases, ◌==◌, ==→eq, some,
  none, Option, update, wrap, sub_word, minus_one, arith, lt_int, leb, refl, false,
}
use ut_os.Kalloc.{Kmem, page_size, v2p, page_round_up}
use ut_os.Proc.{nproc, Proc}
use ut_os.VirtualMemory.{mappages, unmappages}
use ut_os.VirtualMemory.Shared.{
  ShmTable, Shared, n_shared_pages, switchuvm, find_open, find_close, gain, lose, regain,
  open_sharedmem, close_sharedmem,
}
use ut_os.VirtualMemory.Segments.{IsOpen, AreSingle, find_open_lem, find_close-IsOpen}
use ut_os.VirtualMemory.Opening.{user_flags}

-- Only the entry `i` differs, and where it is open it has the id, which no other open entry has.
single-update :
    (t : ShmTable) (id i : ℕ) (count : ℕ → ℕ) (at : ℕ → ℕ → ℕ)
    → i < n_shared_pages
    → AreSingle t
    → ((l : ℕ) → l < n_shared_pages → l ≢ i → t.ref_count l ≢ 0 → t.id l ≢ id)
    → ((l : ℕ) → l ≢ i → count l ≡ t.ref_count l)
    → AreSingle (record t { id = update t.id i id; ref_count = count; va = at })
single-update t id i count at hi s alone same j l hj hl nj nl e = elim (Bool-cases (i == j)) [
  | inl ej ↦ elim (Bool-cases (i == l)) [
    | inl el ↦ sym (==→eq i j ej) ∙ ==→eq i l el
    | inr el ↦
        (let d : l ≢ i = ground arith in
          absurd (alone l hl d (subst (λ x. x ≢ 0) (same l d) nl) (ground arith)))
  ]
  | inr ej ↦
      (let dj : j ≢ i = ground arith in
        elim (Bool-cases (i == l)) [
          | inl el ↦ absurd (alone j hj dj (subst (λ x. x ≢ 0) (same j dj) nj) (ground arith))
          | inr el ↦
              (let dl : l ≢ i = ground arith in
                s j l hj hl (subst (λ x. x ≢ 0) (same j dj) nj) (subst (λ x. x ≢ 0) (same l dl) nl)
                  (ground arith))
        ])
]

none-some : (i : ℕ) → none ≢ some i
none-some i e = cc

module _ (t : ShmTable) (id i : ℕ) (s : AreSingle t)
    (e : find_open t id n_shared_pages 0 none ≡ some i) where
  some-injective : (j : ℕ) → find_open t id n_shared_pages 0 none ≡ some j → j ≡ i
  some-injective j f = ground (arith, sym f ∙ e)

  pub found_lt : i < n_shared_pages
  found_lt = elim (find_open_lem t id s) [
    | inl (j, h, o, f) ↦ subst (λ x. x < n_shared_pages) (some-injective j f) h
    | inr (f, inl (j, h, o, g)) ↦ subst (λ x. x < n_shared_pages) (some-injective j g) h
    | inr (f, inr (g, n)) ↦ absurd (none-some i (sym n ∙ e))
  ]

  found_alone : (l : ℕ) → l < n_shared_pages → l ≢ i → t.ref_count l ≢ 0 → t.id l ≢ id
  found_alone l hl d n = elim (find_open_lem t id s) [
    | inl (j, h, o, f) ↦ (λ c. d (s l j hl h n o.0 (c ∙ sym o.1) ∙ some-injective j f))
    | inr (f, _) ↦ f l hl n
  ]

  -- The table that open_sharedmem leaves, whatever it counts for the entry it found.
  pub found-AreSingle :
      (count : ℕ → ℕ) (at : ℕ → ℕ → ℕ)
      → ((l : ℕ) → l ≢ i → count l ≡ t.ref_count l)
      → AreSingle (record t { id = update t.id i id; ref_count = count; va = at })
  found-AreSingle count at same = single-update t id i count at found_lt s found_alone same

update_once : (f : ℕ → ℕ) (i l a : ℕ) → l ≢ i → update f i a l ≡ f l
update_once f i l a d = ground arith

pub update_twice : (f : ℕ → ℕ) (i l a b : ℕ) → l ≢ i → update (update f i a) i b l ≡ f l
update_twice f i l a b d = ground arith

-- The table after a call; a call that panics or goes behind the table leaves none, and `t` stands
-- for it.
abbrev pub table_after : ShmTable → Option Shared → ShmTable
table_after t none = t
table_after t (some s) = s.table

-- open_sharedmem, with no other process in between, never leaves one id open in two entries, on any of
-- its branches.
pub open_sharedmem-AreSingle :
    (k : Kmem) (t : ShmTable) (p : Proc) (id : ℕ)
    → AreSingle t
    → AreSingle (table_after t (open_sharedmem k t p id))
unfolding open_sharedmem
open_sharedmem-AreSingle k t p id s = elim (Option-cases (find_open t id n_shared_pages 0 none)) [
  | inl e ↦ rw (e, open_sharedmem) s
  | inr (i, e) ↦
      (let more = update t.ref_count i (wrap (t.ref_count i + 1)) in
        rw (e, open_sharedmem)
          (elim (Option-cases
            (mappages k p.pgdir (page_round_up p.sz) page_size (v2p (t.pa i)) user_flags)) [
              | inl m ↦ rw m s
              | inr (r, m) ↦ rw m (elim (Bool-cases (lt_int r.0 0)) [
                | inl b ↦ rw b (
                    found-AreSingle t id i s e (update more i (sub_word (more i) 1)) t.va (λ l d.
                      update_twice t.ref_count i l (wrap (t.ref_count i + 1)) (sub_word (more i) 1)
                        d))
                | inr b ↦ rw b (elim (Option-cases (switchuvm p)) [
                  | inl w ↦ rw w s
                  | inr (c, w) ↦ rw w (elim (Bool-cases (leb nproc p.pid)) [
                    | inl h ↦ rw h s
                    | inr h ↦ rw h (
                        found-AreSingle t id i s e (update t.ref_count i (wrap (t.ref_count i + 1)))
                          (update t.va p.pid (update (t.va p.pid) i (page_round_up p.sz)))
                          (λ l d. update_once t.ref_count i l (wrap (t.ref_count i + 1)) d))
                  ])
                ])
              ])
            ]))
]

closed-AreSingle :
    (t : ShmTable) (i : ℕ) (count : ℕ → ℕ)
    → AreSingle t
    → t.ref_count i ≢ 0
    → ((l : ℕ) → l ≢ i → count l ≡ t.ref_count l)
    → AreSingle (record t { ref_count = count })
closed-AreSingle t i count s o same j l hj hl nj nl e = s j l hj hl (was j nj) (was l nl) e
  where
    was : (x : ℕ) → count x ≢ 0 → t.ref_count x ≢ 0
    was x n = elim (Bool-cases (i == x)) [
      | inl h ↦ subst (λ y. t.ref_count y ≢ 0) (==→eq i x h) o
      | inr h ↦ subst (λ y. y ≢ 0) (same x (ground arith)) n
    ]

-- The entry that open_sharedmem takes once the last user of the id has left the entry `i`.
module _ (t : ShmTable) (id i j : ℕ) (single : AreSingle t) (o : IsOpen t id i)
    (hi : i < n_shared_pages) (one : t.ref_count i ≡ 1) (ne : j ≢ i)
    (f : find_open (lose t i) id n_shared_pages 0 none ≡ some j) where
  same_entry : (l : ℕ) → find_open (lose t i) id n_shared_pages 0 none ≡ some l → l ≡ j
  same_entry l g = ground (arith, sym g ∙ f)

  taken_free : (j < n_shared_pages) × (t.ref_count j ≡ 0)
  taken_free =
      elim (find_open_lem (lose t i) id
        (closed-AreSingle t i (lose t i).ref_count single o.0 (λ l d. ground arith))) [
          | inl (l, h, p, g) ↦
              (let e = same_entry l g in
                let d : l ≢ i = ground (arith, e, ne) in
                absurd (
                  d (
                    single l i h hi
                      (subst (λ x. x ≢ 0)
                        (update_once t.ref_count i l (sub_word (t.ref_count i) 1) d) p.0)
                      o.0 (p.1 ∙ sym o.1))))
          | inr (_, inl (l, h, z, g)) ↦
              (let e = same_entry l g in
                let d : l ≢ i = ground (arith, e, ne) in
                (
                  subst (λ x. x < n_shared_pages) e h,
                  subst (λ x. t.ref_count x ≡ 0) e
                      (sym (update_once t.ref_count i l (sub_word (t.ref_count i) 1) d) ∙ z),
                ))
          | inr (_, inr (_, g)) ↦ absurd (none-some j (sym g ∙ f))
        ]

  doubled : ¬ AreSingle (regain (gain (lose t i) id j) i)
  doubled a =
      let (hj, zero) = taken_free in
      ne (
        sym (
          a i j hi hj (ground (arith, one, ne)) (ground (arith, zero, ne))
            (ground (arith, o.1, ne))))

-- The two holds of close_sharedmem are not enough. A process is the last user of an id, and closes it;
-- behind its first hold another process opens the id, and gets a new entry, as the scan of
-- open_sharedmem ends at a free one behind the entry. If unmappages then finds no page for a table,
-- the first process takes its entry back, and the id is open in two entries.
pub close_sharedmem-doubles :
    (k : Kmem) (t : ShmTable) (p : Proc) (id i j : ℕ) (k' : Kmem)
    → AreSingle t
    → p.pid < nproc
    → find_close t id n_shared_pages 0 ≡ some i
    → t.ref_count i ≡ 1
    → find_open (lose t i) id n_shared_pages 0 none ≡ some j
    → j ≢ i
    → unmappages k p.pgdir ((gain (lose t i) id j).va p.pid i) page_size ≡ some (minus_one, k')
    → (s : Shared) × (close_sharedmem (λ u. gain u id j) k t p id ≡ some s)
      × (s.result ≡ minus_one)
      × ¬ AreSingle s.table
unfolding close_sharedmem
close_sharedmem-doubles k t p id i j k' single row e one f ne m =
    let (o, hi) = find_close-IsOpen t id i e in
    let inside : leb nproc p.pid ≡ false = ground arith in
    (
      record { result = minus_one; kmem = k'; table = regain (gain (lose t i) id j) i; proc = p },
      rw (e, inside, m, close_sharedmem) refl,
      refl,
      doubled t id i j single o hi one ne f,
    )
