-- ===== src/VirtualMemory/Growth.antt =====
-- allocuvm of vm.c: one more page mapped behind those that are there.
use ut_os.Base.{
  refl, ◌∷◌, ℕ, ◌+◌, ◌*◌, ◌/◌, ◌%◌, ◌≤◌, ◌<◌, ◌^◌, ◌≡◌, ◌≢◌, ◌⊎◌, inl, inr, sym, subst, ◌∙◌, ap,
  Bool-cases, true, false, ◌==◌, ==→eq, List, IsOther, arith,
}
use ut_os.Kalloc.{Kmem, page_size, v2p}
use ut_os.Kalloc.Chain.{IsPage}
use ut_os.VirtualMemory.Entry.{p2v, pte_addr, is_present}
use ut_os.VirtualMemory.Masks.{flagged}
use ut_os.VirtualMemory.Space.{entry_of, IsApart}
use ut_os.VirtualMemory.Change.{Changed, entered}
use ut_os.VirtualMemory.Frames.{frame_of, IsWithin, IsOwned}
use ut_os.VirtualMemory.Freeing.{ahead}
use ut_os.VirtualMemory.Calls.{if_same}
use ut_os.VirtualMemory.Rounds.{if-false}
use ut_os.VirtualMemory.Growing.{IsZero, Before, Accounts, Grown}

-- The entry for the page with the flags is present, leads to the page, and lets the user read and
-- write it.
abbrev pub IsFlagged : ℕ → ℕ → Type 0
IsFlagged p flags =
    (is_present (flagged (v2p p) flags) ≡ true)
    × (p2v (pte_addr (flagged (v2p p) flags)) ≡ p)
    × (flagged (v2p p) flags % page_size ≡ 7)

not_there : (e : ℕ) → is_present e ≡ true → e ≡ 0 → ⊥
not_there e p z = ground arith

same_start : (x a : ℕ) → a % page_size ≡ 0 → x / page_size ≡ a / page_size → a ≤ x
same_start x a al e = omega (arith, al, e)

other_page :
    (x lo a hi : ℕ)
    → a % page_size ≡ 0
    → lo ≤ a
    → a < hi
    → (x < lo) ⊎ (hi ≤ x / page_size * page_size)
    → (x / page_size == a / page_size) ≡ false
other_page x lo a hi al l h o = ground arith

before : (x a : ℕ) → a % page_size ≡ 0 → x < a + page_size → x / page_size ≢ a / page_size → x < a
before x a al h n = ground arith

module _ (kernel_end : ℕ) where
  module _ (was : Before) (k2 k3 : Kmem) (d lo a hi p flags : ℕ) (ps ps' : List ℕ)
      (g : Grown kernel_end was k2 d lo a hi ps) (pg : IsPage kernel_end p)
      (c : Changed kernel_end k2 d ps ps' k3
        (entered (λ y. entry_of k2.mem d y) a (flagged (v2p p) flags)))
      (w : IsFlagged p flags) (o : IsOther p ps) (new : ¬ IsOther p was.pages)
      (u : IsApart k2.mem d p) (z : IsZero k2.mem p)
      (n : (x : ℕ)
        → IsWithin lo hi x
        → is_present (entry_of k2.mem d x) ≡ true
        → frame_of k2.mem d x ≢ p)
      (al : a % page_size ≡ 0) (la : lo ≤ a) (ha : a < hi) where
    -- An entry of the range is the new one, or that of before.
    entry_cases :
        (x : ℕ)
        → x < 2 ^ 32
        → ((x / page_size ≡ a / page_size) × (entry_of k3.mem d x ≡ flagged (v2p p) flags))
          ⊎ ((x / page_size ≢ a / page_size) × (entry_of k3.mem d x ≡ entry_of k2.mem d x))
    entry_cases x l = elim (Bool-cases (x / page_size == a / page_size)) [
      | inl e ↦ inl (
        ==→eq (x / page_size) (a / page_size) e,
        c.entries x l
            ∙ if_same (x / page_size == a / page_size) (flagged (v2p p) flags) (entry_of k2.mem d x)
                e,
      )
      | inr e ↦ inr (
        ground arith,
        c.entries x l
            ∙ if-false (x / page_size == a / page_size) (flagged (v2p p) flags)
                (entry_of k2.mem d x) e,
      )
    ]

    frame_new : (x : ℕ) → entry_of k3.mem d x ≡ flagged (v2p p) flags → frame_of k3.mem d x ≡ p
    frame_new x e = ap (λ y. p2v (pte_addr y)) e ∙ w.1

    frame_old :
        (x : ℕ)
        → entry_of k3.mem d x ≡ entry_of k2.mem d x
        → frame_of k3.mem d x ≡ frame_of k2.mem d x
    frame_old x e = ap (λ y. p2v (pte_addr y)) e

    -- Of the entries of the range, the new frame or an old one.
    Frame : ℕ → Type 0
    Frame x =
        ((x / page_size ≡ a / page_size) × (frame_of k3.mem d x ≡ p))
        ⊎ ((x / page_size ≢ a / page_size)
            × ((is_present (entry_of k2.mem d x) ≡ true)
                × (frame_of k3.mem d x ≡ frame_of k2.mem d x)))

    Frame-cases : (x : ℕ) → x < 2 ^ 32 → is_present (entry_of k3.mem d x) ≡ true → Frame x
    unfolding Frame
    Frame-cases x l h = elim (entry_cases x l) [
      | inl (e, t) ↦ inl (e, frame_new x t)
      | inr (e, t) ↦ inr (e, (subst (λ y. is_present y ≡ true) t h, frame_old x t))
    ]

    mapped-IsOwned : IsOwned kernel_end k3.mem d ps' lo hi
    unfolding Frame
    mapped-IsOwned = record {
      page = λ x v h. elim (Frame-cases x v.2 h) [
        | inl (e, t) ↦ subst (λ y. IsPage kernel_end y) (sym t) pg
        | inr (e, (q, t)) ↦ subst (λ y. IsPage kernel_end y) (sym t) (g.owned.page x v q)
      ];
      not_free = λ x v h. elim (Frame-cases x v.2 h) [
        | inl (e, t) ↦ subst (λ y. IsOther y ps') (sym t) (c.fewer p o)
        | inr (e, (q, t)) ↦
            subst (λ y. IsOther y ps') (sym t)
              (c.fewer (frame_of k2.mem d x) (g.owned.not_free x v q))
      ];
      not_table = λ x v h. elim (Frame-cases x v.2 h) [
        | inl (e, t) ↦ subst (λ y. IsApart k3.mem d y) (sym t) (c.tables p o u)
        | inr (e, (q, t)) ↦
            subst (λ y. IsApart k3.mem d y) (sym t)
              (c.tables (frame_of k2.mem d x) (g.owned.not_free x v q) (g.owned.not_table x v q))
      ];
      once = λ x y v v' ne h h' same. elim (Frame-cases x v.2 h) [
        | inl (e, t) ↦ elim (Frame-cases y v'.2 h') [
          | inl (e', t') ↦ ne (e ∙ sym e')
          | inr (e', (q', t')) ↦ n y v' q' (sym t' ∙ (sym same ∙ t))
        ]
        | inr (e, (q, t)) ↦ elim (Frame-cases y v'.2 h') [
          | inl (e', t') ↦ n x v q (sym t ∙ (same ∙ t'))
          | inr (e', (q', t')) ↦ g.owned.once x y v v' ne q q' (sym t ∙ (same ∙ t'))
        ]
      ];
    }

    -- The page mapped behind those that are there.
    pub Grown-mapped : Grown kernel_end was k3 d lo (a + page_size) hi ps'
    Grown-mapped = record {
      space = c.space;
      free = c.free;
      entries = λ x l r.
          c.entries x l
          ∙ (if-false (x / page_size == a / page_size) (flagged (v2p p) flags) (entry_of k2.mem d x)
                (other_page x lo a hi al la ha r)
              ∙ g.entries x l r);
      unmapped = λ x v.
          c.entries x v.2
          ∙ (if-false (x / page_size == a / page_size) (flagged (v2p p) flags) (entry_of k2.mem d x)
                (ahead x a al v.0)
              ∙ g.unmapped x ((omega (arith, v.0)), v.1, v.2));
      owned = mapped-IsOwned;
      flags = λ x v l. elim (entry_cases x v.2) [
        | inl (e, t) ↦ subst (λ y. y % page_size ≡ 7) (sym t) w.2
        | inr (e, t) ↦ subst (λ y. y % page_size ≡ 7) (sym t) (g.flags x v (before x a al l e))
      ];
      fresh = λ x v l. elim (entry_cases x v.2) [
        | inl (e, t) ↦ subst (λ y. ¬ IsOther y was.pages) (sym (frame_new x t)) new
        | inr (e, t) ↦
            subst (λ y. ¬ IsOther y was.pages) (sym (frame_old x t))
              (g.fresh x v (before x a al l e))
      ];
      fewer = λ q r. c.fewer q (g.fewer q r);
      mapped = λ x v l. elim (entry_cases x v.2) [
        | inl (e, t) ↦ (
          subst (λ y. is_present y ≡ true) (sym t) w.0,
          subst (λ y. IsZero k3.mem y) (sym (frame_new x t))
              (λ y i j. c.outside p y pg.aligned o u i j ∙ z y i j),
        )
        | inr (e, t) ↦
            (let (there, zeros) = g.mapped x v (before x a al l e) in
              let f = frame_of k2.mem d x in
              (
                subst (λ y. is_present y ≡ true) (sym t) there,
                subst (λ y. IsZero k3.mem y) (sym (frame_old x t))
                    (λ y i j.
                      c.outside f y (g.owned.page x v there).aligned (g.owned.not_free x v there)
                        (g.owned.not_table x v there) i j
                      ∙ zeros y i j),
              ))
      ];
    }

    pub mapped-Accounts :
        hi ≤ 2 ^ 32
        → Accounts kernel_end was.pages k2.mem d lo hi (p ∷ ps)
        → Accounts kernel_end was.pages k3.mem d lo hi ps'
    mapped-Accounts top account q r t m =
        let (r1, t1) = c.none_lost q r t in
        let here : entry_of k3.mem d a ≡ flagged (v2p p) flags =
          elim (entry_cases a (omega (arith, top, ha))) [
            | inl (e, y) ↦ y
            | inr (e, y) ↦ absurd (e refl)
          ] in
        account q
          (
            (λ e.
                m a (la, omega (arith, ha, al), omega (arith, top, ha))
                  (subst (λ y. is_present y ≡ true) (sym here) w.0) (frame_new a here ∙ sym e)),
            r1,
          )
          t1
          (λ x v h. elim (entry_cases x v.2) [
            | inl (e, y) ↦
                absurd
                  (not_there (entry_of k2.mem d x) h (g.unmapped x (same_start x a al e, v.1, v.2)))
            | inr (e, y) ↦
                subst (λ z. z ≢ q) (frame_old x y)
                  (m x v (subst (λ z. is_present z ≡ true) (sym y) h))
          ])
