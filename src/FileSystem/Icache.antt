-- ===== src/FileSystem/Icache.antt =====
-- iget of fs.c: the cache of inodes has one entry for an inode.
use ut_os.Base.{
  ℕ, zero, suc, ◌+◌, ◌≤◌, ◌<◌, ◌≡◌, ◌≢◌, ◌⊎◌, refl, inl, inr, sym, ap, subst, ◌∙◌, ◌==◌, ==→eq, leb,
  Bool, Bool-cases, true, false, ◌&&◌, not, Option, none, some, update, arith,
}
use ut_os.FileSystem.Inode.{Inode, n_inode, find_inode, iget}

-- Two entries in use for the same inode are the same entry.
abbrev pub IsOnePerInode : (ℕ → Inode) → Type 0
IsOnePerInode c =
    (i j : ℕ)
    → i < n_inode
    → j < n_inode
    → (c i).ref ≢ 0
    → (c j).ref ≢ 0
    → (c i).dev ≡ (c j).dev
    → (c i).inum ≡ (c j).inum
    → i ≡ j

module _ (dev inum : ℕ) where
  -- The entry is in use for the inode.
  abbrev pub is_for : Inode → Bool
  is_for ip = not (leb ip.ref 0) && ip.dev == dev && ip.inum == inum

  abbrev shared : (ℕ → Inode) → ℕ → ℕ → Inode
  shared c k = update c k (record (c k) { ref = (c k).ref + 1 })

  abbrev taken_over : (ℕ → Inode) → ℕ → ℕ → Inode
  taken_over c k = update c k (record (c k) { dev = dev; inum = inum; ref = 1; valid = false })

  abbrev NoneFor : (ℕ → Inode) → ℕ → ℕ → Type 0
  NoneFor c i z = (j : ℕ) → i ≤ j → j < z → is_for (c j) ≡ false

  -- The scan meets an entry of the inode.
  abbrev Hit : (ℕ → Inode) → ℕ → ℕ → Option (ℕ × (ℕ → Inode)) → Type 0
  Hit c i z r = (k : ℕ) × ((k < z) × ((is_for (c k) ≡ true) × (r ≡ some (k, shared c k))))

  NoneFor-suc :
      (c : ℕ → Inode) (i z : ℕ) → is_for (c i) ≡ false → NoneFor c (i + 1) z → NoneFor c i z
  NoneFor-suc c i z h t j l u = elim (Bool-cases (i == j)) [
    | inl e ↦ subst (λ x. is_for (c x) ≡ false) (==→eq i j e) h
    | inr n ↦ t j (ground arith) u
  ]

  find_inode-some :
      (c : ℕ → Inode) (n i v : ℕ)
      → Hit c i (i + n) (find_inode c dev inum i n (some v))
        ⊎ (NoneFor c i (i + n) × (find_inode c dev inum i n (some v) ≡ some (v, taken_over c v)))
  unfolding find_inode
  find_inode-some c zero i v = inr ((λ j l u. absurd (omega arith)), refl)
  find_inode-some c (suc n) i v = elim (Bool-cases (is_for (c i))) [
    | inl here ↦ inl (i, (omega arith, (here, ground (arith, here))))
    | inr other ↦ elim (find_inode-some c n (i + 1) v) [
      | inl (k, h) ↦ inl (k, (omega (arith, h.0), (h.1.0, ground (arith, other, h.1.1))))
      | inr h ↦ inr (
        NoneFor-suc c i (i + suc n) other (λ j l u. h.0 j l (omega (arith, u))),
        ground (arith, other, h.1),
      )
    ]
  ]

  find_inode-none :
      (c : ℕ → Inode) (n i : ℕ)
      → Hit c i (i + n) (find_inode c dev inum i n none)
        ⊎ (NoneFor c i (i + n)
            × (((v : ℕ) × ((v < i + n)
                    × (((c v).ref ≡ 0)
                        × (find_inode c dev inum i n none ≡ some (v, taken_over c v)))))
                ⊎ (((j : ℕ) → i ≤ j → j < i + n → (c j).ref ≢ 0)
                    × (find_inode c dev inum i n none ≡ none))))
  unfolding find_inode
  find_inode-none c zero i =
      inr ((λ j l u. absurd (omega arith)), inr ((λ j l u. absurd (omega arith)), refl))
  find_inode-none c (suc n) i = elim (Bool-cases (is_for (c i))) [
    | inl here ↦ inl (i, (omega arith, (here, ground (arith, here))))
    | inr other ↦ elim (Bool-cases ((c i).ref == 0)) [
      | inl empty ↦ elim (find_inode-some c n (i + 1) i) [
        | inl (k, h) ↦ inl (k, (omega (arith, h.0), (h.1.0, ground (arith, other, empty, h.1.1))))
        | inr h ↦ inr (
          NoneFor-suc c i (i + suc n) other (λ j l u. h.0 j l (omega (arith, u))),
          inl (i, (omega arith, (==→eq (c i).ref 0 empty, ground (arith, other, empty, h.1)))),
        )
      ]
      | inr used ↦ elim (find_inode-none c n (i + 1)) [
        | inl (k, h) ↦ inl (k, (omega (arith, h.0), (h.1.0, ground (arith, other, used, h.1.1))))
        | inr (h, inl (v, w)) ↦ inr (
          NoneFor-suc c i (i + suc n) other (λ j l u. h j l (omega (arith, u))),
          inl (v, (omega (arith, w.0), (w.1.0, ground (arith, other, used, w.1.1)))),
        )
        | inr (h, inr w) ↦ inr (
          NoneFor-suc c i (i + suc n) other (λ j l u. h j l (omega (arith, u))),
          inr (
            (λ j l u. all_used j l (λ l'. w.0 j l' (omega (arith, u))) (ground (arith, used))),
            ground (arith, other, used, w.1),
          ),
        )
      ]
    ]
  ]
    where
      all_used : (j : ℕ) → i ≤ j → (i + 1 ≤ j → (c j).ref ≢ 0) → (c i).ref ≢ 0 → (c j).ref ≢ 0
      all_used j l f h = elim (Bool-cases (i == j)) [
        | inl e ↦ subst (λ x. (c x).ref ≢ 0) (==→eq i j e) h
        | inr n ↦ f (ground arith)
      ]

  shared-one :
      (c : ℕ → Inode) (k : ℕ) → IsOnePerInode c → is_for (c k) ≡ true → IsOnePerInode (shared c k)
  shared-one c k u h i j li lj ri rj d e =
      u i j li lj (ref i ri) (ref j rj) (sym (same_dev i) ∙ (d ∙ same_dev j))
        (sym (same_inum i) ∙ (e ∙ same_inum j))
    where
      ref : (i : ℕ) → (shared c k i).ref ≢ 0 → (c i).ref ≢ 0
      ref i r = elim (Bool-cases (k == i)) [
        | inl q ↦ subst (λ x. (c x).ref ≢ 0) (==→eq k i q) (ground (arith, h))
        | inr n ↦ ground (arith, n, r)
      ]

      same_dev : (i : ℕ) → (shared c k i).dev ≡ (c i).dev
      same_dev i = elim (Bool-cases (k == i)) [
        | inl q ↦ ground (arith, q, ap (λ x. (c x).dev) (==→eq k i q))
        | inr n ↦ ground (arith, n)
      ]

      same_inum : (i : ℕ) → (shared c k i).inum ≡ (c i).inum
      same_inum i = elim (Bool-cases (k == i)) [
        | inl q ↦ ground (arith, q, ap (λ x. (c x).inum) (==→eq k i q))
        | inr n ↦ ground (arith, n)
      ]

  one_more : (ip : Inode) → is_for ip ≡ true → is_for (record ip { ref = ip.ref + 1 }) ≡ true
  one_more ip h = ground (arith, h)

  shared-is_for : (c : ℕ → Inode) (k : ℕ) → is_for (c k) ≡ true → is_for (shared c k k) ≡ true
  shared-is_for c k h = subst (λ x. is_for x ≡ true) (sym (here c k)) (one_more (c k) h)
    where
      here : (c : ℕ → Inode) (k : ℕ) → shared c k k ≡ record (c k) { ref = (c k).ref + 1 }
      here c k = ground arith

  taken-one :
      (c : ℕ → Inode) (v : ℕ)
      → IsOnePerInode c
      → ((j : ℕ) → j < n_inode → is_for (c j) ≡ false)
      → IsOnePerInode (taken_over c v)
  taken-one c v u h i j li lj = elim (Bool-cases (v == i)) [
    | inl vi ↦ elim (Bool-cases (v == j)) [
      | inl vj ↦ λ ri rj d e. sym (==→eq v i vi) ∙ ==→eq v j vj
      | inr nj ↦ rw (at i vi, away j nj) (λ ri rj d e. absurd (clash j lj rj d e))
    ]
    | inr ni ↦ elim (Bool-cases (v == j)) [
      | inl vj ↦ rw (away i ni, at j vj) (λ ri rj d e. absurd (clash i li ri (sym d) (sym e)))
      | inr nj ↦ rw (away i ni, away j nj) (u i j li lj)
    ]
  ]
    where
      at :
          (i : ℕ)
          → (v == i) ≡ true
          → taken_over c v i ≡ record (c v) { dev = dev; inum = inum; ref = 1; valid = false }
      at i q = ground (arith, q)

      away : (i : ℕ) → (v == i) ≡ false → taken_over c v i ≡ c i
      away i q = ground (arith, q)

      clash : (j : ℕ) → j < n_inode → (c j).ref ≢ 0 → dev ≡ (c j).dev → inum ≡ (c j).inum → ⊥
      clash j l r d e = ground (arith, h j l, r, d, e)

  taken-is_for : (c : ℕ → Inode) (v : ℕ) → is_for (taken_over c v v) ≡ true
  taken-is_for c v = ground arith

  taken-fresh :
      (c : ℕ → Inode) (v : ℕ) → ((taken_over c v v).ref ≡ 1) × ((taken_over c v v).valid ≡ false)
  taken-fresh c v = (ground arith, ground arith)

  -- What iget of the entry `i` leaves.
  pub record Entered (c : ℕ → Inode) (i : ℕ) (c' : ℕ → Inode) : Type 0 where
    pub below : i < n_inode
    pub is_entry : is_for (c' i) ≡ true
    pub one_each : IsOnePerInode c'
    pub others : (j : ℕ) → i ≢ j → c' j ≡ c j
    pub cached : is_for (c i) ≡ true → c' i ≡ record (c i) { ref = (c i).ref + 1 }
    pub recycled :
        is_for (c i) ≡ false → ((c i).ref ≡ 0) × (((c' i).ref ≡ 1) × ((c' i).valid ≡ false))

  iget-find_inode : (c : ℕ → Inode) → iget dev inum c ≡ find_inode c dev inum 0 n_inode none
  unfolding iget
  iget-find_inode c = refl

  -- On a cache with one entry per inode iget returns an entry in use for the inode and keeps one entry
  -- per inode and all other entries. An entry that was in use for it gets one reference more;
  -- otherwise an entry without references is taken, with one reference and not valid. It panics only
  -- if no entry is for the inode and all have references.
  pub iget_lem :
      (c : ℕ → Inode)
      → IsOnePerInode c
      → ((i : ℕ) × ((c' : ℕ → Inode) × ((iget dev inum c ≡ some (i, c')) × Entered c i c')))
        ⊎ ((iget dev inum c ≡ none)
            × ((j : ℕ) → j < n_inode → (is_for (c j) ≡ false) × ((c j).ref ≢ 0)))
  iget_lem c u = elim (find_inode-none c n_inode 0) [
    | inl (k, h) ↦ inl (
      k,
      (
        shared c k,
        (
          iget-find_inode c ∙ h.1.1,
          record {
            below = h.0;
            is_entry = shared-is_for c k h.1.0;
            one_each = shared-one c k u h.1.0;
            others = λ j ne. ground (arith, ne);
            cached = λ q. ground arith;
            recycled = λ q. absurd (ground (arith, q, h.1.0));
          },
        ),
      ),
    )
    | inr (h, inl (v, w)) ↦ inl (
      v,
      (
        taken_over c v,
        (
          iget-find_inode c ∙ w.1.1,
          record {
            below = w.0;
            is_entry = taken-is_for c v;
            one_each = taken-one c v u (λ j l. h j (omega arith) l);
            others = λ j ne. ground (arith, ne);
            cached = λ q. absurd (ground (arith, q, w.1.0));
            recycled = λ q. (w.1.0, taken-fresh c v);
          },
        ),
      ),
    )
    | inr (h, inr w) ↦
        inr (iget-find_inode c ∙ w.1, λ j l. (h j (omega arith) l, w.0 j (omega arith) l))
  ]
