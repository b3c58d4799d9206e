-- ===== src/Log/Crash.antt =====
-- A crash during a commit.
use ut_os.Base.{
  ℕ, zero, suc, ◌+◌, ◌≤◌, ◌<◌, ◌≡◌, ◌⊎◌, refl, ap, ◌∙◌, inl, inr, ◌==◌, Bool, Bool-cases, ==→eq,
  true, false, if◌then◌else◌, List, [], ◌∷◌, ◌++◌, length, get_or, update, arith,
}
use ut_os.Log.{
  Disk, to_head, update, install_trans, write_log, block_of, commit, after_writes, all_writes,
  recover_from_log,
}

module _ (D : Type 0) where
  -- The home blocks behind the installation of `n` slots from `i` on.
  pub installed : (ℕ → ℕ) → (ℕ → D) → ℕ → ℕ → (ℕ → D) → ℕ → D
  installed block slots i zero h = h
  installed block slots i (suc n) h = installed block slots (i + 1) n (update h (block i) (slots i))

  all_writes-install_trans :
      (block : ℕ → ℕ) (slots : ℕ → D) (i n : ℕ) (d : Disk D)
      → all_writes D (install_trans D block slots i n) d
        ≡ record d { home = installed block slots i n d.home }
  unfolding all_writes install_trans installed
  all_writes-install_trans block slots i zero d = refl
  all_writes-install_trans block slots i (suc n) d =
      all_writes-install_trans block slots (i + 1) n
        (record d { home = update d.home (block i) (slots i) })

  -- The block is the same in both homes, or is one of those to be installed.
  abbrev SameOr : (ℕ → ℕ) → ℕ → ℕ → (ℕ → D) → (ℕ → D) → ℕ → Type 0
  SameOr block i n h g b = (g b ≡ h b) ⊎ ((j : ℕ) × (i ≤ j) × (j < i + n) × (block j ≡ b))

  SameOr-step :
      (block : ℕ → ℕ) (slots slots' : ℕ → D) (i n : ℕ) (h g : ℕ → D) (b : ℕ)
      → slots' i ≡ slots i
      → SameOr block i (suc n) h g b
      → SameOr block (i + 1) n (update h (block i) (slots i)) (update g (block i) (slots' i)) b
  SameOr-step block slots slots' i n h g b q s = elim (Bool-cases (block i == b)) [
    | inl e ↦ inl (rw e q)
    | inr e ↦ elim s [
      | inl w ↦ inl (rw e w)
      | inr (j, lo, hi, w) ↦ inr (j, ground (arith, e, w, lo), omega arith, w)
    ]
  ]

  -- An installation overwrites what another one, cut short, has left.
  installed-SameOr :
      (block : ℕ → ℕ) (slots slots' : ℕ → D) (i n : ℕ) (h g : ℕ → D) (b : ℕ)
      → ((j : ℕ) → j < i + n → slots' j ≡ slots j)
      → SameOr block i n h g b
      → installed block slots' i n g b ≡ installed block slots i n h b
  unfolding installed
  installed-SameOr block slots slots' i zero h g b q (inl e) = e
  installed-SameOr block slots slots' i zero h g b q (inr (j, lo, hi, w)) = absurd (omega arith)
  installed-SameOr block slots slots' i (suc n) h g b q s =
      installed-SameOr block slots slots' (i + 1) n _ _ b (λ j lt. q j (omega arith))
        (SameOr-step block slots slots' i n h g b (q i (omega arith)) s)

  recovered-home :
      (d : Disk D) (bs : List ℕ) (b : ℕ)
      → d.head ≡ bs
      → (recover_from_log D d).home b ≡ installed (block_of D bs) d.slots 0 (length bs) d.home b
  unfolding recover_from_log
  recovered-home d bs b e =
      ap (λ x. x.home b) (all_writes-install_trans (block_of D d.head) d.slots 0 (length d.head) d)
      ∙ ap (λ hs. installed (block_of D hs) d.slots 0 (length hs) d.home b) e

  recovered-idle : (d : Disk D) (b : ℕ) → d.head ≡ [] → (recover_from_log D d).home b ≡ d.home b
  unfolding installed
  recovered-idle d b e = recovered-home d [] b e

  pub recovered-head : (d : Disk D) → (recover_from_log D d).head ≡ []
  unfolding recover_from_log
  recovered-head d = refl

  -- Block `b` is one of the blocks `bs`.
  pub names : ℕ → List ℕ → Bool
  names b [] = false
  names b (x ∷ xs) = let rest = names b xs in if x == b then true else rest

  -- The home blocks with the transaction's in place.
  abbrev pub committed : (ℕ → D) → List ℕ → (ℕ → D) → ℕ → D
  committed cache bs h b = if names b bs then cache b else h b

  installed-committed :
      (cache : ℕ → D) (block : ℕ → ℕ) (bs : List ℕ) (i : ℕ) (h : ℕ → D) (b : ℕ)
      → ((k : ℕ) → block (i + k) ≡ get_or bs k 0)
      → installed block (λ j. cache (block j)) i (length bs) h b ≡ committed cache bs h b
  unfolding installed names
  installed-committed cache block [] i h b e = refl
  installed-committed cache block (x ∷ xs) i h b e =
      let at : block i ≡ x = ap block (omega arith) ∙ e 0 in
      installed-committed cache block xs (i + 1) (update h (block i) (cache (block i))) b
        (λ k. ap block (omega arith) ∙ e (suc k))
      ∙ rw at (elim (Bool-cases (x == b)) [
        | inl q ↦
            rw (q, ==→eq x b q)
              (elim (Bool-cases (names b xs)) [ inl w ↦ rw w refl | inr w ↦ rw w refl ])
        | inr q ↦ rw q refl
      ])

  module _ (cache : ℕ → D) (bs : List ℕ) (h : ℕ → D) where
    -- What recovery makes of the home blocks: those before the transaction, or those behind it.
    abbrev Atomic : Disk D → Type 0
    Atomic d =
        ((b : ℕ) → (recover_from_log D d).home b ≡ h b)
        ⊎ ((b : ℕ) → (recover_from_log D d).home b ≡ committed cache bs h b)

    abbrev block : ℕ → ℕ
    block = block_of D bs

    abbrev fresh : ℕ → D
    fresh j = cache (block j)

    record IsInstalling (i m : ℕ) (d : Disk D) : Type 0 where
      place : i + m ≡ length bs
      head : d.head ≡ bs
      logged : (j : ℕ) → j < length bs → d.slots j ≡ fresh j
      partial : (b : ℕ) → SameOr block 0 (length bs) h d.home b
      rest : (b : ℕ) → installed block fresh i m d.home b ≡ committed cache bs h b

    IsInstalling-Atomic : (i m : ℕ) (d : Disk D) → IsInstalling i m d → Atomic d
    IsInstalling-Atomic i m d v = inr (λ b.
        recovered-home d bs b v.head
        ∙ installed-SameOr block fresh d.slots 0 (length bs) h d.home b
            (λ j lt. v.logged j (omega arith)) (v.partial b)
        ∙ installed-committed cache block bs 0 h b (λ k. ap block (omega arith)))

    install-Atomic :
        (k i m : ℕ) (d : Disk D)
        → IsInstalling i m d
        → Atomic (after_writes D k (install_trans D block fresh i m ++ (to_head [] ∷ [])) d)
    unfolding after_writes install_trans installed
    install-Atomic zero i m d v = IsInstalling-Atomic i m d v
    install-Atomic (suc zero) i zero d v =
        inr (λ b. recovered-idle (record d { head = [] }) b refl ∙ v.rest b)
    install-Atomic (suc (suc k)) i zero d v =
        inr (λ b. recovered-idle (record d { head = [] }) b refl ∙ v.rest b)
    install-Atomic (suc k) i (suc m) d v =
        install-Atomic k (i + 1) m (record d { home = update d.home (block i) (fresh i) })
          (record {
            place = omega (arith, v.place);
            head = v.head;
            logged = v.logged;
            partial = λ b. elim (Bool-cases (block i == b)) [
              | inl e ↦ inr (i, omega arith, omega (arith, v.place), ==→eq (block i) b e)
              | inr e ↦ rw e (v.partial b)
            ];
            rest = v.rest;
          })

    record IsLogging (i m : ℕ) (d : Disk D) : Type 0 where
      place : i + m ≡ length bs
      head : d.head ≡ []
      home : (b : ℕ) → d.home b ≡ h b
      logged : (j : ℕ) → j < i → d.slots j ≡ fresh j

    IsLogging-Atomic : (i m : ℕ) (d : Disk D) → IsLogging i m d → Atomic d
    IsLogging-Atomic i m d v = inl (λ b. recovered-idle d b v.head ∙ v.home b)

    IsLogging-end :
        (i : ℕ) (d : Disk D) → IsLogging i 0 d → IsInstalling 0 (length bs) (record d { head = bs })
    IsLogging-end i d v = record {
      place = omega arith;
      head = refl;
      logged = λ j lt. v.logged j (omega (arith, v.place));
      partial = λ b. inl (v.home b);
      rest = λ b.
          installed-SameOr block fresh fresh 0 (length bs) h d.home b (λ j lt. refl)
            (inl (v.home b))
          ∙ installed-committed cache block bs 0 h b (λ k. ap block (omega arith));
    }

    log-Atomic :
        (k i m : ℕ) (d : Disk D)
        → IsLogging i m d
        → Atomic (
            after_writes D k
              (write_log D block cache i m
                ++ (to_head bs ∷ (install_trans D block fresh 0 (length bs) ++ (to_head [] ∷ []))))
              d)
    unfolding after_writes write_log
    log-Atomic zero i m d v = IsLogging-Atomic i m d v
    log-Atomic (suc k) i zero d v =
        install-Atomic k 0 (length bs) (record d { head = bs }) (IsLogging-end i d v)
    log-Atomic (suc k) i (suc m) d v =
        log-Atomic k (i + 1) m (record d { slots = update d.slots i (fresh i) })
          (record {
            place = omega (arith, v.place);
            head = v.head;
            home = v.home;
            logged = λ j lt. elim (Bool-cases (i == j)) [
              | inl e ↦ rw e (ap fresh (==→eq i j e))
              | inr e ↦ rw e (v.logged j (ground (arith, e)))
            ];
          })

  -- Atomic transactions: whichever number of the disk writes of a commit a crash lets happen, on a
  -- disk with an empty log, recovery leaves either every home block as it was before the commit, or
  -- every home block of the transaction with its new data and every other as it was; and the log is
  -- empty again.
  pub commit-IsAtomic :
      (n : ℕ) (cache : ℕ → D) (bs : List ℕ) (d : Disk D)
      → d.head ≡ []
      → let d' = recover_from_log D (after_writes D n (commit D cache bs) d) in
        (d'.head ≡ [])
        × (((b : ℕ) → d'.home b ≡ d.home b) ⊎ ((b : ℕ) → d'.home b ≡ committed cache bs d.home b))
  unfolding commit after_writes
  commit-IsAtomic zero cache bs d e = (recovered-head d, inl (λ b. recovered-idle d b e))
  commit-IsAtomic (suc n) cache [] d e = (recovered-head d, inl (λ b. recovered-idle d b e))
  commit-IsAtomic (suc n) cache (x ∷ xs) d e = (
    recovered-head _,
    log-Atomic cache (x ∷ xs) d.home (suc n) 0 (length (x ∷ xs)) d (record {
      place = omega arith;
      head = e;
      home = λ b. refl;
      logged = λ j lt. absurd (omega arith);
    }),
  )
