-- ===== src/BufferCache/Release.antt =====
-- The list that binit makes, and what brelse does to it.
use ut_os.Base.{
  ℕ, zero, suc, ◌+◌, ◌^◌, ◌≤◌, ◌<◌, ◌≡◌, ◌≢◌, inl, inr, sym, ◌==◌, Bool-cases, true, false,
  if◌then◌else◌, some, List, [], ◌∷◌, ◌++◌, IsOther, IsOther-append, update, arith,
}
use ut_os.Reentrant.{holdingsleep, releasesleep}
use ut_os.BufferCache.{
  brelse, with_buf, drop_ref, Bcache, head, nbuf, link_front, unlink, link_all, binit,
}
use ut_os.BufferCache.Ring.{IsRing, link_front-IsRing, unlink-IsRing, buf-IsRing, IsOther-cut}

module _ (D : Type 0) where
  -- The buffers from `b` on, `n` of them, put in front one by one.
  abbrev pub in_front : ℕ → ℕ → List ℕ → List ℕ
  in_front zero b order = order
  in_front (suc n) b order = in_front n (b + 1) (b ∷ order)

  abbrev AllBelow : ℕ → List ℕ → Type 0
  AllBelow b [] = Unit {0}
  AllBelow b (x ∷ xs) = (x < b) × AllBelow b xs

  AllBelow-IsOther : (b : ℕ) (xs : List ℕ) → AllBelow b xs → IsOther b xs
  AllBelow-IsOther b [] h = tt
  AllBelow-IsOther b (x ∷ xs) h = (omega (arith, h.0), AllBelow-IsOther b xs h.1)

  AllBelow-suc : (b : ℕ) (xs : List ℕ) → AllBelow b xs → AllBelow (b + 1) xs
  AllBelow-suc b [] h = tt
  AllBelow-suc b (x ∷ xs) h = (omega (arith, h.0), AllBelow-suc b xs h.1)

  link_all-IsRing :
      (n b : ℕ) (c : Bcache D) (order : List ℕ)
      → IsRing D c order
      → AllBelow b order
      → b + n ≤ nbuf
      → IsRing D (link_all D n b c) (in_front n b order)
  unfolding link_all
  link_all-IsRing zero b c order r h k = r
  link_all-IsRing (suc n) b c order r h k =
      link_all-IsRing n (b + 1) (link_front D b c) (b ∷ order)
        (link_front-IsRing D c order b r (omega arith, AllBelow-IsOther b order h))
        (omega arith, AllBelow-suc b order h) (omega arith)

  -- binit makes a ring of all the buffers, the last one in front, whatever the memory held.
  pub binit-IsRing : (c : Bcache D) → IsRing D (binit D c) (in_front nbuf 0 [])
  unfolding binit
  binit-IsRing c =
      link_all-IsRing nbuf 0
        (record c { next = update c.next head head; prev = update c.prev head head }) []
        (record { links = ground arith; distinct = (tt, tt) }) tt (omega arith)

  -- What a release of buffer `b` by `me` leaves.
  pub record Released (c : Bcache D) (b : ℕ) (c' : Bcache D) : Type 0 where
    pub unlocked : (c'.buf b).lock.locked ≡ false
    pub refcnt : (c'.buf b).refcnt + 1 ≡ (c.buf b).refcnt
    pub bytes : (c'.buf b).bytes ≡ (c.buf b).bytes
    pub others : (i : ℕ) → b ≢ i → c'.buf i ≡ c.buf i

  -- brelse of a buffer of the ring, by the holder of its lock, with a count that is positive and fits
  -- in 32 bits, frees the lock, drops one reference, and changes no other buffer. The last reference
  -- moves the buffer to the front of the list, wherever it stood; with others left the list stays as
  -- it is.
  pub brelse_lem :
      (me : ℕ) (c : Bcache D) (xs : List ℕ) (b : ℕ) (ys : List ℕ)
      → IsRing D c (xs ++ (b ∷ ys))
      → holdingsleep me (c.buf b).lock ≡ true
      → 0 < (c.buf b).refcnt
      → (c.buf b).refcnt < 2 ^ 32
      → (c' : Bcache D) × (brelse D me b c ≡ some c')
        × Released c b c'
        × IsRing D c' (if (c.buf b).refcnt == 1 then b ∷ (xs ++ ys) else xs ++ (b ∷ ys))
  unfolding brelse releasesleep
  brelse_lem me c xs b ys r h pos small =
      let c1 = with_buf D b (drop_ref D) c in
      let r1 = buf-IsRing D c c1.buf (xs ++ (b ∷ ys)) r in
      elim (Bool-cases ((c.buf b).refcnt == 1)) [
        | inl e ↦ (
          link_front D b (unlink D b c1),
          ground arith,
          record {
            unlocked = ground arith;
            refcnt = ground arith;
            bytes = ground arith;
            others = λ i ne. ground arith;
          },
          rw e (
              link_front-IsRing D (unlink D b c1) (xs ++ ys) b (unlink-IsRing D c1 xs b ys r1) (
                (λ q. (IsOther-append head xs (b ∷ ys) r.distinct.0).1.0 (sym q)),
                IsOther-cut D xs b ys r.distinct.1,
              )),
        )
        | inr e ↦ (
          c1,
          ground arith,
          record {
            unlocked = ground arith;
            refcnt = ground arith;
            bytes = ground arith;
            others = λ i ne. ground arith;
          },
          rw e r1,
        )
      ]
