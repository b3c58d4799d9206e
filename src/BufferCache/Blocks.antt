-- ===== src/BufferCache/Blocks.antt =====
-- bget gives each block one buffer.
use ut_os.Base.{
  ℕ, ◌≤◌, ◌≡◌, ◌≢◌, ◌⊎◌, refl, inl, inr, ◌∙◌, Option-cases, true, false, none, some, List, length,
  In, arith,
}
use ut_os.BufferCache.{Bcache, nbuf, is_cached, is_unused, with_buf, take_ref, recycle, bget}
use ut_os.BufferCache.Ring.{IsRing, buf-IsRing}
use ut_os.BufferCache.Lookup.{
  first_that, backwards, first_that-some, first_that-none, In-backwards, backwards-In, get_spec,
  bget-get_spec,
}

module _ (D : Type 0) where
  -- Two buffers of the sequence that hold the same block of a device are the same buffer.
  abbrev pub IsUnique : Bcache D → List ℕ → Type 0
  IsUnique c order =
      (i j : ℕ)
      → In i order
      → In j order
      → (c.buf i).dev ≢ 0
      → (c.buf i).dev ≡ (c.buf j).dev
      → (c.buf i).blockno ≡ (c.buf j).blockno
      → i ≡ j

  take-IsUnique :
      (c : Bcache D) (order : List ℕ) (k : ℕ)
      → IsUnique c order
      → IsUnique (with_buf D k (take_ref D) c) order
  take-IsUnique c order k u i j a b n d e = ground (arith, u i j a b)

  recycle-IsUnique :
      (dev blockno : ℕ) (c : Bcache D) (order : List ℕ) (k : ℕ)
      → IsUnique c order
      → ((i : ℕ) → In i order → is_cached D dev blockno (c.buf i) ≡ false)
      → IsUnique (with_buf D k (recycle D dev blockno) c) order
  recycle-IsUnique dev blockno c order k u none_has i j a b n d e =
      ground (arith, u i j a b, none_has i a, none_has j b)

  -- What a call of bget that returns the buffer `i` has done.
  pub record Got (dev blockno : ℕ) (order : List ℕ) (c : Bcache D) (i : ℕ) (c' : Bcache D)
      : Type 0 where
    pub member : In i order
    pub dev_is : (c'.buf i).dev ≡ dev
    pub blockno_is : (c'.buf i).blockno ≡ blockno
    pub ring : IsRing D c' order
    pub unique : IsUnique c' order
    pub others : (j : ℕ) → i ≢ j → c'.buf j ≡ c.buf j
    pub kept : is_cached D dev blockno (c.buf i) ≡ true → (c'.buf i).bytes ≡ (c.buf i).bytes
    pub evicted : is_cached D dev blockno (c.buf i) ≡ false → is_unused D (c.buf i) ≡ true

  -- On a ring of at most 30 buffers in which no block has two, bget returns a buffer of the block, its
  -- bytes kept if the block was cached, takes only a buffer that nobody holds and that is not dirty
  -- from another block, and changes no other buffer; the list stays, and no block gets a second
  -- buffer. It panics only if the block is not cached and every buffer is in use.
  pub bget_lem :
      (dev blockno : ℕ) (c : Bcache D) (order : List ℕ)
      → IsRing D c order
      → length order ≤ nbuf
      → IsUnique c order
      → ((i : ℕ) × (c' : Bcache D) × (bget D dev blockno c ≡ some (i, c'))
          × Got dev blockno order c i c')
        ⊎ ((bget D dev blockno c ≡ none)
            × ((i : ℕ)
                → In i order
                → (is_cached D dev blockno (c.buf i) ≡ false) × (is_unused D (c.buf i) ≡ false)))
  unfolding get_spec
  bget_lem dev blockno c order r h u =
      let eq = bget-get_spec D dev blockno c order r h in
      elim (Option-cases (first_that D (is_cached D dev blockno) c.buf order)) [
        | inr (i, hit) ↦
            (let (m, t) = first_that-some D (is_cached D dev blockno) c.buf order i hit in
              inl (
                i,
                with_buf D i (take_ref D) c,
                eq ∙ rw (get_spec, hit) refl,
                record {
                  member = m;
                  dev_is = ground arith;
                  blockno_is = ground arith;
                  ring = buf-IsRing D c _ order r;
                  unique = take-IsUnique c order i u;
                  others = λ j ne. ground arith;
                  kept = λ q. ground arith;
                  evicted = λ q. absurd (cc (t, q));
                },
              ))
        | inl miss ↦
            (let no_hit = first_that-none D (is_cached D dev blockno) c.buf order miss in
              elim (Option-cases (first_that D (is_unused D) c.buf (backwards D order))) [
                | inr (i, free) ↦
                    (let (m, t) =
                        first_that-some D (is_unused D) c.buf (backwards D order) i free in
                      inl (
                        i,
                        with_buf D i (recycle D dev blockno) c,
                        eq ∙ rw (get_spec, miss, free) refl,
                        record {
                          member = In-backwards D i order m;
                          dev_is = ground arith;
                          blockno_is = ground arith;
                          ring = buf-IsRing D c _ order r;
                          unique = recycle-IsUnique dev blockno c order i u no_hit;
                          others = λ j ne. ground arith;
                          kept = λ q. absurd (cc (no_hit i (In-backwards D i order m), q));
                          evicted = λ q. t;
                        },
                      ))
                | inl none_free ↦ inr (
                  eq ∙ rw (get_spec, miss, none_free) refl,
                  λ i a. (
                    no_hit i a,
                    first_that-none D (is_unused D) c.buf (backwards D order) none_free i
                        (backwards-In D i order a),
                  ),
                )
              ])
      ]
