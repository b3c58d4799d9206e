-- ===== src/BufferCache/Lookup.antt =====
-- bget against a cache that is a sequence of buffers.
use ut_os.Base.{
  ℕ, zero, suc, ◌+◌, ◌≤◌, ◌<◌, ◌≡◌, ◌⊎◌, refl, inl, inr, sym, subst, Bool, Bool-cases, true, false,
  if◌then◌else◌, Option, none, some, List, [], ◌∷◌, ◌++◌, length, length-append, IsOther, In,
  append-IsOther, arith,
}
use ut_os.BufferCache.{
  Buf, Bcache, head, nbuf, walk, is_cached, is_unused, with_buf, take_ref, recycle, bget,
}
use ut_os.BufferCache.Ring.{Links, IsRing}

module _ (D : Type 0) where
  -- From `a` the pointers `step` lead through `xs` to `z`.
  abbrev Steps : (ℕ → ℕ) → ℕ → List ℕ → ℕ → Type 0
  Steps step a [] z = step a ≡ z
  Steps step a (x ∷ xs) z = (step a ≡ x) × Steps step x xs z

  -- The first of the buffers that passes the test.
  unfoldable pub first_that : (Buf D → Bool) → (ℕ → Buf D) → List ℕ → Option ℕ
  first_that test buf [] = none
  first_that test buf (x ∷ xs) =
      let rest = first_that test buf xs in if test (buf x) then some x else rest

  -- The order of the walk over `prev`.
  abbrev pub backwards : List ℕ → List ℕ
  backwards [] = []
  backwards (x ∷ xs) = backwards xs ++ (x ∷ [])

  walk-first_that :
      (step : ℕ → ℕ) (test : Buf D → Bool) (buf : ℕ → Buf D) (fuel a : ℕ) (xs : List ℕ)
      → Steps step a xs head
      → IsOther head xs
      → length xs < fuel
      → walk D step test buf fuel (step a) ≡ first_that test buf xs
  unfolding walk first_that
  walk-first_that step test buf zero a xs s o h = absurd (omega arith)
  walk-first_that step test buf (suc fuel) a [] s o h = ground arith
  walk-first_that step test buf (suc fuel) a (x ∷ xs) s o h =
      rw s.0 (ground (arith, walk-first_that step test buf fuel x xs s.1 o.1, o.0, h))

  Links-forward :
      (c : Bcache D) (a : ℕ) (xs : List ℕ) (z : ℕ) → Links D c a xs z → Steps c.next a xs z
  Links-forward c a [] z l = l.0
  Links-forward c a (x ∷ xs) z l = (l.0, Links-forward c x xs z l.2)

  Steps-snoc :
      (step : ℕ → ℕ) (z x a : ℕ) (ys : List ℕ)
      → Steps step z ys x
      → step x ≡ a
      → Steps step z (ys ++ (x ∷ [])) a
  Steps-snoc step z x a [] s e = (s, e)
  Steps-snoc step z x a (y ∷ ys) s e = (s.0, Steps-snoc step y x a ys s.1 e)

  Links-backward :
      (c : Bcache D) (a : ℕ) (xs : List ℕ) (z : ℕ)
      → Links D c a xs z
      → Steps c.prev z (backwards xs) a
  Links-backward c a [] z l = l.1
  Links-backward c a (x ∷ xs) z l =
      Steps-snoc c.prev z x a (backwards xs) (Links-backward c x xs z l.2) l.1

  IsOther-backwards : (v : ℕ) (xs : List ℕ) → IsOther v xs → IsOther v (backwards xs)
  IsOther-backwards v [] o = tt
  IsOther-backwards v (x ∷ xs) o =
      append-IsOther v (backwards xs) (x ∷ []) (IsOther-backwards v xs o.1) (o.0, tt)

  length-backwards : (xs : List ℕ) → length (backwards xs) ≡ length xs
  length-backwards [] = refl
  length-backwards (x ∷ xs) =
      omega (arith, length-append (backwards xs) (x ∷ []), length-backwards xs)

  In-snoc : (v x : ℕ) (ys : List ℕ) → In v (ys ++ (x ∷ [])) → In v ys ⊎ (v ≡ x)
  In-snoc v x [] (inl e) = inr e
  In-snoc v x [] (inr i) = elim i [ ]
  In-snoc v x (y ∷ ys) (inl e) = inl (inl e)
  In-snoc v x (y ∷ ys) (inr i) = elim (In-snoc v x ys i) [ inl j ↦ inl (inr j) | inr e ↦ inr e ]

  pub In-backwards : (v : ℕ) (xs : List ℕ) → In v (backwards xs) → In v xs
  In-backwards v [] i = i
  In-backwards v (x ∷ xs) i = elim (In-snoc v x (backwards xs) i) [
    | inl j ↦ inr (In-backwards v xs j)
    | inr e ↦ inl e
  ]

  snoc-In : (v x : ℕ) (ys : List ℕ) → In v ys ⊎ (v ≡ x) → In v (ys ++ (x ∷ []))
  snoc-In v x [] (inl i) = elim i [ ]
  snoc-In v x [] (inr e) = inl e
  snoc-In v x (y ∷ ys) (inl (inl e)) = inl e
  snoc-In v x (y ∷ ys) (inl (inr i)) = inr (snoc-In v x ys (inl i))
  snoc-In v x (y ∷ ys) (inr e) = inr (snoc-In v x ys (inr e))

  pub backwards-In : (v : ℕ) (xs : List ℕ) → In v xs → In v (backwards xs)
  backwards-In v [] i = i
  backwards-In v (x ∷ xs) (inl e) = snoc-In v x (backwards xs) (inr e)
  backwards-In v (x ∷ xs) (inr i) = snoc-In v x (backwards xs) (inl (backwards-In v xs i))

  pub first_that-some :
      (test : Buf D → Bool) (buf : ℕ → Buf D) (xs : List ℕ) (i : ℕ)
      → first_that test buf xs ≡ some i
      → In i xs × (test (buf i) ≡ true)
  unfolding first_that
  first_that-some test buf [] i e = absurd (cc e)
  first_that-some test buf (x ∷ xs) i e = elim (Bool-cases (test (buf x))) [
    | inl t ↦ (let q : x ≡ i = ground arith in (inl (sym q), subst (λ k. test (buf k) ≡ true) q t))
    | inr t ↦ (let (a, b) = first_that-some test buf xs i (rw t at e) in (inr a, b))
  ]

  pub first_that-none :
      (test : Buf D → Bool) (buf : ℕ → Buf D) (xs : List ℕ)
      → first_that test buf xs ≡ none
      → (i : ℕ) → In i xs
      → test (buf i) ≡ false
  unfolding first_that
  first_that-none test buf [] e i h = elim h [ ]
  first_that-none test buf (x ∷ xs) e i (inl q) = rw q (ground arith)
  first_that-none test buf (x ∷ xs) e i (inr h) =
      first_that-none test buf xs
        (elim (Bool-cases (test (buf x))) [ inl t ↦ absurd (ground arith) | inr t ↦ rw t at e ]) i h

  -- The cache as a sequence: a hit takes a reference, and otherwise the last buffer of the sequence
  -- that nobody holds and that is not dirty is taken for the block.
  unfoldable pub get_spec : ℕ → ℕ → List ℕ → Bcache D → Option (ℕ × Bcache D)
  unfolding first_that
  get_spec dev blockno order c = elim (first_that (is_cached D dev blockno) c.buf order) [
    | some i ↦ some (i, with_buf D i (take_ref D) c)
    | none ↦ elim (first_that (is_unused D) c.buf (backwards order)) [
      | some i ↦ some (i, with_buf D i (recycle D dev blockno) c)
      | none ↦ none
    ]
  ]

  -- On a ring of at most 30 buffers bget returns what the sequence of the ring says: the first buffer
  -- of the block with a reference more, or else, taken for the block, the last one of the sequence
  -- that has no reference and is not dirty, or else the panic.
  pub bget-get_spec :
      (dev blockno : ℕ) (c : Bcache D) (order : List ℕ)
      → IsRing D c order
      → length order ≤ nbuf
      → bget D dev blockno c ≡ get_spec dev blockno order c
  unfolding bget get_spec
  bget-get_spec dev blockno c order r h =
      let hit =
        walk-first_that c.next (is_cached D dev blockno) c.buf (nbuf + 1) head order
          (Links-forward c head order head r.links) r.distinct.0 (omega arith) in
      let free =
        walk-first_that c.prev (is_unused D) c.buf (nbuf + 1) head (backwards order)
          (Links-backward c head order head r.links) (IsOther-backwards head order r.distinct.0)
          (omega (arith, length-backwards order)) in
      ground (arith, hit, free)
