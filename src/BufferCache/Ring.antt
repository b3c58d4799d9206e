-- ===== src/BufferCache/Ring.antt =====
-- The doubly linked list of the buffers as a sequence, and what the pointer stores do to it.
use ut_os.Base.{
  ℕ, ◌≡◌, ◌≢◌, sym, ap, subst, List, [], ◌∷◌, ◌++◌, IsOther, IsDistinct, IsOther-append,
  append-IsOther, update, arith,
}
use ut_os.BufferCache.{Buf, Bcache, head, link_front, unlink}

module _ (D : Type 0) where
  -- From `a` the list leads through `xs` to `z`, and back.
  abbrev pub Links : Bcache D → ℕ → List ℕ → ℕ → Type 0
  Links c a [] z = (c.next a ≡ z) × (c.prev z ≡ a)
  Links c a (x ∷ xs) z = (c.next a ≡ x) × (c.prev x ≡ a) × Links c x xs z

  -- The list holds the buffers `order`, the most recently released first.
  pub record IsRing (c : Bcache D) (order : List ℕ) : Type 0 where
    pub links : Links c head order head
    pub distinct : IsDistinct (head ∷ order)

  next-frame :
      (c : Bcache D) (a : ℕ) (xs : List ℕ) (z p v : ℕ)
      → Links c a xs z
      → IsOther p (a ∷ xs)
      → Links (record c { next = update c.next p v }) a xs z
  next-frame c a [] z p v l o = ground arith
  next-frame c a (x ∷ xs) z p v l o = (ground arith, l.1, next-frame c x xs z p v l.2 o.1)

  prev-frame :
      (c : Bcache D) (a : ℕ) (xs : List ℕ) (z n w : ℕ)
      → Links c a xs z
      → IsOther n (z ∷ xs)
      → Links (record c { prev = update c.prev n w }) a xs z
  prev-frame c a [] z n w l o = ground arith
  prev-frame c a (x ∷ xs) z n w l o = (l.0, ground arith, prev-frame c x xs z n w l.2 (o.0, o.1.1))

  -- The predecessor of a buffer in the list, and its successor.
  prev-IsOther :
      (c : Bcache D) (a u : ℕ) (xs : List ℕ) (b : ℕ) (ys : List ℕ) (z : ℕ)
      → Links c a (xs ++ (b ∷ ys)) z
      → IsOther u (a ∷ xs)
      → u ≢ c.prev b
  prev-IsOther c a u [] b ys z l o = ground arith
  prev-IsOther c a u (x ∷ xs) b ys z l o = prev-IsOther c x u xs b ys z l.2 o.1

  next-IsOther :
      (c : Bcache D) (a u : ℕ) (xs : List ℕ) (b : ℕ) (ys : List ℕ) (z : ℕ)
      → Links c a (xs ++ (b ∷ ys)) z
      → IsOther u (z ∷ ys)
      → u ≢ c.next b
  next-IsOther c a u [] b [] z l o = ground arith
  next-IsOther c a u [] b (y ∷ ys) z l o = ground arith
  next-IsOther c a u (x ∷ xs) b ys z l o = next-IsOther c x u xs b ys z l.2 o

  -- Behind `a` the buffer `b` is taken out, by the two stores at its neighbours.
  abbrev cut : ℕ → Bcache D → Bcache D
  cut b c = record c {
    prev = update c.prev (c.next b) (c.prev b);
    next = update c.next (c.prev b) (c.next b);
  }

  cut-Links :
      (c : Bcache D) (a : ℕ) (xs : List ℕ) (b : ℕ) (ys : List ℕ) (z : ℕ)
      → Links c a (xs ++ (b ∷ ys)) z
      → IsDistinct (a ∷ (xs ++ (b ∷ ys)))
      → IsDistinct (z ∷ (xs ++ (b ∷ ys)))
      → Links (cut b c) a (xs ++ ys) z
  cut-Links c a [] b [] z l d e = ground arith
  cut-Links c a [] b (y ∷ ys) z l d e =
      let at : c.prev b ≡ a = l.1 in
      let to : c.next b ≡ y = l.2.0 in
      let c1 = record c { prev = update c.prev (c.next b) (c.prev b) } in
      let l1 =
        prev-frame c y ys z (c.next b) (c.prev b) l.2.2
          (subst (λ n. IsOther n (z ∷ ys)) (sym to) ((λ q. e.0.1.0 (sym q)), d.1.1.0)) in
      (
        ground arith,
        ground arith,
        next-frame c1 y ys z (c.prev b) (c.next b) l1
            (subst (λ p. IsOther p (y ∷ ys)) (sym at) d.0.1),
      )
  cut-Links c a (x ∷ xs) b ys z l d e =
      let a_not =
        prev-IsOther c x a xs b ys z l.2 (d.0.0, (IsOther-append a xs (b ∷ ys) d.0.1).0) in
      let x_not =
        next-IsOther c x x xs b ys z l.2
          ((λ q. e.0.0 (sym q)), (IsOther-append x xs (b ∷ ys) d.1.0).1.1) in
      (ground (arith, a_not), ground (arith, x_not), cut-Links c x xs b ys z l.2 d.1 (e.0.1, e.1.1))

  IsDistinct-cut :
      (xs : List ℕ) (b : ℕ) (ys : List ℕ) → IsDistinct (xs ++ (b ∷ ys)) → IsDistinct (xs ++ ys)
  IsDistinct-cut [] b ys d = d.1
  IsDistinct-cut (x ∷ xs) b ys d =
      let (o, w) = IsOther-append x xs (b ∷ ys) d.0 in
      (append-IsOther x xs ys o w.1, IsDistinct-cut xs b ys d.1)

  pub IsOther-cut :
      (xs : List ℕ) (b : ℕ) (ys : List ℕ) → IsDistinct (xs ++ (b ∷ ys)) → IsOther b (xs ++ ys)
  IsOther-cut [] b ys d = d.0
  IsOther-cut (x ∷ xs) b ys d =
      ((λ q. (IsOther-append x xs (b ∷ ys) d.0).1.0 (sym q)), IsOther-cut xs b ys d.1)

  -- The second store does not see the first.
  unlink-cut : (b : ℕ) (c : Bcache D) → unlink D b c ≡ cut b c
  unlink-cut b c =
      let same : update c.prev (c.next b) (c.prev b) b ≡ c.prev b = ground arith in
      ap
        (λ p. record c {
          prev = update c.prev (c.next b) (c.prev b);
          next = update c.next p (c.next b);
        })
        same

  -- unlink of a buffer takes it out of the sequence, wherever it stands.
  pub unlink-IsRing :
      (c : Bcache D) (xs : List ℕ) (b : ℕ) (ys : List ℕ)
      → IsRing c (xs ++ (b ∷ ys))
      → IsRing (unlink D b c) (xs ++ ys)
  unlink-IsRing c xs b ys r = record {
    links =
        subst (λ c'. Links c' head (xs ++ ys) head) (sym (unlink-cut b c))
          (cut-Links c head xs b ys head r.links r.distinct r.distinct);
    distinct = (
      append-IsOther head xs ys (IsOther-append head xs (b ∷ ys) r.distinct.0).0
          (IsOther-append head xs (b ∷ ys) r.distinct.0).1.1,
      IsDistinct-cut xs b ys r.distinct.1,
    );
  }

  -- link_front of a buffer that is in no place of the sequence puts it in front.
  pub link_front-IsRing :
      (c : Bcache D) (order : List ℕ) (b : ℕ)
      → IsRing c order
      → IsOther b (head ∷ order)
      → IsRing (link_front D b c) (b ∷ order)
  link_front-IsRing c [] b r o = record {
    links = ground arith;
    distinct = (((λ q. o.0 (sym q)), tt), (tt, tt));
  }
  link_front-IsRing c (x ∷ xs) b r o =
      let to : update c.next b (c.next head) head ≡ x = ground (arith, o.0, r.links.0) in
      let c1 = record c { next = update c.next b (c.next head) } in
      let l1 = next-frame c x xs head b (c.next head) r.links.2 o.1 in
      let l2 = prev-frame c1 x xs head b head l1 (o.0, o.1.1) in
      let c2 = record c1 { prev = update c1.prev b head } in
      let l3 = prev-frame c2 x xs head (c2.next head) b l2 (
        subst (λ n. IsOther n (head ∷ xs)) (sym to)
          ((λ q. r.distinct.0.0 (sym q)), r.distinct.1.0)) in
      let c3 = record c2 { prev = update c2.prev (c2.next head) b } in
      record {
        links = (
          ground arith,
          ground (arith, o.0, o.1.0, to),
          (
            ground (arith, o.0, to),
            ground (arith, to),
            next-frame c3 x xs head head b l3 r.distinct.0,
          ),
        );
        distinct = (((λ q. o.0 (sym q)), r.distinct.0), (o.1, r.distinct.1));
      }

  -- The list does not depend on what the buffers hold.
  buf-frame :
      (c : Bcache D) (f : ℕ → Buf D) (a : ℕ) (xs : List ℕ) (z : ℕ)
      → Links c a xs z
      → Links (record c { buf = f }) a xs z
  buf-frame c f a [] z l = l
  buf-frame c f a (x ∷ xs) z l = (l.0, l.1, buf-frame c f x xs z l.2)

  pub buf-IsRing :
      (c : Bcache D) (f : ℕ → Buf D) (order : List ℕ)
      → IsRing c order
      → IsRing (record c { buf = f }) order
  buf-IsRing c f order r = record {
    links = buf-frame c f head order head r.links;
    distinct = r.distinct;
  }
