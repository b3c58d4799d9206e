-- ===== src/Reentrant/Exclusive.antt =====
-- Mutual exclusion by the reentrant lock, from the accesses of the processes.
use ut_os.Base.{ℕ, suc, ◌≡◌, ◌≢◌, refl, true, false, ◌==◌, wrap, arith}
use ut_os.Reentrant.{
  Reentrantlock, initreentrantlock, holdingreentrant, initsleeplock, acquiresleep, releasesleep,
}
use ut_os.Reentrant.Exclusion.{
  Place, idle, Access, read_locked, read_unlocked, ignored, own, own_last, other, other_last, take,
  mark, name, count, lower_last, lower_one, clear, unname, leave, Processes, move_to, Reach, start,
  later, owns, is_named, is_marked, depth_at, is_deep,
}

-- One process at most owns the lock, and then the sleep lock is held by it; the pid of the lock is its
-- own exactly while it is named, `locked` is set while it is marked, and the recursion counts its
-- calls. While nobody holds the sleep lock the recursion is 0.
pub record IsExclusive (s : Processes) : Type 0 where
  pub unique : (i j : ℕ) → owns (s.at i) ≡ true → owns (s.at j) ≡ true → i ≡ j
  pub taken : (i : ℕ) → owns (s.at i) ≡ true → (s.lock.lk.locked ≡ true) × (s.lock.lk.pid ≡ i)
  pub named : (i : ℕ) → i ≢ 0 → (s.lock.pid == i) ≡ is_named (s.at i)
  pub marked : (i : ℕ) → is_marked (s.at i) ≡ true → s.lock.locked ≡ true
  pub depth : (i : ℕ) → owns (s.at i) ≡ true → s.lock.recursion ≡ wrap (depth_at (s.at i))
  pub deep : (i : ℕ) → is_deep (s.at i) ≡ true
  pub free : s.lock.lk.locked ≡ false → s.lock.recursion ≡ 0

module _ {s : Processes} (v : IsExclusive s) (i : ℕ) (n : i ≢ 0) where
  Access-unique :
      {lk : Reentrantlock} {p q : Place}
      → s.at i ≡ q
      → Access i s.lock q lk p
      → (a b : ℕ) → owns (move_to s.at i p a) ≡ true
      → owns (move_to s.at i p b) ≡ true
      → a ≡ b
  unfolding acquiresleep releasesleep
  Access-unique e (read_locked r d h) a b x y =
      ground (arith, e, v.unique a b, v.unique i b, v.unique a i)
  Access-unique e (read_unlocked d h) a b x y =
      ground (arith, e, v.unique a b, v.unique i b, v.unique a i)
  Access-unique e (ignored d h) a b x y =
      ground (arith, e, v.unique a b, v.unique i b, v.unique a i)
  Access-unique e (own d h) a b x y = ground (
    arith,
    e,
    v.unique a b,
    v.unique i a,
    v.unique i b,
    v.unique a i,
    v.taken a,
    v.taken b,
    v.named i n,
  )
  Access-unique e (own_last d h) a b x y = ground (
    arith,
    e,
    v.unique a b,
    v.unique i a,
    v.unique i b,
    v.unique a i,
    v.taken a,
    v.taken b,
    v.named i n,
  )
  Access-unique e (other d h) a b x y = ground (arith, e, v.unique a b, v.unique i b, v.unique a i)
  Access-unique e (other_last d h) a b x y =
      ground (arith, e, v.unique a b, v.unique i b, v.unique a i)
  Access-unique e (take h) a b x y = ground (arith, e, v.taken a, v.taken b)
  Access-unique e mark a b x y = ground (arith, e, v.unique a b, v.unique i b, v.unique a i)
  Access-unique e name a b x y = ground (arith, e, v.unique a b, v.unique i b, v.unique a i)
  Access-unique e (count d) a b x y = ground (arith, e, v.unique a b, v.unique i b, v.unique a i)
  Access-unique e (lower_last d h) a b x y =
      ground (arith, e, v.unique a b, v.unique i b, v.unique a i)
  Access-unique e (lower_one d h) a b x y =
      ground (arith, e, v.unique a b, v.unique i b, v.unique a i)
  Access-unique e clear a b x y = ground (arith, e, v.unique a b, v.unique i b, v.unique a i)
  Access-unique e unname a b x y = ground (arith, e, v.unique a b, v.unique i b, v.unique a i)
  Access-unique e leave a b x y = ground (arith, e, v.unique a b, v.unique i b, v.unique a i)

  Access-taken :
      {lk : Reentrantlock} {p q : Place}
      → s.at i ≡ q
      → Access i s.lock q lk p
      → (a : ℕ) → owns (move_to s.at i p a) ≡ true
      → (lk.lk.locked ≡ true) × (lk.lk.pid ≡ a)
  unfolding acquiresleep releasesleep
  Access-taken e (read_locked r d h) a x = ground (arith, e, v.taken a, v.unique i a)
  Access-taken e (read_unlocked d h) a x = ground (arith, e, v.taken a, v.unique i a)
  Access-taken e (ignored d h) a x = ground (arith, e, v.taken a, v.unique i a)
  Access-taken e (own d h) a x = ground (arith, e, v.unique i a, v.taken a, v.taken i, v.named i n)
  Access-taken e (own_last d h) a x =
      ground (arith, e, v.unique i a, v.taken a, v.taken i, v.named i n)
  Access-taken e (other d h) a x = ground (arith, e, v.taken a, v.unique i a)
  Access-taken e (other_last d h) a x = ground (arith, e, v.taken a, v.unique i a)
  Access-taken e (take h) a x = ground (arith, e, v.taken a, v.unique i a)
  Access-taken e mark a x = ground (arith, e, v.taken a, v.unique i a)
  Access-taken e name a x = ground (arith, e, v.taken a, v.unique i a)
  Access-taken e (count d) a x = ground (arith, e, v.taken a, v.unique i a)
  Access-taken e (lower_last d h) a x = ground (arith, e, v.taken a, v.unique i a)
  Access-taken e (lower_one d h) a x = ground (arith, e, v.taken a, v.unique i a)
  Access-taken e clear a x = ground (arith, e, v.taken a, v.unique i a)
  Access-taken e unname a x = ground (arith, e, v.taken a, v.unique i a)
  Access-taken e leave a x = ground (arith, e, v.taken a, v.unique i a)

  Access-named :
      {lk : Reentrantlock} {p q : Place}
      → s.at i ≡ q
      → Access i s.lock q lk p
      → (a : ℕ) → a ≢ 0
      → (lk.pid == a) ≡ is_named (move_to s.at i p a)
  unfolding acquiresleep releasesleep
  Access-named e (read_locked r d h) a z = ground (arith, e, v.named a z, v.named i n)
  Access-named e (read_unlocked d h) a z =
      ground (arith, e, v.unique i a, v.named a z, v.named i n, v.deep i, v.marked i, v.depth i)
  Access-named e (ignored d h) a z = ground (arith, e, v.named a z, v.named i n)
  Access-named e (own d h) a z = ground (arith, e, v.named a z, v.named i n)
  Access-named e (own_last d h) a z = ground (arith, e, v.named a z, v.named i n)
  Access-named e (other d h) a z = ground (arith, e, v.named a z, v.named i n)
  Access-named e (other_last d h) a z = ground (arith, e, v.named a z, v.named i n)
  Access-named e (take h) a z = ground (arith, e, v.named a z, v.named i n)
  Access-named e mark a z = ground (arith, e, v.named a z, v.named i n)
  Access-named e name a z = ground (arith, e, v.unique i a, v.named a z)
  Access-named e (count d) a z = ground (arith, e, v.named a z, v.named i n)
  Access-named e (lower_last d h) a z = ground (arith, e, v.named a z, v.named i n)
  Access-named e (lower_one d h) a z =
      ground (arith, e, v.unique i a, v.named a z, v.named i n, v.deep i, v.marked i, v.depth i)
  Access-named e clear a z = ground (arith, e, v.named a z, v.named i n)
  Access-named e unname a z = ground (arith, e, v.named a z, v.named i n)
  Access-named e leave a z = ground (arith, e, v.named a z, v.named i n)

  Access-marked :
      {lk : Reentrantlock} {p q : Place}
      → s.at i ≡ q
      → Access i s.lock q lk p
      → (a : ℕ) → is_marked (move_to s.at i p a) ≡ true
      → lk.locked ≡ true
  unfolding acquiresleep releasesleep
  Access-marked e (read_locked r d h) a x = ground (arith, e, v.marked a, v.unique i a)
  Access-marked e (read_unlocked d h) a x = ground (arith, e, v.marked a, v.unique i a)
  Access-marked e (ignored d h) a x = ground (arith, e, v.marked a, v.unique i a)
  Access-marked e (own d h) a x =
      ground (arith, e, v.unique i a, v.marked a, v.marked i, v.named i n)
  Access-marked e (own_last d h) a x =
      ground (arith, e, v.unique i a, v.marked a, v.marked i, v.named i n)
  Access-marked e (other d h) a x = ground (arith, e, v.marked a, v.unique i a)
  Access-marked e (other_last d h) a x = ground (arith, e, v.marked a, v.unique i a)
  Access-marked e (take h) a x = ground (arith, e, v.marked a, v.unique i a)
  Access-marked e mark a x = ground (arith, e, v.marked a, v.unique i a)
  Access-marked e name a x = ground (arith, e, v.marked a, v.unique i a)
  Access-marked e (count d) a x = ground (arith, e, v.marked a, v.unique i a)
  Access-marked e (lower_last d h) a x = ground (arith, e, v.marked a, v.unique i a)
  Access-marked e (lower_one d h) a x = ground (arith, e, v.marked a, v.unique i a)
  Access-marked e clear a x = ground (arith, e, v.marked a, v.unique i a)
  Access-marked e unname a x = ground (arith, e, v.marked a, v.unique i a)
  Access-marked e leave a x = ground (arith, e, v.marked a, v.unique i a)

  Access-depth :
      {lk : Reentrantlock} {p q : Place}
      → s.at i ≡ q
      → Access i s.lock q lk p
      → (a : ℕ) → owns (move_to s.at i p a) ≡ true
      → lk.recursion ≡ wrap (depth_at (move_to s.at i p a))
  unfolding acquiresleep releasesleep
  Access-depth e (read_locked r d h) a x = ground (arith, e, v.depth a, v.unique i a)
  Access-depth e (read_unlocked d h) a x = ground (arith, e, v.depth a, v.unique i a)
  Access-depth e (ignored d h) a x = ground (arith, e, v.depth a, v.unique i a)
  Access-depth e (own d h) a x =
      ground (arith, e, v.unique i a, v.taken a, v.depth a, v.depth i, v.named i n, v.free)
  Access-depth e (own_last d h) a x =
      ground (arith, e, v.unique i a, v.taken a, v.depth a, v.depth i, v.named i n, v.free)
  Access-depth e (other d h) a x = ground (arith, e, v.depth a, v.unique i a)
  Access-depth e (other_last d h) a x = ground (arith, e, v.depth a, v.unique i a)
  Access-depth e (take h) a x = ground (arith, e, v.depth a, v.unique i a)
  Access-depth e mark a x = ground (arith, e, v.depth a, v.unique i a)
  Access-depth e name a x = ground (arith, e, v.depth a, v.unique i a)
  Access-depth e (count d) a x = ground (arith, e, v.depth a, v.unique i a)
  Access-depth e (lower_last d h) a x = ground (arith, e, v.depth a, v.unique i a)
  Access-depth e (lower_one d h) a x = ground (arith, e, v.depth a, v.unique i a)
  Access-depth e clear a x = ground (arith, e, v.depth a, v.unique i a)
  Access-depth e unname a x = ground (arith, e, v.depth a, v.unique i a)
  Access-depth e leave a x = ground (arith, e, v.depth a, v.unique i a)

  Access-deep :
      {lk : Reentrantlock} {p q : Place}
      → s.at i ≡ q
      → Access i s.lock q lk p
      → (a : ℕ) → is_deep (move_to s.at i p a) ≡ true
  unfolding acquiresleep releasesleep
  Access-deep e (read_locked r d h) a = ground (arith, e, v.deep a)
  Access-deep e (read_unlocked d h) a = ground (arith, e, v.deep a)
  Access-deep e (ignored d h) a = ground (arith, e, v.deep a)
  Access-deep e (own d h) a = ground (arith, e, v.deep a)
  Access-deep e (own_last d h) a = ground (arith, e, v.deep a, v.named i n)
  Access-deep e (other d h) a = ground (arith, e, v.deep a)
  Access-deep e (other_last d h) a = ground (arith, e, v.deep a)
  Access-deep e (take h) a = ground (arith, e, v.deep a)
  Access-deep e mark a = ground (arith, e, v.deep a)
  Access-deep e name a = ground (arith, e, v.deep a)
  Access-deep e (count d) a = ground (arith, e, v.deep a)
  Access-deep e (lower_last d h) a = ground (arith, e, v.deep a)
  Access-deep e (lower_one d h) a = ground (arith, e, v.deep a)
  Access-deep e clear a = ground (arith, e, v.deep a)
  Access-deep e unname a = ground (arith, e, v.deep a)
  Access-deep e leave a = ground (arith, e, v.deep a)

  Access-free :
      {lk : Reentrantlock} {p q : Place}
      → s.at i ≡ q
      → Access i s.lock q lk p
      → lk.lk.locked ≡ false
      → lk.recursion ≡ 0
  unfolding acquiresleep releasesleep
  Access-free e (read_locked r d h) x = ground (arith, e, v.free)
  Access-free e (read_unlocked d h) x = ground (arith, e, v.free)
  Access-free e (ignored d h) x = ground (arith, e, v.free)
  Access-free e (own d h) x = ground (arith, e, v.free)
  Access-free e (own_last d h) x = ground (arith, e, v.free)
  Access-free e (other d h) x = ground (arith, e, v.free)
  Access-free e (other_last d h) x = ground (arith, e, v.free)
  Access-free e (take h) x = ground (arith, e, v.free)
  Access-free e mark x = ground (arith, e, v.free)
  Access-free e name x = ground (arith, e, v.free)
  Access-free e (count d) x = ground (arith, e, v.taken i)
  Access-free e (lower_last d h) x = ground (arith, e, v.free)
  Access-free e (lower_one d h) x = ground (arith, e, v.taken i)
  Access-free e clear x = ground (arith, e, v.free)
  Access-free e unname x = ground (arith, e, v.free)
  Access-free e leave x = ground (arith, e, v.taken i, v.free, v.depth i)

pub Reach-IsExclusive : {s : Processes} → Reach s → IsExclusive s
unfolding initreentrantlock initsleeplock
Reach-IsExclusive start = record {
  unique = λ i j x y. cc;
  taken = λ i x. cc;
  named = λ i z. ground arith;
  marked = λ i x. cc;
  depth = λ i x. cc;
  deep = λ i. refl;
  free = λ x. refl;
}
Reach-IsExclusive (later i r n e c) =
    let v = Reach-IsExclusive r in
    record {
      unique = Access-unique v i n e c;
      taken = Access-taken v i n e c;
      named = Access-named v i n e c;
      marked = Access-marked v i n e c;
      depth = Access-depth v i n e c;
      deep = Access-deep v i n e c;
      free = Access-free v i n e c;
    }

-- However the processes interleave their accesses to a fresh reentrant lock, two are never both
-- between the return of acquiresleep and the call of releasesleep, and the sleep lock is held by the
-- one that is there. holdingreentrant is true for a process, of a pid that is not 0, at every moment,
-- if it is outside of a call and has the lock, and false if it has not; to the process that has the
-- lock outside of a call the recursion is the number of its calls that are not undone, as an int.
pub reentrant_exclusion :
    {s : Processes}
    → Reach s
    → ((i j : ℕ) → owns (s.at i) ≡ true → owns (s.at j) ≡ true → i ≡ j)
      × ((i : ℕ) → owns (s.at i) ≡ true → (s.lock.lk.locked ≡ true) × (s.lock.lk.pid ≡ i))
      × ((i d : ℕ)
          → i ≢ 0
          → s.at i ≡ idle (suc d)
          → (holdingreentrant i s.lock ≡ true) × (s.lock.recursion ≡ wrap (suc d)))
      × ((i : ℕ) → i ≢ 0 → owns (s.at i) ≡ false → holdingreentrant i s.lock ≡ false)
reentrant_exclusion r =
    let v = Reach-IsExclusive r in
    (
      v.unique,
      v.taken,
      λ i d n e. ground (arith, e, v.named i n, v.marked i, v.depth i),
      λ i n o. ground (arith, o, v.named i n),
    )
