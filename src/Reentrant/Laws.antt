-- ===== src/Reentrant/Laws.antt =====
-- What a reentrant lock promises.
use ut_os.Base.{ℕ, zero, suc, ◌+◌, ◌<◌, ◌^◌, ◌≡◌, ◌≢◌, refl, true, false, none, some, wrap, arith}
use ut_os.Reentrant.{
  Reentrantlock, initreentrantlock, holdingreentrant, acquirereentrant, releasereentrant,
}

-- The lock and the sleep lock in it agree, and it is held exactly at a positive depth.
pub record IsValid (lk : Reentrantlock) : Type 0 where
  pub inner : lk.lk.locked ≡ lk.locked
  pub held : lk.locked ≡ true → (0 < lk.recursion) × (lk.lk.pid ≡ lk.pid)
  pub free : lk.locked ≡ false → lk.recursion ≡ 0
  pub word : lk.recursion < 2 ^ 32

pub acquirereentrant-IsValid :
    (me : ℕ) {lk lk' : Reentrantlock}
    → IsValid lk
    → lk.recursion + 1 < 2 ^ 32
    → acquirereentrant me lk ≡ some lk'
    → IsValid lk'
unfolding acquirereentrant
acquirereentrant-IsValid me v b e = ground arith

pub releasereentrant-IsValid :
    (me : ℕ) {lk : Reentrantlock} → IsValid lk → IsValid (releasereentrant me lk)
unfolding releasereentrant
releasereentrant-IsValid me v = ground arith

pub initreentrantlock-free : initreentrantlock.locked ≡ false
unfolding initreentrantlock
initreentrantlock-free = refl

pub initreentrantlock-IsValid : IsValid initreentrantlock
unfolding initreentrantlock
initreentrantlock-IsValid = ground arith

-- The lock is held by `me` at depth `n`, or free for `n = 0`.
abbrev pub IsHeldAt : ℕ → Reentrantlock → ℕ → Type 0
IsHeldAt me lk zero = lk.locked ≡ false
IsHeldAt me lk (suc n) = (holdingreentrant me lk ≡ true) × (lk.recursion ≡ suc n)

pub IsHeldAt-bound :
    (me : ℕ) (lk : Reentrantlock) (n : ℕ)
    → IsValid lk
    → IsHeldAt me lk n
    → n + 1 < 2 ^ 32
    → lk.recursion + 1 < 2 ^ 32
IsHeldAt-bound me lk zero v h b = omega (arith, v.free h)
IsHeldAt-bound me lk (suc n) v h b = omega (arith, h.1)

pub acquirereentrant_deeper :
    (me : ℕ) (lk : Reentrantlock) (n : ℕ)
    → IsValid lk
    → IsHeldAt me lk n
    → n + 1 < 2 ^ 32
    → (lk' : Reentrantlock) × (acquirereentrant me lk ≡ some lk') × IsHeldAt me lk' (suc n)
unfolding acquirereentrant
acquirereentrant_deeper me lk zero v h b = (
  record {
    locked = true;
    lk = record { locked = true; pid = me };
    pid = me;
    recursion = wrap (lk.recursion + 1);
  },
  ground arith,
  ground arith,
)
acquirereentrant_deeper me lk (suc n) v h b =
    (record lk { recursion = wrap (lk.recursion + 1) }, ground arith, ground arith)

pub releasereentrant_undoes :
    (me : ℕ) (lk : Reentrantlock) (n : ℕ)
    → IsValid lk
    → IsHeldAt me lk (suc n)
    → IsHeldAt me (releasereentrant me lk) n
unfolding releasereentrant
releasereentrant_undoes me lk zero v h = ground arith
releasereentrant_undoes me lk (suc n) v h = ground arith

-- The holder of a valid lock, or a caller that finds it free, gets it one level deeper, below the end
-- of the int; another process has to sleep. A release by the holder undoes one level and frees the
-- lock at the last; a release by any other process changes nothing.
pub acquirereentrant_lem :
    (me : ℕ) (lk : Reentrantlock)
    → IsValid lk
    → ((n : ℕ)
        → IsHeldAt me lk n
        → n + 1 < 2 ^ 32
        → (lk' : Reentrantlock) × (acquirereentrant me lk ≡ some lk') × IsHeldAt me lk' (suc n))
      × (lk.locked ≡ true → lk.pid ≢ me → acquirereentrant me lk ≡ none)
      × ((n : ℕ) → IsHeldAt me lk (suc n) → IsHeldAt me (releasereentrant me lk) n)
      × (holdingreentrant me lk ≡ false → releasereentrant me lk ≡ lk)
unfolding acquirereentrant releasereentrant
acquirereentrant_lem me lk v = (
  λ n. acquirereentrant_deeper me lk n v,
  λ l p. ground arith,
  λ n. releasereentrant_undoes me lk n v,
  λ h. ground arith,
)
