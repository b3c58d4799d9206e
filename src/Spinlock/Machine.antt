-- ===== src/Spinlock/Machine.antt =====
-- acquire, release and holding on one CPU.
use ut_os.Base.{ℕ, ◌+◌, ◌<◌, ◌^◌, ◌≡◌, refl, true, false, none, some, eq→==, arith}
use ut_os.Spinlock.{Cpu, Spinlock, ok, panics, spins, pushcli, held_by, holding, acquire, release}
use ut_os.Spinlock.Nesting.{
  IsMasked, IsRestored, popcli-push, popcli-push_deep, pushcli-IsMasked, pushcli-ncli,
}

-- The lock is free, and says so in both fields.
abbrev pub free : Spinlock
free = record { locked = false; cpu = none }

holding_lem :
    (me : ℕ) (lk : Spinlock) (c : Cpu)
    → IsMasked c
    → c.ncli + 1 < 2 ^ 31
    → (k : Cpu) × (holding me lk c ≡ ok (held_by me lk, k)) × IsRestored c k
unfolding holding
holding_lem me lk c m b = let (k, popped, same) = popcli-push c m b in (k, rw popped refl, same)

pushcli-off : (c : Cpu) → (pushcli c).interrupts ≡ false
unfolding pushcli
pushcli-off c = refl

holding_deep :
    (me : ℕ) (lk : Spinlock) (c : Cpu)
    → c.ncli + 2 < 2 ^ 31
    → holding me lk (pushcli c) ≡ ok (held_by me lk, pushcli c)
unfolding holding
holding_deep me lk c b =
    let one = pushcli-ncli c (omega arith) in
    rw (popcli-push_deep (pushcli c) (pushcli-IsMasked c) (omega (arith, one)) (omega (arith, one)))
      refl

-- At a depth below 2 ^ 31 - 2, acquire of a free lock returns with the lock held by the calling CPU,
-- interrupts off and one more pushcli pending; release of that lock then returns, frees it and
-- restores the CPU.
pub acquire-release :
    (me : ℕ) (c : Cpu)
    → IsMasked c
    → c.ncli + 2 < 2 ^ 31
    → (c1 c2 : Cpu) × (acquire me free c ≡ ok (record { locked = true; cpu = some me }, c1))
      × (c1.interrupts ≡ false)
      × (c1.ncli ≡ c.ncli + 1)
      × (release me (record { locked = true; cpu = some me }) c1 ≡ ok (free, c2))
      × IsRestored c c2
unfolding acquire release
acquire-release me c m b =
    let (k, popped, same) = popcli-push c m (omega arith) in
    (
      pushcli c,
      k,
      rw (holding_deep me free c b) refl,
      pushcli-off c,
      pushcli-ncli c (omega arith),
      rw (holding_deep me (record { locked = true; cpu = some me }) c b, eq→== me me refl, popped)
          refl,
      same,
    )

-- At such a depth, on a lock that another CPU holds acquire spins, on one that the caller holds it
-- panics, and release panics on every lock that the caller does not hold.
pub acquire-release_misuse :
    (me : ℕ) (lk : Spinlock) (c : Cpu)
    → IsMasked c
    → c.ncli + 2 < 2 ^ 31
    → (held_by me lk ≡ true → acquire me lk c ≡ panics)
      × (held_by me lk ≡ false → lk.locked ≡ true → acquire me lk c ≡ spins)
      × (held_by me lk ≡ false → release me lk c ≡ panics)
unfolding acquire release
acquire-release_misuse me lk c m b =
    let (k, held, _) = holding_lem me lk c m (omega arith) in
    (
      λ h. rw (holding_deep me lk c b, h) refl,
      λ h l. rw (holding_deep me lk c b, h, l) refl,
      λ h. rw (held, h) refl,
    )
