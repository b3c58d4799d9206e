-- ===== src/Spinlock.antt =====
-- spinlock.c: the interrupt state of a CPU, and spin locks. Here each function runs on one CPU that
-- nothing disturbs; `Spinlock.Exclusion` interleaves the steps of many CPUs.
pub mod Nesting
pub mod Machine
pub mod Exclusion
pub mod Tests
use ut_os.Base.{
  ℕ, zero, suc, ◌+◌, ◌==◌, wrap, sub_word, lt_int, Bool, true, false, ◌&&◌, not, if◌then◌else◌,
  Option, none, some,
}

-- The fields of `struct cpu` that locking uses, `ncli` as the pattern of an int, and the interrupt flag
-- of `eflags`.
pub record Cpu : Type 0 where
  pub ncli : ℕ
  pub intena : Bool
  pub interrupts : Bool

-- `cpu` is none for a null pointer. The name and the call stack serve debugging alone.
pub record Spinlock : Type 0 where
  pub locked : Bool
  pub cpu : Option ℕ

-- A call returns, panics, or spins for ever.
pub data Outcome {ℓ} (A : Type ℓ) : Type ℓ where
  ok : A → Outcome A
  panics spins : Outcome A

infixl 5 ◌>>=◌
abbrev pub ◌>>=◌ {ℓ κ} : {A : Type ℓ} {B : Type κ} → Outcome A → (A → Outcome B) → Outcome B
ok a >>= f = f a
panics >>= f = panics
spins >>= f = spins

pub initlock : Spinlock
initlock = record { locked = false; cpu = none }

-- `cli()` comes before `intena` is set from the flags read at the start.
pub pushcli : Cpu → Cpu
pushcli c = record {
  ncli = wrap (c.ncli + 1);
  intena = if c.ncli == 0 then c.interrupts else c.intena;
  interrupts = false;
}

pub popcli : Cpu → Outcome Cpu
popcli c =
    if c.interrupts
    then panics
    else (let left = sub_word c.ncli 1 in
        if lt_int left 0
        then panics
        else ok (record c { ncli = left; interrupts = left == 0 && c.intena }))

abbrev pub is_cpu : ℕ → Option ℕ → Bool
is_cpu me none = false
is_cpu me (some i) = i == me

-- `lock->locked && lock->cpu == mycpu()`
abbrev pub held_by : ℕ → Spinlock → Bool
held_by me lk = lk.locked && is_cpu me lk.cpu

-- `me` is the CPU that runs.
pub holding : ℕ → Spinlock → Cpu → Outcome (Bool × Cpu)
unfolding pushcli popcli
holding me lk c = popcli (pushcli c) >>= λ c'. ok (held_by me lk, c')

-- With nobody else on the lock `xchg` gets it at once or never.
pub acquire : ℕ → Spinlock → Cpu → Outcome (Spinlock × Cpu)
acquire me lk c = holding me lk (pushcli c) >>= λ r.
    if r.0
    then panics
    else (if lk.locked then spins else ok (record { locked = true; cpu = some me }, r.1))

pub release : ℕ → Spinlock → Cpu → Outcome (Spinlock × Cpu)
release me lk c = holding me lk c >>= λ r.
    if not r.0
    then panics
    else (popcli r.1 >>= λ c'. ok (record { locked = false; cpu = none }, c'))
