-- ===== src/Spinlock/Nesting.antt =====
-- pushcli and popcli match, and what acquire and release do around them.
use ut_os.Base.{
  ℕ, zero, suc, ◌+◌, ◌<◌, ◌^◌, ◌≡◌, refl, ap, fun_ext, ◌∙◌, false, ◌==◌, ◌&&◌, wrap, sub_word,
  arith,
}
use ut_os.Spinlock.{Cpu, Outcome, ok, panics, spins, ◌>>=◌, pushcli, popcli}

-- Interrupts are off while a pushcli is not undone.
abbrev pub IsMasked : Cpu → Type 0
IsMasked c = 0 < c.ncli → c.interrupts ≡ false

pub push_times : ℕ → Cpu → Cpu
push_times zero c = c
push_times (suc n) c = pushcli (push_times n c)

pub pop_times : ℕ → Cpu → Outcome Cpu
pop_times zero c = ok c
pop_times (suc n) c = popcli c >>= pop_times n

push_times-ncli : (n : ℕ) (c : Cpu) → c.ncli + n < 2 ^ 31 → (push_times n c).ncli ≡ c.ncli + n
unfolding push_times pushcli
push_times-ncli zero c b = omega arith
push_times-ncli (suc n) c b = omega (arith, push_times-ncli n c (omega arith))

pub push_times-IsMasked : (n : ℕ) (c : Cpu) → IsMasked c → IsMasked (push_times n c)
unfolding push_times pushcli
push_times-IsMasked zero c m = m
push_times-IsMasked (suc n) c m = λ h. refl

-- The two CPUs agree in what an interrupted computation can observe of them.
pub record IsRestored (c k : Cpu) : Type 0 where
  pub depth : k.ncli ≡ c.ncli
  pub flag : k.interrupts ≡ c.interrupts

raised : (n : ℕ) → n + 1 < 2 ^ 31 → wrap (n + 1) ≡ n + 1
raised n b = omega arith

stays : (n : ℕ) → n + 1 < 2 ^ 31 → sub_word (n + 1) 1 ≡ n
stays n b = omega arith

pub popcli-push :
    (c : Cpu)
    → IsMasked c
    → c.ncli + 1 < 2 ^ 31
    → (k : Cpu) × (popcli (pushcli c) ≡ ok k) × IsRestored c k
unfolding popcli pushcli
popcli-push c m b = (
  record (pushcli c) {
    ncli = sub_word (wrap (c.ncli + 1)) 1;
    interrupts = sub_word (wrap (c.ncli + 1)) 1 == 0 && (pushcli c).intena;
  },
  ground arith,
  ground arith,
)

pub popcli-push_deep :
    (c : Cpu) → IsMasked c → 0 < c.ncli → c.ncli + 1 < 2 ^ 31 → popcli (pushcli c) ≡ ok c
unfolding popcli pushcli
popcli-push_deep c m h b = rw (raised c.ncli b, stays c.ncli b) (ground arith)

pop_times-push_deep :
    (n : ℕ) (c : Cpu)
    → IsMasked c
    → 0 < c.ncli
    → c.ncli + n < 2 ^ 31
    → pop_times n (push_times n c) ≡ ok c
unfolding pop_times push_times
pop_times-push_deep zero c m h b = refl
pop_times-push_deep (suc n) c m h b =
    let deep = push_times-ncli n c (omega arith) in
    rw
      (popcli-push_deep (push_times n c) (push_times-IsMasked n c m) (omega (arith, deep))
        (omega (arith, deep)))
      (pop_times-push_deep n c m h (omega arith))

pub pushcli-IsMasked : (c : Cpu) → IsMasked (pushcli c)
unfolding pushcli
pushcli-IsMasked c h = refl

pub pushcli-ncli : (c : Cpu) → c.ncli + 1 < 2 ^ 31 → (pushcli c).ncli ≡ c.ncli + 1
unfolding pushcli
pushcli-ncli c b = omega arith

push_times-suc : (n : ℕ) (c : Cpu) → push_times (suc n) c ≡ push_times n (pushcli c)
unfolding push_times
push_times-suc zero c = refl
push_times-suc (suc n) c = ap pushcli (push_times-suc n c)

>>=-ok {ℓ} : {A : Type ℓ} (m : Outcome A) → (m >>= λ x. ok x) ≡ m
>>=-ok (ok a) = refl
>>=-ok panics = refl
>>=-ok spins = refl

>>=-assoc :
    {A B C : Type 0} (m : Outcome A) (f : A → Outcome B) (g : B → Outcome C)
    → (m >>= λ x. f x >>= g) ≡ ((m >>= f) >>= g)
>>=-assoc (ok a) f g = refl
>>=-assoc panics f g = refl
>>=-assoc spins f g = refl

pop_times-suc : (n : ℕ) (c : Cpu) → pop_times (suc n) c ≡ (pop_times n c >>= popcli)
unfolding pop_times
pop_times-suc zero c = >>=-ok (popcli c)
pop_times-suc (suc n) c =
    ap (λ f. popcli c >>= f) (fun_ext (pop_times-suc n)) ∙ >>=-assoc (popcli c) (pop_times n) popcli

-- After a number of pushcli calls as many popcli calls return without a panic, and leave the nesting
-- depth and the interrupt flag as they were before: on a CPU whose interrupts are off while a pushcli
-- is pending, and on or off otherwise, as long as the depth stays below 2 ^ 31.
pub pop_times-push_times :
    (n : ℕ) (c : Cpu)
    → IsMasked c
    → c.ncli + n < 2 ^ 31
    → (k : Cpu) × (pop_times n (push_times n c) ≡ ok k) × IsRestored c k
unfolding pop_times push_times
pop_times-push_times zero c m b = (c, refl, ground arith)
pop_times-push_times (suc n) c m b =
    let (k, popped, same) = popcli-push c m (omega arith) in
    let one = pushcli-ncli c (omega arith) in
    (
      k,
      rw
          (
            push_times-suc n c,
            pop_times-suc n (push_times n (pushcli c)),
            pop_times-push_deep n (pushcli c) (pushcli-IsMasked c) (omega (arith, one))
                (omega (arith, one)),
          )
          popped,
      same,
    )
