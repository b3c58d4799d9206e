-- ===== src/Proc/Queues/Aging.antt =====
-- Aging: no runnable process waits for ever below the first queue.
use ut_os.Base.{
  ℕ, zero, suc, ◌-◌, ◌*◌, ◌^◌, ◌≤◌, ◌<◌, ◌≡◌, ◌≢◌, refl, ap, sym, ◌∙◌, true, false, some, List, map,
  get_or, get_or-map, arith,
}
use ut_os.Proc.{Proc, Ptable, runnable, is_state, blank_proc}
use ut_os.Proc.Queues.{age_one, aging}

abbrev slot : Ptable → ℕ → Proc
slot t i = get_or t.procs i blank_proc

age_one-blank : (ticks : ℕ) → age_one ticks blank_proc ≡ blank_proc
unfolding blank_proc
age_one-blank ticks = refl

get_or-age :
    (ticks : ℕ) (ps : List Proc) (j : ℕ)
    → get_or (map (age_one ticks) ps) j blank_proc ≡ age_one ticks (get_or ps j blank_proc)
get_or-age ticks ps j =
    ap (λ d. get_or (map (age_one ticks) ps) j d) (sym (age_one-blank ticks))
    ∙ get_or-map (age_one ticks) ps j blank_proc

-- The `n` ticks at which a process is runnable and is not run, the last one first.
pub age_times : ℕ → (ℕ → ℕ) → Proc → Proc
age_times zero ticks p = p
age_times (suc n) ticks p = age_one (ticks n) (age_times n ticks p)

-- How many ticks the process may still wait below the first queue.
abbrev patience : Proc → ℕ
patience p = 800 * p.queue - p.wait_time

record IsWaiting (p : Proc) : Type 0 where
  state : is_state p.state runnable ≡ true
  depth : p.queue < 2 ^ 20
  time : p.queue ≢ 0 → p.wait_time < 800

age_one-IsWaiting : (ticks : ℕ) (p : Proc) → IsWaiting p → IsWaiting (age_one ticks p)
age_one-IsWaiting ticks p w = ground arith

age_one-patience :
    (ticks : ℕ) (p : Proc) → IsWaiting p → patience (age_one ticks p) ≡ patience p - 1
age_one-patience ticks p w = ground arith

age_times-lem :
    (n : ℕ) (ticks : ℕ → ℕ) (p : Proc)
    → IsWaiting p
    → IsWaiting (age_times n ticks p) × (patience (age_times n ticks p) ≡ patience p - n)
unfolding age_times
age_times-lem zero ticks p w = (w, omega arith)
age_times-lem (suc n) ticks p w =
    let (v, h) = age_times-lem n ticks p w in
    (
      age_one-IsWaiting (ticks n) (age_times n ticks p) v,
      age_one-patience (ticks n) (age_times n ticks p) v ∙ ap (λ x. x - 1) h ∙ omega arith,
    )

-- A process that stays runnable and is not run, and has waited less than 800 ticks in its queue, climbs
-- a queue every 800 ticks at the latest: from queue `q`, below 2 ^ 20, it is in the first queue after
-- `800 * q` ticks less what it has waited, and stays there.
pub age_times-queue :
    (n : ℕ) (ticks : ℕ → ℕ) (p : Proc)
    → is_state p.state runnable ≡ true
    → p.queue < 2 ^ 20
    → p.wait_time < 800
    → 800 * p.queue - p.wait_time ≤ n
    → (age_times n ticks p).queue ≡ 0
age_times-queue n ticks p st d t h =
    let (v, e) = age_times-lem n ticks p (record { state = st; depth = d; time = λ _. t }) in
    ground (arith, v, e)

-- A call of aging, made with the lock free, frees it again and ages every slot by one tick.
pub aging_lem :
    (ticks : ℕ) (t : Ptable)
    → t.held ≡ false
    → (t' : Ptable) × (aging ticks t ≡ some t')
      × (t'.held ≡ false)
      × ((j : ℕ) → slot t' j ≡ age_times 1 (λ _. ticks) (slot t j))
unfolding aging age_times
aging_lem ticks t free = (
  record t { held = false; procs = map (age_one ticks) t.procs },
  ground arith,
  refl,
  λ j. get_or-age ticks t.procs j,
)
