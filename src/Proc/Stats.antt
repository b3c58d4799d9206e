-- ===== src/Proc/Stats.antt =====
-- The calls of proc.c that report on processes and set what the scheduler reads of them. What is
-- printed is left out where the result says it.
pub mod Laws
pub mod Counts
pub mod Tests
use ut_os.Base.{
  ℕ, zero, suc, ◌+◌, ◌-◌, ◌*◌, ◌/◌, ◌%◌, ◌==◌, ltb, Bool, true, false, ◌&&◌, ◌||◌, not,
  if◌then◌else◌, Option, none, some, List, [], ◌∷◌, get_or, set, length, find_index, modify, wrap,
  minus_one, lt_int, le_int,
}
use ut_os.Proc.{Proc, Ptable, nproc, blank_proc, acquire_ptable, release_ptable}
use ut_os.Proc.Alloc.{slot, update_slot}

abbrev pub find_pid : ℕ → List Proc → Option ℕ
find_pid pid ps = find_index (λ p. p.pid == pid) ps

-- `pid<=0 || pid>=NPROC`
abbrev pub is_bad_pid : ℕ → Bool
is_bad_pid pid = le_int pid 0 || le_int nproc pid

abbrev pub put_info : ℕ → ℕ → Proc → Proc
put_info burst confidence p = record p { burst_time = burst; confidence = confidence }

-- On an invalid pid the call returns with the lock held.
pub set_sjf_info : ℕ → ℕ → ℕ → Ptable → Option (ℕ × Ptable)
set_sjf_info pid burst confidence t = elim (acquire_ptable t) [
  | none ↦ none
  | some t1 ↦ if is_bad_pid pid then some (minus_one, t1) else (elim (find_pid pid t1.procs) [
    | some i ↦ some (0, release_ptable (update_slot t1 i (put_info burst confidence)))
    | none ↦ some (minus_one, release_ptable t1)
  ])
]

abbrev pub put_queue : ℕ → ℕ → Proc → Proc
put_queue queue ticks p = record p { queue = queue; arrival = ticks }

pub set_queue : ℕ → ℕ → ℕ → Ptable → Option (ℕ × Ptable)
set_queue pid queue ticks t =
    if is_bad_pid pid || (lt_int 3 queue || lt_int queue 0)
    then some (minus_one, t)
    else (elim (acquire_ptable t) [
      | none ↦ none
      | some t1 ↦ elim (find_pid pid t1.procs) [
        | some i ↦
            if (slot t1 i).queue == queue
            then some (minus_one, release_ptable t1)
            else some (0, release_ptable (update_slot t1 i (put_queue queue ticks)))
        | none ↦ some (minus_one, release_ptable t1)
      ]
    ])

-- `max` and `max_i` behind the loop over the counts from index `i` on.
pub most_from : List ℕ → ℕ → ℕ → Option ℕ → ℕ × Option ℕ
most_from [] i max max_i = (max, max_i)
most_from (c ∷ cs) i max max_i =
    most_from cs (i + 1) (if lt_int max c then c else max) (if lt_int max c then some i else max_i)

-- The result, and what is printed of the process: its largest count and the call that has it.
pub get_most_invoked : ℕ → Ptable → Option (ℕ × Option (ℕ × Option ℕ) × Ptable)
unfolding most_from
get_most_invoked pid t = elim (acquire_ptable t) [
  | none ↦ none
  | some t1 ↦ elim (find_pid pid t1.procs) [
    | some i ↦ some (0, some (most_from (slot t1 i).sc 0 0 none), release_ptable t1)
    | none ↦ some (minus_one, none, release_ptable t1)
  ]
]

abbrev pub syscall_weight : ℕ → ℕ
syscall_weight num = if num == 15 then 3 else (if num == 16 then 2 else 1)

-- The counts of the system, of one CPU, and of the process.
pub record Tally : Type 0 where
  pub total : ℕ
  pub cpu : ℕ
  pub sc : List ℕ

-- No result where the C code writes outside `sc`.
pub log_syscall : ℕ → Tally → Option Tally
log_syscall num k =
    if not (num == 0) && ltb (num - 1) (length k.sc)
    then some (record {
      total = wrap (k.total + syscall_weight num);
      cpu = wrap (k.cpu + syscall_weight num);
      sc = set k.sc (num - 1) (wrap (get_or k.sc (num - 1) 0 + 1));
    })
    else none

abbrev pub sum : List ℕ → ℕ
sum [] = 0
sum (c ∷ cs) = wrap (c + sum cs)

-- The lines of the list: the pid and the number of calls of every process.
pub list_lines : List Proc → List (ℕ × ℕ)
list_lines [] = []
list_lines (p ∷ ps) =
    let rest = list_lines ps in if p.pid == 0 then rest else (p.pid, sum p.sc) ∷ rest

abbrev pub has_lines : List (ℕ × ℕ) → ℕ
has_lines [] = minus_one
has_lines (x ∷ xs) = 0

pub list_all_processes : Ptable → Option (ℕ × List (ℕ × ℕ) × Ptable)
unfolding list_lines
list_all_processes t = elim (acquire_ptable t) [
  | none ↦ none
  | some t1 ↦ some (has_lines (list_lines t1.procs), list_lines t1.procs, release_ptable t1)
]

-- The lines that `sort_syscalls` prints, from call number `i + 1` on: the number and the count of
-- every call that was made.
pub call_lines : ℕ → List ℕ → List (ℕ × ℕ)
call_lines i [] = []
call_lines i (c ∷ cs) =
    let rest = call_lines (i + 1) cs in if c == 0 then rest else (i + 1, c) ∷ rest

pub sort_syscalls : ℕ → Ptable → Option (ℕ × List (ℕ × ℕ) × Ptable)
unfolding call_lines
sort_syscalls pid t = elim (acquire_ptable t) [
  | none ↦ none
  | some t1 ↦ elim (find_pid pid t1.procs) [
    | some i ↦ some (0, call_lines 0 (slot t1 i).sc, release_ptable t1)
    | none ↦ some (minus_one, [], release_ptable t1)
  ]
]

-- The processes that `report_all_processes` prints.
pub report_lines : List Proc → List Proc
report_lines [] = []
report_lines (p ∷ ps) = let rest = report_lines ps in if p.pid == 0 then rest else p ∷ rest

pub report_all_processes : Ptable → Option (ℕ × List Proc × Ptable)
unfolding report_lines
report_all_processes t = elim (acquire_ptable t) [
  | none ↦ none
  | some t1 ↦ some (0, report_lines t1.procs, release_ptable t1)
]

-- The number that `create_palindrome` prints for a positive `num`; no result where the fuel ran out.
pub create_palindrome : ℕ → ℕ → ℕ → Option ℕ
create_palindrome zero new_num palnum = none
create_palindrome (suc fuel) new_num palnum = elim (new_num == 0) [
  | true ↦ some palnum
  | false ↦ create_palindrome fuel (new_num / 10) (wrap (palnum * 10 + new_num % 10))
]
