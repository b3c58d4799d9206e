-- ===== src/Proc/Alloc.antt =====
-- allocproc and fork of proc.c.
pub mod Laws
use ut_os.Base.{
  ℕ, zero, suc, ◌+◌, ◌==◌, Bool, true, false, ◌&&◌, not, if◌then◌else◌, Option, none, some, List,
  [], ◌∷◌, replicate, get_or, find_index, modify, wrap, minus_one, lt_int,
}
use ut_os.Kalloc.{Kmem, kalloc, kfree}
use ut_os.Proc.{
  Proc, Ptable, ProcState, unused, embryo, runnable, is_state, n_syscalls, blank_proc,
  acquire_ptable, release_ptable,
}

abbrev pub slot : Ptable → ℕ → Proc
slot t i = get_or t.procs i blank_proc

abbrev pub update_slot : Ptable → ℕ → (Proc → Proc) → Ptable
update_slot t i f = record t { procs = modify f t.procs i }

-- `p->state = EMBRYO; p->pid = nextpid++;`
abbrev pub claim : ℕ → Proc → Proc
claim pid p = record p { state = embryo; pid = pid }

-- The stores behind the allocation of the kernel stack.
abbrev pub set_up : ℕ → ℕ → Proc → Proc
set_up page ticks p = record p {
  kstack = page;
  sc = replicate n_syscalls 0;
  queue = 0;
  wait_time = 0;
  confidence = 50;
  burst_time = 2;
  consecutive_runs = 0;
  arrival = ticks;
}

abbrev pub give_up : Proc → Proc
give_up p = record p { kstack = 0; state = unused }

-- The index of the slot, or none for the null pointer.
pub allocproc : ℕ → Ptable → Kmem → Option (Option ℕ × Ptable × Kmem)
allocproc ticks t k = elim (acquire_ptable t) [
  | none ↦ none
  | some t1 ↦ elim (find_index (λ p. is_state p.state unused) t1.procs) [
    | none ↦ some (none, release_ptable t1, k)
    | some i ↦
        (let t2 =
            release_ptable
              (record (update_slot t1 i (claim t1.nextpid)) { nextpid = wrap (t1.nextpid + 1) }) in
          let (k', page) = kalloc k in
          if page == 0
          then some (none, update_slot t2 i give_up, k')
          else some (some i, update_slot t2 i (set_up page ticks), k'))
  ]
]

-- `np->ofile[i] = filedup(curproc->ofile[i])` where the parent has a file open.
abbrev pub inherit_files : List (Option ℕ) → List (Option ℕ) → List (Option ℕ)
inherit_files (some f ∷ fs) (g ∷ gs) = some f ∷ inherit_files fs gs
inherit_files (none ∷ fs) (g ∷ gs) = g ∷ inherit_files fs gs
inherit_files [] gs = gs
inherit_files (f ∷ fs) [] = []

-- The child as `fork` leaves it, but for its state. `me` is the index of the parent `cur`.
abbrev pub inherit : ℕ → Proc → ℕ → Proc → Proc
inherit me cur pgdir p = record p {
  pgdir = pgdir;
  sz = cur.sz;
  parent = some me;
  eax = 0;
  ofile = inherit_files cur.ofile p.ofile;
  cwd = cur.cwd;
  name = cur.name;
}

-- `if(curproc->pid>2 && pid>2) np->queue=2; np->state = RUNNABLE;`
abbrev pub enqueue : ℕ → ℕ → Proc → Proc
enqueue parent_pid pid p = record p {
  queue = if lt_int 2 parent_pid && lt_int 2 pid then 2 else p.queue;
  state = runnable;
}

-- `pgdir` is what `copyuvm` returned, 0 for null. The file and inode counts that the child adds are
-- those of its `ofile` and `cwd`. The result is the pid of the child or -1.
pub fork : ℕ → ℕ → ℕ → ℕ → Ptable → Kmem → Option (ℕ × Ptable × Kmem)
fork kernel_end ticks me pgdir t k = elim (allocproc ticks t k) [
  | none ↦ none
  | some (none, t1, k1) ↦ some (minus_one, t1, k1)
  | some (some i, t1, k1) ↦
      if pgdir == 0
      then (elim (kfree kernel_end k1 (slot t1 i).kstack) [
        | none ↦ none
        | some k2 ↦ some (minus_one, update_slot t1 i give_up, k2)
      ])
      else (let cur = slot t1 me in
          let t2 = update_slot t1 i (inherit me cur pgdir) in
          let pid = (slot t2 i).pid in
          elim (acquire_ptable t2) [
            | none ↦ none
            | some t3 ↦ some (pid, release_ptable (update_slot t3 i (enqueue cur.pid pid)), k1)
          ])
]
