-- ===== src/Syscall/Tests.antt =====
-- The argument checks at work.
use ut_os.Base.{◌+◌, ◌*◌, ◌≤◌, ◌<◌, ◌≡◌, refl, if◌then◌else◌, ◌==◌, some, wrap, arith}
use ut_os.Strings.{Memory}
use ut_os.Syscall.{argptr, argint, fetchint}
use ut_os.Syscall.Laws.{argptr_lem}

-- The address 1000 on the stack, at 2008.
abbrev stack : Memory
stack x = if x == 2008 then 232 else (if x == 2009 then 3 else 0)

argptr-stack : argptr stack 4096 2000 1 96 ≡ some 1000
unfolding argptr argint fetchint
argptr-stack = refl

argptr_lem_example : (1000 < 4096) × (1000 + 96 ≤ 4096) × (wrap (2000 + 4 + 4 * 1) + 4 ≤ 4096)
argptr_lem_example = argptr_lem stack 4096 2000 1 96 1000 (omega arith) (omega arith) argptr-stack
