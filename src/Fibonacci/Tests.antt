-- ===== src/Fibonacci/Tests.antt =====
-- The memo table at work.
use ut_os.Base.{◌≡◌, some, arith}
use ut_os.Reentrant.Laws.{initreentrantlock-IsValid, initreentrantlock-free}
use ut_os.Fibonacci.{FibNums, table_size, fib_init, fibonacci_number}
use ut_os.Fibonacci.Numbers.{fib}
use ut_os.Fibonacci.Memo.{IsMemo, Holds}
use ut_os.Fibonacci.Calls.{fib_init-IsMemo, fibonacci_number_lem}

fib_init-Holds : Holds 5 0 fib_init
unfolding fib_init
fib_init-Holds = (initreentrantlock-IsValid, initreentrantlock-free)

fibonacci_number_lem_example :
    (t : FibNums) × (fibonacci_number 5 30 fib_init ≡ some (fib 30, t))
    × IsMemo table_size t
    × Holds 5 0 t
fibonacci_number_lem_example =
    fibonacci_number_lem 5 0 30 fib_init (omega arith) (omega arith) fib_init-IsMemo fib_init-Holds
