-- ===== src/Log/Tests.antt =====
-- A commit of two blocks, cut short by a crash.
use ut_os.Base.{ℕ, ◌+◌, ◌≡◌, ◌⊎◌, refl, List, [], ◌∷◌}
use ut_os.Log.{Disk, commit, after_writes, recover_from_log}
use ut_os.Log.Crash.{committed, commit-IsAtomic}

abbrev disk : Disk ℕ
disk = record { home = λ b. b; slots = λ i. 0; head = [] }

abbrev cache : ℕ → ℕ
cache b = b + 100

abbrev blocks : List ℕ
blocks = 5 ∷ 7 ∷ []

abbrev recovered : Disk ℕ
recovered = recover_from_log ℕ (after_writes ℕ 4 (commit ℕ cache blocks) disk)

commit-IsAtomic_example :
    (recovered.head ≡ [])
    × (((b : ℕ) → recovered.home b ≡ b)
        ⊎ ((b : ℕ) → recovered.home b ≡ committed ℕ cache blocks disk.home b))
commit-IsAtomic_example = commit-IsAtomic ℕ 4 cache blocks disk refl
