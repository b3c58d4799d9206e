-- ===== src/Cipher/Tests.antt =====
-- A short text encoded and decoded.
use ut_os.Base.{ℕ, ◌+◌, ◌<◌, ◌≡◌, ◌≢◌, refl, true, ltb, if◌then◌else◌, some, arith}
use ut_os.Strings.{Memory}
use ut_os.Cipher.{encode, decode}
use ut_os.Cipher.Shift.{decode-encode}

-- The text `xyz`.
abbrev xyz : Memory
xyz i = if ltb i 3 then 120 + i else 0

abbrev write_all : ℕ → Memory → ℕ → ℕ → ℕ
write_all fd m text n = n

xyz-letters : (j : ℕ) → j < 3 → xyz (0 + j) ≢ 0
xyz-letters j l e = ground (arith, l, e)

decode-encode_example :
    (m1 : Memory) × ((encode write_all 4 1 xyz 0 ≡ some (true, m1))
      × ((m2 : Memory) × ((decode write_all 4 1 m1 0 ≡ some (true, m2))
            × ((x : ℕ) → m2 x ≡ xyz x))))
decode-encode_example =
    decode-encode write_all 4 1 xyz 0 3 (omega arith) xyz-letters refl (λ m. refl)
