-- ===== src/Pipe/Window.antt =====
-- The bytes in flight of a pipe, and the invariant of its two counters, which wrap at 2 ^ 32.
use ut_os.Base.{
  ℕ, zero, suc, ◌+◌, ◌-◌, ◌%◌, ◌^◌, ◌≤◌, ◌<◌, ◌≡◌, ◌≢◌, refl, ap, ap₂, List, [], ◌∷◌, ◌++◌, get_or,
  set, length, wrap, sub_word, arith, get_or-set_self, get_or-set_ne, length-set, false, ◌==◌,
}
use native.Mathlib.Numerals.{add-one}
use ut_os.Pipe.{Pipe, pipe_size, put, is_full, is_empty}

-- The `n` bytes from counter `r` on.
abbrev pub window : List ℕ → ℕ → ℕ → List ℕ
window buf r zero = []
window buf r (suc n) = get_or buf (r % pipe_size) 0 ∷ window buf (wrap (r + 1)) n

abbrev pub count : Pipe → ℕ
count p = sub_word p.nwrite p.nread

abbrev pub contents : Pipe → List ℕ
contents p = window p.buf p.nread (count p)

pub record IsValid (p : Pipe) : Type 0 where
  pub storage : length p.buf ≡ pipe_size
  pub read_word : p.nread < 2 ^ 32
  pub write_word : p.nwrite < 2 ^ 32
  pub room : count p ≤ pipe_size

pub length-window : (buf : List ℕ) (r n : ℕ) → length (window buf r n) ≡ n
length-window buf r zero = refl
length-window buf r (suc n) = ap suc (length-window buf (wrap (r + 1)) n)

-- A write just behind a window extends it.
pub window-set :
    (buf : List ℕ) (c r n i : ℕ)
    → length buf ≡ pipe_size
    → n < pipe_size
    → i ≡ (r + n) % pipe_size
    → window (set buf i c) r (suc n) ≡ window buf r n ++ (c ∷ [])
window-set buf c r zero i len h e =
    let at : i ≡ r % pipe_size = omega arith in
    rw (at, get_or-set_self buf (r % pipe_size) c 0 (omega arith))
window-set buf c r (suc n) i len h e =
    ap₂ ◌∷◌ (get_or-set_ne buf i (r % pipe_size) c 0 (omega arith))
      (window-set buf c (wrap (r + 1)) n i len (omega arith) (omega arith))

pub window-suc :
    (buf : List ℕ) (r n : ℕ)
    → n ≢ 0
    → window buf r n ≡ get_or buf (r % pipe_size) 0 ∷ window buf (wrap (r + 1)) (n - 1)
window-suc buf r zero h = absurd (h refl)
window-suc buf r (suc n) h = ap (λ k. window buf r (suc k)) (omega arith)

-- The tests of the code say what the number of bytes in flight is.
pub is_full-eq : {p : Pipe} → IsValid p → is_full p ≡ (count p == pipe_size)
is_full-eq v = ground arith

pub is_empty-eq : {p : Pipe} → IsValid p → is_empty p ≡ (count p == 0)
is_empty-eq v = ground arith

-- `put` at a pipe that is not full.
pub put-IsValid : {p : Pipe} (c : ℕ) → IsValid p → is_full p ≡ false → IsValid (put p c)
put-IsValid {p} c v h = ground (arith, length-set p.buf (p.nwrite % pipe_size) c)

pub count-put : {p : Pipe} (c : ℕ) → IsValid p → is_full p ≡ false → count (put p c) ≡ count p + 1
count-put c v h = ground arith

pub contents-put :
    {p : Pipe} (c : ℕ) → IsValid p → is_full p ≡ false → contents (put p c) ≡ contents p ++ (c ∷ [])
contents-put {p} c v h =
    rw (count-put c v h, add-one (count p))
      (window-set p.buf c p.nread (count p) (p.nwrite % pipe_size) v.storage (ground arith)
        (ground arith))
