-- ===== src/BufferCache/Tests.antt =====
-- The buffer cache at work: the bytes of a block are a number.
use ut_os.Base.{
  ℕ, ◌+◌, ◌≡◌, ◌⊎◌, refl, ◌==◌, true, false, if◌then◌else◌, none, some, [], ◌∷◌, In, arith,
}
use ut_os.Reentrant.{holdingsleep}
use ut_os.BufferCache.{Bcache, head, is_cached, is_unused, bget, brelse}
use ut_os.BufferCache.Ring.{IsRing}
use ut_os.BufferCache.Release.{Released, brelse_lem}
use ut_os.BufferCache.Lookup.{get_spec, bget-get_spec}
use ut_os.BufferCache.Blocks.{IsUnique, Got, bget_lem}

-- Buffer 2 is held by process 7 with a reference, buffer 1 is unused; both are of device 1.
abbrev two : Bcache ℕ
two = record {
  buf = λ i. record {
    valid = true;
    dirty = false;
    dev = 1;
    blockno = i + 40;
    lock = record { locked = i == 2; pid = 7 };
    refcnt = if i == 2 then 1 else 0;
    bytes = i;
  };
  next = λ i. if i == head then 1 else if i == 1 then 2 else head;
  prev = λ i. if i == head then 2 else if i == 2 then 1 else head;
}

two-IsRing : IsRing ℕ two (1 ∷ (2 ∷ []))
two-IsRing = record {
  links = (refl, refl, (refl, refl, (refl, refl)));
  distinct = (
    ((λ e. absurd (omega arith)), ((λ e. absurd (omega arith)), tt)),
    (((λ e. absurd (omega arith)), tt), (tt, tt)),
  );
}

two-IsUnique : IsUnique ℕ two (1 ∷ (2 ∷ []))
two-IsUnique i j a b n d e = omega arith

brelse_lem_example :
    (c' : Bcache ℕ) × (brelse ℕ 7 2 two ≡ some c')
    × Released ℕ two 2 c'
    × IsRing ℕ c' (2 ∷ (1 ∷ []))
unfolding holdingsleep
brelse_lem_example = brelse_lem ℕ 7 two (1 ∷ []) 2 [] two-IsRing refl (omega arith) (omega arith)

bget-get_spec_example : bget ℕ 1 99 two ≡ get_spec ℕ 1 99 (1 ∷ (2 ∷ [])) two
bget-get_spec_example = bget-get_spec ℕ 1 99 two (1 ∷ (2 ∷ [])) two-IsRing (omega arith)

bget_lem_example :
    ((i : ℕ) × (c' : Bcache ℕ) × (bget ℕ 1 41 two ≡ some (i, c'))
      × Got ℕ 1 41 (1 ∷ (2 ∷ [])) two i c')
    ⊎ ((bget ℕ 1 41 two ≡ none)
        × ((i : ℕ)
            → In i (1 ∷ (2 ∷ []))
            → (is_cached ℕ 1 41 (two.buf i) ≡ false) × (is_unused ℕ (two.buf i) ≡ false)))
bget_lem_example = bget_lem ℕ 1 41 two (1 ∷ (2 ∷ [])) two-IsRing (omega arith) two-IsUnique
