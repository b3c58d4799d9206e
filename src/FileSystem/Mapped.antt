-- ===== src/FileSystem/Mapped.antt =====
-- bmap of fs.c: with enough free blocks it returns the block of any place of a file, and the content
-- stays.
use ut_os.Base.{
  ℕ, ◌+◌, ◌-◌, ◌*◌, ◌≤◌, ◌<◌, ◌≡◌, ◌≢◌, refl, inl, inr, sym, subst, ◌∙◌, ◌==◌, ==→eq, ltb,
  Bool-cases, false, if◌then◌else◌, some, update, arith,
}
use ut_os.Strings.{store_word}
use ut_os.Kalloc.{load_word}
use ut_os.FileSystem.{Superblock, Blocks, n_direct, max_file}
use ut_os.FileSystem.Inode.{Inode}
use ut_os.FileSystem.Content.{direct_entry, indirect_entry, bmap}
use ut_os.FileSystem.Owned.{entry, place, Owns}
use ut_os.FileSystem.Map.{not_zero, direct-Grown, indirect-Grown}
use ut_os.FileSystem.Kept.{count_free, Kept, Kept-refl, Kept-trans, Grown-Kept, balloc-free}

module _ (sb : Superblock) (inum : ℕ) where
  direct_entry_lem :
      (ip : Inode) (p : ℕ) (blocks : Blocks)
      → p ≤ n_direct
      → Owns sb inum blocks ip.addrs
      → 0 < count_free sb blocks
      → (a : ℕ) × ((addrs' : ℕ → ℕ) × ((blocks' : Blocks) × ((direct_entry sb ip p blocks
                ≡ some (a, (record ip { addrs = addrs' }, blocks')))
              × (Kept sb inum 1 blocks ip.addrs blocks' addrs' × ((addrs' p ≡ a) × (a ≢ 0))))))
  unfolding direct_entry
  direct_entry_lem ip p blocks l o f = elim (Bool-cases (ip.addrs p == 0)) [
    | inr there ↦ (
      ip.addrs p,
      (
        ip.addrs,
        (
          blocks,
          (
            ground arith,
            (Kept-refl sb inum 1 blocks ip.addrs o, (refl, λ z. absurd (ground arith))),
          ),
        ),
      ),
    )
    | inl missing ↦
        (let (k, (b, (e, a))) = balloc-free sb inum blocks o.bytes o.map_used f in
          let none_yet : ip.addrs p ≡ 0 = ==→eq (ip.addrs p) 0 missing in
          let g = direct-Grown sb inum blocks ip.addrs o k b a p l none_yet in
          let nz = not_zero sb inum blocks ip.addrs o k b a in
          (
            k,
            (
              update ip.addrs p k,
              (
                b,
                (
                  ground (arith, e),
                  (
                    Grown-Kept sb inum blocks ip.addrs p k b (update ip.addrs p k) o g
                        (ground arith) nz a.first.below a.first.free,
                    (ground arith, nz),
                  ),
                ),
              ),
            ),
          ))
  ]

  indirect_entry_lem :
      (addrs : ℕ → ℕ) (p : ℕ) (blocks : Blocks)
      → n_direct < p
      → p ≤ max_file
      → addrs n_direct ≢ 0
      → Owns sb inum blocks addrs
      → 0 < count_free sb blocks
      → (a : ℕ) × ((blocks' : Blocks) × ((indirect_entry sb (addrs n_direct) (p - 13) blocks
              ≡ some (a, blocks'))
            × (Kept sb inum 1 blocks addrs blocks' addrs
                × ((entry blocks' addrs p ≡ a) × (a ≢ 0)))))
  unfolding indirect_entry
  indirect_entry_lem addrs p blocks l u there o f =
      elim (Bool-cases (load_word (blocks (addrs n_direct)) (4 * (p - 13)) == 0)) [
        | inr old ↦ (
          load_word (blocks (addrs n_direct)) (4 * (p - 13)),
          (
            blocks,
            (
              ground arith,
              (
                Kept-refl sb inum 1 blocks addrs o,
                (ground (arith, l, there), λ z. absurd (ground arith)),
              ),
            ),
          ),
        )
        | inl missing ↦
            (let (k, (b, (e, a))) = balloc-free sb inum blocks o.bytes o.map_used f in
              let b' =
                update b (addrs n_direct) (store_word (b (addrs n_direct)) (4 * (p - 13)) k) in
              let none_yet : entry blocks addrs p ≡ 0 = ground (arith, l, there) in
              let g = indirect-Grown sb inum blocks addrs o k b a p l u there none_yet in
              let nz = not_zero sb inum blocks addrs o k b a in
              (
                k,
                (
                  b',
                  (
                    ground (arith, e),
                    (
                      Grown-Kept sb inum blocks addrs p k b' addrs o g none_yet nz a.first.below
                          a.first.free,
                      (g.entries p u ∙ same p k (entry blocks addrs p), nz),
                    ),
                  ),
                ),
              ))
      ]
    where
      same : (p k x : ℕ) → (if p == p then k else x) ≡ k
      same p k x = ground arith

  -- What bmap of block `bn` returns and leaves.
  pub record Mapped (ip : Inode) (bn : ℕ) (blocks : Blocks) (a : ℕ) (ip' : Inode) (blocks' : Blocks)
      : Type 0 where
    pub kept : Kept sb inum 2 blocks ip.addrs blocks' ip'.addrs
    pub address : entry blocks' ip'.addrs (place bn) ≡ a
    pub nonzero : a ≢ 0
    pub inode : ip' ≡ record ip { addrs = ip'.addrs }

  bmap-indirect :
      (ip : Inode) (bn : ℕ) (blocks : Blocks) (t : ℕ) (ip' : Inode) (b : Blocks) (a : ℕ)
      (b' : Blocks)
      → ltb bn n_direct ≡ false
      → bn < max_file
      → direct_entry sb ip n_direct blocks ≡ some (t, (ip', b))
      → indirect_entry sb t (bn - n_direct) b ≡ some (a, b')
      → bmap sb ip bn blocks ≡ some (a, (ip', b'))
  unfolding bmap
  bmap-indirect ip bn blocks t ip' b a b' h l d i = ground (arith, d, i)

  -- For a file that owns its blocks, and with two free blocks on the disk, bmap of a block number
  -- below 140 returns the nonzero block that the entry of the file then has. The file owns its blocks
  -- still, every byte of its content reads as before, no entry that was there changes, and nothing
  -- else of the inode.
  pub bmap_lem :
      (ip : Inode) (bn : ℕ) (blocks : Blocks)
      → bn < max_file
      → Owns sb inum blocks ip.addrs
      → 2 ≤ count_free sb blocks
      → (a : ℕ) × ((ip' : Inode) × ((blocks' : Blocks) × ((bmap sb ip bn blocks
                ≡ some (a, (ip', blocks')))
              × Mapped ip bn blocks a ip' blocks')))
  unfolding bmap
  bmap_lem ip bn blocks l o f = elim (Bool-cases (ltb bn n_direct)) [
    | inl low ↦
        (let (a, (addrs', (b, (e, (k, (at, nz)))))) =
            direct_entry_lem ip bn blocks (ground arith) o (omega (arith, f)) in
          (
            a,
            (
              record ip { addrs = addrs' },
              (
                b,
                (
                  ground (arith, e),
                  record {
                    kept =
                        Kept-trans sb inum 1 1 blocks ip.addrs b addrs' b addrs' k
                          (Kept-refl sb inum 1 b addrs' k.owns);
                    address = ground (arith, at);
                    nonzero = nz;
                    inode = refl;
                  },
                ),
              ),
            ),
          ))
    | inr high ↦
        (let (t, (addrs', (b, (e, (k, (at, nz)))))) =
            direct_entry_lem ip n_direct blocks (omega arith) o (omega (arith, f)) in
          let there : addrs' n_direct ≢ 0 = λ z. nz (sym at ∙ z) in
          let (a, (b', (e', (k', (at', nz'))))) =
            indirect_entry_lem addrs' (bn + 1) b (ground arith) (omega (arith, l)) there k.owns
              (omega (arith, f, k.free)) in
          (
            a,
            (
              record ip { addrs = addrs' },
              (
                b',
                (
                  bmap-indirect ip bn blocks t (record ip { addrs = addrs' }) b a b' high l e
                      (subst (λ x. indirect_entry sb x (bn - n_direct) b ≡ some (a, b')) at
                        (subst (λ q. indirect_entry sb (addrs' n_direct) q b ≡ some (a, b'))
                          (omega arith) e')),
                  record {
                    kept = Kept-trans sb inum 1 1 blocks ip.addrs b addrs' b' addrs' k k';
                    address = subst (λ q. entry b' addrs' q ≡ a) (after bn high) at';
                    nonzero = nz';
                    inode = refl;
                  },
                ),
              ),
            ),
          ))
  ]
    where
      after : (bn : ℕ) → ltb bn n_direct ≡ false → bn + 1 ≡ place bn
      after bn h = ground arith
