-- ===== src/Files/Io/Filewrite.antt =====
-- filewrite of file.c as a whole.
use ut_os.Base.{
  ℕ, zero, suc, ◌+◌, ◌-◌, ◌*◌, ◌^◌, ◌≤◌, ◌<◌, ◌≡◌, refl, inl, inr, sym, ap, subst, ◌∙◌, ◌==◌, ==→eq,
  ltb, Bool, Bool-cases, true, false, if◌then◌else◌, some, List, [], ◌∷◌, lt_int, arith,
}
use ut_os.Strings.{Memory}
use ut_os.Strings.Compare.{IsBytes}
use ut_os.FileSystem.{Superblock, Blocks, block_size, max_file}
use ut_os.FileSystem.Inode.{Inode}
use ut_os.FileSystem.Owned.{Owns}
use ut_os.FileSystem.Kept.{count_free}
use ut_os.Files.{fd_inode, File}
use ut_os.Files.Io.{returns, max_write, transaction, write_chunks, filewrite}
use ut_os.Files.Io.Chunks.{
  lt_int-small, AreSmall, IsReady, Moved, transaction_lem, Moved-trans, needed, needed-rest,
}

module _ (sb : Superblock) (me : ℕ) (has : ℕ → Bool)
    (dev_write : ℕ → Inode → ℕ → ℕ → Memory → ℕ) where
  step :
      (fuel : ℕ) (f : File) (ip : Inode) (blocks : Blocks) (mem : Memory) (addr n i : ℕ)
      (done : List ℕ) (m : ℕ)
      → i < n
      → n ≤ max_file * block_size
      → m ≡ (if ltb 1536 (n - i) then 1536 else n - i)
      → (f' : File) (ip' : Inode) (blocks' : Blocks)
      → transaction sb me has dev_write f ip blocks mem (addr + i) m
        ≡ some (m, (f', (ip', blocks')))
      → write_chunks sb me has dev_write (suc fuel) f ip blocks mem addr n i done
        ≡ write_chunks sb me has dev_write fuel f' ip' blocks' mem addr n (i + m) (m ∷ done)
  unfolding write_chunks
  step fuel f ip blocks mem addr n i done m lt max e f' ip' blocks' t =
      let going : lt_int i n ≡ true =
        lt_int-small i n (omega arith) (omega arith) ∙ ground (arith, lt) in
      let chunk : (if lt_int max_write (n - i) then max_write else n - i) ≡ m =
        ap (λ c. if c then 1536 else n - i) (lt_int-small 1536 (n - i) (omega arith) (omega arith))
        ∙ sym e in
      let low : m < 2 ^ 31 = ground (arith, e, max) in
      let kept : lt_int m 0 ≡ false = lt_int-small m 0 low (omega arith) ∙ ground arith in
      ground (arith, going, chunk, kept, t)

  stop :
      (fuel : ℕ) (f : File) (ip : Inode) (blocks : Blocks) (mem : Memory) (addr n i : ℕ)
      (done : List ℕ)
      → i ≡ n
      → n ≤ max_file * block_size
      → write_chunks sb me has dev_write (suc fuel) f ip blocks mem addr n i done
        ≡ some (n, (done, (f, (ip, blocks))))
  unfolding write_chunks
  stop fuel f ip blocks mem addr n i done e max =
      subst
        (λ i.
          write_chunks sb me has dev_write (suc fuel) f ip blocks mem addr n i done
          ≡ some (n, (done, (f, (ip, blocks)))))
        (sym e) (ground (arith, lt_int-small n n (omega arith) (omega arith)))

  Moved-none :
      (f : File) (ip : Inode) (blocks : Blocks) (mem : Memory) (src k : ℕ)
      → k ≡ 0
      → IsReady ip
      → f.off ≤ ip.size
      → Owns sb ip.inum blocks ip.addrs
      → Moved sb me has dev_write f ip blocks mem src k f ip blocks
  Moved-none f ip blocks mem src k e rd le o = record {
    offset = ap {A = ℕ} {B = File} (λ x. record f { off = x }) (omega (arith, e));
    ready = rd;
    inum = refl;
    size = ground (arith, e, le);
    owns = o;
    content = λ i l. ground (arith, e);
  }

  offset_below :
      (s0 s1 o0 o1 m : ℕ)
      → s1 ≡ (if ltb s0 (o0 + m) then o0 + m else s0)
      → o1 ≡ o0 + m
      → o0 ≤ s0
      → o1 ≤ s1
  offset_below s0 s1 o0 o1 m e q l = ground (arith, e, q)

  write_chunks_lem :
      (fuel : ℕ) (f : File) (ip : Inode) (blocks : Blocks) (mem : Memory) (addr n i : ℕ)
      (done : List ℕ)
      → i ≤ n
      → n < i + fuel
      → n ≤ max_file * block_size
      → IsReady ip
      → f.off ≤ ip.size
      → f.off + (n - i) ≤ max_file * block_size
      → IsBytes mem
      → Owns sb ip.inum blocks ip.addrs
      → needed sb me has dev_write f.off (n - i) ≤ count_free sb blocks
      → AreSmall done
      → (done' : List ℕ) × ((f' : File) × ((ip' : Inode) × ((blocks' : Blocks) × ((write_chunks sb
                    me has dev_write fuel f ip blocks mem addr n i done
                  ≡ some (n, (done', (f', (ip', blocks')))))
                × (AreSmall done'
                    × Moved sb me has dev_write f ip blocks mem
                        (addr + i)
                        (n - i)
                        f'
                        ip'
                        blocks')))))
  unfolding write_chunks
  write_chunks_lem zero f ip blocks mem addr n i done le lt nmax rd off max b o free small =
      absurd (omega arith)
  write_chunks_lem (suc fuel) f ip blocks mem addr n i done le lt nmax rd off max b o free small =
      elim (Bool-cases (i == n)) [
        | inl end ↦ (
          done,
          (
            f,
            (
              ip,
              (
                blocks,
                (
                  stop fuel f ip blocks mem addr n i done (==→eq i n end) nmax,
                  (small, Moved-none f ip blocks mem (addr + i) (n - i) (ground arith) rd off o),
                ),
              ),
            ),
          ),
        )
        | inr more ↦
            (let m = if ltb 1536 (n - i) then 1536 else n - i in
              let below : i < n = ground arith in
              let pos : 0 < m = ground arith in
              let few : m ≤ 1536 = ground arith in
              let part : m ≤ n - i = ground arith in
              let rest = needed-rest sb me has dev_write f.off (n - i) m refl in
              let (f1, (ip1, (b1, (e, (mv, fr))))) =
                transaction_lem sb me has dev_write f ip blocks mem (addr + i) m rd off
                  (omega arith) pos b o (omega (arith, rest, free)) in
              let off1 : f1.off ≡ f.off + m = ap (λ (x : File). x.off) mv.offset in
              let left : n - (i + m) ≡ n - i - m = omega arith in
              let (d2, (f2, (ip2, (b2, (e2, (s2, mv2)))))) =
                write_chunks_lem fuel f1 ip1 b1 mem addr n (i + m) (m ∷ done) (omega arith)
                  (omega arith) nmax mv.ready
                  (offset_below ip.size ip1.size f.off f1.off m mv.size off1 off)
                  (omega (arith, off1, max, left)) b
                  (subst (λ j. Owns sb j b1 ip1.addrs) (sym mv.inum) mv.owns)
                  (subst (λ x. needed sb me has dev_write x (n - (i + m)) ≤ count_free sb b1)
                    (sym off1)
                    (subst (λ x. needed sb me has dev_write (f.off + m) x ≤ count_free sb b1)
                      (sym left) (omega (arith, rest, free, fr))))
                  (few, small) in
              (
                d2,
                (
                  f2,
                  (
                    ip2,
                    (
                      b2,
                      (
                        step fuel f ip blocks mem addr n i done m below nmax refl f1 ip1 b1 e ∙ e2,
                        (
                          s2,
                          Moved-trans sb me has dev_write f f1 f2 ip ip1 ip2 blocks b1 b2 mem
                              (addr + i) (n - i) m part mv
                              (subst
                                (λ x.
                                  Moved sb me has dev_write f1 ip1 b1 mem x (n - i - m) f2 ip2 b2)
                                (omega arith)
                                (subst
                                  (λ x.
                                    Moved sb me has dev_write f1 ip1 b1 mem (addr + (i + m)) x f2
                                      ip2 b2)
                                  left mv2)),
                        ),
                      ),
                    ),
                  ),
                ),
              ))
      ]

  whole :
      (f : File) (ip : Inode) (blocks : Blocks) (mem : Memory) (addr n : ℕ)
      (r : List ℕ × (File × (Inode × Blocks)))
      → f.writable ≡ true
      → f.type ≡ fd_inode
      → write_chunks sb me has dev_write (suc n) f ip blocks mem addr n 0 [] ≡ some (n, r)
      → filewrite sb me has dev_write f ip blocks mem addr n ≡ returns n r
  unfolding filewrite
  whole f ip blocks mem addr n r w ty e = ground (arith, w, ty, e)

  -- filewrite to a writable file of an inode that is in memory, unlocked, no device and the owner of
  -- its blocks, of `n` bytes at the file's offset, which is at most the size, within the maximal size,
  -- with two free blocks for each block touched and for each 1536 bytes, returns `n`, in transactions
  -- of at most 1536 bytes. The offset moves by `n`, the content is what it was with the `n` bytes in
  -- their place, the size grows to their end, and the inode is unlocked.
  pub filewrite_lem :
      (f : File) (ip : Inode) (blocks : Blocks) (mem : Memory) (addr n : ℕ)
      → f.writable ≡ true
      → f.type ≡ fd_inode
      → IsReady ip
      → f.off ≤ ip.size
      → f.off + n ≤ max_file * block_size
      → IsBytes mem
      → Owns sb ip.inum blocks ip.addrs
      → needed sb me has dev_write f.off n ≤ count_free sb blocks
      → (done : List ℕ) × ((f' : File) × ((ip' : Inode) × ((blocks' : Blocks) × ((filewrite sb me
                    has dev_write f ip blocks mem addr n
                  ≡ returns n (done, (f', (ip', blocks'))))
                × (AreSmall done
                    × Moved sb me has dev_write f ip blocks mem addr n f' ip' blocks')))))
  filewrite_lem f ip blocks mem addr n w ty rd off max b o free =
      let all : n ≡ n - 0 = omega arith in
      let (done, (f', (ip', (b', (e, (s, m)))))) =
        write_chunks_lem (suc n) f ip blocks mem addr n 0 [] (omega arith) (omega arith)
          (omega (arith, max)) rd off (omega (arith, max)) b o
          (subst (λ k. needed sb me has dev_write f.off k ≤ count_free sb blocks) all free) tt in
      (
        done,
        (
          f',
          (
            ip',
            (
              b',
              (
                whole f ip blocks mem addr n (done, (f', (ip', b'))) w ty e,
                (
                  s,
                  subst (λ k. Moved sb me has dev_write f ip blocks mem addr k f' ip' b') (sym all)
                      (subst (λ a. Moved sb me has dev_write f ip blocks mem a (n - 0) f' ip' b')
                        (omega arith) m),
                ),
              ),
            ),
          ),
        ),
      )
