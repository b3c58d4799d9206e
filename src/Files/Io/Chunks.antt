-- ===== src/Files/Io/Chunks.antt =====
-- filewrite of file.c: the transactions together write what was asked for.
use ut_os.Base.{
  ℕ, ◌+◌, ◌-◌, ◌*◌, ◌/◌, ◌^◌, ◌≤◌, ◌<◌, ◌≡◌, ◌≢◌, refl, ap, subst, ◌∙◌, ltb, leb, Bool, true, false,
  ◌&&◌, if◌then◌else◌, Option, some, List, [], ◌∷◌, lt_int, arith,
}
use ut_os.Strings.{Memory}
use ut_os.Strings.Compare.{IsBytes}
use ut_os.Reentrant.{acquiresleep, releasesleep, holdingsleep}
use ut_os.FileSystem.{Superblock, Blocks, block_size, max_file}
use ut_os.FileSystem.Inode.{Inode, ilock, iunlock}
use ut_os.FileSystem.Content.{t_dev, writei}
use ut_os.FileSystem.Owned.{byte_at, Owns}
use ut_os.FileSystem.Kept.{count_free}
use ut_os.FileSystem.Round.{touched, written, written-rest}
use ut_os.FileSystem.Writei.{writei_lem}
use ut_os.Files.{File}
use ut_os.Files.Io.{transaction}

pub lt_int-small : (a b : ℕ) → a < 2 ^ 31 → b < 2 ^ 31 → lt_int a b ≡ ltb a b
lt_int-small a b h k = ground arith

-- No transaction has more than 1536 bytes.
abbrev pub AreSmall : List ℕ → Type 0
AreSmall [] = Unit {0}
AreSmall (x ∷ xs) = (x ≤ 1536) × AreSmall xs

-- The inode is in memory and nobody has its lock.
pub record IsReady (ip : Inode) : Type 0 where
  pub valid : ip.valid ≡ true
  pub referenced : ip.ref ≢ 0
  pub unlocked : ip.lock.locked ≡ false
  pub no_device : ip.type ≢ t_dev

module _ (sb : Superblock) (me : ℕ) (has : ℕ → Bool)
    (dev_write : ℕ → Inode → ℕ → ℕ → Memory → ℕ) where
  -- What a write of `n` bytes at the offset of the file leaves.
  pub record Moved (f : File) (ip : Inode) (blocks : Blocks) (mem : Memory) (src n : ℕ) (f' : File)
      (ip' : Inode) (blocks' : Blocks) : Type 0 where
    pub offset : f' ≡ record f { off = f.off + n }
    pub ready : IsReady ip'
    pub inum : ip'.inum ≡ ip.inum
    pub size : ip'.size ≡ (if ltb ip.size (f.off + n) then f.off + n else ip.size)
    pub owns : Owns sb ip.inum blocks' ip'.addrs
    pub content :
        (i : ℕ)
        → i < max_file * block_size
        → byte_at blocks' ip'.addrs i ≡ written (byte_at blocks ip.addrs) f.off mem src n i

  run :
      (f : File) (ip : Inode) (blocks : Blocks) (mem : Memory) (src n : ℕ) (addrs : ℕ → ℕ)
      (size : ℕ) (b1 : Blocks)
      → IsReady ip
      → 0 < n
      → f.off + n ≤ max_file * block_size
      → writei sb has dev_write
          (record ip { lock = record { locked = true; pid = me } })
          blocks
          mem
          src
          f.off
          n
        ≡ some (
          n,
          (record ip { addrs = addrs; size = size; lock = record { locked = true; pid = me } }, b1),
        )
      → transaction sb me has dev_write f ip blocks mem src n
        ≡ some (
          n,
          (
            record f { off = f.off + n },
            (
              record ip { addrs = addrs; size = size; lock = record { locked = false; pid = 0 } },
              b1,
            ),
          ),
        )
  unfolding transaction ilock iunlock acquiresleep releasesleep holdingsleep
  run f ip blocks mem src n addrs size b1 rd pos max e =
      ground (arith, e, rd.valid, rd.referenced, rd.unlocked)

  pub transaction_lem :
      (f : File) (ip : Inode) (blocks : Blocks) (mem : Memory) (src n : ℕ)
      → IsReady ip
      → f.off ≤ ip.size
      → f.off + n ≤ max_file * block_size
      → 0 < n
      → IsBytes mem
      → Owns sb ip.inum blocks ip.addrs
      → 2 * touched f.off n ≤ count_free sb blocks
      → (f' : File) × ((ip' : Inode) × ((blocks' : Blocks) × ((transaction sb me has dev_write f ip
                  blocks mem src n
                ≡ some (n, (f', (ip', blocks'))))
              × (Moved f ip blocks mem src n f' ip' blocks'
                  × (count_free sb blocks ≤ count_free sb blocks' + 2 * touched f.off n)))))
  transaction_lem f ip blocks mem src n rd le max pos b o free =
      let held = record ip { lock = record { locked = true; pid = me } } in
      let (ip1, (b1, (e, w))) =
        writei_lem sb has dev_write held blocks mem src f.off n rd.no_device le max b o free in
      let size = if ltb ip.size (f.off + n) then f.off + n else ip.size in
      let end = record ip {
        addrs = ip1.addrs;
        size = size;
        lock = record { locked = false; pid = 0 };
      } in
      (
        record f { off = f.off + n },
        (
          end,
          (
            b1,
            (
              run f ip blocks mem src n ip1.addrs size b1 rd pos max (
                  e
                  ∙ ap {A = Inode} {B = Option (ℕ × (Inode × Blocks))} (λ x. some (n, (x, b1)))
                      w.inode),
              (
                record {
                  offset = refl;
                  ready = record {
                    valid = rd.valid;
                    referenced = rd.referenced;
                    unlocked = refl;
                    no_device = rd.no_device;
                  };
                  inum = refl;
                  size = refl;
                  owns = w.owns;
                  content = w.content;
                },
                w.free,
              ),
            ),
          ),
        ),
      )

  -- A transaction, and then the rest.
  pub Moved-trans :
      (f f1 f2 : File) (ip ip1 ip2 : Inode) (b b1 b2 : Blocks) (mem : Memory) (src n m : ℕ)
      → m ≤ n
      → Moved f ip b mem src m f1 ip1 b1
      → Moved f1 ip1 b1 mem (src + m) (n - m) f2 ip2 b2
      → Moved f ip b mem src n f2 ip2 b2
  Moved-trans f f1 f2 ip ip1 ip2 b b1 b2 mem src n m l s t = record {
    offset =
        t.offset
        ∙ (ap {A = File} {B = File} (λ x. record x { off = x.off + (n - m) }) s.offset
            ∙ ap {A = ℕ} {B = File} (λ o. record f { off = o }) (omega arith));
    ready = t.ready;
    inum = t.inum ∙ s.inum;
    size = t.size ∙ sizes ip.size ip1.size f.off f1.off s.size off1;
    owns = subst (λ j. Owns sb j b2 ip2.addrs) s.inum t.owns;
    content = λ i li.
        t.content i li
        ∙ (ap (λ o. written (byte_at b1 ip1.addrs) o mem (src + m) (n - m) i) off1
            ∙ (ap
                  (λ x.
                    if leb (f.off + m) i && ltb i (f.off + m + (n - m))
                    then mem (src + m + (i - (f.off + m)))
                    else x)
                  (s.content i li)
                ∙ written-rest sb ip.inum (byte_at b ip.addrs) mem src f.off n m i l));
  }
    where
      off1 : f1.off ≡ f.off + m
      off1 = ap (λ (x : File). x.off) s.offset

      sizes :
          (s0 s1 o0 o1 : ℕ)
          → s1 ≡ (if ltb s0 (o0 + m) then o0 + m else s0)
          → o1 ≡ o0 + m
          → (if ltb s1 (o1 + (n - m)) then o1 + (n - m) else s1)
            ≡ (if ltb s0 (o0 + n) then o0 + n else s0)
      sizes s0 s1 o0 o1 e q = ground (arith, e, q, l)

  -- The blocks to have free for `n` bytes at `off`: two for each block a transaction touches.
  abbrev pub needed : ℕ → ℕ → ℕ
  needed off n = 2 * (touched off n + n / 1536)

  pub needed-rest :
      (off n m : ℕ)
      → m ≡ (if ltb 1536 n then 1536 else n)
      → 2 * touched off m + needed (off + m) (n - m) ≤ needed off n
  needed-rest off n m e = ground (arith, e)
