-- ===== src/FileSystem/Dinode.antt =====
-- iupdate and ilock of fs.c: the inode on the disk.
use ut_os.Base.{
  ℕ, zero, suc, ◌+◌, ◌*◌, ◌^◌, ◌≤◌, ◌<◌, ◌≡◌, ◌≢◌, ◌⊎◌, refl, inl, inr, sym, ap, subst, ◌∙◌, ◌==◌,
  ==→eq, ltb, leb, Bool-cases, true, false, ◌&&◌, if◌then◌else◌, some, arith,
}
use ut_os.Strings.{Memory, store_word}
use ut_os.Kalloc.{load_word}
use ut_os.Reentrant.{acquiresleep}
use ut_os.FileSystem.{Superblock, Blocks, n_direct}
use ut_os.FileSystem.Inode.{
  Inode, inode_block, dinode_at, load_half, store_half, store_addrs, write_dinode, read_dinode,
  iupdate, ilock,
}

load_word-store_word :
    (m : Memory) (a p q w : ℕ)
    → w < 2 ^ 32
    → load_word (store_word m (a + 4 * p) w) (a + 4 * q)
      ≡ (if p == q then w else load_word m (a + 4 * q))
load_word-store_word m a p q w h = ground arith

-- The bytes in memory of the words from `i` on, `n` of them.
store_addrs_lem :
    (m : Memory) (a : ℕ) (addrs : ℕ → ℕ) (i n j : ℕ)
    → ((j : ℕ) → addrs j < 2 ^ 32)
    → load_word (store_addrs m a addrs i n) (a + 4 * j)
      ≡ (if leb i j && ltb j (i + n) then addrs j else load_word m (a + 4 * j))
unfolding store_addrs
store_addrs_lem m a addrs i zero j h = ground arith
store_addrs_lem m a addrs i (suc n) j h =
    store_addrs_lem (store_word m (a + 4 * i) (addrs i)) a addrs (i + 1) n j h
    ∙ elim (Bool-cases (i == j)) [
      | inl here ↦
          (let e : addrs i ≡ addrs j = ap addrs (==→eq i j here) in
            ground (arith, here, e, h i, load_word-store_word m a i j (addrs i) (h i)))
      | inr other ↦ ground (arith, other, load_word-store_word m a i j (addrs i) (h i))
    ]

store_addrs-outside :
    (m : Memory) (a : ℕ) (addrs : ℕ → ℕ) (i n x : ℕ)
    → (x < a + 4 * i) ⊎ (a + 4 * (i + n) ≤ x)
    → store_addrs m a addrs i n x ≡ m x
unfolding store_addrs
store_addrs-outside m a addrs i zero x h = refl
store_addrs-outside m a addrs i (suc n) x h =
    ground (arith, h, store_addrs-outside (store_word m (a + 4 * i) (addrs i)) a addrs (i + 1) n x)

-- The fields of an inode fit in those on the disk.
pub record Fits (ip : Inode) : Type 0 where
  pub type : ip.type < 2 ^ 16
  pub major : ip.major < 2 ^ 16
  pub minor : ip.minor < 2 ^ 16
  pub nlink : ip.nlink < 2 ^ 16
  pub size : ip.size < 2 ^ 32
  pub addrs : (i : ℕ) → ip.addrs i < 2 ^ 32

-- The two inodes have the same fields on the disk.
pub record HasFields (r ip : Inode) : Type 0 where
  pub type : r.type ≡ ip.type
  pub major : r.major ≡ ip.major
  pub minor : r.minor ≡ ip.minor
  pub nlink : r.nlink ≡ ip.nlink
  pub size : r.size ≡ ip.size
  pub addrs : (i : ℕ) → i ≤ n_direct → r.addrs i ≡ ip.addrs i

-- The header of the inode, before `addrs`.
header : Inode → Memory → Memory
header ip m =
    let a = dinode_at ip.inum in
    store_word
      (store_half
        (store_half (store_half (store_half m a ip.type) (a + 2) ip.major) (a + 4) ip.minor) (a + 6)
        ip.nlink)
      (a + 8) ip.size

read-write_dinode :
    (ip c : Inode) (m : Memory)
    → Fits ip
    → c.inum ≡ ip.inum
    → HasFields (read_dinode c (write_dinode ip m)) ip
unfolding header
read-write_dinode ip c m f e =
    subst
      (λ a.
        HasFields
          (record c {
            type = load_half (write_dinode ip m) (dinode_at a);
            major = load_half (write_dinode ip m) (dinode_at a + 2);
            minor = load_half (write_dinode ip m) (dinode_at a + 4);
            nlink = load_half (write_dinode ip m) (dinode_at a + 6);
            size = load_word (write_dinode ip m) (dinode_at a + 8);
            addrs = λ i. load_word (write_dinode ip m) (dinode_at a + 12 + 4 * i);
            valid = true;
          })
          ip)
      (sym e)
      (record {
        type = ground (arith, f.type, low 0, low 1);
        major = ground (arith, f.major, low 2, low 3);
        minor = ground (arith, f.minor, low 4, low 5);
        nlink = ground (arith, f.nlink, low 6, low 7);
        size = ground (arith, f.size, low 8, low 9, low 10, low 11);
        addrs = λ i l.
            store_addrs_lem (header ip m) (dinode_at ip.inum + 12) ip.addrs 0 13 i f.addrs
            ∙ below i (ip.addrs i) (load_word (header ip m) (dinode_at ip.inum + 12 + 4 * i)) l;
      })
  where
    low :
        (x : ℕ)
        → x < 12
        → write_dinode ip m (dinode_at ip.inum + x) ≡ header ip m (dinode_at ip.inum + x)
    low x l =
        store_addrs-outside (header ip m) (dinode_at ip.inum + 12) ip.addrs 0 13
          (dinode_at ip.inum + x) (inl (omega arith))

    below : (i x y : ℕ) → i ≤ n_direct → (if leb 0 i && ltb i (0 + 13) then x else y) ≡ x
    below i x y l = ground arith

write_dinode-outside :
    (ip : Inode) (m : Memory) (x : ℕ)
    → (x < dinode_at ip.inum) ⊎ (dinode_at ip.inum + 64 ≤ x)
    → write_dinode ip m x ≡ m x
unfolding header
write_dinode-outside ip m x h =
    store_addrs-outside (header ip m) (dinode_at ip.inum + 12) ip.addrs 0 13 x (away x h)
    ∙ ground (arith, h)
  where
    away :
        (x : ℕ)
        → (x < dinode_at ip.inum) ⊎ (dinode_at ip.inum + 64 ≤ x)
        → (x < dinode_at ip.inum + 12 + 4 * 0) ⊎ (dinode_at ip.inum + 12 + 4 * (0 + 13) ≤ x)
    away x (inl l) = inl (omega arith)
    away x (inr l) = inr (omega arith)

module _ (sb : Superblock) where
  ilock-invalid :
      (me : ℕ) (c : Inode) (bs : Blocks)
      → c.valid ≡ false
      → c.ref ≢ 0
      → c.lock.locked ≡ false
      → load_half (bs (inode_block sb c.inum)) (dinode_at c.inum) ≢ 0
      → ilock sb me c bs
        ≡ some (
            read_dinode
              (record c { lock = record { locked = true; pid = me } })
              (bs (inode_block sb c.inum)))
  unfolding ilock acquiresleep
  ilock-invalid me c bs v ref unlocked ty = ground (arith, v, ref, unlocked, ty)

  -- After iupdate of an inode whose fields fit and whose type is not 0, ilock of a free cache entry
  -- with its number and references that is not valid yet succeeds, makes it valid, and gives it the
  -- type, the device numbers, the links, the size and the 13 addresses of the inode.
  pub ilock-iupdate :
      (me : ℕ) (ip c : Inode) (blocks : Blocks)
      → Fits ip
      → ip.type ≢ 0
      → c.inum ≡ ip.inum
      → c.valid ≡ false
      → c.ref ≢ 0
      → c.lock.locked ≡ false
      → (r : Inode) × ((ilock sb me c (iupdate sb ip blocks) ≡ some r)
          × (HasFields r ip × ((r.valid ≡ true) × ((r.inum ≡ c.inum) × (r.ref ≡ c.ref)))))
  unfolding ilock iupdate acquiresleep
  ilock-iupdate me ip c blocks f ty e v ref unlocked =
      let held = record c { lock = record { locked = true; pid = me } } in
      let m = iupdate sb ip blocks (inode_block sb c.inum) in
      let r = read_dinode held m in
      let block : m ≡ write_dinode ip (blocks (inode_block sb ip.inum)) = here c.inum e in
      let h : HasFields r ip =
        subst (λ m. HasFields (read_dinode held m) ip) (sym block)
          (read-write_dinode ip held (blocks (inode_block sb ip.inum)) f e) in
      (
        r,
        (
          ilock-invalid me c (iupdate sb ip blocks) v ref unlocked (λ z. ty (sym h.type ∙ z)),
          (h, (refl, (refl, refl))),
        ),
      )
    where
      here :
          (n : ℕ)
          → n ≡ ip.inum
          → iupdate sb ip blocks (inode_block sb n)
            ≡ write_dinode ip (blocks (inode_block sb ip.inum))
      here n e =
          subst
            (λ n.
              iupdate sb ip blocks (inode_block sb n)
              ≡ write_dinode ip (blocks (inode_block sb ip.inum)))
            (sym e) (ground arith)

  -- iupdate changes no byte of any other inode on the disk.
  pub iupdate-other :
      (ip : Inode) (blocks : Blocks) (j x : ℕ)
      → j ≢ ip.inum
      → x < 64
      → iupdate sb ip blocks (inode_block sb j) (dinode_at j + x)
        ≡ blocks (inode_block sb j) (dinode_at j + x)
  unfolding iupdate
  iupdate-other ip blocks j x ne l =
      elim (Bool-cases (inode_block sb ip.inum == inode_block sb j)) [
        | inl same ↦
            (let e = ==→eq (inode_block sb ip.inum) (inode_block sb j) same in
              ground (
                arith,
                same,
                ap (λ b. blocks b (dinode_at j + x)) e,
                write_dinode-outside ip (blocks (inode_block sb ip.inum)) (dinode_at j + x)
                    (apart e),
              ))
        | inr other ↦ ground (arith, other)
      ]
    where
      apart :
          inode_block sb ip.inum ≡ inode_block sb j
          → (dinode_at j + x < dinode_at ip.inum) ⊎ (dinode_at ip.inum + 64 ≤ dinode_at j + x)
      apart e = ground (arith, e, ne)
