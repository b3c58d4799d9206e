-- ===== src/FileSystem/Elements.antt =====
-- skipelem of fs.c: it takes the next element of a path.
use ut_os.Base.{
  ℕ, zero, suc, ◌+◌, ◌-◌, ◌≤◌, ◌<◌, ◌≡◌, ◌≢◌, ◌⊎◌, inl, inr, sym, ap, subst, ◌∙◌, ◌==◌, ==→eq, ltb,
  leb, Bool-cases, ◌&&◌, not, if◌then◌else◌, some, arith,
}
use ut_os.Strings.{Memory}
use ut_os.Strings.Move.{memmove_lem}
use ut_os.FileSystem.Names.{dir_size, slash, skip_slashes, element_end, copy_name, skipelem}

-- From `p` to `s` there are slashes only, and none at `s`.
pub record AreSlashes (m : Memory) (p s : ℕ) : Type 0 where
  pub from : p ≤ s
  pub slashes : (x : ℕ) → p ≤ x → x < s → m x ≡ slash
  pub end : m s ≢ slash

-- From `s` to `e` there is neither a slash nor a NUL, and one of the two at `e`.
pub record IsElement (m : Memory) (s e : ℕ) : Type 0 where
  pub from : s ≤ e
  pub inner : (x : ℕ) → s ≤ x → x < e → (m x ≢ slash) × (m x ≢ 0)
  pub end : (m e ≡ slash) ⊎ (m e ≡ 0)

skip_slashes_lem :
    (fuel : ℕ) (m : Memory) (p z : ℕ)
    → p ≤ z
    → z < p + fuel
    → m z ≡ 0
    → (s : ℕ) × ((skip_slashes fuel m p ≡ some s) × ((s ≤ z) × AreSlashes m p s))
unfolding skip_slashes
skip_slashes_lem zero m p z le lt e = absurd (omega arith)
skip_slashes_lem (suc fuel) m p z le lt e = elim (Bool-cases (m p == slash)) [
  | inr other ↦ (
    p,
    (
      ground (arith, other),
      (
        le,
        record { from = omega arith; slashes = λ x l u. absurd (omega arith); end = ground arith },
      ),
    ),
  )
  | inl here ↦
      (let h : m p ≡ slash = ==→eq (m p) slash here in
        let more : p ≢ z = λ q. absurd (omega (arith, h, e, ap m q)) in
        let (s, (r, (u, a))) =
          skip_slashes_lem fuel m (p + 1) z (omega (arith, le, more)) (omega arith) e in
        (
          s,
          (
            ground (arith, here, r),
            (
              u,
              record {
                from = omega (arith, a.from);
                slashes = λ x l lt. elim (Bool-cases (p == x)) [
                  | inl q ↦ subst (λ y. m y ≡ slash) (==→eq p x q) h
                  | inr n ↦ a.slashes x (ground arith) lt
                ];
                end = a.end;
              },
            ),
          ),
        ))
]

element_end_lem :
    (fuel : ℕ) (m : Memory) (p z : ℕ)
    → p ≤ z
    → z < p + fuel
    → m z ≡ 0
    → (s : ℕ) × ((element_end fuel m p ≡ some s) × ((s ≤ z) × IsElement m p s))
unfolding element_end
element_end_lem zero m p z le lt e = absurd (omega arith)
element_end_lem (suc fuel) m p z le lt e =
    elim (Bool-cases (not (m p == slash) && not (m p == 0))) [
      | inr stop ↦ (
        p,
        (
          ground (arith, stop),
          (
            le,
            record {
              from = omega arith;
              inner = λ x l u. absurd (omega arith);
              end = ground arith;
            },
          ),
        ),
      )
      | inl go ↦
          (let h : (m p ≢ slash) × (m p ≢ 0) = (ground arith, ground arith) in
            let more : p ≢ z = λ q. absurd (h.1 (ap m q ∙ e)) in
            let (s, (r, (u, a))) =
              element_end_lem fuel m (p + 1) z (omega (arith, le, more)) (omega arith) e in
            (
              s,
              (
                ground (arith, go, r),
                (
                  u,
                  record {
                    from = omega (arith, a.from);
                    inner = λ x l lt. elim (Bool-cases (p == x)) [
                      | inl q ↦ subst (λ y. (m y ≢ slash) × (m y ≢ 0)) (==→eq p x q) h
                      | inr n ↦ a.inner x (ground arith) lt
                    ];
                    end = a.end;
                  },
                ),
              ),
            ))
    ]

-- The name of `n` bytes from `s` on in its field of 14 bytes: with a NUL behind it if there is room.
abbrev pub named : Memory → ℕ → ℕ → ℕ → ℕ → ℕ
named m name s n x =
    if leb name x && ltb x (name + (if leb dir_size n then dir_size else n))
    then m (s + (x - name))
    else (if not (leb dir_size n) && x == name + n then 0 else m x)

copy_name_lem : (m : Memory) (name s n x : ℕ) → copy_name m name s n x ≡ named m name s n x
copy_name_lem m name s n x =
    ground (arith, memmove_lem m name s dir_size x, memmove_lem m name s n x)

named-apart :
    (m : Memory) (name s n x path z : ℕ)
    → (name + dir_size ≤ path) ⊎ (z < name)
    → path ≤ x
    → x ≤ z
    → named m name s n x ≡ m x
named-apart m name s n x path z (inl a) l h = ground arith
named-apart m name s n x path z (inr a) l h = ground arith

some_byte : (m : Memory) (s e : ℕ) → m s ≢ 0 → m s ≢ slash → IsElement m s e → s < e
some_byte m s e z n b = elim (Bool-cases (s == e)) [
  | inr apart ↦ ground (arith, b.from)
  | inl same ↦
      absurd (stop (m s) z n (subst (λ y. (m y ≡ slash) ⊎ (m y ≡ 0)) (sym (==→eq s e same)) b.end))
]
  where
    stop : (c : ℕ) → c ≢ 0 → c ≢ slash → (c ≡ slash) ⊎ (c ≡ 0) → ⊥
    stop c z n (inl h) = n h
    stop c z n (inr h) = z h

-- What skipelem takes from the path: the element from `s` to `e`; `q` is behind the slashes that
-- follow.
pub record Taken (m : Memory) (path name s e q : ℕ) (m' : Memory) : Type 0 where
  pub before : AreSlashes m path s
  pub element : IsElement m s e
  pub some_byte : s < e
  pub after : AreSlashes m e q
  pub copied_name : (x : ℕ) → m' x ≡ named m name s (e - s) x

-- For a path with a NUL within the fuel, apart from the field for the name, skipelem returns 0 and
-- leaves the memory alone if the path has slashes only, and otherwise returns the address of the rest
-- of the path, behind the element and the slashes that follow it, with the first 14 bytes of the
-- element in the field, ended by a NUL if it is shorter, and no other byte changed.
pub skipelem_lem :
    (fuel : ℕ) (m : Memory) (path name z : ℕ)
    → path ≤ z
    → z < path + fuel
    → m z ≡ 0
    → (name + dir_size ≤ path) ⊎ (z < name)
    → ((skipelem fuel m path name ≡ some (0, m)) × ((s : ℕ) × (AreSlashes m path s × (m s ≡ 0))))
      ⊎ ((s : ℕ) × ((e : ℕ) × ((q : ℕ) × ((m' : Memory) × ((skipelem fuel m path name
                    ≡ some (q, m'))
                  × ((q ≤ z) × Taken m path name s e q m'))))))
unfolding skipelem
skipelem_lem fuel m path name z le lt e0 apart =
    let (s, (r, (u, a))) = skip_slashes_lem fuel m path z le lt e0 in
    elim (Bool-cases (m s == 0)) [
      | inl stop ↦ inl (ground (arith, r, stop), (s, (a, ==→eq (m s) 0 stop)))
      | inr go ↦
          (let (e, (r2, (u2, b))) = element_end_lem fuel m s z u (omega (arith, a.from)) e0 in
            let m' = copy_name m name s (e - s) in
            let same : (x : ℕ) → path ≤ x → x ≤ z → m' x ≡ m x = λ x l h.
              copy_name_lem m name s (e - s) x ∙ named-apart m name s (e - s) x path z apart l h in
            let (q, (r3, (u3, c))) =
              skip_slashes_lem fuel m' e z u2 (omega (arith, a.from, b.from))
                (same z le (omega arith) ∙ e0) in
            inr (
              s,
              (
                e,
                (
                  q,
                  (
                    m',
                    (
                      run s e q r (ground (arith, go)) r2 r3,
                      (
                        u3,
                        record {
                          before = a;
                          element = b;
                          some_byte = some_byte m s e (ground (arith, go)) a.end b;
                          after = record {
                            from = c.from;
                            slashes = λ x l h.
                                sym (same x (omega (arith, a.from, b.from)) (omega (arith, u3)))
                                ∙ c.slashes x l h;
                            end =
                                λ h. c.end (same q (omega (arith, a.from, b.from, c.from)) u3 ∙ h);
                          };
                          copied_name = copy_name_lem m name s (e - s);
                        },
                      ),
                    ),
                  ),
                ),
              ),
            ))
    ]
  where
    run :
        (s e q : ℕ)
        → skip_slashes fuel m path ≡ some s
        → m s ≢ 0
        → element_end fuel m s ≡ some e
        → skip_slashes fuel (copy_name m name s (e - s)) e ≡ some q
        → skipelem fuel m path name ≡ some (q, copy_name m name s (e - s))
    run s e q a b c d = ground (arith, a, b, c, d)
