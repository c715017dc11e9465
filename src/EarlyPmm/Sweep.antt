-- ===== src/EarlyPmm/Sweep.antt =====
-- The last loop of pmm_sanitize_memory_map: the regions that it writes are disjoint, in order, and
-- give every address that it has passed the type that the input gives it.
use snap_os.Prelude.{
  ℕ, zero, suc, ◌+◌, ◌-◌, ◌≤◌, ◌<◌, ◌≡◌, refl, inl, inr, Bool, true, false, ◌&&◌, Option, none,
  some, arith, ltb, leb, ◌==◌, if◌then◌else◌, Bool-cases, dec_lt, ok, Returns, Returns->>=, returns,
  write,
}
use snap_os.EarlyPmm.{
  RegionType, usable, type_no, PhysRegion, Regions, classify, push_region, sweep,
}
use snap_os.EarlyPmm.Classify.{covers, Best, Undivided, classify-Best}

-- The type that the first `n` of an array of regions give the address `x`.
unfoldable pub type_at : (ℕ → PhysRegion) → ℕ → ℕ → Option RegionType
type_at reg zero x = none
type_at reg (suc n) x = if covers (reg n) x then some (reg n).type else type_at reg n x

pub type_at_beyond :
    (reg : ℕ → PhysRegion) (n x : ℕ) → ((k : ℕ) → k < n → (reg k).end ≤ x) → type_at reg n x ≡ none
unfolding type_at covers
type_at_beyond reg zero x h = refl
type_at_beyond reg (suc n) x h =
    ground (arith, h n, type_at_beyond reg n x (λ k lt. h k (omega arith)))

type_at-write :
    (reg : ℕ → PhysRegion) (i n x : ℕ) (r : PhysRegion)
    → n ≤ i
    → type_at (write reg i r) n x ≡ type_at reg n x
unfolding type_at
type_at-write reg i zero x r h = refl
type_at-write reg i (suc n) x r h = ground (arith, type_at-write reg i n x r)

-- The last of the regions decides first.
type_at-suc :
    (reg : ℕ → PhysRegion) (c x : ℕ)
    → 0 < c
    → type_at reg c x
      ≡ (if covers (reg (c - 1)) x then some (reg (c - 1)).type else type_at reg (c - 1) x)
unfolding type_at
type_at-suc reg zero x h = absurd (omega arith)
type_at-suc reg (suc c) x h = let e : suc c - 1 ≡ c = omega arith in rw e refl

type_at-write_last :
    (reg : ℕ → PhysRegion) (c x : ℕ) (r : PhysRegion)
    → 0 < c
    → type_at (write reg (c - 1) r) c x
      ≡ (if covers r x then some r.type else type_at reg (c - 1) x)
type_at-write_last reg c x r h =
    ground (arith, type_at-suc (write reg (c - 1) r) c x, type_at-write reg (c - 1) (c - 1) x r)

type_at-append :
    (reg : ℕ → PhysRegion) (c x : ℕ) (r : PhysRegion)
    → type_at (write reg c r) (c + 1) x ≡ (if covers r x then some r.type else type_at reg c x)
type_at-append reg c x r =
    let e : c + 1 - 1 ≡ c = omega arith in
    rw e at (type_at-write_last reg (c + 1) x r (omega arith))

type_no-injective : (s t : RegionType) → type_no s ≡ type_no t → s ≡ t
unfolding type_no
type_no-injective s t h = ground arith

-- The regions written so far, up to the boundary `b`.
pub record Swept (inp : ℕ → PhysRegion) (n b : ℕ) (out : Regions) : Type 0 where
  pub types : (x : ℕ) → x < b → Best inp n x (type_at out.reg out.count x)
  pub ends : (k : ℕ) → k < out.count → (out.reg k).end ≤ b
  pub proper : (k : ℕ) → k < out.count → (out.reg k).start < (out.reg k).end
  pub apart : (k : ℕ) → k + 1 < out.count → (out.reg k).end ≤ (out.reg (k + 1)).start

module _ (inp : ℕ → PhysRegion) (n lo hi : ℕ) (lt : lo < hi) where
  Swept-skip :
      (out : Regions)
      → Swept inp n lo out
      → ((x : ℕ) → lo ≤ x → x < hi → Best inp n x none)
      → Swept inp n hi out
  Swept-skip out s gap = record {
    types = λ x h. elim (dec_lt x lo) [
      | yes before ↦ s.types x before
      | no after ↦
          rw (type_at_beyond out.reg out.count x (λ k hk. omega (arith, s.ends k hk)))
            (gap x (omega arith) h)
    ];
    ends = λ k hk. omega (arith, s.ends k hk);
    proper = s.proper;
    apart = s.apart;
  }

  module _ (out : Regions) (t : RegionType) (s : Swept inp n lo out)
      (known : (x : ℕ) → lo ≤ x → x < hi → Best inp n x (some t)) where
    piece : PhysRegion
    piece = record { start = lo; end = hi; type = t }

    outside : (x : ℕ) → x < lo → covers piece x ≡ false
    unfolding covers piece
    outside x h = ground arith

    inside : (x : ℕ) → lo ≤ x → x < hi → covers piece x ≡ true
    unfolding covers piece
    inside x h h' = ground arith

    Swept-append :
        Swept inp n hi (record { reg = write out.reg out.count piece; count = out.count + 1 })
    unfolding piece
    Swept-append = record {
      types = λ x h. elim (dec_lt x lo) [
        | yes before ↦
            rw (type_at-append out.reg out.count x piece, outside x before) (s.types x before)
        | no after ↦
            rw (type_at-append out.reg out.count x piece, inside x (omega arith) h)
              (known x (omega arith) h)
      ];
      ends = λ k hk. ground (arith, s.ends k);
      proper = λ k hk. ground (arith, s.proper k);
      apart = λ k hk. ground (arith, s.apart k, s.ends k);
    }

    abbrev last : PhysRegion
    last = out.reg (out.count - 1)

    Swept-merge :
        0 < out.count
        → last.type ≡ t
        → last.end ≡ lo
        → Swept inp n hi
            (record out { reg = write out.reg (out.count - 1) (record last { end = hi }) })
    unfolding covers
    Swept-merge pos et ee = record {
      types = λ x h. elim (dec_lt x lo) [
        | yes before ↦ rw (same x before) (s.types x before)
        | no after ↦ rw (merged x (omega arith) h) (known x (omega arith) h)
      ];
      ends = λ k hk. ground (arith, s.ends k);
      proper = λ k hk. ground (arith, s.proper k, s.proper (out.count - 1));
      apart = λ k hk. ground (arith, s.apart k);
    }
      where
        now :
            (x : ℕ)
            → type_at (write out.reg (out.count - 1) (record last { end = hi })) out.count x ≡ (
                if leb last.start x && ltb x hi
                then some last.type
                else type_at out.reg (out.count - 1) x)
        now x =
            unfold covers in type_at-write_last out.reg out.count x (record last { end = hi }) pos

        same :
            (x : ℕ)
            → x < lo
            → type_at (write out.reg (out.count - 1) (record last { end = hi })) out.count x
              ≡ type_at out.reg out.count x
        same x h = ground (arith, now x, type_at-suc out.reg out.count x pos)

        merged :
            (x : ℕ)
            → lo ≤ x
            → x < hi
            → type_at (write out.reg (out.count - 1) (record last { end = hi })) out.count x
              ≡ some t
        merged x h h' = ground (arith, now x, s.proper (out.count - 1))

  -- One covered sub-interval, with room in `out`.
  push_region-Swept :
      (out_max : ℕ) (t : RegionType) (out : Regions)
      → Swept inp n lo out
      → ((x : ℕ) → lo ≤ x → x < hi → Best inp n x (some t))
      → out.count < out_max
      → Returns
          (λ out'. Swept inp n hi out' × (out'.count ≤ out.count + 1))
          (push_region out_max lo hi t out)
  unfolding push_region piece
  push_region-Swept out_max t out s known room =
      let last = out.reg (out.count - 1) in
      let fits : ltb out.count out_max ≡ true = ground arith in
      elim (Bool-cases (ltb 0 out.count && (type_no last.type == type_no t && last.end == lo))) [
        | inl joins ↦
            let same : type_no last.type ≡ type_no t = ground arith in
            rw joins (
              returns (
                Swept-merge out t s known (ground arith) (type_no-injective last.type t same)
                    (ground arith),
                omega arith,
              ))
        | inr apart ↦ rw (apart, fits) (returns (Swept-append out t s known, omega arith))
      ]

module _ (out_max : ℕ) (inp : ℕ → PhysRegion) (n nu : ℕ) (us : ℕ → ℕ)
    (increasing : (a b : ℕ) → a < b → b < nu → us a < us b)
    (undivided : (i : ℕ) → i + 1 < nu → Undivided inp (us i) (us (i + 1)) n) where
  sub_interval-Swept :
      (i : ℕ) (out : Regions) (c : Bool) (t : RegionType)
      → i + 1 < nu
      → out.count < out_max
      → Swept inp n (us i) out
      → ((x : ℕ) → us i ≤ x → x < us (i + 1) → Best inp n x (if c then some t else none))
      → Returns
          (λ out'. Swept inp n (us (i + 1)) out' × (out'.count ≤ out.count + 1))
          (if c then push_region out_max (us i) (us (i + 1)) t out else ok out)
  sub_interval-Swept i out true t hi room s known =
      push_region-Swept inp n (us i) (us (i + 1)) (increasing i (i + 1) (omega arith) hi) out_max t
        out s known room
  sub_interval-Swept i out false t hi room s known = returns (
    Swept-skip inp n (us i) (us (i + 1)) (increasing i (i + 1) (omega arith) hi) out s known,
    omega arith,
  )

  pub sweep-Swept :
      (k i e : ℕ) (out : Regions)
      → i + k ≡ e
      → e + 1 ≤ nu
      → e ≤ out_max
      → out.count ≤ i
      → Swept inp n (us i) out
      → Returns
          (λ out'. Swept inp n (us e) out' × (out'.count ≤ e))
          (sweep out_max inp n us k i out)
  unfolding sweep
  sweep-Swept zero i e out ee lt fits short s =
      let same : i ≡ e = omega arith in returns (rw (← same) s, omega arith)
  sweep-Swept (suc k) i e out ee lt fits short s =
      let (c, b, t) = classify inp (us i) (us (i + 1)) n 0 false 0 usable in
      Returns->>= _
        (sub_interval-Swept i out c t (omega arith) (omega arith) s
          (λ x lo hi. classify-Best inp (us i) (us (i + 1)) n x (undivided i (omega arith)) lo hi))
        (λ out' h. sweep-Swept k (i + 1) e out' (omega arith) lt fits (omega (arith, h.1)) h.0)
