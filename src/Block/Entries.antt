-- ===== src/Block/Entries.antt =====
-- block/partition.c: the loop of partition_scan over the entries of the first sector, and its memory.
use snap_os.Prelude.{
  ℕ, zero, suc, ◌+◌, ◌*◌, ◌≤◌, ◌≡◌, ◌≢◌, refl, sym, ap, ◌∙◌, Bool, true, false, ◌==◌, if◌then◌else◌,
  Bool-cases, inl, inr, arith, some, none, List, [], ◌∷◌, ◌++◌,
}
use snap_os.Ext2.{Env, alloc}
use snap_os.Block.{BlockDev, zeroed, partition_at, scan_entries, length, mbr_offset}

-- The memory that devices hold: their own, and their information.
abbrev pub held : List BlockDev → ℕ
held [] = 0
held (p ∷ ps) = (elim p.priv_data [ none ↦ 1 | some pinfo ↦ 2 ]) + held ps

held-++ : (ps qs : List BlockDev) → held (ps ++ qs) ≡ held ps + held qs
held-++ [] qs = omega arith
held-++ (p ∷ ps) qs = let h = held-++ ps qs in omega (arith, h)

++-[] : (ps : List BlockDev) → (ps ++ []) ≡ ps
++-[] [] = refl
++-[] (p ∷ ps) = ap (λ l. p ∷ l) (++-[] ps)

++-assoc :
    (ps : List BlockDev) (d : BlockDev) (qs : List BlockDev)
    → ((ps ++ d ∷ []) ++ qs) ≡ (ps ++ d ∷ qs)
++-assoc [] d qs = refl
++-assoc (p ∷ ps) d qs = ap (λ l. p ∷ l) (++-assoc ps d qs)

-- The partitions of a sector: the entries from the `i`-th on, `k` of them, that are in use.
pub partitions : (k i bdev sector_size : ℕ) → (buf : ℕ → ℕ) → List BlockDev
partitions zero i bdev sector_size buf = []
partitions (suc k) i bdev sector_size buf =
    let rest = partitions k (i + 1) bdev sector_size buf in
    let entry = mbr_offset + 16 * i in
    if buf (entry + 4) == 0 then rest else partition_at bdev sector_size buf entry ∷ rest

pub length-partitions :
    (k i bdev sector_size : ℕ) (buf : ℕ → ℕ) → length (partitions k i bdev sector_size buf) ≤ k
unfolding partitions
length-partitions zero i bdev sector_size buf = omega arith
length-partitions (suc k) i bdev sector_size buf =
    let h = length-partitions k (i + 1) bdev sector_size buf in
    elim (Bool-cases (buf (mbr_offset + 16 * i + 4) == 0)) [
      | inl unused ↦ rw unused (omega (arith, h))
      | inr used ↦ rw used (omega (arith, h))
    ]

pub held-partitions :
    (k i bdev sector_size : ℕ) (buf : ℕ → ℕ)
    → held (partitions k i bdev sector_size buf) ≡ 2 * length (partitions k i bdev sector_size buf)
unfolding partitions
held-partitions zero i bdev sector_size buf = refl
held-partitions (suc k) i bdev sector_size buf =
    let h = held-partitions k (i + 1) bdev sector_size buf in
    elim (Bool-cases (buf (mbr_offset + 16 * i + 4) == 0)) [
      | inl unused ↦ rw unused h
      | inr used ↦ rw used (omega (arith, h))
    ]

-- An allocation: whether it is refused, and what it keeps.
pub record Asked (e : Env) (r : Bool × Env) : Type 0 where
  pub live : r.1.live ≡ (if r.0 then e.live + 1 else e.live)
  pub refused : r.0 ≡ false → e.refuses e.allocs ≡ true
  pub refuses_kept : r.1.refuses ≡ e.refuses
  pub size_kept : r.1.sector_size ≡ e.sector_size
  pub bytes_kept : r.1.bytes ≡ e.bytes
  pub status_kept : r.1.replies r.1.reads ≡ e.replies e.reads

pub alloc-Asked : (e : Env) → Asked e (alloc e)
unfolding alloc
alloc-Asked e = elim (Bool-cases (e.refuses e.allocs)) [
  | inl no_room ↦ rw no_room (record {
    live = refl;
    refused = λ r. no_room;
    refuses_kept = refl;
    size_kept = refl;
    bytes_kept = refl;
    status_kept = refl;
  })
  | inr room ↦ rw room (record {
    live = refl;
    refused = λ r. absurd (ground arith);
    refuses_kept = refl;
    size_kept = refl;
    bytes_kept = refl;
    status_kept = refl;
  })
]

-- An allocation that is refused.
abbrev pub Refused : Env → Type 0
Refused e = (n : ℕ) × (e.refuses n ≡ true)

-- What the loop over the entries gives, from `pbdevs` on.
pub record Collected (e : Env) (pbdevs all : List BlockDev) (r : ℕ × List BlockDev × Env)
    : Type 0 where
  pub memory : r.2.live + held pbdevs ≡ e.live + held r.1
  pub full : r.0 ≡ 0 → r.1 ≡ all
  pub why : r.0 ≢ 0 → Refused e

pub scan_entries-Collected :
    (k i : ℕ) (e : Env) (bdev : ℕ) (buf : ℕ → ℕ) (pbdevs : List BlockDev)
    → Collected e pbdevs
        (pbdevs ++ partitions k i bdev e.sector_size buf)
        (scan_entries k i e bdev buf pbdevs)
unfolding scan_entries partitions
scan_entries-Collected zero i e bdev buf pbdevs = record {
  memory = refl;
  full = λ ok. sym (++-[] pbdevs);
  why = λ bad. absurd (bad refl);
}
scan_entries-Collected (suc k) i e bdev buf pbdevs =
    let entry = mbr_offset + 16 * i in
    let e1 = (alloc e).1 in
    let e2 = (alloc e1).1 in
    let a1 = alloc-Asked e in
    let a2 = alloc-Asked e1 in
    let d = partition_at bdev e.sector_size buf entry in
    elim (Bool-cases (buf (entry + 4) == 0)) [
      | inl unused ↦ rw unused (scan_entries-Collected k (i + 1) e bdev buf pbdevs)
      | inr used ↦ elim (Bool-cases (alloc e).0) [
        | inr no_device ↦
            let same : e1.live ≡ e.live = rw no_device at a1.live in
            rw (used, no_device)
              (record {
                memory = ap (λ x. x + held pbdevs) same;
                full = λ ok. absurd (omega arith);
                why = λ bad. (e.allocs, a1.refused no_device);
              })
        | inl device ↦
            let more : e1.live ≡ e.live + 1 = rw device at a1.live in
            elim (Bool-cases (alloc e1).0) [
              | inr no_info ↦
                  let same : e2.live ≡ e1.live = rw no_info at a2.live in
                  let h = held-++ pbdevs (zeroed ∷ []) in
                  let refused : e.refuses e1.allocs ≡ true =
                    rw a1.refuses_kept at (a2.refused no_info) in
                  rw (used, device, no_info)
                    (record {
                      memory = omega (arith, h, more, same);
                      full = λ ok. absurd (omega arith);
                      why = λ bad. (e1.allocs, refused);
                    })
              | inl info ↦
                  let again : e2.live ≡ e1.live + 1 = rw info at a2.live in
                  let c = scan_entries-Collected k (i + 1) e2 bdev buf (pbdevs ++ d ∷ []) in
                  let h = held-++ pbdevs (d ∷ []) in
                  let size : e2.sector_size ≡ e.sector_size = a2.size_kept ∙ a1.size_kept in
                  let refuses : e2.refuses ≡ e.refuses = a2.refuses_kept ∙ a1.refuses_kept in
                  rw (used, device, info)
                    (record {
                      memory = omega (arith, c.memory, h, more, again);
                      full = λ ok.
                          c.full ok
                          ∙ ap (λ n. (pbdevs ++ d ∷ []) ++ partitions k (i + 1) bdev n buf) size
                          ∙ ++-assoc pbdevs d (partitions k (i + 1) bdev e.sector_size buf);
                      why = λ bad. let w = c.why bad in (w.0, ap (λ f. f w.0) (sym refuses) ∙ w.1);
                    })
            ]
      ]
    ]
