-- ===== src/Block/Scan.antt =====
-- block/partition.c: partition_scan registers the partitions of the first sector, or keeps nothing.
use native.Mathlib.Nat.{zero-mul}
use snap_os.Prelude.{
  subst, ℕ, ◌+◌, ◌*◌, ◌≤◌, ◌≡◌, refl, sym, ap, ◌∙◌, false, ◌⊎◌, ◌==◌, Bool-cases, inl, inr, arith,
  List, [], eio, Ssize, count, error,
}
use snap_os.Ext2.{Env, alloc, free, bdev_read}
use snap_os.Block.{
  BlockDev, Registry, scan_entries, settle, length, scan_exit, scan_sector, partition_scan,
}
use snap_os.Block.Entries.{
  held, partitions, held-partitions, length-partitions, alloc-Asked, Refused,
  scan_entries-Collected,
}
use snap_os.Block.Settle.{Registered, settle-dropped, settle-kept}

-- The partitions of a device, by the four entries of its first sector.
abbrev pub partitions_of : Env → (bdev : ℕ) → List BlockDev
partitions_of e bdev = partitions 4 0 bdev e.sector_size e.bytes

-- What partition_scan does to the memory in use and to the registered devices.
pub data Scanned (e : Env) (bdev : ℕ) (g : Registry) : Ssize × Env × Registry → Type 0 where
  failed :
      {x : ℕ} {e1 : Env}
      → Refused e ⊎ ((e.replies e.reads == 0) ≡ false)
      → e1.live ≡ e.live
      → Scanned e bdev g (error x, e1, g)
  scanned :
      {n : ℕ} {e1 : Env} {g1 : Registry}
      → n ≡ length (partitions_of e bdev)
      → n ≤ 4
      → e1.live ≡ e.live + 2 * n
      → Registered g (partitions_of e bdev) g1
      → Scanned e bdev g (count n, e1, g1)

scan_exit-kept :
    (e e2 : Env) (bdev : ℕ) (g : Registry) (pbdevs : List BlockDev)
    → g.index ≤ 32
    → pbdevs ≡ partitions_of e bdev
    → e2.live ≡ e.live + 1 + held pbdevs
    → Scanned e bdev g (scan_exit (0, pbdevs, e2) g)
unfolding scan_exit free
scan_exit-kept e e2 bdev g pbdevs le is memory =
    let kept = settle-kept pbdevs e2 g le in
    let all : held pbdevs ≡ 2 * length pbdevs =
      rw is (held-partitions 4 0 bdev e.sector_size e.bytes) in
    let few : length pbdevs ≤ 4 = rw is (length-partitions 4 0 bdev e.sector_size e.bytes) in
    let there : Registered g (partitions_of e bdev) (settle 0 pbdevs e2 g).1 =
      subst (λ ps. Registered g ps (settle 0 pbdevs e2 g).1) is kept.1 in
    scanned (ap length is) few (omega (arith, kept.0, memory, all)) there

scan_exit-dropped :
    (e e2 : Env) (bdev : ℕ) (g : Registry) (res : ℕ) (pbdevs : List BlockDev)
    → (res == 0) ≡ false
    → e2.live ≡ e.live + 1 + held pbdevs
    → Refused e ⊎ ((e.replies e.reads == 0) ≡ false)
    → Scanned e bdev g (scan_exit (res, pbdevs, e2) g)
unfolding scan_exit free
scan_exit-dropped e e2 bdev g res pbdevs bad memory why =
    let gone = settle-dropped res pbdevs e2 g bad (omega (arith, memory)) in
    rw (bad, gone.1) (failed why (omega (arith, gone.0, memory)))

scan_sector-Scanned :
    (e : Env) (status : ℕ) (buf : ℕ → ℕ) (e2 : Env) (bdev : ℕ) (g : Registry)
    → g.index ≤ 32
    → e2.live ≡ e.live + 1
    → e2.refuses ≡ e.refuses
    → e2.sector_size ≡ e.sector_size
    → status ≡ e.replies e.reads
    → (status ≡ 0 → buf ≡ e.bytes)
    → Scanned e bdev g (scan_sector status buf e2 bdev g)
unfolding scan_sector
scan_sector-Scanned e status buf e2 bdev g le more refuses size reply read =
    elim (Bool-cases (status == 0)) [
      | inr broken ↦ rw broken (
          scan_exit-dropped e e2 bdev g eio [] refl (omega (arith, more))
            (inr (rw reply at broken)))
      | inl done ↦
          let c = scan_entries-Collected 4 0 e2 bdev buf [] in
          let r = scan_entries 4 0 e2 bdev buf [] in
          let memory : r.2.live ≡ e.live + 1 + held r.1 = omega (arith, c.memory, more) in
          let all : partitions 4 0 bdev e2.sector_size buf ≡ partitions_of e bdev =
            rw size (ap (partitions 4 0 bdev e.sector_size) (read (ground arith))) in
          rw done (elim (Bool-cases (r.0 == 0)) [
            | inl found ↦
                let ok : r.0 ≡ 0 = ground arith in
                subst (λ x. Scanned e bdev g (scan_exit (x, r.1, r.2) g)) (sym ok)
                  (scan_exit-kept e r.2 bdev g r.1 le (c.full ok ∙ all) memory)
            | inr bad ↦
                let w = c.why (ground arith) in
                scan_exit-dropped e r.2 bdev g r.0 r.1 bad memory
                  (inl (w.0, ap (λ f. f w.0) (sym refuses) ∙ w.1))
          ])
    ]

read_first : (e : Env) → (bdev_read e 0 (λ j. 0)).0 ≡ 0 → (bdev_read e 0 (λ j. 0)).1 ≡ e.bytes
unfolding bdev_read
read_first e done = rw done (λ i j. e.bytes (start j i))
  where
    start : (j : ℕ) → 0 * e.sector_size + j ≡ j
    start j = omega (arith, zero-mul e.sector_size)

live-bdev_read : (e : Env) (lba : ℕ) (buf : ℕ → ℕ) → (bdev_read e lba buf).2.live ≡ e.live
unfolding bdev_read
live-bdev_read e lba buf = refl

refuses-bdev_read : (e : Env) (lba : ℕ) (buf : ℕ → ℕ) → (bdev_read e lba buf).2.refuses ≡ e.refuses
unfolding bdev_read
refuses-bdev_read e lba buf = refl

size-bdev_read :
    (e : Env) (lba : ℕ) (buf : ℕ → ℕ) → (bdev_read e lba buf).2.sector_size ≡ e.sector_size
unfolding bdev_read
size-bdev_read e lba buf = refl

status-bdev_read : (e : Env) (lba : ℕ) (buf : ℕ → ℕ) → (bdev_read e lba buf).0 ≡ e.replies e.reads
unfolding bdev_read
status-bdev_read e lba buf = refl

-- partition_scan returns the number of entries in use in the first sector of the device, puts their
-- partitions, as the entries give them, behind the registered devices, and keeps two blocks of memory
-- for each; or it returns an error, when an allocation is refused or the device fails, keeps no memory
-- and registers nothing. Of at most 32 registered devices the partitions that do not fit are lost.
pub partition_scan-Scanned :
    (e : Env) (bdev : ℕ) (g : Registry) → g.index ≤ 32 → Scanned e bdev g (partition_scan e bdev g)
unfolding partition_scan
partition_scan-Scanned e bdev g le =
    let e1 = (alloc e).1 in
    let a = alloc-Asked e in
    elim (Bool-cases (alloc e).0) [
      | inr refused ↦
          let same : e1.live ≡ e.live = rw refused at a.live in
          rw refused (failed (inl (e.allocs, a.refused refused)) same)
      | inl given ↦
          let more : e1.live ≡ e.live + 1 = rw given at a.live in
          let r = bdev_read e1 0 (λ j. 0) in
          rw given (
            scan_sector-Scanned e r.0 r.1 r.2 bdev g le (live-bdev_read e1 0 (λ j. 0) ∙ more)
              (refuses-bdev_read e1 0 (λ j. 0) ∙ a.refuses_kept)
              (size-bdev_read e1 0 (λ j. 0) ∙ a.size_kept)
              (status-bdev_read e1 0 (λ j. 0) ∙ a.status_kept)
              (λ done. read_first e1 done ∙ a.bytes_kept))
    ]
