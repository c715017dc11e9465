-- ===== src/Block/Settle.antt =====
-- block/partition.c: the end of partition_scan, which registers what was found or gives it back.
use snap_os.Prelude.{
  ℕ, ◌+◌, ◌-◌, ◌≤◌, ◌≡◌, refl, ◌∙◌, true, false, leb, ltb, ◌&&◌, ◌==◌, if◌then◌else◌, Bool-cases,
  inl, inr, arith, Option, some, none, List, [], ◌∷◌, min,
}
use snap_os.Ext2.{Env}
use snap_os.Block.{
  PartitionInfo, BlockDev, Registry, zeroed, free_device, settle, length, block_dev_register,
}
use snap_os.Block.Entries.{held}

live-free_device :
    (info : Option PartitionInfo) (e : Env)
    → (free_device info e).live ≡ e.live - (elim info [ none ↦ 1 | some pinfo ↦ 2 ])
unfolding free_device
live-free_device none e = refl
live-free_device (some pinfo) e = omega arith

index-block_dev_register :
    (g : Registry) (p : BlockDev)
    → (block_dev_register g p).index ≡ (if leb 32 g.index then g.index else g.index + 1)
unfolding block_dev_register
index-block_dev_register g p = elim (Bool-cases (leb 32 g.index)) [
  | inl full ↦ rw full refl
  | inr room ↦ rw room refl
]

pub settle-dropped :
    (res : ℕ) (pbdevs : List BlockDev) (e : Env) (g : Registry)
    → (res == 0) ≡ false
    → held pbdevs ≤ e.live
    → ((settle res pbdevs e g).0.live ≡ e.live - held pbdevs) × ((settle res pbdevs e g).1 ≡ g)
unfolding settle
settle-dropped res [] e g bad le = (omega arith, refl)
settle-dropped res (p ∷ pbdevs) e g bad le =
    let f = live-free_device p.priv_data e in
    let rest = settle-dropped res pbdevs (free_device p.priv_data e) g bad (omega (arith, f, le)) in
    rw bad (omega (arith, f, rest.0), rest.1)

-- The device at place `n`.
abbrev pub nth : List BlockDev → ℕ → BlockDev
nth [] n = zeroed
nth (p ∷ ps) n = if n == 0 then p else nth ps (n - 1)

-- The registered devices `g1` are those of `g` with `ps` behind them, as far as 32 have room.
pub record Registered (g : Registry) (ps : List BlockDev) (g1 : Registry) : Type 0 where
  pub index : g1.index ≡ min (g.index + length ps) 32
  pub devices :
      (j : ℕ)
      → g1.registered_block_devices j ≡ (
          if leb g.index j && ltb j (min (g.index + length ps) 32)
          then nth ps (j - g.index)
          else g.registered_block_devices j)

index_bound : (g : Registry) (p : BlockDev) → g.index ≤ 32 → (block_dev_register g p).index ≤ 32
index_bound g p le = let i = index-block_dev_register g p in ground (arith, i)

-- Registering a device puts it at the end, when there is room.
Registered-step :
    (g : Registry) (p : BlockDev) (ps : List BlockDev) (g1 : Registry)
    → g.index ≤ 32
    → Registered (block_dev_register g p) ps g1
    → Registered g (p ∷ ps) g1
unfolding block_dev_register
Registered-step g p ps g1 le h = elim (Bool-cases (leb 32 g.index)) [
  | inl full ↦
      let h1 = rw full at h in
      record { index = ground (arith, h1.index); devices = λ j. h1.devices j ∙ ground arith }
  | inr room ↦
      let h1 = rw room at h in
      record {
        index = ground (arith, h1.index);
        devices = λ j. h1.devices j ∙ elim (Bool-cases (j == g.index)) [
          | inl here ↦
              let zeros : (j - g.index == 0) ≡ true = ground arith in rw zeros (ground arith)
          | inr other ↦
              let same : j - g.index - 1 ≡ j - (g.index + 1) = omega arith in ground (arith, same)
        ];
      }
]

pub settle-kept :
    (pbdevs : List BlockDev) (e : Env) (g : Registry)
    → g.index ≤ 32
    → ((settle 0 pbdevs e g).0.live ≡ e.live) × Registered g pbdevs (settle 0 pbdevs e g).1
unfolding settle
settle-kept [] e g le = (refl, record { index = ground arith; devices = λ j. ground arith })
settle-kept (p ∷ pbdevs) e g le =
    let rest = settle-kept pbdevs e (block_dev_register g p) (index_bound g p le) in
    (rest.0, Registered-step g p pbdevs (settle 0 pbdevs e (block_dev_register g p)).1 le rest.1)
