-- ===== src/Pmm/Frames.antt =====
-- The bitmap of mm/pmm.c as a set of frames: what taking and dropping one does to each other.
use snap_os.Prelude.{
  ℕ, ◌+◌, ◌*◌, ◌/◌, ◌%◌, ◌≤◌, ◌<◌, ◌^◌, ◌≡◌, refl, Bool, false, not, ◌&&◌, ◌||◌, arith, ◌∙◌, ltb,
  leb, ◌==◌, test_bit-set_bit, test_bit-clear_bit, set_bit-lt, clear_bit-lt,
}
use snap_os.Pmm.{Pmm, is_taken, take_frame, drop_frame}

-- The bitmap holds bytes, and no address of a frame wraps.
pub record IsValid (p : Pmm) : Type 0 where
  pub bytes : (i : ℕ) → p.bitmap i < 256
  pub small : p.size < 2 ^ 49

-- A frame whose bit lies in the bitmap and is clear.
abbrev pub IsFree : Pmm → ℕ → Type 0
IsFree p f = (f < p.size * 8) × (is_taken p f ≡ false)

-- `count` frames from `f` on are free.
abbrev pub FreeRun : Pmm → ℕ → ℕ → Type 0
FreeRun p f count = (g : ℕ) → f ≤ g → g < f + count → IsFree p g

-- Whether frame `g` is one of the `count` frames from `f` on.
abbrev pub in_run : ℕ → ℕ → ℕ → Bool
in_run f count g = leb f g && ltb g (f + count)

-- What clearing the frames in `S`, and no other, leaves.
pub record Cleared (p : Pmm) (S : ℕ → Bool) (p' : Pmm) : Type 0 where
  pub bits : (g : ℕ) → is_taken p' g ≡ (not (S g) && is_taken p g)
  pub size : p'.size ≡ p.size
  pub valid : IsValid p'

pub Cleared-trans :
    {p q r : Pmm} {S T : ℕ → Bool} (U : ℕ → Bool)
    → ((g : ℕ) → U g ≡ (S g || T g))
    → Cleared p S q
    → Cleared q T r
    → Cleared p U r
Cleared-trans U e c d = record {
  bits = λ g. ground (arith, c.bits g, d.bits g, e g);
  size = d.size ∙ c.size;
  valid = d.valid;
}

module _ {p : Pmm} (v : IsValid p) (f : ℕ) where
  pub is_taken-take_frame : (g : ℕ) → is_taken (take_frame p f) g ≡ ((f == g) || is_taken p g)
  unfolding is_taken take_frame
  is_taken-take_frame g =
      ground (arith, test_bit-set_bit (p.bitmap (f / 8)) (f % 8) (g % 8), v.bytes (f / 8))

  pub is_taken-drop_frame : (g : ℕ) → is_taken (drop_frame p f) g ≡ (not (f == g) && is_taken p g)
  unfolding is_taken drop_frame
  is_taken-drop_frame g =
      ground (arith, test_bit-clear_bit (p.bitmap (f / 8)) (f % 8) (g % 8), v.bytes (f / 8))

  pub take_frame-IsValid : IsValid (take_frame p f)
  unfolding take_frame
  take_frame-IsValid = record {
    bytes = λ i. ground (arith, set_bit-lt (p.bitmap (f / 8)) (f % 8), v.bytes (f / 8), v.bytes i);
    small = v.small;
  }

  pub drop_frame-IsValid : IsValid (drop_frame p f)
  unfolding drop_frame
  drop_frame-IsValid = record {
    bytes =
        λ i. ground (arith, clear_bit-lt (p.bitmap (f / 8)) (f % 8), v.bytes (f / 8), v.bytes i);
    small = v.small;
  }

pub size-take_frame : (p : Pmm) (f : ℕ) → (take_frame p f).size ≡ p.size
unfolding take_frame
size-take_frame p f = refl

pub size-drop_frame : (p : Pmm) (f : ℕ) → (drop_frame p f).size ≡ p.size
unfolding drop_frame
size-drop_frame p f = refl
