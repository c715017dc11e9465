-- ===== src/Paging/Entries.antt =====
-- What the entries that arch/x86_64/kernel/paging.c writes hold.
use Prim.Native.Nat.{max}
use snap_os.Prelude.{
  ℕ, ◌/◌, ◌%◌, ◌^◌, ◌<◌, ◌≡◌, refl, Bool, true, false, arith, bit_or, bit_or_digit, bit_or-div,
  bit_or-mod, bit_or_zero,
}
use snap_os.Paging.{
  Prot, PageSize, page_4k, page_2m, page_1g, is_present, is_huge, ps_of, entry_value,
}

-- Flags that reach neither the address nor _PAGE_PS.
pub record IsFlags (flags : ℕ) : Type 0 where
  pub no_address : flags / 2 ^ 12 % 2 ^ 40 ≡ 0
  pub no_ps : flags / 2 ^ 7 % 2 ≡ 0

pub address_bits : ℕ → ℕ
address_bits e = e / 2 ^ 12 % 2 ^ 40

address_bits-bit_or :
    (e flags : ℕ)
    → flags / 2 ^ 12 % 2 ^ 40 ≡ 0
    → bit_or e flags / 2 ^ 12 % 2 ^ 40 ≡ e / 2 ^ 12 % 2 ^ 40
address_bits-bit_or e flags h =
    rw (bit_or-div 12 e flags, bit_or-mod 40 (e / 2 ^ 12) (flags / 2 ^ 12), h)
      (bit_or_zero (e / 2 ^ 12 % 2 ^ 40))

low_bit-bit_or : (a b : ℕ) → bit_or a b % 2 ≡ max (a % 2) (b % 2)
low_bit-bit_or a b = omega (arith, bit_or_digit a b)

ps_bit-bit_or : (a b : ℕ) → bit_or a b / 2 ^ 7 % 2 ≡ max (a / 2 ^ 7 % 2) (b / 2 ^ 7 % 2)
ps_bit-bit_or a b = rw (bit_or-div 7 a b) (low_bit-bit_or (a / 2 ^ 7) (b / 2 ^ 7))

-- The three facts about an entry.
pub record Holds (e paddr : ℕ) (ps : Bool) : Type 0 where
  pub present : is_present e ≡ true
  pub huge : is_huge e ≡ ps
  pub address : e / 2 ^ 12 % 2 ^ 40 ≡ paddr / 2 ^ 12

pub table_entry-Holds :
    (frame : ℕ)
    → frame % 2 ^ 12 ≡ 0
    → frame < 2 ^ 52
    → Holds (bit_or (bit_or (bit_or frame 1) 2) 4) frame false
table_entry-Holds frame aligned lt =
    let a = bit_or frame 1 in
    let b = bit_or a 2 in
    record {
      present = ground (arith, low_bit-bit_or b 4, low_bit-bit_or a 2, low_bit-bit_or frame 1);
      huge =
          ground (
            arith,
            low_bit-bit_or b 4,
            ps_bit-bit_or b 4,
            ps_bit-bit_or a 2,
            ps_bit-bit_or frame 1,
          );
      address = omega (
        arith,
        address_bits-bit_or b 4 refl,
        address_bits-bit_or a 2 refl,
        address_bits-bit_or frame 1 refl,
      );
    }

abbrev pub is_large : PageSize → Bool
is_large page_4k = false
is_large _ = true

ps_of_no_address : (size : PageSize) → ps_of size / 2 ^ 12 % 2 ^ 40 ≡ 0
ps_of_no_address page_4k = refl
ps_of_no_address page_2m = refl
ps_of_no_address page_1g = refl

entry_huge :
    (size : PageSize) (e : ℕ)
    → e % 2 ≡ 1
    → e / 2 ^ 7 % 2 ≡ ps_of size / 2 ^ 7 % 2
    → is_huge e ≡ is_large size
entry_huge page_4k e h k = ground arith
entry_huge page_2m e h k = ground arith
entry_huge page_1g e h k = ground arith

pub entry_value-Holds :
    (paddr : ℕ) (size : PageSize) (opts : Prot)
    → paddr % 2 ^ 12 ≡ 0
    → paddr < 2 ^ 52
    → IsFlags opts.prot_flags
    → Holds (entry_value paddr size opts) paddr (is_large size)
entry_value-Holds paddr size opts aligned lt flags =
    let a = bit_or paddr 1 in
    let b = bit_or a opts.prot_flags in
    record {
      present = ground (
        arith,
        low_bit-bit_or b (ps_of size),
        low_bit-bit_or a opts.prot_flags,
        low_bit-bit_or paddr 1,
      );
      huge =
          entry_huge size (entry_value paddr size opts)
            (omega (
              arith,
              low_bit-bit_or b (ps_of size),
              low_bit-bit_or a opts.prot_flags,
              low_bit-bit_or paddr 1,
            ))
            (omega (
              arith,
              flags.no_ps,
              ps_bit-bit_or b (ps_of size),
              ps_bit-bit_or a opts.prot_flags,
              ps_bit-bit_or paddr 1,
            ));
      address = omega (
        arith,
        address_bits-bit_or b (ps_of size) (ps_of_no_address size),
        address_bits-bit_or a opts.prot_flags flags.no_address,
        address_bits-bit_or paddr 1 refl,
      );
    }
