-- ===== src/Ws/Bits.antt =====
-- Masking is an involution on bytes.
use Prim.Native.Nat.{bit_xor}
use myworktree.Prelude.{
  ℕ, zero, suc, ◌+◌, ◌%◌, ◌<◌, ◌≡◌, refl, Bool, true, ◌&&◌, [], ◌∷◌, ◌==◌, ltb, arith, length,
}
use myworktree.Ws.{Bytes, mask_byte, apply_mask}

-- a test that passes at every number under the bound
passes : (ℕ → Bool) → ℕ → Bool
passes test zero = true
passes test (suc bound) = passes test bound && test bound

passes_at : (test : ℕ → Bool) (bound i : ℕ) → i < bound → passes test bound ≡ true → test i ≡ true
unfolding passes
passes_at test zero i lt h = absurd (omega arith)
passes_at test (suc bound) i lt h = ground (arith, passes_at test bound i)

-- one pair of bytes: masking twice gives the byte back, and masking once gives a byte
byte_pair : ℕ → ℕ → Bool
byte_pair m b = (bit_xor (bit_xor b m) m == b) && ltb (bit_xor b m) 256

xor_table : passes (λ m. passes (byte_pair m) 256) 256 ≡ true
unfolding passes byte_pair
xor_table = refl

byte_pair_all : (m b : ℕ) → m < 256 → b < 256 → byte_pair m b ≡ true
byte_pair_all m b hm hb =
    passes_at (byte_pair m) 256 b hb (passes_at (λ k. passes (byte_pair k) 256) 256 m hm xor_table)

pub xor_twice : (m b : ℕ) → m < 256 → b < 256 → bit_xor (bit_xor b m) m ≡ b
unfolding byte_pair
xor_twice m b hm hb = ground (arith, byte_pair_all m b hm hb)

-- every number of the list is a byte
abbrev pub AreBytes : Bytes → Type 0
AreBytes [] = Unit
AreBytes (b ∷ bs) = (b < 256) × AreBytes bs

mask_byte_lt : (mask : Bytes) (i : ℕ) → AreBytes mask → mask_byte mask i < 256
mask_byte_lt [] i h = omega arith
mask_byte_lt (m ∷ ms) zero h = h.0
mask_byte_lt (m ∷ ms) (suc i) h = mask_byte_lt ms i h.1

pub apply_mask_twice :
    (mask : Bytes) (i : ℕ) (bs : Bytes)
    → AreBytes mask
    → AreBytes bs
    → apply_mask mask i (apply_mask mask i bs) ≡ bs
unfolding apply_mask
apply_mask_twice mask i [] hm h = refl
apply_mask_twice mask i (b ∷ bs) hm h = cc (
  xor_twice (mask_byte mask (i % 4)) b (mask_byte_lt mask (i % 4) hm) h.0,
  apply_mask_twice mask (i + 1) bs hm h.1,
)

pub length-apply_mask :
    (mask : Bytes) (i : ℕ) (bs : Bytes) → length (apply_mask mask i bs) ≡ length bs
unfolding apply_mask
length-apply_mask mask i [] = refl
length-apply_mask mask i (b ∷ bs) = omega (arith, length-apply_mask mask (i + 1) bs)
