-- ===== src/Bloom/Bits.antt =====
-- Setting and testing a bit of a byte array.
use Prim.Native.Nat.{bit_and, bit_or}
use frenzy_kv.Prelude.{
  ℕ, zero, suc, ◌/◌, ◌%◌, ◌^◌, ◌<◌, ◌≡◌, refl, [], ◌∷◌, length, All, ltb, ◌==◌, if◌then◌else◌, Bool,
  true, false, ◌&&◌, not, arith,
}
use frenzy_kv.Prelude.{ap, eq_of_==}
use frenzy_kv.Bytes.{Bytes}
use frenzy_kv.Bloom.{or_at, byte_at, set_bit, test_bit}

-- Whether a test holds of the numbers below a bound.
holds_below : (ℕ → Bool) → ℕ → Bool
holds_below test zero = true
holds_below test (suc bound) = holds_below test bound && test bound

holds_below_at :
    (test : ℕ → Bool) (bound : ℕ) {k : ℕ}
    → k < bound
    → holds_below test bound ≡ true
    → test k ≡ true
unfolding holds_below
holds_below_at test zero below all = absurd (omega arith)
holds_below_at test (suc bound) {k = k} below all =
    ground (arith, holds_below_at test bound {k = k})

-- What setting bit `i` of a byte does to its bit `j`.
bit_kept : ℕ → ℕ → ℕ → Bool
bit_kept b i j = bit_and (bit_or b (2 ^ i)) (2 ^ j) == (if i == j then 2 ^ j else bit_and b (2 ^ j))

bit_table :
    holds_below
      (λ b. holds_below (λ i. ltb (bit_or b (2 ^ i)) 256 && holds_below (λ j. bit_kept b i j) 8) 8)
      256
    ≡ true
unfolding holds_below bit_kept
bit_table = refl

-- The table read at one byte and two bits.
bit_fact :
    (b i j : ℕ)
    → b < 256
    → i < 8
    → j < 8
    → (bit_or b (2 ^ i) < 256)
      × (bit_and (bit_or b (2 ^ i)) (2 ^ j) ≡ (if i == j then 2 ^ j else bit_and b (2 ^ j)))
unfolding bit_kept
bit_fact b i j hb hi hj =
    let row = holds_below_at _ 256 hb bit_table in
    let cell = holds_below_at _ 8 hi row in
    let inner : holds_below (λ j. bit_kept b i j) 8 ≡ true = ground (arith, cell) in
    let kept = holds_below_at _ 8 hj inner in (ground (arith, cell), eq_of_== _ _ kept)

pub byte_at-or_at :
    (i j m : ℕ) (bs : Bytes)
    → byte_at j (or_at i m bs)
      ≡ (if i == j && ltb i (length bs) then bit_or (byte_at j bs) m else byte_at j bs)
unfolding byte_at or_at
byte_at-or_at i j m [] = ground arith
byte_at-or_at zero zero m (b ∷ bs) = ground arith
byte_at-or_at zero (suc j) m (b ∷ bs) = ground arith
byte_at-or_at (suc i) zero m (b ∷ bs) = ground arith
byte_at-or_at (suc i) (suc j) m (b ∷ bs) = ground (arith, byte_at-or_at i j m bs)

abbrev pub IsByte : ℕ → Type 0
IsByte b = b < 256

byte_at-IsByte : (i : ℕ) (bs : Bytes) → All IsByte bs → IsByte (byte_at i bs)
unfolding byte_at
byte_at-IsByte i [] h = omega arith
byte_at-IsByte zero (b ∷ bs) (h, hs) = h
byte_at-IsByte (suc i) (b ∷ bs) (h, hs) = byte_at-IsByte i bs hs

or_at-IsByte : (i k : ℕ) (bs : Bytes) → k < 8 → All IsByte bs → All IsByte (or_at i (2 ^ k) bs)
unfolding or_at
or_at-IsByte i k [] hk h = tt
or_at-IsByte zero k (b ∷ bs) hk (h, hs) = ((bit_fact b k 0 h hk (omega arith)).0, hs)
or_at-IsByte (suc i) k (b ∷ bs) hk (h, hs) = (h, or_at-IsByte i k bs hk hs)

length-or_at : (i m : ℕ) (bs : Bytes) → length (or_at i m bs) ≡ length bs
unfolding or_at
length-or_at i m [] = refl
length-or_at zero m (b ∷ bs) = refl
length-or_at (suc i) m (b ∷ bs) = ap suc (length-or_at i m bs)

pub set_bit-IsByte : (q : ℕ) (arr : Bytes) → All IsByte arr → All IsByte (set_bit q arr)
unfolding set_bit
set_bit-IsByte q arr h = or_at-IsByte (q / 8) (q % 8) arr (omega arith) h

pub length-set_bit : (q : ℕ) (arr : Bytes) → length (set_bit q arr) ≡ length arr
unfolding set_bit
length-set_bit q arr = length-or_at (q / 8) (2 ^ (q % 8)) arr

pow_ne_zero : (j : ℕ) → j < 8 → (2 ^ j == 0) ≡ false
unfolding holds_below
pow_ne_zero j h = ground (arith, holds_below_at (λ j. not (2 ^ j == 0)) 8 h refl)

-- A bit that was set is found, and setting another bit does not clear it.
pub test_bit-set_self :
    (q : ℕ) (arr : Bytes) → All IsByte arr → q / 8 < length arr → test_bit q (set_bit q arr) ≡ true
unfolding test_bit set_bit
test_bit-set_self q arr h room = ground (
  arith,
  byte_at-or_at (q / 8) (q / 8) (2 ^ (q % 8)) arr,
  bit_fact (byte_at (q / 8) arr) (q % 8) (q % 8) (byte_at-IsByte (q / 8) arr h) (omega arith)
      (omega arith),
  pow_ne_zero (q % 8),
)

pub test_bit-set :
    (p q : ℕ) (arr : Bytes)
    → All IsByte arr
    → test_bit p arr ≡ true
    → test_bit p (set_bit q arr) ≡ true
unfolding test_bit set_bit
test_bit-set p q arr h found = ground (
  arith,
  byte_at-or_at (q / 8) (p / 8) (2 ^ (q % 8)) arr,
  bit_fact (byte_at (p / 8) arr) (q % 8) (p % 8) (byte_at-IsByte (p / 8) arr h) (omega arith)
      (omega arith),
  pow_ne_zero (p % 8),
)

-- A byte behind the bit array stays as it is.
pub byte_at-set_bit :
    (q i : ℕ) (arr : Bytes) → q / 8 < i → byte_at i (set_bit q arr) ≡ byte_at i arr
unfolding set_bit
byte_at-set_bit q i arr h = ground (arith, byte_at-or_at (q / 8) i (2 ^ (q % 8)) arr)
