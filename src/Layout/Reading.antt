-- ===== src/Layout/Reading.antt =====
-- A payload that is packed the way its manifest says is read back at the offsets that are found.
use wtfis_stalling.Base.{
  ℕ, zero, suc, ◌+◌, ◌*◌, ◌/◌, ◌%◌, ◌<◌, ◌≡◌, refl, ap, Bool, true, ◌||◌, some, List, [], ◌∷◌, ◌++◌,
  arith, leb, ◌==◌, length, length-append, take, drop,
}
use wtfis_stalling.Layout.{from_le_bytes, read_uint}

-- The bytes of an unsigned integer, the lowest first, and what fits into so many.
abbrev pub bytes_of : ℕ → ℕ → List ℕ
bytes_of zero n = []
bytes_of (suc k) n = n % 256 ∷ bytes_of k (n / 256)

abbrev pub capacity : ℕ → ℕ
capacity zero = 1
capacity (suc k) = 256 * capacity k

pub from_le_bytes-bytes_of : (k n : ℕ) → n < capacity k → from_le_bytes (bytes_of k n) ≡ n
unfolding from_le_bytes
from_le_bytes-bytes_of zero n h = omega arith
from_le_bytes-bytes_of (suc k) n h = omega (arith, from_le_bytes-bytes_of k (n / 256) (omega arith))

pub length-bytes_of : (k n : ℕ) → length (bytes_of k n) ≡ k
length-bytes_of zero n = refl
length-bytes_of (suc k) n = ap suc (length-bytes_of k (n / 256))

pub drop-append {ℓ} : {A : Type ℓ} (xs ys : List A) → drop (length xs) (xs ++ ys) ≡ ys
drop-append [] ys = refl
drop-append (x ∷ xs) ys = drop-append xs ys

pub take-bytes_of : (k n : ℕ) (ys : List ℕ) → take k (bytes_of k n ++ ys) ≡ bytes_of k n
take-bytes_of zero n ys = refl
take-bytes_of (suc k) n ys = ap (◌∷◌ (n % 256)) (take-bytes_of k (n / 256) ys)

abbrev pub is_width : ℕ → Bool
is_width size = size == 1 || size == 2 || size == 4 || size == 8

-- An unsigned integer of 1, 2, 4 or 8 bytes that stands anywhere in a payload is read back.
pub read_uint-bytes_of :
    (before after : List ℕ) (size n : ℕ)
    → is_width size ≡ true
    → n < capacity size
    → read_uint (before ++ (bytes_of size n ++ after)) (some (length before, size)) ≡ some n
unfolding read_uint
read_uint-bytes_of before after size n w h =
    let inside : leb (length before + size) (length (before ++ (bytes_of size n ++ after))) ≡ true =
      ground (
        arith,
        length-append before (bytes_of size n ++ after),
        length-append (bytes_of size n) after,
        length-bytes_of size n,
      ) in
    rw
      (
        read_uint,
        inside,
        w,
        drop-append before (bytes_of size n ++ after),
        take-bytes_of size n after,
        from_le_bytes-bytes_of size n h,
      )
      refl
