-- ===== src/Intr.antt =====
-- src/intr.rs: did ordinary DPCs keep running through a stall?
pub mod Slices
pub mod Tenths
use wtfis_stalling.Base.{
  ℕ, suc, ◌+◌, ◌*◌, ◌/◌, ◌-◌, Bool, true, false, ◌&&◌, List, [], ◌∷◌, leb, if◌then◌else◌, min, set,
  replicate, of_bool, u64,
}
use wtfis_stalling.Base.Int.{ℤ, pos, negsuc, pos_part, leb_ℤ, max_ℤ, ◌-i64◌}

abbrev pub slices : ℕ
slices = 10

abbrev pub min_dpcs : ℕ
min_dpcs = 10

-- The length of the stall, one tick at least.
unfoldable pub stall_len : ℤ → ℤ → ℕ
unfolding max_ℤ
stall_len start end = pos_part (max_ℤ (end -i64 start) (pos 1))

unfoldable pub inside : ℤ → ℤ → ℤ → Bool
inside start end t = leb_ℤ start t && leb_ℤ t end

-- The quotient in 128 bits, which rounds towards zero, as a `usize` of 64 bits.
unfoldable pub tenth_of : ℤ → ℕ → ℕ
tenth_of (pos d) len = u64 (d * slices / len)
tenth_of (negsuc d) len = u64 (18446744073709551616 - u64 (suc d * slices / len))

unfoldable pub slot : ℤ → ℤ → ℤ → ℕ
unfolding tenth_of stall_len
slot start end t = min (tenth_of (t -i64 start) (stall_len start end)) (slices - 1)

unfoldable pub mark : ℤ → ℤ → ℤ → List Bool → List Bool
unfolding inside slot
mark start end t hit = if inside start end t then set hit (slot start end t) true else hit

unfoldable pub marks : ℤ → ℤ → List ℤ → List Bool → List Bool
unfolding mark
marks start end [] hit = hit
marks start end (t ∷ ts) hit = marks start end ts (mark start end t hit)

abbrev pub count_true : List Bool → ℕ
count_true [] = 0
count_true (b ∷ bs) = of_bool b + count_true bs

unfoldable pub slices_covered : ℤ → ℤ → List ℤ → ℕ
unfolding marks
slices_covered start end starts = count_true (marks start end starts (replicate slices false))

-- At least 0.6 of ten slices, which is six.
unfoldable pub dpcs_kept_running : ℕ → ℕ → Bool
dpcs_kept_running covered_slices total_dpcs = leb min_dpcs total_dpcs && leb 6 covered_slices
