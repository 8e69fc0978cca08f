-- ===== src/Stacks/Walk/Frames.antt =====
-- The reading of a StackWalk payload: when it fails, and what it makes of the addresses.
use wtfis_stalling.Base.{
  ℕ, zero, suc, ◌+◌, ◌*◌, ◌-◌, ◌/◌, ◌%◌, ◌==◌, ◌<◌, ◌≤◌, ◌≡◌, ◌↔◌, refl, inl, inr, arith, Bool,
  true, false, not, none, some, List, [], length, take, drop, Option-cases, min,
}
use wtfis_stalling.Base.Int.{signed64}
use wtfis_stalling.Layout.{from_le_bytes}
use wtfis_stalling.State.Callback.{rd_u32, rd_u64}
use wtfis_stalling.Stacks.Walk.{
  RawStack, width, start, read_addr, add_frame, step, walk, parse, max_frames,
}

rd_u32-some : (d : List ℕ) (off : ℕ) → off + 4 ≤ length d → (n : ℕ) × (rd_u32 d off ≡ some n)
unfolding rd_u32
rd_u32-some d off h = (from_le_bytes (take 4 (drop off d)), ground arith)

rd_u64-some : (d : List ℕ) (off : ℕ) → off + 8 ≤ length d → (n : ℕ) × (rd_u64 d off ≡ some n)
unfolding rd_u64
rd_u64-some d off h = (from_le_bytes (take 8 (drop off d)), ground arith)

rd_u64-none : (d : List ℕ) (off : ℕ) → length d < off + 8 → rd_u64 d off ≡ none
unfolding rd_u64
rd_u64-none d off h = ground arith

rd_u32-none : (d : List ℕ) (off : ℕ) → length d < off + 4 → rd_u32 d off ≡ none
unfolding rd_u32
rd_u32-none d off h = ground arith

read_addr-some :
    (ptr64 : Bool) (d : List ℕ) (off : ℕ)
    → off + width ptr64 ≤ length d
    → (n : ℕ) × (read_addr ptr64 d off ≡ some n)
read_addr-some true d off h = rd_u64-some d off h
read_addr-some false d off h = rd_u32-some d off h

-- The loop ends with a stack while the frames it has left are in the payload.
walk-some :
    (ptr64 : Bool) (d : List ℕ) (left off : ℕ) (out : RawStack)
    → off + left * width ptr64 ≤ length d
    → (r : RawStack) × (walk ptr64 d left off out ≡ some r)
unfolding walk
walk-some ptr64 d zero off out h = (out, refl)
walk-some ptr64 d (suc left) off out h =
    let (n, read) = read_addr-some ptr64 d off (omega arith) in
    let (r, e) = walk-some ptr64 d left (off + width ptr64) (add_frame ptr64 out n) (omega arith) in
    (r, rw (read, step) e)

fits : (ptr64 : Bool) (body : ℕ) → min (body / width ptr64) max_frames * width ptr64 ≤ body
fits true body = omega arith
fits false body = omega arith

short-parse : (d : List ℕ) (ptr64 : Bool) → length d < 16 → parse d ptr64 ≡ none
unfolding parse
short-parse d ptr64 h = elim (Option-cases (rd_u64 d 0)) [
  | inl e ↦ rw e refl
  | inr (a, e) ↦ elim (Option-cases (rd_u32 d 8)) [
    | inl f ↦ rw (e, f) refl
    | inr (b, f) ↦ rw (e, f, rd_u32-none d 12 h) refl
  ]
]

start-some :
    (ptr64 : Bool) (d : List ℕ) (a b c : ℕ)
    → 16 ≤ length d
    → (r : RawStack) × (start ptr64 d (some a) (some b) (some c) ≡ some r)
unfolding start walk
start-some ptr64 d a b c h =
    walk-some ptr64 d (min ((length d - 16) / width ptr64) max_frames) 16
      (record {
        ts = signed64 a;
        pid = b;
        tid = c;
        kernel = [];
        frames = min ((length d - 16) / width ptr64) max_frames;
        user_frames = 0;
        ragged = not ((length d - 16) % width ptr64 == 0);
      })
      (omega (arith, fits ptr64 (length d - 16)))

long-parse : (d : List ℕ) (ptr64 : Bool) → 16 ≤ length d → (r : RawStack) × (parse d ptr64 ≡ some r)
unfolding parse
long-parse d ptr64 h =
    let (a, e) = rd_u64-some d 0 (omega arith) in
    let (b, f) = rd_u32-some d 8 (omega arith) in
    let (c, g) = rd_u32-some d 12 (omega arith) in rw (e, f, g) (start-some ptr64 d a b c h)

-- A payload is refused exactly when it has not the sixteen bytes of the fixed part.
pub parse-none : (d : List ℕ) (ptr64 : Bool) → (parse d ptr64 ≡ none) ↔ (length d < 16)
parse-none d ptr64 = (λ e. ground (arith, long-parse d ptr64), short-parse d ptr64)
