-- ===== src/Stacks/Walk/Packed.antt =====
-- A payload that carries a given list of addresses, and the stack that is read from it.
use wtfis_stalling.Base.{
  ℕ, zero, suc, ◌+◌, ◌*◌, ◌-◌, ◌/◌, ◌%◌, ◌==◌, ◌<◌, ◌≤◌, ◌≡◌, refl, sym, ap, ◌∙◌, inl, inr, arith,
  Bool, true, false, not, some, List, [], ◌∷◌, ◌++◌, leb, ltb, if◌then◌else◌, length, length-append,
  take, filter, All, append_assoc, append-nil, Bool-cases, min, u32, subst,
}
use wtfis_stalling.Base.Int.{signed64}
use wtfis_stalling.Layout.Reading.{
  bytes_of, capacity, length-bytes_of, drop-append, take-bytes_of, from_le_bytes-bytes_of,
}
use wtfis_stalling.State.Callback.{rd_u32, rd_u64}
use wtfis_stalling.Stacks.Walk.{
  RawStack, is_kernel, width, start, read_addr, add_frame, walk, parse, max_frames,
  max_kernel_frames,
}

-- The addresses one after the other, each in `size` bytes.
abbrev pub packed : ℕ → List ℕ → List ℕ
packed size [] = []
packed size (a ∷ rest) = bytes_of size a ++ packed size rest

abbrev pub payload : Bool → ℕ → ℕ → ℕ → List ℕ → List ℕ
payload ptr64 ts pid tid addrs =
    bytes_of 8 ts ++ (bytes_of 4 pid ++ (bytes_of 4 tid ++ packed (width ptr64) addrs))

rd_u64-bytes_of :
    (before after : List ℕ) (n : ℕ)
    → n < capacity 8
    → rd_u64 (before ++ (bytes_of 8 n ++ after)) (length before) ≡ some n
unfolding rd_u64
rd_u64-bytes_of before after n h =
    let inside : leb (length before + 8) (length (before ++ (bytes_of 8 n ++ after))) ≡ true =
      ground (
        arith,
        length-append before (bytes_of 8 n ++ after),
        length-append (bytes_of 8 n) after,
        length-bytes_of 8 n,
      ) in
    rw
      (
        inside,
        drop-append before (bytes_of 8 n ++ after),
        take-bytes_of 8 n after,
        from_le_bytes-bytes_of 8 n h,
      )
      refl

rd_u32-bytes_of :
    (before after : List ℕ) (n : ℕ)
    → n < capacity 4
    → rd_u32 (before ++ (bytes_of 4 n ++ after)) (length before) ≡ some n
unfolding rd_u32
rd_u32-bytes_of before after n h =
    let inside : leb (length before + 4) (length (before ++ (bytes_of 4 n ++ after))) ≡ true =
      ground (
        arith,
        length-append before (bytes_of 4 n ++ after),
        length-append (bytes_of 4 n) after,
        length-bytes_of 4 n,
      ) in
    rw
      (
        inside,
        drop-append before (bytes_of 4 n ++ after),
        take-bytes_of 4 n after,
        from_le_bytes-bytes_of 4 n h,
      )
      refl

read_addr-bytes_of :
    (ptr64 : Bool) (before after : List ℕ) (n : ℕ)
    → n < capacity (width ptr64)
    → read_addr ptr64 (before ++ (bytes_of (width ptr64) n ++ after)) (length before) ≡ some n
read_addr-bytes_of true before after n h = rd_u64-bytes_of before after n h
read_addr-bytes_of false before after n h = rd_u32-bytes_of before after n h

-- The frames, one after the other, into a stack.
abbrev add_frames : Bool → RawStack → List ℕ → RawStack
add_frames ptr64 out [] = out
add_frames ptr64 out (a ∷ rest) = add_frames ptr64 (add_frame ptr64 out a) rest

walk-packed :
    (ptr64 : Bool) (before addrs : List ℕ) (out : RawStack)
    → All (λ a. a < capacity (width ptr64)) addrs
    → walk ptr64 (before ++ packed (width ptr64) addrs) (length addrs) (length before) out
      ≡ some (add_frames ptr64 out addrs)
unfolding walk
walk-packed ptr64 before [] out h = refl
walk-packed ptr64 before (a ∷ rest) out h =
    let w = width ptr64 in
    rw (read_addr-bytes_of ptr64 before (packed w rest) a h.0) (
      subst
        (λ d.
          walk ptr64 d (length rest) (length before + w) (add_frame ptr64 out a)
          ≡ some (add_frames ptr64 (add_frame ptr64 out a) rest))
        (append_assoc before (bytes_of w a) (packed w rest))
        (subst
          (λ off.
            walk ptr64 ((before ++ bytes_of w a) ++ packed w rest) (length rest) off
              (add_frame ptr64 out a)
            ≡ some (add_frames ptr64 (add_frame ptr64 out a) rest))
          (length-append before (bytes_of w a) ∙ ap (λ n. length before + n) (length-bytes_of w a))
          (walk-packed ptr64 (before ++ bytes_of w a) rest (add_frame ptr64 out a) h.1)))

-- What the frames come to: the first kernel addresses, and the number of the others.
abbrev kernel_addrs : Bool → List ℕ → List ℕ
kernel_addrs ptr64 = filter (λ a. is_kernel a ptr64)

abbrev user_addrs : Bool → List ℕ → List ℕ
user_addrs ptr64 = filter (λ a. not (is_kernel a ptr64))

record IsFilled (own others : List ℕ) (out r : RawStack) : Type 0 where
  kernel : r.kernel ≡ take 40 (out.kernel ++ own)
  user_frames : r.user_frames ≡ out.user_frames + length others
  same :
      (r.ts ≡ out.ts)
      × (r.pid ≡ out.pid)
      × (r.tid ≡ out.tid)
      × (r.frames ≡ out.frames)
      × (r.ragged ≡ out.ragged)

take-all : (n : ℕ) (xs : List ℕ) → length xs ≤ n → take n xs ≡ xs
take-all zero [] h = refl
take-all zero (x ∷ xs) h = absurd (omega arith)
take-all (suc n) [] h = refl
take-all (suc n) (x ∷ xs) h = ap (◌∷◌ x) (take-all n xs (omega arith))

take-append : (n : ℕ) (xs ys : List ℕ) → length xs ≡ n → take n (xs ++ ys) ≡ xs
take-append zero [] ys h = refl
take-append zero (x ∷ xs) ys h = absurd (omega arith)
take-append (suc n) [] ys h = absurd (omega arith)
take-append (suc n) (x ∷ xs) ys h = ap (◌∷◌ x) (take-append n xs ys (omega arith))

add_frames-IsFilled :
    (ptr64 : Bool) (addrs : List ℕ) (out : RawStack)
    → length out.kernel ≤ max_kernel_frames
    → out.user_frames + length addrs < 4294967296
    → IsFilled (kernel_addrs ptr64 addrs) (user_addrs ptr64 addrs) out (add_frames ptr64 out addrs)
unfolding add_frame
add_frames-IsFilled ptr64 [] out k u = record {
  kernel = sym (
      take-all 40 (out.kernel ++ []) (subst (λ xs. length xs ≤ 40) (sym (append-nil out.kernel)) k)
      ∙ append-nil out.kernel);
  user_frames = omega arith;
  same = (refl, refl, refl, refl, refl);
}
add_frames-IsFilled ptr64 (a ∷ rest) out k u = elim (Bool-cases (is_kernel a ptr64)) [
  | inl t ↦ elim (Bool-cases (ltb (length out.kernel) max_kernel_frames)) [
    | inl room ↦
        let longer : RawStack = record out { kernel = out.kernel ++ a ∷ [] } in
        let f =
          add_frames-IsFilled ptr64 rest longer
            (ground (arith, length-append out.kernel (a ∷ []), room)) (omega arith) in
        rw (t, room, if◌then◌else◌)
          (record {
            kernel =
                f.kernel
                ∙ ap (take 40) (append_assoc out.kernel (a ∷ []) (kernel_addrs ptr64 rest));
            user_frames = f.user_frames;
            same = f.same;
          })
    | inr full ↦
        let f = add_frames-IsFilled ptr64 rest out k (omega arith) in
        let n : length out.kernel ≡ 40 = ground arith in
        rw (t, full, if◌then◌else◌)
          (record {
            kernel =
                f.kernel
                ∙ take-append 40 out.kernel (kernel_addrs ptr64 rest) n
                ∙ sym (take-append 40 out.kernel (a ∷ kernel_addrs ptr64 rest) n);
            user_frames = f.user_frames;
            same = f.same;
          })
  ]
  | inr t ↦
      let f =
        add_frames-IsFilled ptr64 rest (record out { user_frames = u32 (out.user_frames + 1) }) k
          (omega arith) in
      rw (t, if◌then◌else◌)
        (record { kernel = f.kernel; user_frames = omega (arith, f.user_frames); same = f.same })
]

abbrev pub IsReading : Bool → ℕ → ℕ → ℕ → List ℕ → RawStack → Type 0
IsReading ptr64 ts pid tid addrs r =
    (r.ts ≡ signed64 ts)
    × (r.pid ≡ pid)
    × (r.tid ≡ tid)
    × (r.kernel ≡ take max_kernel_frames (kernel_addrs ptr64 addrs))
    × (r.user_frames ≡ length (user_addrs ptr64 addrs))
    × (r.frames ≡ length addrs)
    × (r.ragged ≡ false)

length-packed : (size : ℕ) (addrs : List ℕ) → length (packed size addrs) ≡ size * length addrs
length-packed size [] = omega arith
length-packed size (a ∷ rest) = grind (
  arith,
  length-append (bytes_of size a) (packed size rest),
  length-bytes_of size a,
  length-packed size rest,
)

abbrev fresh : ℕ → ℕ → ℕ → ℕ → RawStack
fresh ts pid tid n = record {
  ts = signed64 ts;
  pid = pid;
  tid = tid;
  kernel = [];
  frames = n;
  user_frames = 0;
  ragged = false;
}

-- A whole number of addresses after the fixed part.
parse-start :
    (ptr64 : Bool) (d : List ℕ) (ts pid tid n : ℕ)
    → rd_u64 d 0 ≡ some ts
    → rd_u32 d 8 ≡ some pid
    → rd_u32 d 12 ≡ some tid
    → length d ≡ 16 + width ptr64 * n
    → n ≤ max_frames
    → parse d ptr64 ≡ walk ptr64 d n 16 (fresh ts pid tid n)
unfolding parse start
parse-start true d ts pid tid n e f g l h =
    let count : min ((length d - 16) / 8) 192 ≡ n = omega arith in
    let whole : ((length d - 16) % 8 == 0) ≡ true = ground arith in rw (e, f, g, count, whole) refl
parse-start false d ts pid tid n e f g l h =
    let count : min ((length d - 16) / 4) 192 ≡ n = omega arith in
    let whole : ((length d - 16) % 4 == 0) ≡ true = ground arith in rw (e, f, g, count, whole) refl

-- What is packed into a payload of at most 192 addresses is read back: the numbers, the first 40
-- kernel addresses in their order, and how many user-mode ones there were.
pub parse-payload :
    (ptr64 : Bool) (ts pid tid : ℕ) (addrs : List ℕ)
    → ts < capacity 8
    → pid < capacity 4
    → tid < capacity 4
    → All (λ a. a < capacity (width ptr64)) addrs
    → length addrs ≤ max_frames
    → (r : RawStack) × (parse (payload ptr64 ts pid tid addrs) ptr64 ≡ some r)
      × IsReading ptr64 ts pid tid addrs r
unfolding parse start
parse-payload ptr64 ts pid tid addrs t p i a n =
    let w = width ptr64 in
    let ids = bytes_of 4 tid ++ packed w addrs in
    let e = rd_u64-bytes_of [] (bytes_of 4 pid ++ ids) ts t in
    let f = rd_u32-bytes_of (bytes_of 8 ts) ids pid p in
    let g = rd_u32-bytes_of (bytes_of 8 ts ++ bytes_of 4 pid) (packed w addrs) tid i in
    let header = bytes_of 8 ts ++ (bytes_of 4 pid ++ bytes_of 4 tid) in
    let began =
      parse-start ptr64 (payload ptr64 ts pid tid addrs) ts pid tid (length addrs) e f g
        (omega (arith, length-packed w addrs)) n in
    let r =
      add_frames-IsFilled ptr64 addrs (fresh ts pid tid (length addrs)) (omega arith)
        (omega arith) in
    (
      add_frames ptr64 (fresh ts pid tid (length addrs)) addrs,
      began ∙ walk-packed ptr64 header addrs (fresh ts pid tid (length addrs)) a,
      (r.same.0, r.same.1, r.same.2, r.kernel, omega (arith, r.user_frames), r.same.3, r.same.4),
    )
