-- ===== src/Stacks/Walk.antt =====
-- src/stacks.rs: a StackWalk event's payload, with the user-mode frames reduced to a count.
pub mod Frames
pub mod Packed
use wtfis_stalling.Base.{
  ℕ, zero, suc, ◌+◌, ◌*◌, ◌-◌, ◌/◌, ◌%◌, Bool, true, false, not, ◌&&◌, Option, none, some, List, [],
  ◌∷◌, ◌++◌, ltb, leb, ◌==◌, if◌then◌else◌, length, drop, min, u32,
}
use wtfis_stalling.Base.Int.{ℤ, signed64}
use wtfis_stalling.State.Callback.{rd_u32, rd_u64}

abbrev pub max_kernel_frames : ℕ
max_kernel_frames = 40

abbrev pub max_frames : ℕ
max_frames = 192

-- `KERNEL_SPACE` of src/modules.rs.
abbrev pub kernel_space : ℕ
kernel_space = 18446603336221196288

pub record RawStack : Type 0 where
  pub ts : ℤ
  pub pid : ℕ
  pub tid : ℕ
  pub kernel : List ℕ
  pub frames : ℕ
  pub user_frames : ℕ
  pub ragged : Bool

unfoldable pub is_kernel : ℕ → Bool → Bool
is_kernel addr ptr64 =
    if ptr64 then leb kernel_space addr else leb 2147483648 addr && leb addr 4294967295

abbrev pub width : Bool → ℕ
width ptr64 = if ptr64 then 8 else 4

abbrev pub read_addr : Bool → List ℕ → ℕ → Option ℕ
read_addr ptr64 d off = if ptr64 then rd_u64 d off else rd_u32 d off

-- One frame into the stack that is being read.
unfoldable pub add_frame : Bool → RawStack → ℕ → RawStack
unfolding is_kernel
add_frame ptr64 out addr =
    if is_kernel addr ptr64
    then (if ltb (length out.kernel) max_kernel_frames
        then record out { kernel = out.kernel ++ addr ∷ [] }
        else out)
    else record out { user_frames = u32 (out.user_frames + 1) }

abbrev pub step {ℓ} : {A : Type ℓ} → Option ℕ → (ℕ → Option A) → Option A
step none f = none
step (some addr) f = f addr

-- The rest of the loop over the frames, `left` of them, the next at `off`.
unfoldable pub walk : Bool → List ℕ → ℕ → ℕ → RawStack → Option RawStack
unfolding add_frame
walk ptr64 d zero off out = some out
walk ptr64 d (suc left) off out =
    step (read_addr ptr64 d off)
      (λ addr. walk ptr64 d left (off + width ptr64) (add_frame ptr64 out addr))

abbrev start : Bool → List ℕ → Option ℕ → Option ℕ → Option ℕ → Option RawStack
unfolding walk
start ptr64 d (some ts) (some pid) (some tid) =
    let body = length d - 16 in
    let n = min (body / width ptr64) max_frames in
    walk ptr64 d n 16 (record {
      ts = signed64 ts;
      pid = pid;
      tid = tid;
      kernel = [];
      frames = n;
      user_frames = 0;
      ragged = not (body % width ptr64 == 0);
    })
start ptr64 d _ _ _ = none

-- `rd_u64(d, 0)?`, `rd_u32(d, 8)?`, `rd_u32(d, 12)?` and `d.get(16..)?`, which is there when the
-- number before it is.
unfoldable pub parse : List ℕ → Bool → Option RawStack
unfolding start rd_u32 rd_u64
parse d ptr64 = start ptr64 d (rd_u64 d 0) (rd_u32 d 8) (rd_u32 d 12)
