-- ===== src/Switches/Verdict.antt =====
-- src/switches.rs: how one cluster of late wake-ups came out.
use wtfis_stalling.Base.{
  ℕ, ◌+◌, Bool, true, ◌&&◌, Option, none, some, List, [], ◌∷◌, ◌++◌, ◌==◌, if◌then◌else◌, any, take,
}
use wtfis_stalling.Base.Int.{ℤ, pos, leb_ℤ, max_ℤ}
use wtfis_stalling.Base.Sort.{sort}
use wtfis_stalling.State.Records.{SwitchRec, ReadyRec}
use wtfis_stalling.Switches.Held.{RanInstead}
use wtfis_stalling.Switches.Probe.{
  ProbeWindow, ProbeOutcome, readied_late, ready_not_run, ran_then_blocked, classify_probe,
}

pub record ProbeVerdict : Type 0 where
  pub late : ℕ
  pub queued : ℕ
  pub blocked : ℕ
  pub unknown : ℕ
  pub on_idle_cpu : ℕ
  pub worst_delay : ℤ
  pub instead : List (ℕ × ℤ × ℤ)
  pub reasons : List ℤ

abbrev pub no_verdict : ProbeVerdict
no_verdict = record {
  late = 0;
  queued = 0;
  blocked = 0;
  unknown = 0;
  on_idle_cpu = 0;
  worst_delay = pos 0;
  instead = [];
  reasons = [];
}

pub data Verdict : Type 0 where
  not_woken queued blocked mixed : Verdict

unfoldable pub judged : ProbeVerdict → ℕ
judged v = v.late + v.queued + v.blocked

abbrev overall_of : Bool → Bool → Bool → Option Verdict
overall_of true true true = none
overall_of _ true true = some not_woken
overall_of true _ true = some queued
overall_of true true _ = some blocked
overall_of _ _ _ = some mixed

unfoldable pub overall : ProbeVerdict → Option Verdict
overall v = overall_of (v.late == 0) (v.queued == 0) (v.blocked == 0)

abbrev push_instead : RanInstead → ProbeVerdict → ProbeVerdict
push_instead RanInstead.idle v = record v { on_idle_cpu = v.on_idle_cpu + 1 }
push_instead (RanInstead.thread tid prio held) v = record v {
  instead = v.instead ++ (tid, prio, held) ∷ [];
}
push_instead RanInstead.unknown v = v

abbrev same_reason : ℤ → ℤ → Bool
same_reason a b = leb_ℤ a b && leb_ℤ b a

unfoldable pub push : ProbeVerdict → ProbeOutcome → ProbeVerdict
push v (readied_late delay) = record v {
  late = v.late + 1;
  worst_delay = max_ℤ v.worst_delay delay;
}
push v (ready_not_run waited instead) = push_instead instead (record v { queued = v.queued + 1 })
push v (ran_then_blocked reason) = record v {
  blocked = v.blocked + 1;
  reasons = if any (same_reason reason) v.reasons then v.reasons else v.reasons ++ reason ∷ [];
}
push v (ProbeOutcome.unknown why) = record v { unknown = v.unknown + 1 }

-- Longest held first; `sort_by_key` is stable.
abbrev pub held_ge : ℕ × ℤ × ℤ → ℕ × ℤ × ℤ → Bool
held_ge a b = leb_ℤ b.2 a.2

unfoldable pub push_all :
    ℕ → List SwitchRec → List ReadyRec → ProbeVerdict → List ProbeWindow → ProbeVerdict
push_all freq sw rd v [] = v
push_all freq sw rd v (w ∷ windows) =
    push_all freq sw rd (push v (classify_probe freq sw rd w)) windows

unfoldable pub judge_probes : ℕ → List SwitchRec → List ReadyRec → List ProbeWindow → ProbeVerdict
unfolding push_all
judge_probes freq sw rd windows =
    let v = push_all freq sw rd no_verdict windows in
    record v { instead = take 8 (sort held_ge v.instead) }
