-- ===== src/Switches/Agreement.antt =====
-- What the verdict over several measuring threads stands for.
use wtfis_stalling.Base.{
  ℕ, suc, ◌+◌, ◌≤◌, ◌≡◌, refl, ap, ◌⊎◌, Bool, true, false, Option, none, some, List, [], ◌∷◌, arith,
  length, of_bool,
}
use wtfis_stalling.State.Records.{SwitchRec, ReadyRec}
use wtfis_stalling.Switches.Held.{RanInstead}
use wtfis_stalling.Switches.Probe.{
  ProbeWindow, ProbeOutcome, readied_late, ready_not_run, ran_then_blocked, classify_probe,
}
use wtfis_stalling.Switches.Verdict.{
  ProbeVerdict, no_verdict, Verdict, not_woken, queued, blocked, mixed, judged, overall, push,
  push_all, judge_probes,
}

-- Which of the three an outcome is, if any.
abbrev pub verdict_of : ProbeOutcome → Option Verdict
verdict_of (readied_late delay) = some not_woken
verdict_of (ready_not_run waited instead) = some queued
verdict_of (ran_then_blocked reason) = some blocked
verdict_of (ProbeOutcome.unknown why) = none

-- The outcomes that count as one verdict.
abbrev is_verdict : Verdict → Option Verdict → Bool
is_verdict not_woken (some not_woken) = true
is_verdict queued (some queued) = true
is_verdict blocked (some blocked) = true
is_verdict _ _ = false

abbrev pub count : Verdict → List ProbeOutcome → ℕ
count k [] = 0
count k (o ∷ os) = of_bool (is_verdict k (verdict_of o)) + count k os

abbrev pub outcomes : ℕ → List SwitchRec → List ReadyRec → List ProbeWindow → List ProbeOutcome
outcomes freq sw rd [] = []
outcomes freq sw rd (w ∷ ws) = classify_probe freq sw rd w ∷ outcomes freq sw rd ws

-- The counts of a verdict, from those it started with.
abbrev Counts : ProbeVerdict → ProbeVerdict → List ProbeOutcome → Type 0
Counts v u os =
    (v.late ≡ u.late + count not_woken os)
    × (v.queued ≡ u.queued + count queued os)
    × (v.blocked ≡ u.blocked + count blocked os)
    × (v.late + v.queued + v.blocked + v.unknown
        ≡ u.late + u.queued + u.blocked + u.unknown + length os)

push-Counts : (v : ProbeVerdict) (o : ProbeOutcome) → Counts (push v o) v (o ∷ [])
unfolding push
push-Counts v (readied_late delay) = omega arith
push-Counts v (ready_not_run waited RanInstead.idle) = omega arith
push-Counts v (ready_not_run waited (RanInstead.thread tid prio held)) = omega arith
push-Counts v (ready_not_run waited RanInstead.unknown) = omega arith
push-Counts v (ran_then_blocked reason) = omega arith
push-Counts v (ProbeOutcome.unknown why) = omega arith

push_all-Counts :
    (freq : ℕ) (sw : List SwitchRec) (rd : List ReadyRec) (v : ProbeVerdict) (ws : List ProbeWindow)
    → Counts (push_all freq sw rd v ws) v (outcomes freq sw rd ws)
unfolding push_all
push_all-Counts freq sw rd v [] = omega arith
push_all-Counts freq sw rd v (w ∷ ws) =
    let o = classify_probe freq sw rd w in
    omega (arith, push-Counts v o, push_all-Counts freq sw rd (push v o) ws)

judge_probes-Counts :
    (freq : ℕ) (sw : List SwitchRec) (rd : List ReadyRec) (ws : List ProbeWindow)
    → Counts (judge_probes freq sw rd ws) no_verdict (outcomes freq sw rd ws)
unfolding judge_probes
judge_probes-Counts freq sw rd ws = push_all-Counts freq sw rd no_verdict ws

length-outcomes :
    (freq : ℕ) (sw : List SwitchRec) (rd : List ReadyRec) (ws : List ProbeWindow)
    → length (outcomes freq sw rd ws) ≡ length ws
length-outcomes freq sw rd [] = refl
length-outcomes freq sw rd (w ∷ ws) = ap suc (length-outcomes freq sw rd ws)

-- Every late wake-up is judged or counted as unknown, and never twice.
judge_probes-judged :
    (freq : ℕ) (sw : List SwitchRec) (rd : List ReadyRec) (ws : List ProbeWindow)
    → let v = judge_probes freq sw rd ws in judged v + v.unknown ≡ length ws
unfolding judged
judge_probes-judged freq sw rd ws =
    omega (arith, judge_probes-Counts freq sw rd ws, length-outcomes freq sw rd ws)

-- What a verdict says of the outcomes it was made from.
abbrev pub Means : Option Verdict → ℕ → ℕ → ℕ → Type 0
Means none a b c = (a ≡ 0) × (b ≡ 0) × (c ≡ 0)
Means (some not_woken) a b c = (1 ≤ a) × (b ≡ 0) × (c ≡ 0)
Means (some queued) a b c = (a ≡ 0) × (1 ≤ b) × (c ≡ 0)
Means (some blocked) a b c = (a ≡ 0) × (b ≡ 0) × (1 ≤ c)
Means (some mixed) a b c = ((1 ≤ a) × (1 ≤ b)) ⊎ ((1 ≤ a) × (1 ≤ c)) ⊎ ((1 ≤ b) × (1 ≤ c))

Means-congr :
    (o : Option Verdict) (a b c a' b' c' : ℕ)
    → (a ≡ a') × (b ≡ b') × (c ≡ c')
    → Means o a b c
    → Means o a' b' c'
Means-congr o a b c a' b' c' e m = ground arith

overall-Means : (v : ProbeVerdict) → Means (overall v) v.late v.queued v.blocked
unfolding overall
overall-Means v = ground arith

-- A verdict is given just when some thread could be judged; it names one cause only when every
-- thread that could be judged had that one, and is mixed only when two of them differ.
pub judge_probes-overall :
    (freq : ℕ) (sw : List SwitchRec) (rd : List ReadyRec) (ws : List ProbeWindow)
    → let os = outcomes freq sw rd ws in
      Means
        (overall (judge_probes freq sw rd ws))
        (count not_woken os)
        (count queued os)
        (count blocked os)
judge_probes-overall freq sw rd ws =
    Means-congr (overall (judge_probes freq sw rd ws)) _ _ _ _ _ _
      (omega (arith, judge_probes-Counts freq sw rd ws))
      (overall-Means (judge_probes freq sw rd ws))
