-- ===== src/Coroutine/Turns.antt =====
-- The turns of the coroutines of `ucontext.c`.
use networking_programming.Base.{
  ℕ, zero, suc, ◌+◌, ◌%◌, ◌≤◌, ◌<◌, ◌≡◌, ◌≢◌, refl, sym, ◌∙◌, List, [], ◌∷◌, ◌++◌, arith, ltb, ◌==◌,
  append_assoc, false, Bool-cases, ==_iff, lt→ltb, le→leb, inl, inr,
}
use networking_programming.Memory.{ok}
use networking_programming.Coroutine.{
  Phase, fresh, suspended, finished, State, set_phase, print, turn, resume, schedule, start,
}

-- No coroutine has returned.
abbrev pub IsRunning : State → Type 0
IsRunning s = (k : ℕ) → s.phase k ≢ finished

-- The first coroutine has returned, and no other.
abbrev pub IsOver : State → Type 0
IsOver s = (s.phase 0 ≡ finished) × ((k : ℕ) → k ≢ 0 → s.phase k ≢ finished)

-- What is printed by suspended coroutines from the count `count` on, with `left` rounds to thirty.
unfoldable pub digits_from : ℕ → ℕ → List ℕ
digits_from zero count = (count % 3 + 4) ∷ []
digits_from (suc left) count = (count % 3 + 4) ∷ (count % 3 + 1) ∷ digits_from left (count + 1)

set_running :
    (phase : ℕ → Phase) (k : ℕ)
    → ((j : ℕ) → phase j ≢ finished)
    → (j : ℕ) → set_phase phase k suspended j ≢ finished
set_running phase k h j e = elim (Bool-cases (k == j)) [
  | inl same ↦ cc (rw same at e)
  | inr other ↦ h j (rw other at e)
]

set_over :
    (phase : ℕ → Phase)
    → ((j : ℕ) → phase j ≢ finished)
    → (j : ℕ) → j ≢ 0
    → set_phase phase 0 finished j ≢ finished
set_over phase h j nz e = elim (Bool-cases (0 == j)) [
  | inl same ↦ nz (sym ((==_iff 0 j).0 same))
  | inr other ↦ h j (rw other at e)
]

-- A turn before the last.
record Went (s t : State) : Type 0 where
  count : t.count ≡ s.count + 1
  running : IsRunning t

turn-Went :
    (k : ℕ) (s u : State) → s.count < 30 → u.count ≡ s.count → IsRunning u → Went s (turn k u)
unfolding turn
turn-Went k s u lt same running =
    rw (lt→ltb u.count 30 (omega arith))
      (record { count = omega (arith, same); running = set_running u.phase k running })

turn-IsOver : (u : State) → u.count ≡ 30 → IsRunning u → ((turn 0 u).count ≡ 31) × IsOver (turn 0 u)
unfolding turn
turn-IsOver u last running = rw last (refl, (refl, set_over u.phase running))

resume_phase :
    (k : ℕ) (s : State) (p : Phase)
    → s.phase k ≡ p
    → IsRunning s
    → (u : State) × (resume k s ≡ ok (turn k u)) × (u.count ≡ s.count) × IsRunning u
unfolding resume
resume_phase k s fresh e running = (s, rw e refl, refl, running)
resume_phase k s suspended e running = (print (k + 4) s, rw e refl, refl, running)
resume_phase k s finished e running = absurd (running k e)

schedule_over : (fuel : ℕ) (t : State) → 0 < fuel → t.count ≡ 31 → schedule fuel t ≡ ok t
unfolding schedule
schedule_over zero t h e = absurd (omega arith)
schedule_over (suc fuel) t h e = rw e refl

last_turn :
    (fuel : ℕ) (s u : State)
    → 0 < fuel
    → s.count ≡ 30
    → resume (s.count % 3) s ≡ ok (turn (s.count % 3) u)
    → u.count ≡ s.count
    → IsRunning u
    → (t : State) × (schedule (suc fuel) s ≡ ok t) × (t.count ≡ 31) × IsOver t
unfolding schedule
last_turn fuel s u some_fuel last resumed same running =
    let (count, over) = turn-IsOver u (same ∙ last) running in
    (
      turn 0 u,
      rw (le→leb s.count 30 (omega arith), resumed, last)
          (schedule_over fuel (turn 0 u) some_fuel count),
      count,
      over,
    )

not_last : (n : ℕ) → n ≤ 30 → (n == 30) ≡ false → n < 30
not_last n le more = ground arith

-- If no coroutine has returned and `count` is at most 30, the scheduler ends, on more fuel than
-- there are counts up to 31, without resuming a coroutine that has returned. Then `count` is 31, the
-- first coroutine has returned, and no other.
pub schedule_ends :
    (fuel : ℕ) (s : State)
    → IsRunning s
    → s.count ≤ 30
    → 31 < fuel + s.count
    → (t : State) × (schedule fuel s ≡ ok t) × (t.count ≡ 31) × IsOver t
unfolding schedule
schedule_ends zero s running le enough = absurd (omega arith)
schedule_ends (suc fuel) s running le enough =
    let (u, resumed, same, alive) =
      resume_phase (s.count % 3) s (s.phase (s.count % 3)) refl running in
    elim (Bool-cases (s.count == 30)) [
      | inl last ↦ last_turn fuel s u (omega arith) ((==_iff s.count 30).0 last) resumed same alive
      | inr more ↦
          let went = turn-Went (s.count % 3) s u (not_last s.count le more) same alive in
          let (t, runs, count, over) =
            schedule_ends fuel (turn (s.count % 3) u) went.running
              (omega (arith, went.count, not_last s.count le more)) (omega (arith, went.count)) in
          (t, rw (le→leb s.count 30 le, resumed) runs, count, over)
    ]

-- Each of the three coroutines stands behind its `swapcontext`.
abbrev pub IsWaiting : State → Type 0
IsWaiting s = (k : ℕ) → k < 3 → s.phase k ≡ suspended

set_waiting :
    (phase : ℕ → Phase) (k : ℕ)
    → ((j : ℕ) → j < 3 → phase j ≡ suspended)
    → (j : ℕ) → j < 3
    → set_phase phase k suspended j ≡ suspended
set_waiting phase k h j lt = elim (Bool-cases (k == j)) [
  | inl same ↦ rw same refl
  | inr other ↦ rw other (h j lt)
]

-- The turn of a suspended coroutine, with what it prints.
abbrev after_turn : State → State
after_turn s = record {
  count = s.count + 1;
  phase = set_phase s.phase (s.count % 3) suspended;
  printed = s.printed ++ (s.count % 3 + 4) ∷ [] ++ (s.count % 3 + 1) ∷ [];
}

resume_waiting :
    (s : State) → IsWaiting s → s.count < 30 → resume (s.count % 3) s ≡ ok (after_turn s)
unfolding resume turn
resume_waiting s waiting lt = rw (waiting (s.count % 3) (omega arith), lt→ltb s.count 30 lt) refl

abbrev after_last : State → State
after_last s = record {
  count = s.count + 1;
  phase = set_phase s.phase (s.count % 3) finished;
  printed = s.printed ++ (s.count % 3 + 4) ∷ [];
}

resume_last : (s : State) → IsWaiting s → s.count ≡ 30 → resume (s.count % 3) s ≡ ok (after_last s)
unfolding resume turn
resume_last s waiting last = rw (waiting (s.count % 3) (omega arith), ltb-count) refl
  where
    ltb-count : ltb s.count 30 ≡ false
    ltb-count = ground (arith, last)

schedule_prints :
    (left fuel : ℕ) (s : State)
    → IsWaiting s
    → s.count + left ≡ 30
    → left + 1 < fuel
    → (t : State) × (schedule fuel s ≡ ok t) × (t.printed ≡ s.printed ++ digits_from left s.count)
unfolding schedule digits_from
schedule_prints left zero s waiting e enough = absurd (omega arith)
schedule_prints zero (suc fuel) s waiting e enough = (
  after_last s,
  rw (le→leb s.count 30 (omega (arith, e)), resume_last s waiting (omega (arith, e)))
      (schedule_over fuel (after_last s) (omega arith) (omega (arith, e))),
  refl,
)
schedule_prints (suc left) (suc fuel) s waiting e enough =
    let (t, runs, prints) =
      schedule_prints left fuel (after_turn s) (set_waiting s.phase (s.count % 3) waiting)
        (omega (arith, e)) (omega arith) in
    (
      t,
      rw (le→leb s.count 30 (omega (arith, e)), resume_waiting s waiting (omega (arith, e))) runs,
      prints
          ∙ append_assoc (s.printed ++ (s.count % 3 + 4) ∷ []) ((s.count % 3 + 1) ∷ [])
              (digits_from left (s.count + 1))
          ∙ append_assoc s.printed ((s.count % 3 + 4) ∷ [])
              ((s.count % 3 + 1) ∷ digits_from left (s.count + 1)),
    )

-- From the start of `main` and on at least 32 rounds of fuel, the scheduler ends having printed 1, 2
-- and 3, then at each count from 3 to 29 the two digits of the coroutine whose turn it is, and at 30
-- the second digit of the first.
pub schedule-start :
    (fuel : ℕ)
    → 31 < fuel
    → (t : State) × (schedule fuel start ≡ ok t) × (t.printed ≡ 1 ∷ 2 ∷ 3 ∷ digits_from 27 3)
unfolding schedule resume turn
schedule-start zero enough = absurd (omega arith)
schedule-start (suc zero) enough = absurd (omega arith)
schedule-start (suc (suc zero)) enough = absurd (omega arith)
schedule-start (suc (suc (suc fuel))) enough =
    schedule_prints 27 fuel started waiting refl (omega arith)
  where
    started : State
    started = turn 2 (turn 1 (turn 0 start))

    waiting : IsWaiting started
    waiting zero lt = refl
    waiting (suc zero) lt = refl
    waiting (suc (suc zero)) lt = refl
    waiting (suc (suc (suc k))) lt = absurd (omega arith)
