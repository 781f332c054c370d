-- ===== src/Process/Backoff.antt =====
-- runMatterEvents of cmd/manisa-core/main.go: the listener is run again after a pause, which doubles
-- with each failure. Times are in nanoseconds.
use manisa_app.Prelude.{
  ℕ, zero, suc, ◌*◌, ◌+◌, ◌≤◌, ◌≡◌, ◌^◌, refl, ap, List, [], ◌∷◌, ltb, arith, All, Bool, true,
  false, ◌||◌, ◌++◌, length, inl, inr, Bool-cases, if◌then◌else◌,
}
use manisa_app.Domain.Error.{Exec}

abbrev pub second : ℕ
second = 1000000000

abbrev pub max_backoff : ℕ
max_backoff = 30 * second

-- the pause after a run that took `took`
unfoldable pub pause : ℕ → ℕ → ℕ
pause backoff took = if ltb (60 * second) took then second else backoff

-- the backoff after a pause
unfoldable pub double : ℕ → ℕ
double backoff =
    if ltb backoff max_backoff
    then (if ltb max_backoff (backoff * 2) then max_backoff else backoff * 2)
    else backoff

-- How a round of the loop goes: how long the run of the listener takes, whether the context is done
-- when it ends, and whether the context is done before the pause is over.
pub record Round : Type 0 where
  pub took : ℕ
  pub stopped : Bool
  pub stopped_waiting : Bool

-- The loop, over the rounds to come: the pauses, and the state that the runs of the listener leave.
-- Their errors are only logged.
unfoldable pub run_matter_events : {W : Type 0} → Exec W Unit → ℕ → List Round → W → List ℕ × W
run_matter_events source backoff [] w = ([], w)
run_matter_events source backoff (r ∷ rounds) w =
    let (e, w') = source w in
    let p = pause backoff r.took in
    let (pauses, w'') = run_matter_events source (double p) rounds w' in
    if r.stopped then ([], w') else if r.stopped_waiting then (p ∷ [], w') else (p ∷ pauses, w'')

-- From a backoff of one to thirty seconds, every pause is one of one to thirty seconds, whatever times
-- the runs of the listener take and whenever the context is done.
pub pauses_between :
    {W : Type 0} (source : Exec W Unit) (backoff : ℕ) (rounds : List Round) (w : W)
    → second ≤ backoff
    → backoff ≤ max_backoff
    → All (λ p. (second ≤ p) × (p ≤ max_backoff)) (run_matter_events source backoff rounds w).0
unfolding run_matter_events
pauses_between source backoff [] w lo hi = tt
pauses_between source backoff (r ∷ rounds) w lo hi =
    let p = pause backoff r.took in
    let here : (second ≤ p) × (p ≤ max_backoff) = unfold pause in ground arith in
    let next : (second ≤ double p) × (double p ≤ max_backoff) = unfold double in ground arith in
    let later = pauses_between source (double p) rounds (source w).1 next.0 next.1 in
    elim (Bool-cases r.stopped) [
      | inl stopped ↦ rw (run_matter_events, stopped) tt
      | inr goes ↦ elim (Bool-cases r.stopped_waiting) [
        | inl stopped ↦ rw (run_matter_events, goes, stopped) (here, tt)
        | inr waits ↦ rw (run_matter_events, goes, waits) (here, later)
      ]
    ]

-- 2 ^ n seconds, and thirty at most
abbrev pub capped : ℕ → ℕ
capped n = if ltb max_backoff (2 ^ n * second) then max_backoff else 2 ^ n * second

abbrev pub schedule : ℕ → List Round → List ℕ
schedule n [] = []
schedule n (r ∷ rounds) = capped n ∷ schedule (suc n) rounds

-- the rounds that come to their pause
abbrev pub pausing : List Round → List Round
pausing [] = []
pausing (r ∷ rounds) =
    let rest = pausing rounds in
    if r.stopped then [] else if r.stopped_waiting then r ∷ [] else r ∷ rest

double-capped : (n : ℕ) → double (capped n) ≡ capped (suc n)
unfolding double
double-capped n = let p : 2 ^ suc n ≡ 2 ^ n * 2 = omega arith in ground arith

-- From a backoff of 2 ^ n seconds (thirty at most), and with no run of the listener that takes more than
-- a minute, the pauses of the rounds that come to one are 2 ^ n, 2 ^ (n + 1) and so on, in seconds,
-- and thirty seconds at most.
pub run_matter_events_short :
    {W : Type 0} (source : Exec W Unit) (n : ℕ) (rounds : List Round) (w : W)
    → All (λ r. r.took ≤ 60 * second) rounds
    → (run_matter_events source (capped n) rounds w).0 ≡ schedule n (pausing rounds)
unfolding run_matter_events
run_matter_events_short source n [] w h = refl
run_matter_events_short source n (r ∷ rounds) w (h, rest) =
    let here : pause (capped n) r.took ≡ capped n = unfold pause in ground arith in
    let later = run_matter_events_short source (suc n) rounds (source w).1 rest in
    elim (Bool-cases r.stopped) [
      | inl stopped ↦ rw (run_matter_events, stopped) refl
      | inr goes ↦ elim (Bool-cases r.stopped_waiting) [
        | inl stopped ↦ rw (run_matter_events, goes, stopped, here) refl
        | inr waits ↦ rw (run_matter_events, goes, waits, here, double-capped n, later) refl
      ]
    ]

-- the state after the listener has been run n times
abbrev pub after_runs : {W : Type 0} → Exec W Unit → ℕ → W → W
after_runs source zero w = w
after_runs source (suc n) w = after_runs source n (source w).1

-- the rounds end, and the context is still not done
abbrev pub GoesOn : Round → Type 0
GoesOn r = (r.stopped ≡ false) × (r.stopped_waiting ≡ false)

-- When the context is done, be it at the end of a run of the listener or during the pause after it, the
-- loop returns: it has run the listener once in every round so far, it has come to one pause in each
-- but the last, and there too if the context was not done before, and what could have come later
-- changes nothing.
pub run_matter_events_ends :
    {W : Type 0} (source : Exec W Unit) (backoff : ℕ) (going : List Round) (last : Round)
    (later : List Round) (w : W)
    → All GoesOn going
    → (last.stopped || last.stopped_waiting) ≡ true
    → let ended = run_matter_events source backoff (going ++ last ∷ later) w in
      (ended ≡ run_matter_events source backoff (going ++ last ∷ []) w)
      × (ended.1 ≡ after_runs source (suc (length going)) w)
      × (length ended.0 ≡ length going + (if last.stopped then 0 else 1))
unfolding run_matter_events
run_matter_events_ends source backoff [] last later w go done = elim (Bool-cases last.stopped) [
  | inl stopped ↦ rw (run_matter_events, stopped) (refl, refl, refl)
  | inr goes ↦
      let waiting : last.stopped_waiting ≡ true = ground arith in
      rw (run_matter_events, goes, waiting) (refl, refl, refl)
]
run_matter_events_ends source backoff (r ∷ going) last later w ((runs, waits), go) done =
    let (same, state, pauses) =
      run_matter_events_ends source (double (pause backoff r.took)) going last later (source w).1 go
        done in
    rw (run_matter_events, runs, waits)
      (ap (λ p. (pause backoff r.took ∷ p.0, p.1)) same, state, omega (arith, pauses))

-- What the listener keeps, the loop keeps.
pub run_matter_events-kept :
    {W : Type 0} (source : Exec W Unit) (I : W → Type 0) (backoff : ℕ) (rounds : List Round) (w : W)
    → ((v : W) → I v → I (source v).1)
    → I w
    → I (run_matter_events source backoff rounds w).1
unfolding run_matter_events
run_matter_events-kept source I backoff [] w k h = h
run_matter_events-kept source I backoff (r ∷ rounds) w k h =
    let later =
      run_matter_events-kept source I (double (pause backoff r.took)) rounds (source w).1 k
        (k w h) in
    elim (Bool-cases r.stopped) [
      | inl stopped ↦ rw (run_matter_events, stopped) (k w h)
      | inr goes ↦ elim (Bool-cases r.stopped_waiting) [
        | inl stopped ↦ rw (run_matter_events, goes, stopped) (k w h)
        | inr waits ↦ rw (run_matter_events, goes, waits) later
      ]
    ]
