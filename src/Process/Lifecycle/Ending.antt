-- ===== src/Process/Lifecycle/Ending.antt =====
-- That main of cmd/manisa-core/main.go comes to its end when the signal comes.
use manisa_app.Prelude.{
  suc, ◌≤◌, ◌⊎◌, Option-cases, ℕ, ◌≤◌, ◌<◌, ◌≡◌, refl, List, [], ◌∷◌, length, Bool, true, false,
  inl, inr, Bool-cases, none, some, arith,
}
use manisa_app.Process.Lifecycle.{
  Point, advertises, serves, waits, cancels, shuts_down, withdraws, cancels_again, closes_db,
  returns, shut, Process, main_step, made, calls, Life, next, finish,
}
use manisa_app.Process.Lifecycle.Orderly.{Life-Released}

abbrev calls_left : Point → ℕ
calls_left advertises = 8
calls_left serves = 7
calls_left waits = 6
calls_left cancels = 5
calls_left shuts_down = 4
calls_left withdraws = 3
calls_left cancels_again = 2
calls_left closes_db = 1
calls_left returns = 0

calls_left-main_step :
    (at : Point) (succeeds : Bool) (p : Process) (n : ℕ)
    → p.exit ≡ none
    → calls_left at < suc n
    → (((main_step at succeeds p).exit ≡ none) × (calls_left (main_step at succeeds p).at < n))
      ⊎ ((main_step at succeeds p).exit ≡ some 0)
unfolding main_step
calls_left-main_step returns succeeds p n running h = inr refl
calls_left-main_step shuts_down succeeds p n running h = elim (Bool-cases p.advertised) [
  | inl up ↦ inl (running, rw up (omega arith))
  | inr down ↦ inl (running, rw down (omega arith))
]
calls_left-main_step _ succeeds p n running h = inl (running, omega arith)

finish-ended :
    (outcomes : List Bool) (p : Process) → p.exit ≡ some 0 → (finish outcomes p).exit ≡ some 0
unfolding finish
finish-ended [] p e = e
finish-ended (succeeds ∷ more) p e = ground arith

finish-exit :
    (outcomes : List Bool) (p : Process)
    → p.exit ≡ none
    → calls_left p.at < length outcomes
    → (finish outcomes p).exit ≡ some 0
unfolding finish
finish-exit [] p running h = absurd (omega arith)
finish-exit (succeeds ∷ more) p running h =
    elim (calls_left-main_step p.at succeeds p (length more) running h) [
      | inl (goes, less) ↦
          rw (finish, running) (finish-exit more (main_step p.at succeeds p) goes less)
      | inr ended ↦ rw (finish, running) (finish-ended more (main_step p.at succeeds p) ended)
    ]

Life-finish :
    {p : Process} (outcomes : List Bool) (q : Process) → Life p q → Life p (finish outcomes q)
unfolding finish
Life-finish [] q life = life
Life-finish (succeeds ∷ more) q life = elim (Option-cases q.exit) [
  | inr (status, ended) ↦ rw (finish, ended) life
  | inl running ↦
      rw (finish, running)
        (Life-finish more (main_step q.at succeeds q) (next life (calls succeeds running)))
]

calls_left-le : (at : Point) → calls_left at < 9
calls_left-le returns = omega arith
calls_left-le _ = omega arith

-- From wherever the process is after a start that has made its parts, as long as it has not ended: nine
-- calls of main at most end it with status 0 if the signal comes and the server does not fail, whatever
-- their outcomes, and then the database is closed, the server is shut down, the listener's context is
-- done and the advertisement is withdrawn.
pub finish_ends :
    (outcomes : List Bool) (p : Process)
    → Life made p
    → p.exit ≡ none
    → 9 ≤ length outcomes
    → let end = finish outcomes p in
      (end.exit ≡ some 0)
      × (end.db_open ≡ false)
      × (end.server ≡ shut)
      × (end.cancelled ≡ true)
      × (end.advertised ≡ false)
finish_ends outcomes p life running enough =
    let less : calls_left p.at < length outcomes = omega (arith, calls_left-le p.at) in
    let ended = finish-exit outcomes p running less in
    let (closed, good, bad, follows) =
      Life-Released (finish outcomes p) (Life-finish outcomes p life) in
    let (db, server, context, advertisement) = good ended in
    (ended, db, server, context, advertisement)
