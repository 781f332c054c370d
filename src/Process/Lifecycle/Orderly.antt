-- ===== src/Process/Lifecycle/Orderly.antt =====
-- In which order main of cmd/manisa-core/main.go lets go of what it has made, and that it comes to its
-- end.
use manisa_app.Prelude.{
  ℕ, ◌≡◌, refl, ap, ◌∙◌, Bool, true, false, inl, inr, Bool-cases, Option, none, some, arith,
}
use manisa_app.Process.Lifecycle.{
  Point, advertises, serves, waits, cancels, shuts_down, withdraws, cancels_again, closes_db,
  returns, Server, unstarted, listening, shut, Process, main_step, made, Step, calls, server_fails,
  listener_returns, Life, starts, next,
}

-- How far the process is, by what main does next.
abbrev Reached : Point → (db_open : Bool) → Server → (cancelled advertised : Bool) → Type 0
Reached advertises db_open server cancelled advertised =
    (db_open ≡ true) × (server ≡ unstarted) × (advertised ≡ false)
Reached serves db_open server cancelled advertised = (db_open ≡ true) × (server ≡ unstarted)
Reached waits db_open server cancelled advertised = (db_open ≡ true) × (server ≡ listening)
Reached cancels db_open server cancelled advertised = (db_open ≡ true) × (server ≡ listening)
Reached shuts_down db_open server cancelled advertised =
    (db_open ≡ true) × (server ≡ listening) × (cancelled ≡ true)
Reached withdraws db_open server cancelled advertised =
    (db_open ≡ true) × (server ≡ shut) × (cancelled ≡ true)
Reached cancels_again db_open server cancelled advertised =
    (db_open ≡ true) × (server ≡ shut) × (cancelled ≡ true) × (advertised ≡ false)
Reached closes_db db_open server cancelled advertised =
    (db_open ≡ true) × (server ≡ shut) × (cancelled ≡ true) × (advertised ≡ false)
Reached returns db_open server cancelled advertised =
    (db_open ≡ false) × (server ≡ shut) × (cancelled ≡ true) × (advertised ≡ false)

abbrev Stands : Point → Process → Type 0
Stands at p = Reached at p.db_open p.server p.cancelled p.advertised

record IsOrderly (p : Process) : Type 0 where
  reached : Stands p.at p
  good_end : p.exit ≡ some 0 → p.at ≡ returns
  bad_end : p.exit ≡ some 1 → p.server ≡ listening
  follows : p.listener ≡ false → p.cancelled ≡ true

main_step-Reached :
    (at : Point) (succeeds : Bool) (p : Process)
    → p.at ≡ at
    → Stands at p
    → Stands (main_step at succeeds p).at (main_step at succeeds p)
unfolding main_step
main_step-Reached advertises succeeds p e h = ground arith
main_step-Reached serves succeeds p e h = ground arith
main_step-Reached waits succeeds p e h = ground arith
main_step-Reached cancels succeeds p e h = ground arith
main_step-Reached shuts_down succeeds p e h = elim (Bool-cases p.advertised) [
  | inl up ↦ rw up (ground arith)
  | inr down ↦ rw down (ground arith)
]
main_step-Reached withdraws succeeds p e h = ground arith
main_step-Reached cancels_again succeeds p e h = ground arith
main_step-Reached closes_db succeeds p e h = ground arith
main_step-Reached returns succeeds p e h = rw e h

main_step-ends :
    (at : Point) (succeeds : Bool) (p : Process)
    → p.at ≡ at
    → p.exit ≡ none
    → (p.listener ≡ false → p.cancelled ≡ true)
    → ((main_step at succeeds p).exit ≡ some 0 → (main_step at succeeds p).at ≡ returns)
      × ((main_step at succeeds p).exit ≡ some 1 → (main_step at succeeds p).server ≡ listening)
      × ((main_step at succeeds p).listener ≡ false → (main_step at succeeds p).cancelled ≡ true)
unfolding main_step
main_step-ends returns succeeds p e running follows = ((λ k. e), (λ k. cc), follows)
main_step-ends cancels succeeds p e running follows = ground arith
main_step-ends _ succeeds p e running follows = ground arith

main_step-IsOrderly :
    (at : Point) (succeeds : Bool) (p : Process)
    → p.at ≡ at
    → p.exit ≡ none
    → IsOrderly p
    → IsOrderly (main_step at succeeds p)
main_step-IsOrderly at succeeds p e running o =
    let h : Stands at p = rw (← e) o.reached in
    let (good, bad, follows) = main_step-ends at succeeds p e running o.follows in
    record {
      reached = main_step-Reached at succeeds p e h;
      good_end = good;
      bad_end = bad;
      follows = follows;
    }

Step-IsOrderly : {p q : Process} → Step p q → IsOrderly p → IsOrderly q
Step-IsOrderly {p} (calls succeeds running) o = main_step-IsOrderly p.at succeeds p refl running o
Step-IsOrderly {p} (server_fails running up) o = record {
  reached = o.reached;
  good_end = λ k. cc;
  bad_end = λ k. up;
  follows = o.follows;
}
Step-IsOrderly {p} (listener_returns running done) o = record {
  reached = o.reached;
  good_end = o.good_end;
  bad_end = o.bad_end;
  follows = λ k. done;
}

Life-IsOrderly : {p q : Process} → Life p q → IsOrderly p → IsOrderly q
Life-IsOrderly starts o = o
Life-IsOrderly (next l s) o = Step-IsOrderly s (Life-IsOrderly l o)

made-IsOrderly : IsOrderly made
made-IsOrderly = record {
  reached = (refl, refl, refl);
  good_end = λ k. cc;
  bad_end = λ k. cc;
  follows = λ k. cc;
}

Stands-released :
    (at : Point) (p : Process)
    → Stands at p
    → (p.db_open ≡ false → (p.server ≡ shut) × (p.cancelled ≡ true) × (p.advertised ≡ false))
      × (p.server ≡ listening → p.db_open ≡ true)
Stands-released returns p h = ground arith
Stands-released _ p h = ground arith

Stands-returns :
    (p : Process)
    → p.at ≡ returns
    → Stands p.at p
    → (p.db_open ≡ false) × (p.server ≡ shut) × (p.cancelled ≡ true) × (p.advertised ≡ false)
Stands-returns p e h = rw e at h

-- The database is closed only when the server is shut down, the listener's context is done and the
-- advertisement is withdrawn; an end with status 0 has done all of that; an end with status 1 comes
-- while the server listens, and leaves the database open; and the listener returns only when its
-- context is done.
abbrev pub Released : Process → Type 0
Released p =
    (p.db_open ≡ false → (p.server ≡ shut) × (p.cancelled ≡ true) × (p.advertised ≡ false))
    × (p.exit ≡ some 0
        → (p.db_open ≡ false) × (p.server ≡ shut) × (p.cancelled ≡ true) × (p.advertised ≡ false))
    × (p.exit ≡ some 1 → (p.server ≡ listening) × (p.db_open ≡ true))
    × (p.listener ≡ false → p.cancelled ≡ true)

-- So it is after a start that has made its parts, whatever happens.
pub Life-Released : (p : Process) → Life made p → Released p
Life-Released p life =
    let o = Life-IsOrderly life made-IsOrderly in
    let (closed, up) = Stands-released p.at p o.reached in
    (
      closed,
      λ ended. Stands-returns p (o.good_end ended) o.reached,
      λ ended. (o.bad_end ended, up (o.bad_end ended)),
      o.follows,
    )

clash : {status : ℕ} {e : Option ℕ} → e ≡ some status → e ≡ none → ⊥
clash a b = cc

-- A process that has ended stays as it is.
pub Life-ended : {p q : Process} (status : ℕ) → Life p q → p.exit ≡ some status → q ≡ p
Life-ended status starts e = refl
Life-ended {p} status (next {q} l (calls succeeds running)) e =
    let same = Life-ended status l e in
    absurd (clash (ap (λ (r : Process). r.exit) same ∙ e) running)
Life-ended {p} status (next {q} l (server_fails running up)) e =
    let same = Life-ended status l e in
    absurd (clash (ap (λ (r : Process). r.exit) same ∙ e) running)
Life-ended {p} status (next {q} l (listener_returns running done)) e =
    let same = Life-ended status l e in
    absurd (clash (ap (λ (r : Process). r.exit) same ∙ e) running)
