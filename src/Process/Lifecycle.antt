-- ===== src/Process/Lifecycle.antt =====
-- The life of the process in cmd/manisa-core/main.go, from where `main` has made its parts: the
-- goroutine of main, with what it has deferred, the one that serves, and the one that listens to
-- Matter.
pub mod Orderly
pub mod Ending
use manisa_app.Prelude.{
  ℕ, ◌<◌, ◌≡◌, refl, List, [], ◌∷◌, length, Bool, true, false, inl, inr, Bool-cases, Option, none,
  some, arith, if◌then◌else◌,
}
use manisa_app.Domain.Error.{Result, ok, err}

-- What main does next. The three last points are its deferred calls, the last deferred first.
pub data Point : Type 0 where
  advertises serves waits cancels shuts_down withdraws cancels_again closes_db returns : Point

pub data Server : Type 0 where
  unstarted listening shut : Server

pub record Process : Type 0 where
  pub at : Point
  -- the mDNS server is up; the context of the listener is done; the listener has not returned
  pub advertised : Bool
  pub cancelled : Bool
  pub listener : Bool
  pub server : Server
  -- requests that Shutdown has given up waiting for
  pub unfinished : Bool
  pub db_open : Bool
  -- the status that the process has ended with
  pub exit : Option ℕ

-- Advertiser.Close, which does nothing for nil
abbrev pub close_advertiser : Process → Process
close_advertiser p = record p { advertised = false }

-- One call of main. `succeeds` is its outcome: whether the advertisement is up, or whether all requests
-- were over when Shutdown returned.
unfoldable pub main_step : Point → Bool → Process → Process
main_step advertises succeeds p = record p { at = serves; advertised = succeeds }
main_step serves succeeds p = record p { at = waits; server = listening }
main_step waits succeeds p = record p { at = cancels }
main_step cancels succeeds p = record p { at = shuts_down; cancelled = true }
main_step shuts_down succeeds p = record p {
  at = if p.advertised then withdraws else cancels_again;
  server = shut;
  unfinished = if succeeds then false else true;
}
main_step withdraws succeeds p = record (close_advertiser p) { at = cancels_again }
main_step cancels_again succeeds p = record p { at = closes_db; cancelled = true }
main_step closes_db succeeds p = record p { at = returns; db_open = false }
main_step returns succeeds p = record p { exit = some 0 }

-- The process when its parts are made and the goroutine that listens has been started.
abbrev pub made : Process
made = record {
  at = advertises;
  advertised = false;
  cancelled = false;
  listener = true;
  server = unstarted;
  unfinished = false;
  db_open = true;
  exit = none;
}

-- What a start leads to, which has made the parts or not, and has left the database open or not.
abbrev pub entered : {A : Type 0} → Result A × Bool → Process
entered (ok parts, is_open) = record made { db_open = is_open }
entered (err e, is_open) = record made { listener = false; db_open = is_open; exit = some 1 }

-- What can happen while the process has not ended: main makes a call (for its wait, the signal comes);
-- ListenAndServe fails and os.Exit ends the process at once; the loop that listens returns, which it
-- does only when its context is done.
pub data Step (p : Process) : Process → Type 0 where
  calls : (succeeds : Bool) → p.exit ≡ none → Step p (main_step p.at succeeds p)
  server_fails : p.exit ≡ none → p.server ≡ listening → Step p (record p { exit = some 1 })
  listener_returns : p.exit ≡ none → p.cancelled ≡ true → Step p (record p { listener = false })

pub data Life (p : Process) : Process → Type 0 where
  starts : Life p p
  next : {q r : Process} → Life p q → Step q r → Life p r

-- The calls of main, with their outcomes, for as long as the process has not ended.
unfoldable pub finish : List Bool → Process → Process
finish [] p = p
finish (succeeds ∷ more) p = elim p.exit [
  | some status ↦ p
  | none ↦ finish more (main_step p.at succeeds p)
]
