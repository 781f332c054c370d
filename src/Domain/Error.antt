-- ===== src/Domain/Error.antt =====
-- Go errors: the sentinels of internal/domain/store.go, internal/application/service.go,
-- internal/auth/service.go and internal/adapters/matterjs/client.go, texts, and what
-- fmt.Errorf("…: %w", err) wraps. A method that changes a state and may fail is an `Exec`.
use manisa_app.Prelude.{ℕ, String, Bool, false, nat_eq}

pub data Sentinel : Type 0 where
  invalid_input device_not_commissioned unsupported_capability : Sentinel
  not_found unauthorized server_error : Sentinel

pub data Error : Type 0 where
  sentinel : Sentinel → Error
  message : String → Error
  wrapped : String → Error → Error

abbrev rank : Sentinel → ℕ
rank invalid_input = 0
rank device_not_commissioned = 1
rank unsupported_capability = 2
rank not_found = 3
rank unauthorized = 4
rank server_error = 5

-- errors.Is(err, target)
abbrev pub is : Error → Sentinel → Bool
is (sentinel s) target = nat_eq (rank s) (rank target)
is (message m) target = false
is (wrapped m e) target = is e target

pub data Result {ℓ} (A : Type ℓ) : Type ℓ where
  ok : A → Result A
  err : Error → Result A

-- What was written before an error stays written: the state comes back beside the error too.
abbrev pub Exec : Type 0 → Type 0 → Type 0
Exec S A = S → Result A × S

abbrev pub fail : {A : Type 0} → Sentinel → Result A
fail s = err (sentinel s)

-- fmt.Errorf("text: %w", err), and nil for nil
abbrev pub wrap : {A : Type 0} → String → Result A → Result A
wrap text (ok a) = ok a
wrap text (err e) = err (wrapped text e)
