-- ===== src/Text/Number.antt =====
-- strconv.ParseUint(s, 10, bits) and strconv.FormatUint(n, 10).
use Prim.Native.Char.{Char, code}
use Prim.Native.String.{String}
use manisa_app.Prelude.{
  ℕ, zero, suc, ◌+◌, ◌-◌, ◌*◌, ◌/◌, ◌%◌, ◌^◌, ◌≤◌, ◌<◌, ◌≡◌, refl, true, false, ◌&&◌, Option, none,
  some, arith, ltb, leb, if◌then◌else◌, ◌>>=◌, Bool-cases, Option-cases, inl, inr,
}
use manisa_app.Text.Trim.{is_space, is_empty, IsPlain}
use manisa_app.Text.Split.{Avoids}

-- The loop over the digits, from the value `n` read so far. The source's loop stops as soon as the
-- value is too large; here that is tested at the end, which refuses the same texts.
read_digits : ℕ → String → Option ℕ
read_digits n String.[] = some n
read_digits n (String.◌∷◌ c s) =
    let d = code c in
    let rest = read_digits (n * 10 + (d - 48)) s in if leb 48 d && leb d 57 then rest else none

-- An empty text, a character that is no digit and a value of 2 ^ bits or more are refused.
unfoldable pub parse_uint : ℕ → String → Option ℕ
unfolding read_digits
parse_uint bits s =
    if is_empty s then none else do n ← read_digits 0 s; if ltb n (2 ^ bits) then some n else none

pub parse_uint-lt : (bits : ℕ) (s : String) (n : ℕ) → parse_uint bits s ≡ some n → n < 2 ^ bits
unfolding parse_uint
parse_uint-lt bits s n h = ground arith

digit : ℕ → Char
digit zero = "0"
digit (suc zero) = "1"
digit (suc (suc zero)) = "2"
digit (suc (suc (suc zero))) = "3"
digit (suc (suc (suc (suc zero)))) = "4"
digit (suc (suc (suc (suc (suc zero))))) = "5"
digit (suc (suc (suc (suc (suc (suc zero)))))) = "6"
digit (suc (suc (suc (suc (suc (suc (suc zero))))))) = "7"
digit (suc (suc (suc (suc (suc (suc (suc (suc zero)))))))) = "8"
digit _ = "9"

-- The digits of `n` in front of `acc`; the first argument bounds their number.
write_digits : ℕ → ℕ → String → String
write_digits zero n acc = acc
write_digits (suc f) n acc =
    let here = String.◌∷◌ (digit (n % 10)) acc in
    let more = write_digits f (n / 10) here in if ltb n 10 then here else more

-- A number has fewer digits than its value plus one.
unfoldable pub format_uint : ℕ → String
unfolding write_digits digit
format_uint n = write_digits (suc n) n ""

code-digit : (d : ℕ) → d < 10 → code (digit d) ≡ 48 + d
unfolding digit
code-digit zero h = refl
code-digit (suc zero) h = refl
code-digit (suc (suc zero)) h = refl
code-digit (suc (suc (suc zero))) h = refl
code-digit (suc (suc (suc (suc zero)))) h = refl
code-digit (suc (suc (suc (suc (suc zero))))) h = refl
code-digit (suc (suc (suc (suc (suc (suc zero)))))) h = refl
code-digit (suc (suc (suc (suc (suc (suc (suc zero))))))) h = refl
code-digit (suc (suc (suc (suc (suc (suc (suc (suc zero)))))))) h = refl
code-digit (suc (suc (suc (suc (suc (suc (suc (suc (suc zero))))))))) h = refl
code-digit (suc (suc (suc (suc (suc (suc (suc (suc (suc (suc d)))))))))) h = absurd (omega arith)

read_digits-digit :
    (m d : ℕ) (s : String)
    → d < 10
    → read_digits m (String.◌∷◌ (digit d) s) ≡ read_digits (m * 10 + d) s
unfolding read_digits
read_digits-digit m d s h =
    let back : 48 + d - 48 ≡ d = omega arith in
    let ok : (leb 48 (48 + d) && leb (48 + d) 57) ≡ true = ground arith in
    rw (code-digit d h, back, ok) refl

read_digits-write_digits :
    (f n : ℕ) (acc : String) → n < f → read_digits 0 (write_digits f n acc) ≡ read_digits n acc
unfolding write_digits
read_digits-write_digits zero n acc h = absurd (omega arith)
read_digits-write_digits (suc f) n acc h = ground (
  arith,
  read_digits-digit 0 (n % 10) acc,
  read_digits-digit (n / 10) (n % 10) acc,
  read_digits-write_digits f (n / 10) (String.◌∷◌ (digit (n % 10)) acc),
)

-- Every character is a decimal digit.
abbrev pub IsDecimal : String → Type 0
IsDecimal String.[] = Unit
IsDecimal (String.◌∷◌ c s) = (48 ≤ code c) × (code c ≤ 57) × IsDecimal s

write_digits-IsDecimal : (f n : ℕ) (acc : String) → IsDecimal acc → IsDecimal (write_digits f n acc)
unfolding write_digits
write_digits-IsDecimal zero n acc h = h
write_digits-IsDecimal (suc f) n acc h =
    let e = code-digit (n % 10) (omega arith) in
    let here = String.◌∷◌ (digit (n % 10)) acc in
    let ok : IsDecimal here = (omega arith, omega arith, h) in
    let more : IsDecimal (write_digits f (n / 10) here) =
      write_digits-IsDecimal f (n / 10) here ok in
    elim (Bool-cases (ltb n 10)) [ inl e ↦ rw e ok | inr e ↦ rw e more ]

is_empty-write_digits :
    (f n : ℕ) (acc : String) → is_empty acc ≡ false → is_empty (write_digits f n acc) ≡ false
unfolding write_digits
is_empty-write_digits zero n acc h = h
is_empty-write_digits (suc f) n acc h = elim (Bool-cases (ltb n 10)) [
  | inl e ↦ rw e
  | inr e ↦ rw e (is_empty-write_digits f (n / 10) _ refl)
]

is_empty-format_uint : (n : ℕ) → is_empty (format_uint n) ≡ false
unfolding format_uint
is_empty-format_uint n = elim (Bool-cases (ltb n 10)) [
  | inl e ↦ rw e
  | inr e ↦ rw e (is_empty-write_digits n (n / 10) _ refl)
]

read_digits-format_uint : (n : ℕ) → read_digits 0 (format_uint n) ≡ some n
unfolding format_uint read_digits
read_digits-format_uint n = read_digits-write_digits (suc n) n "" (omega arith)

-- A number that fits is read back from its digits.
pub parse_uint-format_uint : (bits n : ℕ) → n < 2 ^ bits → parse_uint bits (format_uint n) ≡ some n
unfolding parse_uint
parse_uint-format_uint bits n h =
    rw (is_empty-format_uint n, read_digits-format_uint n) (ground arith)

format_uint-IsDecimal : (n : ℕ) → IsDecimal (format_uint n)
unfolding format_uint
format_uint-IsDecimal n = write_digits-IsDecimal (suc n) n "" tt

IsPlain-of_IsDecimal : (s : String) → IsDecimal s → IsPlain s
unfolding is_space
IsPlain-of_IsDecimal String.[] h = tt
IsPlain-of_IsDecimal (String.◌∷◌ c s) h = (ground arith, IsPlain-of_IsDecimal s h.2)

Avoids-of_IsDecimal : (sep : ℕ) (s : String) → sep < 48 → IsDecimal s → Avoids sep s
Avoids-of_IsDecimal sep String.[] lt h = tt
Avoids-of_IsDecimal sep (String.◌∷◌ c s) lt h = (omega arith, Avoids-of_IsDecimal sep s lt h.2)

pub format_uint-IsPlain : (n : ℕ) → IsPlain (format_uint n)
format_uint-IsPlain n = IsPlain-of_IsDecimal _ (format_uint-IsDecimal n)

pub format_uint-Avoids : (n sep : ℕ) → sep < 48 → Avoids sep (format_uint n)
format_uint-Avoids n sep h = Avoids-of_IsDecimal sep _ h (format_uint-IsDecimal n)

Avoids-above-of_IsDecimal : (sep : ℕ) (s : String) → 57 < sep → IsDecimal s → Avoids sep s
Avoids-above-of_IsDecimal sep String.[] lt h = tt
Avoids-above-of_IsDecimal sep (String.◌∷◌ c s) lt h =
    (omega arith, Avoids-above-of_IsDecimal sep s lt h.2)

pub format_uint-Avoids_above : (n sep : ℕ) → 57 < sep → Avoids sep (format_uint n)
format_uint-Avoids_above n sep h = Avoids-above-of_IsDecimal sep _ h (format_uint-IsDecimal n)

IsDecimal-of_read_digits : (n m : ℕ) (s : String) → read_digits n s ≡ some m → IsDecimal s
unfolding read_digits
IsDecimal-of_read_digits n m String.[] h = tt
IsDecimal-of_read_digits n m (String.◌∷◌ c s) h =
    let rest = IsDecimal-of_read_digits (n * 10 + (code c - 48)) m s in
    elim (Bool-cases (leb 48 (code c) && leb (code c) 57)) [
      | inl t ↦ (ground arith, ground arith, rest (ground arith))
      | inr f ↦ ground arith
    ]

-- What is read as a number has no white space.
pub parse_uint-IsPlain : (bits n : ℕ) (s : String) → parse_uint bits s ≡ some n → IsPlain s
unfolding parse_uint
parse_uint-IsPlain bits n s h = elim (Option-cases (read_digits 0 s)) [
  | inl refused ↦ ground arith
  | inr (m, e) ↦ IsPlain-of_IsDecimal s (IsDecimal-of_read_digits 0 m s e)
]
