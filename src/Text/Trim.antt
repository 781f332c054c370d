-- ===== src/Text/Trim.antt =====
-- strings.TrimSpace: white space is dropped at both ends.
use Prim.Native.Char.{code}
use Prim.Native.String.{String, [], ◌∷◌}
use Prim.Native.String
use text.Mathlib.TextLemmas.{nil-append, cons-append}
use manisa_app.Prelude.{
  ℕ, ◌≡◌, refl, Bool, true, false, ◌&&◌, ◌||◌, leb, nat_eq, if◌then◌else◌, inl, inr, Bool-cases,
}

-- unicode.IsSpace
unfoldable pub is_space : ℕ → Bool
is_space c =
    (leb 9 c && leb c 13)
    || nat_eq c 32
    || nat_eq c 0x85
    || nat_eq c 0xa0
    || nat_eq c 0x1680
    || (leb 0x2000 c && leb c 0x200a)
    || nat_eq c 0x2028
    || nat_eq c 0x2029
    || nat_eq c 0x202f
    || nat_eq c 0x205f
    || nat_eq c 0x3000

abbrev pub is_empty : String → Bool
is_empty [] = true
is_empty (c ∷ s) = false

unfoldable pub trim_left : String → String
trim_left [] = ""
trim_left (c ∷ s) = let rest = trim_left s in if is_space (code c) then rest else c ∷ s

unfoldable pub trim_right : String → String
trim_right [] = ""
trim_right (c ∷ s) =
    let rest = trim_right s in if is_space (code c) && is_empty rest then "" else c ∷ rest

unfoldable pub trim_space : String → String
unfolding trim_left trim_right is_space
trim_space s = trim_right (trim_left s)

-- The first character, if there is one, is no white space.
abbrev StartsPlain : String → Type 0
StartsPlain [] = Unit
StartsPlain (c ∷ s) = is_space (code c) ≡ false

trim_left-StartsPlain : (s : String) → StartsPlain (trim_left s)
unfolding trim_left
trim_left-StartsPlain [] = tt
trim_left-StartsPlain (c ∷ s) = elim (Bool-cases (is_space (code c))) [
  | inl h ↦ rw h (trim_left-StartsPlain s)
  | inr h ↦ rw h h
]

trim_right-StartsPlain : (s : String) → StartsPlain s → StartsPlain (trim_right s)
unfolding trim_right
trim_right-StartsPlain [] h = tt
trim_right-StartsPlain (c ∷ s) h = rw h h

trim_left_of_StartsPlain : (s : String) → StartsPlain s → trim_left s ≡ s
unfolding trim_left
trim_left_of_StartsPlain [] h = refl
trim_left_of_StartsPlain (c ∷ s) h = rw h

trim_right_idem : (s : String) → trim_right (trim_right s) ≡ trim_right s
unfolding trim_right
trim_right_idem [] = refl
trim_right_idem (c ∷ s) = elim (Bool-cases (is_space (code c) && is_empty (trim_right s))) [
  | inl h ↦ rw h
  | inr h ↦ rw h (rw (trim_right_idem s, h))
]

-- A text that was trimmed is left alone.
pub trim_space_idem : (s : String) → trim_space (trim_space s) ≡ trim_space s
unfolding trim_space
trim_space_idem s =
    rw (trim_left_of_StartsPlain _ (trim_right-StartsPlain _ (trim_left-StartsPlain s)))
      (trim_right_idem (trim_left s))

-- No character is white space.
abbrev pub IsPlain : String → Type 0
IsPlain [] = Unit
IsPlain (c ∷ s) = (is_space (code c) ≡ false) × IsPlain s

trim_right_of_IsPlain : (s : String) → IsPlain s → trim_right s ≡ s
unfolding trim_right
trim_right_of_IsPlain [] h = refl
trim_right_of_IsPlain (c ∷ s) h = rw (h.0, trim_right_of_IsPlain s h.1)

trim_left_of_IsPlain : (s : String) → IsPlain s → trim_left s ≡ s
trim_left_of_IsPlain [] h = trim_left_of_StartsPlain [] tt
trim_left_of_IsPlain (c ∷ s) h = trim_left_of_StartsPlain (c ∷ s) h.0

pub trim_space_of_IsPlain : (s : String) → IsPlain s → trim_space s ≡ s
unfolding trim_space
trim_space_of_IsPlain s h = rw (trim_left_of_IsPlain s h) (trim_right_of_IsPlain s h)

pub IsPlain-append : (s t : String) → IsPlain s → IsPlain t → IsPlain (String.◌++◌ s t)
IsPlain-append [] t hs ht = rw nil-append ht
IsPlain-append (c ∷ s) t hs ht = rw cons-append (hs.0, IsPlain-append s t hs.1 ht)
