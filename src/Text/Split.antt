-- ===== src/Text/Split.antt =====
-- strings.Split at a separator of one character, and strings.HasPrefix.
use Prim.Native.Char.{Char, code}
use Prim.Native.String
use Prim.Native.String.{String}
use text.Mathlib.TextEquality.{Char-path}
use text.Mathlib.TextLemmas.{nil-append, cons-append}
use manisa_app.Prelude.{
  ℕ, Bool, true, false, ◌&&◌, ◌≡◌, ◌≢◌, refl, List, [], ◌∷◌, arith, nat_eq, if◌then◌else◌,
}

abbrev prepend : Char → List String → List String
prepend c [] = (String.◌∷◌ c "") ∷ []
prepend c (w ∷ ws) = (String.◌∷◌ c w) ∷ ws

-- strings.Split(s, sep), `sep` by its code
unfoldable pub split : ℕ → String → List String
split sep String.[] = "" ∷ []
split sep (String.◌∷◌ c s) =
    let rest = split sep s in if nat_eq (code c) sep then "" ∷ rest else prepend c rest

abbrev pub Avoids : ℕ → String → Type 0
Avoids sep String.[] = Unit
Avoids sep (String.◌∷◌ c s) = (code c ≢ sep) × Avoids sep s

pub split_of_Avoids : (sep : ℕ) (s : String) → Avoids sep s → split sep s ≡ s ∷ []
unfolding split
split_of_Avoids sep String.[] h = refl
split_of_Avoids sep (String.◌∷◌ c s) h = rw (split_of_Avoids sep s h.1) (ground arith)

-- Splitting takes off the part in front of the first separator.
pub split-append :
    (c : Char) (s t : String)
    → Avoids (code c) s
    → split (code c) (String.◌++◌ s (String.◌∷◌ c t)) ≡ s ∷ split (code c) t
unfolding split
split-append c String.[] t h = rw nil-append (ground arith)
split-append c (String.◌∷◌ d s) t h = rw cons-append (rw (split-append c s t h.1) (ground arith))

-- strings.HasPrefix(s, prefix)
unfoldable pub has_prefix : String → String → Bool
has_prefix String.[] s = true
has_prefix (String.◌∷◌ c p) String.[] = false
has_prefix (String.◌∷◌ c p) (String.◌∷◌ d s) = nat_eq (code c) (code d) && has_prefix p s

unfoldable pub drop_text : String → String → String
drop_text String.[] s = s
drop_text (String.◌∷◌ c p) String.[] = ""
drop_text (String.◌∷◌ c p) (String.◌∷◌ d s) = drop_text p s

-- strings.TrimPrefix(s, prefix)
unfoldable pub trim_prefix : String → String → String
unfolding drop_text
trim_prefix prefix s = if has_prefix prefix s then drop_text prefix s else s

-- concatenation, by the first text's characters
unfoldable pub append : String → String → String
append String.[] t = t
append (String.◌∷◌ c s) t = String.◌∷◌ c (append s t)

pub has_prefix-append : (p s : String) → has_prefix p s ≡ true → s ≡ append p (drop_text p s)
unfolding has_prefix drop_text append
has_prefix-append String.[] s h = refl
has_prefix-append (String.◌∷◌ c p) String.[] h = cc
has_prefix-append (String.◌∷◌ c p) (String.◌∷◌ d s) h =
    let same : c ≡ d = Char-path c d (ground arith) in
    rw (same, ← has_prefix-append p s (ground arith)) refl
