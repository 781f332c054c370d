-- ===== src/Text/Base64.antt =====
-- base64.RawURLEncoding.EncodeToString
use Prim.Native.Char.{Char, code}
use manisa_app.Prelude.{
  ℕ, zero, suc, ◌+◌, ◌*◌, ◌/◌, ◌%◌, ◌<◌, ◌≡◌, refl, String, Bool, true, false, not, ◌&&◌, List, [],
  ◌∷◌, length, arith,
}
use manisa_app.Text.Trim.{is_space, is_empty, IsPlain}

abbrev alphabet : String
alphabet = "ABCDEFGHIJKLMNOPQRSTUVWXYZabcdefghijklmnopqrstuvwxyz0123456789-_"

char_at : ℕ → String → Char
char_at n String.[] = "A"
char_at zero (String.◌∷◌ c s) = c
char_at (suc n) (String.◌∷◌ c s) = char_at n s

-- the character of six bits
letter : ℕ → Char
letter n = char_at n alphabet

letters : List ℕ → String
unfolding letter char_at
letters [] = ""
letters (n ∷ ns) = String.◌∷◌ (letter n) (letters ns)

-- the bits of the bytes in groups of six, the last group filled up with zeros
sextets : List ℕ → List ℕ
sextets [] = []
sextets (a ∷ []) = (a / 4) ∷ (a % 4 * 16) ∷ []
sextets (a ∷ b ∷ []) = (a / 4) ∷ (a % 4 * 16 + b / 16) ∷ (b % 16 * 4) ∷ []
sextets (a ∷ b ∷ c ∷ rest) =
    (a / 4) ∷ (a % 4 * 16 + b / 16) ∷ (b % 16 * 4 + c / 64) ∷ (c % 64) ∷ sextets rest

unfoldable pub base64 : List ℕ → String
unfolding letters sextets
base64 bytes = letters (sextets bytes)

abbrev all_plain : String → Bool
all_plain String.[] = true
all_plain (String.◌∷◌ c s) = not (is_space (code c)) && all_plain s

plain_a : is_space (code "A") ≡ false
unfolding is_space
plain_a = refl

char_at_plain : (n : ℕ) (s : String) → all_plain s ≡ true → is_space (code (char_at n s)) ≡ false
unfolding char_at
char_at_plain n String.[] h = plain_a
char_at_plain zero (String.◌∷◌ c s) h = ground arith
char_at_plain (suc n) (String.◌∷◌ c s) h = char_at_plain n s (ground arith)

letter_plain : (n : ℕ) → is_space (code (letter n)) ≡ false
unfolding letter is_space
letter_plain n = char_at_plain n alphabet refl

letters-IsPlain : (ns : List ℕ) → IsPlain (letters ns)
unfolding letters
letters-IsPlain [] = tt
letters-IsPlain (n ∷ ns) = (letter_plain n, letters-IsPlain ns)

pub base64-IsPlain : (bytes : List ℕ) → IsPlain (base64 bytes)
unfolding base64
base64-IsPlain bytes = letters-IsPlain (sextets bytes)

pub is_empty-base64 : (bytes : List ℕ) → 0 < length bytes → is_empty (base64 bytes) ≡ false
unfolding base64 letters sextets
is_empty-base64 [] h = ground arith
is_empty-base64 (a ∷ []) h = refl
is_empty-base64 (a ∷ b ∷ []) h = refl
is_empty-base64 (a ∷ b ∷ c ∷ rest) h = refl
