-- ===== src/Platform/Id.antt =====
-- internal/platform/id: an identifier is a prefix and 16 random bytes in hexadecimal. The bytes are
-- the random source's answer, `none` if it fails.
pub mod Unique
use Prim.Native.Char.{Char}
use Prim.Native.String
use manisa_app.Prelude.{ℕ, zero, suc, ◌+◌, ◌/◌, ◌%◌, String, Option, none, some, List, [], ◌∷◌}
use manisa_app.Domain.Error.{Result, ok, err, message, wrapped}

hex_digit : ℕ → Char
hex_digit zero = "0"
hex_digit (suc zero) = "1"
hex_digit (suc (suc zero)) = "2"
hex_digit (suc (suc (suc zero))) = "3"
hex_digit (suc (suc (suc (suc zero)))) = "4"
hex_digit (suc (suc (suc (suc (suc zero))))) = "5"
hex_digit (suc (suc (suc (suc (suc (suc zero)))))) = "6"
hex_digit (suc (suc (suc (suc (suc (suc (suc zero))))))) = "7"
hex_digit (suc (suc (suc (suc (suc (suc (suc (suc zero)))))))) = "8"
hex_digit (suc (suc (suc (suc (suc (suc (suc (suc (suc zero))))))))) = "9"
hex_digit (suc (suc (suc (suc (suc (suc (suc (suc (suc (suc zero)))))))))) = "a"
hex_digit (suc (suc (suc (suc (suc (suc (suc (suc (suc (suc (suc zero))))))))))) = "b"
hex_digit (suc (suc (suc (suc (suc (suc (suc (suc (suc (suc (suc (suc zero)))))))))))) = "c"
hex_digit (suc (suc (suc (suc (suc (suc (suc (suc (suc (suc (suc (suc (suc zero))))))))))))) = "d"
hex_digit (suc (suc (suc (suc (suc (suc (suc (suc (suc (suc (suc (suc (suc (suc zero)))))))))))))) =
    "e"
hex_digit _ = "f"

-- hex.EncodeToString
unfoldable pub hex_encode : List ℕ → String
unfolding hex_digit
hex_encode [] = ""
hex_encode (b ∷ bytes) =
    String.◌∷◌ (hex_digit (b / 16)) (String.◌∷◌ (hex_digit (b % 16)) (hex_encode bytes))

unfoldable pub new_id : Option (List ℕ) → String → Result String
new_id none prefix = err (wrapped "generate id" (message "random source"))
new_id (some bytes) prefix = ok (String.◌++◌ prefix (String.◌++◌ "_" (hex_encode bytes)))
