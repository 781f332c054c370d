-- ===== src/Capability/State/Paths.antt =====
-- Attribute paths: what is accepted, and that a printed path is read back.
use Prim.Native.String
use Prim.Native.Char.{Char}
use manisa_app.Prelude.{ℕ, ◌<◌, ◌^◌, ◌≡◌, refl, String, some, List, [], ◌∷◌, arith}
use manisa_app.Text.Trim.{IsPlain, IsPlain-append, trim_space_of_IsPlain, is_space}
use manisa_app.Text.Split.{split, split-append, split_of_Avoids}
use manisa_app.Text.Number.{
  format_uint, parse_uint-lt, parse_uint-format_uint, format_uint-IsPlain, format_uint-Avoids,
}
use manisa_app.Capability.State.{parse_parts, parse_attribute_path}

-- "endpoint/cluster/attribute"
abbrev pub format_path : ℕ → ℕ → ℕ → String
format_path e c a =
    String.◌++◌ (format_uint e)
      (String.◌∷◌ "/" (String.◌++◌ (format_uint c) (String.◌∷◌ "/" (format_uint a))))

format_path-IsPlain : (e c a : ℕ) → IsPlain (format_path e c a)
unfolding is_space
format_path-IsPlain e c a =
    IsPlain-append (format_uint e) _ (format_uint-IsPlain e)
      (refl, IsPlain-append (format_uint c) _ (format_uint-IsPlain c) (refl, format_uint-IsPlain a))

split-format_path :
    (e c a : ℕ)
    → split b'/' (format_path e c a) ≡ format_uint e ∷ format_uint c ∷ format_uint a ∷ []
split-format_path e c a =
    let slash : Char = "/" in
    rw
      (
        split-append slash (format_uint e) _ (format_uint-Avoids e 47 (omega arith)),
        split-append slash (format_uint c) _ (format_uint-Avoids c 47 (omega arith)),
        split_of_Avoids 47 (format_uint a) (format_uint-Avoids a 47 (omega arith)),
      )
      refl

-- The printed path of an endpoint that is a positive uint16 and of a cluster and an attribute that
-- are uint32 is read back as these three numbers.
pub parse_attribute_path-format_path :
    (e c a : ℕ)
    → 0 < e
    → e < 2 ^ 16
    → c < 2 ^ 32
    → a < 2 ^ 32
    → parse_attribute_path (format_path e c a) ≡ some (e, c, a)
unfolding parse_attribute_path parse_parts
parse_attribute_path-format_path e c a pos he hc ha =
    rw
      (
        trim_space_of_IsPlain _ (format_path-IsPlain e c a),
        split-format_path e c a,
        parse_parts,
        parse_uint-format_uint 16 e he,
        parse_uint-format_uint 32 c hc,
        parse_uint-format_uint 32 a ha,
      )
      (ground arith)

parse_parts_bounds :
    (parts : List String) (e c a : ℕ)
    → parse_parts parts ≡ some (e, c, a)
    → (0 < e) × (e < 2 ^ 16) × (c < 2 ^ 32) × (a < 2 ^ 32)
unfolding parse_parts
parse_parts_bounds (p ∷ q ∷ r ∷ []) e c a h =
    ground (arith, parse_uint-lt 16 p e, parse_uint-lt 32 q c, parse_uint-lt 32 r a)
parse_parts_bounds _ e c a h = cc

-- The endpoint of a path that is accepted is a positive uint16; its cluster and attribute are uint32.
pub parse_attribute_path_bounds :
    (path : String) (e c a : ℕ)
    → parse_attribute_path path ≡ some (e, c, a)
    → (0 < e) × (e < 2 ^ 16) × (c < 2 ^ 32) × (a < 2 ^ 32)
unfolding parse_attribute_path
parse_attribute_path_bounds path e c a h = parse_parts_bounds _ e c a h
