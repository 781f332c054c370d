-- ===== src/Capability/State/Mapping.antt =====
-- Which attribute reports become states, and what the states hold.
use manisa_app.Prelude.{
  ℕ, ℤ, ◌<◌, ◌^◌, ◌≡◌, ◌⊎◌, ◌||◌, String, Bool, true, Option, some, none, arith, ◌==◌, eq_iff,
  if◌then◌else◌, Bool-cases, inl, inr, ◌>>=◌,
}
use manisa_app.Text.Trim.{is_empty}
use manisa_app.Float.{Float64, of_nat}
use manisa_app.Value.{Value, bool, int, float64}
use manisa_app.Capability.Catalog.{supports, on_off, level, temperature, humidity, motion, contact}
use manisa_app.Capability.Catalog.Supports.{supports_bounds}
use manisa_app.Capability.State.{
  StateMapping, capability_for, normalize_matter_value, level_value, nonzero, from_matter_attribute,
  bool_value, number_value,
}
use manisa_app.Capability.State.Paths.{format_path, parse_attribute_path-format_path}

is_empty_of_eq : (s : String) → s ≡ "" → is_empty s ≡ true
is_empty_of_eq s h = rw h

-- What a state of each capability holds: a Boolean, a whole number or a float.
abbrev pub Fits : {F : Type 0} → String → Value F → Type 0
Fits {F} id v =
    (((id ≡ on_off) ⊎ (id ≡ contact) ⊎ (id ≡ motion)) × ((b : Bool) × (v ≡ bool b)))
    ⊎ ((id ≡ level) × ((n : ℤ) × (v ≡ int n)))
    ⊎ (((id ≡ temperature) ⊎ (id ≡ humidity)) × ((x : F) × (v ≡ float64 x)))

abbrev pub mapping : {F : Type 0} → ℕ → String → Option (Value F) → Option (StateMapping F)
mapping e id none = none
mapping e id (some v) = some (record { endpoint = e; capability = id; value = v })

image :
    {A F : Type 0} (o : Option A) (g : A → Value F) (w : Value F)
    → (o >>= λ a. some (g a)) ≡ some w
    → (a : A) × (w ≡ g a)
image none g w h = cc
image (some a) g w h = (a, cc)

image' :
    {A B F : Type 0} (o : Option A) (f : A → B) (g : B → Value F) (w : Value F)
    → (o >>= λ a. some (g (f a))) ≡ some w
    → (b : B) × (w ≡ g b)
image' none f g w h = cc
image' (some a) f g w h = (f a, cc)

module _ {F : Type 0} ⦃fl : Float64 F⦄ where
  level_value-Fits : (x : F) (w : Value F) → level_value x ≡ some w → (n : ℤ) × (w ≡ int n)
  unfolding level_value
  level_value-Fits x w h =
      (fl.to_int (fl.round (fl.div (fl.mul x (of_nat 100)) (of_nat 254))), ground arith)

  level_image : (o : Option F) (w : Value F) → (o >>= level_value) ≡ some w → (n : ℤ) × (w ≡ int n)
  level_image none w h = cc
  level_image (some x) w h = level_value-Fits x w h

  normalize-Fits : (id : String) (v w : Value F) → normalize_matter_value id v ≡ some w → Fits id w
  unfolding normalize_matter_value
  normalize-Fits id v w h = elim (Bool-cases (id == on_off || id == contact)) [
    | inl t ↦ inl (
      ground (arith, eq_iff id on_off, eq_iff id contact),
      image (bool_value v) bool w (ground arith),
    )
    | inr f ↦ elim (Bool-cases (id == motion)) [
      | inl t ↦ inl (
        inr (inr ((eq_iff id motion).0 t)),
        image' (number_value v) (λ x. nonzero x) bool w (ground arith),
      )
      | inr f' ↦ elim (Bool-cases (id == level)) [
        | inl t ↦ inr (inl ((eq_iff id level).0 t, level_image (number_value v) w (ground arith)))
        | inr f'' ↦ inr (
            inr (
              ground (arith, eq_iff id temperature, eq_iff id humidity),
              image' (number_value v) (λ x. fl.div x (of_nat 100)) float64 w (ground arith),
            ))
      ]
    ]
  ]

  -- A report that becomes a state has an endpoint and a capability which the product supports, and
  -- the state's value is of the type that the capability has.
  pub from_matter_attribute_sound :
      (p path : String) (v : Value F) (m : StateMapping F)
      → from_matter_attribute p path v ≡ some m
      → (supports p m.endpoint m.capability ≡ true) × Fits m.capability m.value
  unfolding from_matter_attribute
  from_matter_attribute_sound p path v m h = ground (arith, normalize-Fits m.capability v m.value)

  -- The report of a well-formed path becomes a state just if the product supports the capability of
  -- the cluster and attribute on that endpoint and the value can be read as one of the capability.
  pub from_matter_attribute-format_path :
      (p : String) (e c a : ℕ) (v : Value F)
      → 0 < e
      → e < 2 ^ 16
      → c < 2 ^ 32
      → a < 2 ^ 32
      → from_matter_attribute p (format_path e c a) v ≡ (
          if supports p e (capability_for c a)
          then mapping e (capability_for c a) (normalize_matter_value (capability_for c a) v)
          else none)
  unfolding from_matter_attribute
  from_matter_attribute-format_path p e c a v pos he hc ha =
      rw (parse_attribute_path-format_path e c a pos he hc ha) (
        ground (
          arith,
          supports_bounds p e (capability_for c a),
          eq_iff (capability_for c a) "",
          is_empty_of_eq (capability_for c a),
        ))
