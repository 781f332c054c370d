-- ===== src/Capability/Catalog/Supports.antt =====
-- What `supports` and the catalog promise.
use mathlib.Core.Path.{subst}
use manisa_app.Text.Trim.{is_empty}
use manisa_app.Prelude.{
  ℕ, zero, suc, ◌+◌, ◌≤◌, ◌<◌, ◌^◌, ◌≡◌, ◌≢◌, refl, length, ◌↔◌, inl, inr, String, Bool, true,
  false, ◌||◌, some, List, [], ◌∷◌, arith, ◌==◌, eq_iff, any, All, Any, All-lookup, Option-cases,
}
use manisa_app.Domain.{CapabilityDescriptor, EndpointDescriptor, DeviceDescriptor}
use manisa_app.Capability.Catalog.{
  on_off, level, channels, switch_descriptor, catalog, get, has_capability, supports,
}

-- The endpoint with this id lists a capability with that id.
abbrev pub Lists : String → EndpointDescriptor → Type 0
Lists id ep = Any (λ c. c.id ≡ id) ep.capabilities

abbrev pub Offers : ℕ → String → DeviceDescriptor → Type 0
Offers endpoint id d = Any (λ ep. (ep.id ≡ endpoint) × Lists id ep) d.endpoints

any_iff :
    {A : Type 0} (p : A → Bool) (P : A → Type 0) (xs : List A)
    → ((x : A) → (p x ≡ true) ↔ P x)
    → (any p xs ≡ true) ↔ Any P xs
any_iff p P [] h = ((λ e. cc), (λ a. elim a [ ]))
any_iff p P (x ∷ xs) h = ground (arith, h x, any_iff p P xs h)

has_capability_iff :
    (endpoints : List EndpointDescriptor) (e : ℕ) (id : String)
    → (has_capability endpoints e id ≡ true) ↔ Any (λ ep. (ep.id ≡ e) × Lists id ep) endpoints
unfolding has_capability
has_capability_iff endpoints e id = any_iff _ _ endpoints λ ep.
    let listed = any_iff (λ c. c.id == id) (λ c. c.id ≡ id) ep.capabilities (λ c. eq_iff c.id id) in
    ground (arith, listed)

-- `supports` holds exactly of the products of the catalog whose descriptor has an endpoint of that
-- id which lists the capability.
pub supports_iff :
    (product_type : String) (endpoint : ℕ) (id : String)
    → (supports product_type endpoint id ≡ true)
      ↔ ((d : DeviceDescriptor) × (get product_type ≡ some d) × Offers endpoint id d)
unfolding supports
supports_iff p e id = elim (Option-cases (get p)) [
  | inl missing ↦ ground arith
  | inr (d, found) ↦
      rw (found, supports)
        (
          (λ h. (d, refl, (has_capability_iff d.endpoints e id).0 h)),
          (λ other.
              let same : other.0 ≡ d = cc (other.1) in
              (has_capability_iff d.endpoints e id).1 (subst (Offers e id) same other.2)),
        )
]

channels_iff :
    (left i e : ℕ) (id : String)
    → (has_capability (channels left i) e id ≡ true) ↔ ((i ≤ e) × (e < i + left) × (id ≡ on_off))
unfolding has_capability channels
channels_iff zero i e id = ground arith
channels_iff (suc left) i e id = ground (arith, channels_iff left (i + 1) e id, eq_iff on_off id)

-- A switch of `gangs` gangs has on_off on the endpoints 1 to `gangs`, and nothing else.
pub switch_descriptor_iff :
    (product_type display_name : String) (gangs e : ℕ) (id : String)
    → (has_capability (switch_descriptor product_type display_name gangs).endpoints e id ≡ true)
      ↔ ((1 ≤ e) × (e ≤ gangs) × (id ≡ on_off))
unfolding switch_descriptor
switch_descriptor_iff p d gangs e id = ground (arith, channels_iff gangs 1 e id)

-- A capability of the catalog has a name, can be read, and is writable just if it is on_off or level.
abbrev pub IsCapability : CapabilityDescriptor → Type 0
IsCapability c =
    (is_empty c.id ≡ false) × (c.readable ≡ true) × (c.writable ≡ (c.id == on_off || c.id == level))

-- An endpoint's id is a positive uint16 that no later endpoint has, and it has a capability.
abbrev pub IsEndpoints : List EndpointDescriptor → Type 0
IsEndpoints [] = Unit
IsEndpoints (ep ∷ eps) =
    (0 < ep.id)
    × (ep.id < 2 ^ 16)
    × (0 < length ep.capabilities)
    × All IsCapability ep.capabilities
    × All (λ later. later.id ≢ ep.id) eps
    × IsEndpoints eps

abbrev pub IsEntry : String × DeviceDescriptor → Type 0
IsEntry e = (e.1.product_type ≡ e.0) × (0 < length e.1.endpoints) × IsEndpoints e.1.endpoints

catalog-IsEntry : All IsEntry catalog
unfolding catalog switch_descriptor channels
catalog-IsEntry = (
  (refl, omega arith, (omega arith, omega arith, omega arith, ((refl, refl, refl), tt), tt, tt)),
  (
    (
      refl,
      omega arith,
      (
        omega arith,
        omega arith,
        omega arith,
        ((refl, refl, refl), tt),
        (omega arith, tt),
        (omega arith, omega arith, omega arith, ((refl, refl, refl), tt), tt, tt),
      ),
    ),
    (
      (
        refl,
        omega arith,
        (
          omega arith,
          omega arith,
          omega arith,
          ((refl, refl, refl), tt),
          (omega arith, (omega arith, tt)),
          (
            omega arith,
            omega arith,
            omega arith,
            ((refl, refl, refl), tt),
            (omega arith, tt),
            (omega arith, omega arith, omega arith, ((refl, refl, refl), tt), tt, tt),
          ),
        ),
      ),
      (
        (
          refl,
          omega arith,
          (
            omega arith,
            omega arith,
            omega arith,
            ((refl, refl, refl), ((refl, refl, refl), tt)),
            tt,
            tt,
          ),
        ),
        (
          (
            refl,
            omega arith,
            (
              omega arith,
              omega arith,
              omega arith,
              ((refl, refl, refl), ((refl, refl, refl), ((refl, refl, refl), tt))),
              tt,
              tt,
            ),
          ),
          (
            (
              refl,
              omega arith,
              (
                omega arith,
                omega arith,
                omega arith,
                ((refl, refl, refl), ((refl, refl, refl), tt)),
                tt,
                tt,
              ),
            ),
            (
              (
                refl,
                omega arith,
                (omega arith, omega arith, omega arith, ((refl, refl, refl), tt), tt, tt),
              ),
              (
                (
                  refl,
                  omega arith,
                  (omega arith, omega arith, omega arith, ((refl, refl, refl), tt), tt, tt),
                ),
                tt,
              ),
            ),
          ),
        ),
      ),
    ),
  ),
)

-- The descriptor that `get` finds is that of the product asked for, and it is well formed.
pub get-IsEntry : (p : String) (d : DeviceDescriptor) → get p ≡ some d → IsEntry (p, d)
unfolding get
get-IsEntry p d h = All-lookup IsEntry p catalog d catalog-IsEntry h

Lists-IsCapability :
    (id : String) (cs : List CapabilityDescriptor)
    → All IsCapability cs
    → Any (λ c. c.id ≡ id) cs
    → is_empty id ≡ false
Lists-IsCapability id [] h l = elim l [ ]
Lists-IsCapability id (c ∷ cs) h (inl same) = rw (← same) h.0.0
Lists-IsCapability id (c ∷ cs) h (inr later) = Lists-IsCapability id cs h.1 later

Offers-IsEndpoints :
    (e : ℕ) (id : String) (eps : List EndpointDescriptor)
    → IsEndpoints eps
    → Any (λ ep. (ep.id ≡ e) × Lists id ep) eps
    → (0 < e) × (e < 2 ^ 16) × (is_empty id ≡ false)
Offers-IsEndpoints e id [] h o = elim o [ ]
Offers-IsEndpoints e id (ep ∷ eps) h (inl (same, lists)) =
    (omega arith, omega arith, Lists-IsCapability id ep.capabilities h.3 lists)
Offers-IsEndpoints e id (ep ∷ eps) h (inr later) = Offers-IsEndpoints e id eps h.5 later

-- What is supported has a positive uint16 as its endpoint, and a name.
pub supports_bounds :
    (p : String) (e : ℕ) (id : String)
    → supports p e id ≡ true
    → (0 < e) × (e < 2 ^ 16) × (is_empty id ≡ false)
supports_bounds p e id h =
    let (d, found, offers) = (supports_iff p e id).0 h in
    Offers-IsEndpoints e id d.endpoints (get-IsEntry p d found).2 offers
