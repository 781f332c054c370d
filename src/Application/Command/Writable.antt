-- ===== src/Application/Command/Writable.antt =====
-- Which capabilities take commands.
use manisa_app.Prelude.{
  ℕ, ◌≡◌, ◌↔◌, inl, inr, refl, sym, ◌∙◌, Bool-cases, ◌||◌, String, Bool, true, List, [], ◌∷◌, some,
  All, Any, arith, ◌==◌, eq_iff,
}
use manisa_app.Float.{Float64, FloatLaws, of_nat}
use manisa_app.Value.{float64, Params}
use manisa_app.Domain.{CapabilityDescriptor, EndpointDescriptor, DeviceDescriptor}
use manisa_app.Domain.Error.{ok}
use manisa_app.Matter.{Command}
use manisa_app.Capability.Catalog.{on_off, level, get, supports}
use manisa_app.Capability.Catalog.Supports.{
  Lists, IsCapability, IsEndpoints, supports_iff, get-IsEntry,
}
use manisa_app.Application.Command.{DeviceCommandInput, map_device_command}
use manisa_app.Application.Command.Levels.{move_to_level, set_level_round_trip}

abbrev ListsWritable : String → List CapabilityDescriptor → Type 0
ListsWritable id cs = Any (λ c. (c.id ≡ id) × (c.writable ≡ true)) cs

-- The descriptor has an endpoint of that id which lists the capability as writable.
abbrev pub OffersWritable : ℕ → String → List EndpointDescriptor → Type 0
OffersWritable e id eps = Any (λ ep. (ep.id ≡ e) × ListsWritable id ep.capabilities) eps

abbrev is_commanded : String → Bool
is_commanded id = id == on_off || id == level

ListsWritable-of :
    (id : String) (cs : List CapabilityDescriptor)
    → All IsCapability cs
    → is_commanded id ≡ true
    → Any (λ c. c.id ≡ id) cs
    → ListsWritable id cs
ListsWritable-of id [] h k l = elim l [ ]
ListsWritable-of id (c ∷ cs) h k (inl same) = inl (same, h.0.2 ∙ (rw same k))
ListsWritable-of id (c ∷ cs) h k (inr later) = inr (ListsWritable-of id cs h.1 k later)

Lists-of :
    (id : String) (cs : List CapabilityDescriptor)
    → All IsCapability cs
    → ListsWritable id cs
    → Any (λ c. c.id ≡ id) cs × (is_commanded id ≡ true)
Lists-of id [] h l = elim l [ ]
Lists-of id (c ∷ cs) h (inl (same, w)) = (inl same, rw (← same) (sym h.0.2 ∙ w))
Lists-of id (c ∷ cs) h (inr later) = let (l, k) = Lists-of id cs h.1 later in (inr l, k)

OffersWritable-of :
    (e : ℕ) (id : String) (eps : List EndpointDescriptor)
    → IsEndpoints eps
    → is_commanded id ≡ true
    → Any (λ ep. (ep.id ≡ e) × Lists id ep) eps
    → OffersWritable e id eps
OffersWritable-of e id [] h k o = elim o [ ]
OffersWritable-of e id (ep ∷ eps) h k (inl (same, l)) =
    inl (same, ListsWritable-of id ep.capabilities h.3 k l)
OffersWritable-of e id (ep ∷ eps) h k (inr later) = inr (OffersWritable-of e id eps h.5 k later)

Offers-of :
    (e : ℕ) (id : String) (eps : List EndpointDescriptor)
    → IsEndpoints eps
    → OffersWritable e id eps
    → Any (λ ep. (ep.id ≡ e) × Lists id ep) eps × (is_commanded id ≡ true)
Offers-of e id [] h o = elim o [ ]
Offers-of e id (ep ∷ eps) h (inl (same, l)) =
    let (l', k) = Lists-of id ep.capabilities h.3 l in (inl (same, l'), k)
Offers-of e id (ep ∷ eps) h (inr later) = let (o, k) = Offers-of e id eps h.5 later in (inr o, k)

abbrev pub request : {F : Type 0} → ℕ → String → String → Params F → DeviceCommandInput F
request e id action params = record {
  endpoint = e;
  capability = id;
  action = action;
  params = params;
}

module _ (F : Type 0) ⦃fl : Float64 F⦄ where
  -- Some action with some parameters is mapped to a Matter command.
  abbrev pub IsCommandable : ℕ → String → Type 0
  IsCommandable e id =
      (action : String) × (params : Params F) × (c : Command F) × (map_device_command
          (request e id action params)
        ≡ ok c)

  commanded_of_ok :
      (input : DeviceCommandInput F) (c : Command F)
      → map_device_command input ≡ ok c
      → is_commanded input.capability ≡ true
  unfolding map_device_command
  commanded_of_ok input c h = ground arith

  -- A request of a supported capability that is mapped to a command is of a writable one.
  pub writable_of_command :
      (p : String) (input : DeviceCommandInput F) (c : Command F)
      → supports p input.endpoint input.capability ≡ true
      → map_device_command input ≡ ok c
      → (d : DeviceDescriptor) × (get p ≡ some d)
        × OffersWritable input.endpoint input.capability d.endpoints
  writable_of_command p input c supported mapped =
      let (d, found, offers) = (supports_iff p input.endpoint input.capability).0 supported in
      (
        d,
        found,
        OffersWritable-of input.endpoint input.capability d.endpoints (get-IsEntry p d found).2
            (commanded_of_ok input c mapped) offers,
      )

  on_off-IsCommandable : (e : ℕ) → IsCommandable e on_off
  unfolding map_device_command
  on_off-IsCommandable e =
      ("on", [], record { endpoint = e; cluster_id = 6; name = "on"; payload = [] }, refl)

  level-IsCommandable : (laws : FloatLaws fl) (e : ℕ) → IsCommandable e level
  level-IsCommandable laws e =
      let params : Params F = ("level", float64 (of_nat 0)) ∷ [] in
      let (m, mapped, _, _) =
        set_level_round_trip laws (request e level "set_level" params) 0
          (record { capability = refl; action = refl; param = refl }) (omega arith) in
      ("set_level", params, move_to_level e m, mapped)

  IsCommandable-of :
      (laws : FloatLaws fl) (e : ℕ) (id : String) → is_commanded id ≡ true → IsCommandable e id
  IsCommandable-of laws e id h = elim (Bool-cases (id == on_off)) [
    | inl t ↦ rw ((eq_iff id on_off).0 t) (on_off-IsCommandable e)
    | inr f ↦ rw ((eq_iff id level).0 (ground arith)) (level-IsCommandable laws e)
  ]

-- With floats that obey the laws, a capability that a product supports on an endpoint can be
-- commanded, by some action and parameters, just if the catalog marks it writable there.
pub IsCommandable-iff_writable :
    {F : Type 0} ⦃fl : Float64 F⦄ (laws : FloatLaws fl) (p : String) (e : ℕ) (id : String)
    → ((supports p e id ≡ true) × IsCommandable F e id)
      ↔ ((d : DeviceDescriptor) × (get p ≡ some d) × OffersWritable e id d.endpoints)
IsCommandable-iff_writable {F} laws p e id = (
  (λ (supported, (action, params, c, mapped)).
      writable_of_command F p (request e id action params) c supported mapped),
  (λ (d, found, offers).
      let (o, k) = Offers-of e id d.endpoints (get-IsEntry p d found).2 offers in
      ((supports_iff p e id).1 (d, found, o), IsCommandable-of F laws e id k)),
)
