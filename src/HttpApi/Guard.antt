-- ===== src/HttpApi/Guard.antt =====
-- What the authentication lets through.
use manisa_app.Prelude.{
  ◌≡◌, ◌≢◌, refl, ap, ◌⊎◌, inl, inr, String, Bool, true, false, Option, none, some, List, [], ◌∷◌,
  ◌==◌, eq_iff, arith, Bool-cases, Option-cases,
}
use manisa_app.Float.{Float64}
use manisa_app.Domain.{LocalClient}
use manisa_app.Domain.Error.{ok}
use manisa_app.Text.Trim.{trim_space}
use manisa_app.Text.Split.{split, has_prefix, append, drop_text, has_prefix-append}
use manisa_app.Application.World.{Service, World, Exec-cases}
use manisa_app.Auth.{AuthService, hash_token, authenticate, pair}
use manisa_app.Auth.RoundTrip.{authenticate_lem}
use manisa_app.HttpApi.Route.{Route, live, ready, pairing, nowhere, route, route_api}
use manisa_app.HttpApi.Requests.{PairRequest, Request, decode_json}
use manisa_app.HttpApi.Handlers.{
  Env, decoded, Response, handle, serve_pair, serve_mux, serve, bearer, is_public, failure,
}

-- the routes that need no token
abbrev is_open : Route → Bool
is_open live = true
is_open ready = true
is_open pairing = true
is_open nowhere = true
is_open _ = false

route-health :
    (method : String) (ws : List String) → is_open (route method ("" ∷ "health" ∷ ws)) ≡ true
unfolding route
route-health method [] = refl
route-health method (b ∷ []) = ground arith
route-health method (b ∷ c ∷ more) = refl

route-pair : (method : String) → is_open (route method ("" ∷ "api" ∷ "v1" ∷ "pair" ∷ [])) ≡ true
unfolding route route_api
route-pair method = elim (Bool-cases (method == "POST")) [
  | inl post ↦ rw post refl
  | inr other ↦ rw other refl
]

split-pair : split b'/' "/api/v1/pair" ≡ "" ∷ "api" ∷ "v1" ∷ "pair" ∷ []
unfolding split
split-pair = refl

split-health : (s : String) → split b'/' (append "/health/" s) ≡ "" ∷ "health" ∷ split b'/' s
unfolding split append
split-health s = refl

route-is_public :
    (method path : String) → is_public path ≡ true → is_open (route method (split b'/' path)) ≡ true
route-is_public method path h = elim (Bool-cases (has_prefix "/health/" path)) [
  | inl t ↦
      rw (has_prefix-append "/health/" path t, split-health (drop_text "/health/" path))
        (route-health method _)
  | inr f ↦
      let e : path ≡ "/api/v1/pair" = (eq_iff path "/api/v1/pair").0 (ground arith) in
      rw (e, split-pair) (route-pair method)
]

module _ {S C F : Type 0} ⦃fl : Float64 F⦄ (svc : Service S C F) (auth : AuthService S F)
    (env : Env S F) where
  -- the fabric and the event bus as they were
  abbrev pub Untouched : World S C F → World S C F → Type 0
  Untouched w w' = (w'.fabric ≡ w.fabric) × (w'.events ≡ w.events)

  serve_pair-Untouched :
      (o : Option PairRequest) (w : World S C F)
      → Untouched w (decoded svc env o (serve_pair svc auth env) w).1
  unfolding serve_pair
  serve_pair-Untouched none w = (refl, refl)
  serve_pair-Untouched (some req) w =
      elim (Exec-cases
        (pair env.sum auth env.now env.raw env.random req.code req.client_name w.db)) [
          | inl (issued, s, h) ↦ rw (serve_pair, h) (refl, refl)
          | inr (e, s, h) ↦ rw (serve_pair, h) (refl, refl)
        ]

  handle-Untouched :
      (r : Route) (req : Request) (w : World S C F)
      → is_open r ≡ true
      → Untouched w (handle svc auth env r req w).1
  unfolding handle
  handle-Untouched live req w h = (refl, refl)
  handle-Untouched ready req w h = (refl, refl)
  handle-Untouched pairing req w h =
      serve_pair-Untouched (decode_json env.codec.pair_request req.body) w
  handle-Untouched nowhere req w h = (refl, refl)
  handle-Untouched r req w h = cc

  -- The request comes with the token of a client that the store has.
  pub record IsKnown (req : Request) (w : World S C F) : Type 0 where
    pub token : String
    pub client : LocalClient
    pub looked_up : S
    pub sent : bearer req.authorization ≡ some token
    pub full : trim_space token ≢ ""
    pub stored :
        auth.store.get_local_client_by_token_hash (hash_token env.sum auth (trim_space token)) w.db
        ≡ (ok client, looked_up)

  -- Serving a request either leaves the fabric and the event bus as they were, and its path is one
  -- that needs no token or the answer is 401; or the path is not such a one, the request has the
  -- token of a client that the store has, and the mux was given the request in a world that differs
  -- from the first in the database at most.
  pub serve_lem :
      (req : Request) (w w' : World S C F) (r : Response F)
      → serve svc auth env req w ≡ (r, w')
      → (Untouched w w' × ((is_public req.path ≡ true) ⊎ (r ≡ (401, failure "unauthorized"))))
        ⊎ ((is_public req.path ≡ false)
            × IsKnown req w
            × ((v : World S C F) × Untouched w v × (serve_mux svc auth env req v ≡ (r, w'))))
  unfolding serve serve_mux
  serve_lem req w w' r h = elim (Bool-cases (is_public req.path)) [
    | inl open_path ↦
        let quiet =
          handle-Untouched (route req.method (split b'/' req.path)) req w
            (route-is_public req.method req.path open_path) in
        let same : handle svc auth env (route req.method (split b'/' req.path)) req w ≡ (r, w') =
          ground arith in
        inl (rw (← ap (λ (p : Response F × World S C F). p.1) same) quiet, inl open_path)
    | inr closed ↦ elim (Option-cases (bearer req.authorization)) [
      | inl missing ↦ inl ((ground arith, ground arith), inr (ground arith))
      | inr (token, sent) ↦ elim (Exec-cases (authenticate env.sum auth token w.db)) [
        | inr (e, s, refused) ↦ inl ((ground arith, ground arith), inr (ground arith))
        | inl (client, s, admitted) ↦
            elim (authenticate_lem env.sum auth token w.db s (ok client) admitted) [
              | inl failed ↦ cc
              | inr (c, s1, full, stored, same, touched) ↦ inr (
                closed,
                record {
                  token = token;
                  client = c;
                  looked_up = s1;
                  sent = sent;
                  full = full;
                  stored = stored;
                },
                (record w { db = s }, (refl, refl), ground arith),
              )
            ]
      ]
    ]
  ]
