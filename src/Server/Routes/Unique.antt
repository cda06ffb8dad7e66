-- ===== src/Server/Routes/Unique.antt =====
-- Which route of `Routes` in backend/internal/api/server.go takes a request: the mux looks for the most
-- specific pattern.
use mathlib.Core.List.{Memᴰ}
use cc_005_offline_inspectio.Base.{
  String, Bool, true, false, none, some, List, [], ◌∷◌, ◌≡◌, ◌⊎◌, inl, inr, refl, Bool-cases,
  Option-cases, if◌then◌else◌,
}
use cc_005_offline_inspectio.Server.Routes.{
  Route, Params, routes, fit, takes_method, Match, found, not_found, method_not_allowed, unmatched,
  pick, match,
}
use cc_005_offline_inspectio.Server.Routes.Apart.{
  apart, separate, each, distinct, IsFor, distinct_unique,
}

-- the pattern of some route fits
abbrev pub Fits : List Route → List String → Type 0
Fits rs path = (r : Route) × Memᴰ r rs × ((ps : Params) × (fit r.pattern path ≡ some ps))

-- what the loop over these routes makes of a request, when a route before them fitted if `known`
abbrev IsPick : List Route → Bool → String → List String → Match → Type 0
IsPick rs known method path (found e ps) =
    (r : Route) × Memᴰ r rs × IsFor r method path ps × (r.endpoint ≡ e)
IsPick rs known method path not_found =
    (known ≡ false) × ((r : Route) → Memᴰ r rs → fit r.pattern path ≡ none)
IsPick rs known method path method_not_allowed =
    ((known ≡ true) ⊎ Fits rs path)
    × ((r : Route) → Memᴰ r rs → (ps : Params) → IsFor r method path ps → ⊥)

pick-some :
    (r : Route) (rs : List Route) (method : String) (path : List String) (known : Bool)
    (ps : Params)
    → fit r.pattern path ≡ some ps
    → pick (r ∷ rs) method path known
      ≡ (if takes_method r.method method then found r.endpoint ps else pick rs method path true)
unfolding pick
pick-some r rs method path known ps e = rw (pick, e) refl

pick-none :
    (r : Route) (rs : List Route) (method : String) (path : List String) (known : Bool)
    → fit r.pattern path ≡ none
    → pick (r ∷ rs) method path known ≡ pick rs method path known
unfolding pick
pick-none r rs method path known e = rw (pick, e) refl

-- after a route that fits and is for another method
IsPick-some :
    (r : Route) (rs : List Route) (method : String) (path : List String) (known : Bool)
    (ps : Params)
    → fit r.pattern path ≡ some ps
    → takes_method r.method method ≡ false
    → (m : Match) → IsPick rs true method path m
    → IsPick (r ∷ rs) known method path m
IsPick-some r rs method path known ps e other (found a b) (s, m, takes, same) =
    (s, Memᴰ.tail m, takes, same)
IsPick-some r rs method path known ps e other not_found (h, _) = cc h
IsPick-some r rs method path known ps e other method_not_allowed (_, others) =
    (inr (r, Memᴰ.head refl, (ps, e)), refuses)
  where
    refuses : (s : Route) → Memᴰ s (r ∷ rs) → (qs : Params) → IsFor s method path qs → ⊥
    refuses s (Memᴰ.head k) qs (_, takes) = cc (rw k at takes, other)
    refuses s (Memᴰ.tail m) qs takes = others s m qs takes

-- after a route that does not fit
IsPick-none :
    (r : Route) (rs : List Route) (method : String) (path : List String) (known : Bool)
    → fit r.pattern path ≡ none
    → (m : Match) → IsPick rs known method path m
    → IsPick (r ∷ rs) known method path m
IsPick-none r rs method path known e (found a b) (s, m, takes, same) = (s, Memᴰ.tail m, takes, same)
IsPick-none r rs method path known e not_found (h, others) = (h, unfit)
  where
    unfit : (s : Route) → Memᴰ s (r ∷ rs) → fit s.pattern path ≡ none
    unfit s (Memᴰ.head k) = rw k e
    unfit s (Memᴰ.tail m) = others s m
IsPick-none r rs method path known e method_not_allowed (h, others) = (some_fits h, refuses)
  where
    some_fits : (known ≡ true) ⊎ Fits rs path → (known ≡ true) ⊎ Fits (r ∷ rs) path
    some_fits (inl k) = inl k
    some_fits (inr (s, m, fits)) = inr (s, Memᴰ.tail m, fits)

    refuses : (s : Route) → Memᴰ s (r ∷ rs) → (qs : Params) → IsFor s method path qs → ⊥
    refuses s (Memᴰ.head k) qs (fits, _) = cc (rw k at fits, e)
    refuses s (Memᴰ.tail m) qs takes = others s m qs takes

pick-IsPick :
    (rs : List Route) (method : String) (path : List String) (known : Bool)
    → IsPick rs known method path (pick rs method path known)
unfolding pick unmatched
pick-IsPick [] method path true = (inl refl, λ r m. elim m [ ])
pick-IsPick [] method path false = (refl, λ r m. elim m [ ])
pick-IsPick (r ∷ rs) method path known = elim (Option-cases (fit r.pattern path)) [
  | inl e ↦
      rw (pick-none r rs method path known e)
        (IsPick-none r rs method path known e _ (pick-IsPick rs method path known))
  | inr (ps, e) ↦ elim (Bool-cases (takes_method r.method method)) [
    | inl takes ↦
        rw (pick-some r rs method path known ps e, takes) (r, Memᴰ.head refl, (e, takes), refl)
    | inr other ↦
        rw (pick-some r rs method path known ps e, other)
          (IsPick-some r rs method path known ps e other _ (pick-IsPick rs method path true))
  ]
]

routes-distinct : distinct routes ≡ true
unfolding distinct routes each separate apart
routes-distinct = refl

-- what the mux owes to a request: the one route that takes it, with its path values; 405 if some
-- pattern fits and none of those is for the method; 404 if no pattern fits
abbrev pub IsDispatch : String → List String → Match → Type 0
IsDispatch method path (found e ps) =
    (r : Route) × Memᴰ r routes
    × IsFor r method path ps
    × (r.endpoint ≡ e)
    × ((s : Route) (qs : Params) → Memᴰ s routes → IsFor s method path qs → r ≡ s)
IsDispatch method path not_found = (r : Route) → Memᴰ r routes → fit r.pattern path ≡ none
IsDispatch method path method_not_allowed =
    Fits routes path × ((r : Route) → Memᴰ r routes → (ps : Params) → IsFor r method path ps → ⊥)

IsPick-IsDispatch :
    (method : String) (path : List String) (m : Match)
    → IsPick routes false method path m
    → IsDispatch method path m
IsPick-IsDispatch method path (found e ps) (r, m, takes, same) = (
  r,
  m,
  takes,
  same,
  λ s qs n other. distinct_unique routes r s method path ps qs routes-distinct m n takes other,
)
IsPick-IsDispatch method path not_found (_, others) = others
IsPick-IsDispatch method path method_not_allowed (inl h, others) = cc h
IsPick-IsDispatch method path method_not_allowed (inr fits, others) = (fits, others)

-- A request is passed to the one route whose method takes it and whose pattern fits its path, with the
-- path values. If there is none, its method is refused where the pattern of some route fits, and else it
-- is not found.
pub match-IsDispatch :
    (method : String) (path : List String) → IsDispatch method path (match method path)
unfolding match
match-IsDispatch method path =
    IsPick-IsDispatch method path _ (pick-IsPick routes method path false)
