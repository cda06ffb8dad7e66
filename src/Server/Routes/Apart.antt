-- ===== src/Server/Routes/Apart.antt =====
-- Routes of backend/internal/api/server.go that no request is taken by together.
use mathlib.Core.Path.{subst}
use mathlib.Core.List.{Memᴰ}
use cc_005_offline_inspectio.Base.{
  String, Bool, true, false, not, ◌&&◌, ◌||◌, some, List, [], ◌∷◌, ◌≡◌, ◌⊎◌, inl, inr, refl, sym,
  ◌∙◌, str_eq, eq_iff, both_true, Bool-cases, Option-cases,
}
use cc_005_offline_inspectio.Server.Routes.{
  Segment, literal, wildcard, Route, Params, fit, takes_method,
}

-- no path fits both patterns
unfoldable pub apart : List Segment → List Segment → Bool
apart [] [] = false
apart [] (q ∷ qs) = true
apart (p ∷ ps) [] = true
apart (literal s ∷ ps) (literal t ∷ qs) = not (str_eq s t) || apart ps qs
apart (literal s ∷ ps) (wildcard n ∷ qs) = apart ps qs
apart (wildcard n ∷ ps) (literal t ∷ qs) = apart ps qs
apart (wildcard n ∷ ps) (wildcard k ∷ qs) = apart ps qs

-- the first segment of a pattern that fits
abbrev IsTaken : Segment → String → Type 0
IsTaken (literal s) x = x ≡ s
IsTaken (wildcard n) x = Unit

fit-cons :
    (p : Segment) (ps : List Segment) (x : String) (xs : List String) (a : Params)
    → fit (p ∷ ps) (x ∷ xs) ≡ some a
    → IsTaken p x × ((b : Params) × (fit ps xs ≡ some b))
unfolding fit
fit-cons (literal s) ps x xs a h = elim (Bool-cases (str_eq x s)) [
  | inl e ↦ ((eq_iff x s).0 e, (a, rw e at h))
  | inr e ↦ cc (rw e at h)
]
fit-cons (wildcard n) ps x xs a h = elim (Option-cases (fit ps xs)) [
  | inl e ↦ elim (Bool-cases (str_eq x "")) [
    | inl k ↦ cc (rw (e, k) at h)
    | inr k ↦ cc (rw (e, k) at h)
  ]
  | inr (b, e) ↦ (tt, (b, e))
]

apart-fit :
    (ps qs : List Segment) (path : List String) (a b : Params)
    → apart ps qs ≡ true
    → fit ps path ≡ some a
    → fit qs path ≡ some b
    → ⊥
unfolding apart fit
apart-fit [] [] path a b h f g = cc h
apart-fit [] (q ∷ qs) [] a b h f g = cc g
apart-fit [] (q ∷ qs) (x ∷ xs) a b h f g = cc f
apart-fit (p ∷ ps) [] [] a b h f g = cc f
apart-fit (p ∷ ps) [] (x ∷ xs) a b h f g = cc g
apart-fit (p ∷ ps) (q ∷ qs) [] a b h f g = cc f
apart-fit (p ∷ ps) (q ∷ qs) (x ∷ xs) a b h f g =
    let (taken, (c, f')) = fit-cons p ps x xs a f in
    let (too, (d, g')) = fit-cons q qs x xs b g in
    apart-fit ps qs xs c d (rest p q h taken too) f' g'
  where
    rest :
        (p q : Segment)
        → apart (p ∷ ps) (q ∷ qs) ≡ true
        → IsTaken p x
        → IsTaken q x
        → apart ps qs ≡ true
    rest (literal s) (literal t) h e k = rw ((eq_iff s t).1 (sym e ∙ k)) at h
    rest (literal s) (wildcard n) h e k = h
    rest (wildcard n) (literal t) h e k = h
    rest (wildcard n) (wildcard m) h e k = h

-- no request is taken by both routes
unfoldable pub separate : Route → Route → Bool
separate r s = not (str_eq r.method s.method) || apart r.pattern s.pattern

unfoldable pub each : Route → List Route → Bool
each r [] = true
each r (s ∷ ss) = separate r s && each r ss

-- the routes are separate, and none of them is for HEAD
unfoldable pub distinct : List Route → Bool
distinct [] = true
distinct (r ∷ rs) = not (str_eq r.method "HEAD") && (each r rs && distinct rs)

-- a route takes a request with these path values
abbrev pub IsFor : Route → String → List String → Params → Type 0
IsFor r method path ps = (fit r.pattern path ≡ some ps) × (takes_method r.method method ≡ true)

either_true : (a b : Bool) → (a || b) ≡ true → (a ≡ true) ⊎ (b ≡ true)
either_true true b h = inl refl
either_true false b h = inr h

takes_method-cases :
    (p m : String) → takes_method p m ≡ true → (p ≡ m) ⊎ ((p ≡ "GET") × (m ≡ "HEAD"))
unfolding takes_method
takes_method-cases p m h = elim (either_true (str_eq m p) (str_eq p "GET" && str_eq m "HEAD") h) [
  | inl e ↦ inl (sym ((eq_iff m p).0 e))
  | inr e ↦
      let (get, head) = both_true (str_eq p "GET") (str_eq m "HEAD") e in
      inr ((eq_iff p "GET").0 get, (eq_iff m "HEAD").0 head)
]

not_head : (m : String) → not (str_eq m "HEAD") ≡ true → m ≡ "HEAD" → ⊥
not_head m h e = cc (rw ((eq_iff m "HEAD").1 e) at h)

-- routes that take one method are for one method
takes_method-same :
    (p q m : String)
    → not (str_eq p "HEAD") ≡ true
    → not (str_eq q "HEAD") ≡ true
    → takes_method p m ≡ true
    → takes_method q m ≡ true
    → p ≡ q
takes_method-same p q m hp hq tp tq = elim (takes_method-cases p m tp) [
  | inl e ↦ elim (takes_method-cases q m tq) [
    | inl k ↦ e ∙ sym k
    | inr (_, head) ↦ absurd (not_head p hp (e ∙ head))
  ]
  | inr (get, head) ↦ elim (takes_method-cases q m tq) [
    | inl k ↦ absurd (not_head q hq (k ∙ head))
    | inr (too, _) ↦ get ∙ sym too
  ]
]

separate-IsFor :
    (r s : Route) (method : String) (path : List String) (a b : Params)
    → separate r s ≡ true
    → not (str_eq r.method "HEAD") ≡ true
    → not (str_eq s.method "HEAD") ≡ true
    → IsFor r method path a
    → IsFor s method path b
    → ⊥
unfolding separate
separate-IsFor r s method path a b h hr hs (f, p) (g, q) =
    let same = takes_method-same r.method s.method method hr hs p q in
    apart-fit r.pattern s.pattern path a b (rw ((eq_iff r.method s.method).1 same) at h) f g

distinct-head :
    (s : Route) (rs : List Route)
    → distinct rs ≡ true
    → Memᴰ s rs
    → not (str_eq s.method "HEAD") ≡ true
unfolding distinct
distinct-head s [] h m = elim m [ ]
distinct-head s (r ∷ rs) h (Memᴰ.head e) =
    let (here, _) = both_true (not (str_eq r.method "HEAD")) _ h in rw e here
distinct-head s (r ∷ rs) h (Memᴰ.tail m) =
    let (_, later) = both_true (not (str_eq r.method "HEAD")) _ h in
    let (_, rest) = both_true (each r rs) (distinct rs) later in distinct-head s rs rest m

each-separate : (r s : Route) (rs : List Route) → each r rs ≡ true → Memᴰ s rs → separate r s ≡ true
unfolding each
each-separate r s [] h m = elim m [ ]
each-separate r s (x ∷ xs) h (Memᴰ.head e) =
    let (here, _) = both_true (separate r x) (each r xs) h in rw e here
each-separate r s (x ∷ xs) h (Memᴰ.tail m) =
    let (_, rest) = both_true (separate r x) (each r xs) h in each-separate r s xs rest m

-- the first of distinct routes and a later one do not take one request
distinct-cons :
    (x s : Route) (xs : List Route) (method : String) (path : List String) (a b : Params)
    → distinct (x ∷ xs) ≡ true
    → Memᴰ s xs
    → IsFor x method path a
    → IsFor s method path b
    → ⊥
unfolding distinct
distinct-cons x s xs method path a b h m f g =
    let (first, later) = both_true (not (str_eq x.method "HEAD")) _ h in
    let (all, rest) = both_true (each x xs) (distinct xs) later in
    separate-IsFor x s method path a b (each-separate x s xs all m) first
      (distinct-head s xs rest m) f g

-- one of distinct routes at most takes a request
pub distinct_unique :
    (rs : List Route) (r s : Route) (method : String) (path : List String) (a b : Params)
    → distinct rs ≡ true
    → Memᴰ r rs
    → Memᴰ s rs
    → IsFor r method path a
    → IsFor s method path b
    → r ≡ s
unfolding distinct
distinct_unique [] r s method path a b h m n f g = elim m [ ]
distinct_unique (x ∷ xs) r s method path a b h (Memᴰ.head e) (Memᴰ.head k) f g = e ∙ sym k
distinct_unique (x ∷ xs) r s method path a b h (Memᴰ.head e) (Memᴰ.tail m) f g =
    absurd (distinct-cons x s xs method path a b h m (subst (λ y. IsFor y method path a) e f) g)
distinct_unique (x ∷ xs) r s method path a b h (Memᴰ.tail m) (Memᴰ.head e) f g =
    absurd (distinct-cons x r xs method path b a h m (subst (λ y. IsFor y method path b) e g) f)
distinct_unique (x ∷ xs) r s method path a b h (Memᴰ.tail m) (Memᴰ.tail n) f g =
    let (_, later) = both_true (not (str_eq x.method "HEAD")) _ h in
    let (_, rest) = both_true (each x xs) (distinct xs) later in
    distinct_unique xs r s method path a b rest m n f g
