-- ===== src/Auth/Tokens.antt =====
-- Who a request with a token speaks for.
use Prim.Native.String
use cc_005_offline_inspectio.Base.{
  ℕ, String, Bool, true, false, ◌+◌, ◌<◌, Option, none, some, ◌≡◌, refl, sym, ◌∙◌, inl, inr,
  Bool-cases,
}
use cc_005_offline_inspectio.Db.{User}
use cc_005_offline_inspectio.Tx.{Result, ok, err, World, Tx, pure, query, attempt, now, ◌>>=◌}
use cc_005_offline_inspectio.Tx.Inversion.{
  Returns, Returns-pure, Returns-bind, Returns-attempt, Returns-query, query-clock,
}
use cc_005_offline_inspectio.Auth.{
  Claims, Method, hmac, other_method, Jwt, Manager, claims_of, issue, key_for, parsed, parse,
  served, Session, user_named, issued, checked, login, strip, with_claims, with_token, auth,
}
use cc_005_offline_inspectio.Auth.Bearer.{strip-append, strip-some}

-- What package jwt documents: a token that was signed with the key that the function gives for its
-- method, and has not expired, is valid with its claims.
pub record AcceptsSigned (jwt : Jwt) : Type 0 where
  pub accepts :
      (keys : Method → Result String) (key t : String) (c : Claims) (at e : ℕ)
      → jwt.signed_string key c ≡ ok t
      → keys hmac ≡ ok key
      → c.expires_at ≡ some e
      → at < e
      → jwt.parse_with_claims keys at t ≡ ok (c, true)

-- A token is valid only if the function gives a key for its method, and its signature is one of the
-- method with the key.
pub record RejectsUnsigned (jwt : Jwt) (signature_fits : Method → String → String → Bool)
    : Type 0 where
  pub fits :
      (keys : Method → Result String) (at : ℕ) (t : String) (c : Claims)
      → jwt.parse_with_claims keys at t ≡ ok (c, true)
      → (method : Method) × (key : String) × (keys method ≡ ok key)
        × (signature_fits method key t ≡ true)

module _ (jwt : Jwt) (m : Manager) where
  -- A token that was issued to a user is parsed, until its time is over, with the user's id and name.
  pub parse-issue :
      AcceptsSigned jwt
      → (user_id : ℕ) (username t : String) (at later : ℕ) → issue jwt m at user_id username ≡ ok t
      → later < at + m.ttl
      → parse jwt m later t ≡ ok (claims_of m at user_id username)
  unfolding issue parse parsed
  parse-issue laws user_id username t at later made early =
      rw
        (laws.accepts (key_for m) m.secret t (claims_of m at user_id username) later (at + m.ttl)
          made refl refl early)
        refl

  module _ (matches : String → String → Bool) where
    -- a login has found the user, with a password that matches, and issued a token
    abbrev IsLogin : String → String → Result (Option User) → Session → World → Type 0
    IsLogin name password x s w =
        (u : User) × (x ≡ ok (some u))
        × (matches u.password_hash password ≡ true)
        × (s.user_id ≡ u.id)
        × (issue jwt m w.clock u.id name ≡ ok s.token)

    issued-token :
        (u : User) (name : String) (r : Result String) (s : Session)
        → issued jwt m matches u name r ≡ served s
        → (r ≡ ok s.token) × (s.user_id ≡ u.id)
    unfolding issued
    issued-token u name (err e) s h = cc h
    issued-token u name (ok t) s h = (cc h, cc h)

    checked-IsLogin :
        (name password : String) (x : Result (Option User)) (s : Session) (w w' : World)
        → Returns (checked jwt m matches name password x) w (served s) w'
        → IsLogin name password x s w
    unfolding checked now
    checked-IsLogin name password (err e) s w w' h =
        let (other, _) = Returns-pure _ (served s) w w' h in cc other
    checked-IsLogin name password (ok none) s w w' h =
        let (other, _) = Returns-pure _ (served s) w w' h in cc other
    checked-IsLogin name password (ok (some u)) s w w' h =
        elim (Bool-cases (matches u.password_hash password)) [
          | inr e ↦ let (other, _) = Returns-pure _ (served s) w w' (rw e at h) in cc other
          | inl e ↦
              let (at, v, clock, rest) = Returns-bind now _ w (served s) w' (rw e at h) in
              let time : w.clock ≡ at = cc clock.0 in
              let (answer, _) = Returns-pure _ (served s) v w' rest in
              let (made, same) = issued-token u name (issue jwt m at u.id name) s answer in
              (u, refl, e, same, rw time made)
        ]

    -- If a login is served, then the password matches the hash of the user of that name, and until its
    -- time is over, a request that bears the token of the login runs its handler for that user.
    pub login-auth :
        {A : Type 0}
        → AcceptsSigned jwt
        → (name password : String) (s : Session) (w w' : World)
        → Returns (login jwt m matches (some (name, password))) w (served s) w'
        → (u : User) × (user_named name w.db ≡ some u)
          × (matches u.password_hash password ≡ true)
          × (s.user_id ≡ u.id)
          × ((next : Claims → Tx A) (v : World)
              → v.clock < w.clock + m.ttl
              → auth jwt m next (String.◌++◌ "Bearer " s.token) v
                ≡ (next (claims_of m w.clock u.id name) >>= λ a. pure (served a)) v)
    unfolding login auth with_token with_claims ◌>>=◌
    login-auth {A} laws name password s w w' h =
        let (x, v, tried, rest) =
          Returns-bind (attempt (query (user_named name))) (checked jwt m matches name password) w
            (served s) w' h in
        let (found, left) = Returns-attempt (query (user_named name)) w x v tried in
        let (u, row, right, same, made) = checked-IsLogin name password x s v w' rest in
        let (here, _) = Returns-query (user_named name) w (some u) v (found ∙ row, left) in
        let clock : w.clock ≡ v.clock = rw (← left) (sym (query-clock (user_named name) w)) in
        (
          u,
          here,
          right,
          same,
          λ next z early.
              rw
                (
                  strip-append "Bearer " s.token,
                  parse-issue laws u.id name s.token w.clock z.clock (rw clock made) early,
                )
                refl,
        )

  parse-ok : (c : Claims) (r : Result (Claims × Bool)) → parsed r ≡ ok c → r ≡ ok (c, true)
  unfolding parsed
  parse-ok c (err e) h = cc h
  parse-ok c (ok (d, false)) h = cc h
  parse-ok c (ok (d, true)) h = cc h

  hmac-secret :
      (method : Method) (key : String)
      → key_for m method ≡ ok key
      → (method ≡ hmac) × (key ≡ m.secret)
  hmac-secret hmac key h = (refl, cc h)
  hmac-secret other_method key h = cc h

  module _ {A : Type 0} (signature_fits : Method → String → String → Bool)
      (laws : RejectsUnsigned jwt signature_fits) (next : Claims → Tx A) where
    -- the token's signature fits, and the handler ran for its claims
    abbrev pub IsServed : String → A → World → World → Type 0
    IsServed t a w w' =
        (c : Claims) × (parse jwt m w.clock t ≡ ok c)
        × (signature_fits hmac m.secret t ≡ true)
        × Returns (next c) w a w'

    parsed-IsServed :
        (t : String) (x : Result Claims) (a : A) (w w' : World)
        → parse jwt m w.clock t ≡ x
        → Returns (with_claims jwt m next x) w (served a) w'
        → IsServed t a w w'
    unfolding with_claims parse
    parsed-IsServed t (err e) a w w' p h =
        let (other, _) = Returns-pure _ (served a) w w' h in cc other
    parsed-IsServed t (ok c) a w w' p h =
        let (b, u, ran, last) = Returns-bind (next c) _ w (served a) w' h in
        let (answer, still) = Returns-pure _ (served a) u w' last in
        let (method, key, keyed, fit) = laws.fits (key_for m) w.clock t c (parse-ok c _ p) in
        let (is_hmac, is_secret) = hmac-secret method key keyed in
        let same : b ≡ a = cc answer in
        (c, p, rw (is_hmac, is_secret) at fit, (rw (← same) ran.0, ran.1 ∙ still))

    token-IsServed :
        (t : String) (a : A) (w w' : World)
        → Returns (with_token jwt m next (some t)) w (served a) w'
        → IsServed t a w w'
    unfolding with_token ◌>>=◌
    token-IsServed t a w w' h = parsed-IsServed t (parse jwt m w.clock t) a w w' refl h

    -- If a request is served, then its header bears a token whose signature fits the server's secret by
    -- an HMAC method, and its handler ran for the claims of that token.
    pub auth-served :
        (header : String) (a : A) (w w' : World)
        → Returns (auth jwt m next header) w (served a) w'
        → (t : String) × (header ≡ String.◌++◌ "Bearer " t) × IsServed t a w w'
    unfolding auth with_token
    auth-served header a w w' h = go (strip "Bearer " header) refl h
      where
        go :
            (x : Option String)
            → strip "Bearer " header ≡ x
            → Returns (with_token jwt m next x) w (served a) w'
            → (t : String) × (header ≡ String.◌++◌ "Bearer " t) × IsServed t a w w'
        go none e k = let (other, _) = Returns-pure _ (served a) w w' k in cc other
        go (some t) e k = (t, strip-some "Bearer " header t e, token-IsServed t a w w' k)
