-- ===== src/Tests/Access.antt =====
-- The theorems on tokens and on the environment, at a token library of one token.
use text.Mathlib.TextEquality.{eq_iff}
use Prim.Native.Nat.{◌%◌}
use Prim.Native.String
use cc_005_offline_inspectio.Base.{
  ℕ, String, Bool, true, false, ◌&&◌, ◌<◌, Option, none, some, ◌≡◌, refl, ltb, ◌==◌, ==_iff,
  both_true, str_eq, if◌then◌else◌, arith, inl, inr, Bool-cases,
}
use cc_005_offline_inspectio.Base.Rows.{first}
use cc_005_offline_inspectio.Db.{User}
use cc_005_offline_inspectio.Tx.{
  Result, ok, err, Tx, World, attempt, pure, query, statement, now, ◌>>=◌,
}
use cc_005_offline_inspectio.Tx.Inversion.{Returns}
use cc_005_offline_inspectio.Auth.{
  Claims, Method, hmac, other_method, Jwt, Manager, claims_of, issue, parsed, parse, Answer, served,
  Session, user_named, issued, checked, login, strip, with_claims, with_token, auth, me, profile_of,
  Profile,
}
use cc_005_offline_inspectio.Auth.Tokens.{
  AcceptsSigned, RejectsUnsigned, login-auth, IsServed, auth-served,
}
use cc_005_offline_inspectio.Env.{env_int, int64_values}
use cc_005_offline_inspectio.Env.Digits.{all_digits, value, env_int_lem}
use cc_005_offline_inspectio.Tests.Setting.{alice, world}

abbrev pub manager : Manager
manager = record { secret = "secret"; ttl = 10 }

-- the claims of the only token: alice's, issued at 5
abbrev pub sample : Claims
sample = claims_of manager 5 alice "alice"

abbrev pub is_at : ℕ → Option ℕ → Bool
is_at n none = false
is_at n (some m) = n == m

unfoldable pub is_sample : Claims → Bool
is_sample c =
    c.user_id == alice
    && (str_eq c.username "alice"
        && (c.subject == alice && (is_at 5 c.issued_at && is_at 15 c.expires_at)))

abbrev pub signs : String → Claims → Result String
signs key c = if str_eq key "secret" && is_sample c then ok "t" else err "unsupported"

abbrev pub opens : ℕ → String → Result String → Result (Claims × Bool)
opens at t (err e) = err e
opens at t (ok key) =
    if str_eq key "secret" && (str_eq t "t" && ltb at 15) then ok (sample, true) else err "invalid"

abbrev pub jwt : Jwt
jwt = record { signed_string = signs; parse_with_claims = λ keys at t. opens at t (keys hmac) }

abbrev fits : Method → String → String → Bool
fits hmac key t = str_eq key "secret" && str_eq t "t"
fits other_method key t = false

jwt-RejectsUnsigned : RejectsUnsigned jwt fits
jwt-RejectsUnsigned = record { fits = λ keys at t c h. go keys at t c (keys hmac) refl h }
  where
    go :
        (keys : Method → Result String) (at : ℕ) (t : String) (c : Claims) (r : Result String)
        → keys hmac ≡ r
        → opens at t r ≡ ok (c, true)
        → (method : Method) × (key : String) × (keys method ≡ ok key) × (fits method key t ≡ true)
    go keys at t c (err e) k h = cc h
    go keys at t c (ok key) k h =
        elim (Bool-cases (str_eq key "secret" && (str_eq t "t" && ltb at 15))) [
          | inl e ↦ (hmac, key, k, ground arith)
          | inr e ↦ cc (rw e at h)
        ]

sample_unique : (c : Claims) → is_sample c ≡ true → sample ≡ c
unfolding is_sample
sample_unique c h =
    let (user, h1) = both_true (c.user_id == alice) _ h in
    let (name, h2) = both_true (str_eq c.username "alice") _ h1 in
    let (subject, h3) = both_true (c.subject == alice) _ h2 in
    let (issued_then, expires) = both_true (is_at 5 c.issued_at) (is_at 15 c.expires_at) h3 in
    rw
      (
        (==_iff c.user_id alice).0 user,
        (eq_iff c.username "alice").0 name,
        (==_iff c.subject alice).0 subject,
        at-some 5 c.issued_at issued_then,
        at-some 15 c.expires_at expires,
      )
      refl
  where
    at-some : (n : ℕ) (x : Option ℕ) → is_at n x ≡ true → x ≡ some n
    at-some n none e = cc e
    at-some n (some m) e = cc ((==_iff n m).0 e)

jwt-AcceptsSigned : AcceptsSigned jwt
jwt-AcceptsSigned = record { accepts = accepted }
  where
    accepted :
        (keys : Method → Result String) (key t : String) (c : Claims) (at e : ℕ)
        → signs key c ≡ ok t
        → keys hmac ≡ ok key
        → c.expires_at ≡ some e
        → at < e
        → opens at t (keys hmac) ≡ ok (c, true)
    accepted keys key t c at e signed keyed until early =
        elim (Bool-cases (str_eq key "secret" && is_sample c)) [
          | inr no_sample ↦ cc (rw no_sample at signed)
          | inl good ↦
              let (secret, same) = both_true (str_eq key "secret") (is_sample c) good in
              let token : "t" ≡ t = cc (rw good at signed) in
              let whole : sample ≡ c = sample_unique c same in
              let last : 15 ≡ e = cc (rw (← whole) at until) in
              let in_time : ltb at 15 ≡ true = ground (arith, last) in
              rw (keyed, ← token, secret, in_time, whole) refl
        ]

issued_token : issue jwt manager 5 alice "alice" ≡ ok "t"
unfolding issue is_sample
issued_token = refl

abbrev pub matches : String → String → Bool
matches hash password = str_eq password "demo1234"

abbrev session : Session
session = record { token = "t"; user_id = alice; username = "alice"; display_name = "alice" }

logged_in :
    Returns (login jwt manager matches (some ("alice", "demo1234"))) world (served session) world
unfolding login checked issued issue is_sample attempt pure query statement now first ◌>>=◌
logged_in = (refl, refl)

login-auth_example :
    (u : User) × (user_named "alice" world.db ≡ some u)
    × (matches u.password_hash "demo1234" ≡ true)
    × (alice ≡ u.id)
    × ((next : Claims → Tx (Answer Profile)) (v : World)
        → v.clock < 15
        → auth jwt manager next (String.◌++◌ "Bearer " "t") v
          ≡ (next (claims_of manager 5 u.id "alice") >>= λ a. pure (served a)) v)
login-auth_example =
    login-auth jwt manager matches jwt-AcceptsSigned "alice" "demo1234" session world world
      logged_in

abbrev profile : Answer Profile
profile = served (record { user_id = alice; username = "alice"; display_name = "alice" })

me_served : Returns (auth jwt manager me (String.◌++◌ "Bearer " "t")) world (served profile) world
unfolding auth strip with_token with_claims parse parsed me profile_of is_sample attempt pure query
    statement now first ◌>>=◌
me_served = (refl, refl)

auth-served_example :
    (t : String) × (String.◌++◌ "Bearer " "t" ≡ String.◌++◌ "Bearer " t)
    × IsServed jwt manager fits jwt-RejectsUnsigned me t profile world world
auth-served_example =
    auth-served jwt manager fits jwt-RejectsUnsigned me (String.◌++◌ "Bearer " "t") profile world
      world me_served

env_int_lem_example : env_int "8388608" 7 ≡ (
    if str_eq "8388608" ""
    then 7
    else if all_digits "8388608"
    then value "8388608" % int64_values
    else 7)
env_int_lem_example = env_int_lem "8388608" 7
