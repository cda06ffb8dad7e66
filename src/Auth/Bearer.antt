-- ===== src/Auth/Bearer.antt =====
-- The header of a request with a token.
use Prim.Native.String
use Prim.Native.String.append
use Prim.Native.Char.{code}
use text.Mathlib.TextEquality.{Char-path}
use cc_005_offline_inspectio.Base.{
  String, some, ◌==◌, ==_iff, ◌≡◌, refl, sym, ◌∙◌, inl, inr, Bool-cases,
}
use cc_005_offline_inspectio.Auth.{strip}

pub strip-append : (p s : String) → strip p (String.◌++◌ p s) ≡ some s
unfolding strip
strip-append String.[] s = rw (append.nil s) refl
strip-append (String.◌∷◌ c p) s =
    rw (append.cons c p s, (==_iff (code c) (code c)).1 refl) (strip-append p s)

pub strip-some : (p h s : String) → strip p h ≡ some s → h ≡ String.◌++◌ p s
unfolding strip
strip-some String.[] h s e = cc e ∙ sym (append.nil s)
strip-some (String.◌∷◌ c p) String.[] s e = cc e
strip-some (String.◌∷◌ c p) (String.◌∷◌ d h) s e = elim (Bool-cases (code c == code d)) [
  | inr other ↦ cc (rw other at e)
  | inl same ↦
      let eq : c ≡ d = Char-path c d ((==_iff (code c) (code d)).0 same) in
      let rest : h ≡ String.◌++◌ p s = strip-some p h s (rw same at e) in
      rw (append.cons c p s, eq, ← rest) refl
]
