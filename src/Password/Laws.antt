-- ===== src/Password/Laws.antt =====
-- A protected password validates, and only with a password of the same digest:
-- src/modules/app/user/services/User.service.ts.
use Prim.Native.Char.{Char}
use text.Mathlib.TextLemmas.{nil-append, cons-append, append-eq-nil_iff}
use node_back_end_boilerplat.Prelude.{
  String, ◌≡◌, ◌≢◌, refl, true, Option, none, some, arith, eq_iff, join_text, Bool-cases, is_truthy,
  ◌==◌, ◌∷◌, [], Option-cases, ◌∙◌, ap, inl, inr, sym, if◌then◌else◌,
}
use node_back_end_boilerplat.Effects.{ok, err, bind_result}
use node_back_end_boilerplat.Text.{split, Lacks, first, second}
use node_back_end_boilerplat.Text.Laws.{split_of_Lacks, split-join_text}
use node_back_end_boilerplat.Password.{
  Crypto, hash_password, check_hash, validate_password, protect_password, check_parts,
  compare_buffer,
}
use node_back_end_boilerplat.Exceptions.{Thrown}

abbrev bar : Char
bar = "|"

bar-join_text : (hash : String) → join_text "|" hash ≡ String.◌∷◌ bar hash
bar-join_text hash = cons-append bar String.[] hash ∙ ap (String.◌∷◌ bar) (nil-append hash)

split_bar :
    (salt hash : String)
    → Lacks b'|' salt
    → Lacks b'|' hash
    → split b'|' (join_text salt (join_text "|" hash)) ≡ salt ∷ hash ∷ []
split_bar salt hash hs hh =
    rw (bar-join_text hash, split-join_text b'|' salt hash bar hs refl, split_of_Lacks b'|' hash hh)
      refl

is_truthy-some : (s : String) → s ≢ "" → is_truthy (some s) ≡ true
is_truthy-some s h = ground (arith, eq_iff s "")

is_truthy_inv : (o : Option String) → is_truthy o ≡ true → (s : String) × (o ≡ some s) × (s ≢ "")
is_truthy_inv none h = cc
is_truthy_inv (some s) h = (s, refl, ground (arith, eq_iff s ""))

buffers_agree :
    (s t : String) (e : Thrown)
    → bind_result (compare_buffer s t) (λ same. if same then ok (tt {0}) else err e) ≡ ok (tt {0})
    → s ≡ t
buffers_agree s t e h = ground (arith, eq_iff s t)

buffers_same :
    (s : String) (e : Thrown)
    → bind_result (compare_buffer s s) (λ same. if same then ok (tt {0}) else err e) ≡ ok (tt {0})
buffers_same s e = ground (arith, eq_iff s s)

check_hash_self :
    (crypto : Crypto) (salt hash plain : String)
    → hash_password crypto plain salt ≡ some hash
    → check_hash crypto salt hash plain ≡ ok tt
unfolding check_hash
check_hash_self crypto salt hash plain e = rw e (buffers_same hash _)

check_hash_sound :
    (crypto : Crypto) (salt hash plain : String)
    → hash ≢ ""
    → check_hash crypto salt hash plain ≡ ok tt
    → hash_password crypto plain salt ≡ some hash
unfolding check_hash
check_hash_sound crypto salt hash plain n h =
    elim (Option-cases (hash_password crypto plain salt)) [
      | inl missing ↦ absurd (n (buffers_agree hash "" _ (rw missing at h)))
      | inr (given, e) ↦ e ∙ ap some (sym (buffers_agree hash given _ (rw e at h)))
    ]

protect_password_lem :
    (crypto : Crypto) (salt plain hash : String)
    → salt ≢ ""
    → hash ≢ ""
    → hash_password crypto plain salt ≡ some hash
    → protect_password crypto salt plain ≡ ok (join_text salt (join_text "|" hash))
unfolding protect_password
protect_password_lem crypto salt plain hash ns nh e =
    rw e (ground (arith, eq_iff salt "", eq_iff hash ""))

check_parts_both :
    (crypto : Crypto) (salt hash plain : String)
    → salt ≢ ""
    → hash ≢ ""
    → check_parts crypto (some salt) (some hash) plain ≡ check_hash crypto salt hash plain
unfolding check_parts
check_parts_both crypto salt hash plain ns nh = ground (arith, eq_iff salt "", eq_iff hash "")

validate_stored :
    (crypto : Crypto) (salt plain hash : String)
    → salt ≢ ""
    → hash ≢ ""
    → Lacks b'|' salt
    → Lacks b'|' hash
    → hash_password crypto plain salt ≡ some hash
    → validate_password crypto (some (join_text salt (join_text "|" hash))) plain ≡ ok tt
unfolding validate_password
validate_stored crypto salt plain hash ns nh ls lh e =
    rw (is_truthy-some _ (λ q. ns (append-eq-nil_iff.0 q).0), split_bar salt hash ls lh)
      (check_parts_both crypto salt hash plain ns nh ∙ check_hash_self crypto salt hash plain e)

check_parts_sound :
    (crypto : Crypto) (salt hash : Option String) (plain : String)
    → check_parts crypto salt hash plain ≡ ok tt
    → (s : String) × (t : String) × (salt ≡ some s)
      × (hash ≡ some t)
      × (s ≢ "")
      × (t ≢ "")
      × (hash_password crypto plain s ≡ some t)
unfolding check_parts
check_parts_sound crypto none hash plain h = cc
check_parts_sound crypto (some s) none plain h = ground arith
check_parts_sound crypto (some s) (some t) plain h = elim (Bool-cases (s == "")) [
  | inl blank ↦ ground arith
  | inr p ↦ elim (Bool-cases (t == "")) [
    | inl blank ↦ ground arith
    | inr q ↦
        let ns : s ≢ "" = ground (arith, eq_iff s "") in
        let nt : t ≢ "" = ground (arith, eq_iff t "") in
        (s, t, refl, refl, ns, nt, check_hash_sound crypto s t plain nt (rw (p, q) at h))
  ]
]

-- A password validates against what it was protected to, for every salt and every digest that are
-- not empty and hold no bar.
pub validate_password-protect_password :
    (crypto : Crypto) (salt plain hash : String)
    → salt ≢ ""
    → hash ≢ ""
    → Lacks b'|' salt
    → Lacks b'|' hash
    → hash_password crypto plain salt ≡ some hash
    → (stored : String) × (protect_password crypto salt plain ≡ ok stored)
      × (validate_password crypto (some stored) plain ≡ ok tt)
unfolding validate_password protect_password
validate_password-protect_password crypto salt plain hash ns nh ls lh e = (
  join_text salt (join_text "|" hash),
  protect_password_lem crypto salt plain hash ns nh e,
  validate_stored crypto salt plain hash ns nh ls lh e,
)

-- Whoever passes the validation gave a password with the stored digest: the stored text has a salt
-- and a hash, neither empty, and the hash is the digest of the given password with that salt.
pub validate_password_sound :
    (crypto : Crypto) (stored plain : String)
    → validate_password crypto (some stored) plain ≡ ok tt
    → (salt : String) × (hash : String) × (first (split b'|' stored) ≡ some salt)
      × (second (split b'|' stored) ≡ some hash)
      × (salt ≢ "")
      × (hash ≢ "")
      × (hash_password crypto plain salt ≡ some hash)
unfolding validate_password
validate_password_sound crypto stored plain h = check_parts_sound crypto _ _ plain (ground arith)
