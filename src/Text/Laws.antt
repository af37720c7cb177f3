-- ===== src/Text/Laws.antt =====
-- Laws of splitting a text.
use Prim.Native.Char.{Char, code}
use Prim.Native.String.{String}
use node_back_end_boilerplat.Prelude.{
  ℕ, [], ◌∷◌, ◌≡◌, refl, eqb, join_text, true, some, ap, arith, ◌∙◌, sym, none, is_blank, ◌≢◌,
  false, Bool-cases, inr, inl, eq_iff,
}
use text.Mathlib.TextLemmas.{nil-append, cons-append}
use node_back_end_boilerplat.Text.{split, Lacks, strip_prefix, remove_first}

-- A text without the separator is its own only part.
pub split_of_Lacks : (separator : ℕ) (s : String) → Lacks separator s → split separator s ≡ s ∷ []
unfolding split
split_of_Lacks separator String.[] h = refl
split_of_Lacks separator (String.◌∷◌ c s) (p, h) = rw (p, split_of_Lacks separator s h)

-- What stands before a separator is the first part, if it has no separator itself.
pub split-join_text :
    (separator : ℕ) (s t : String) (c : Char)
    → Lacks separator s
    → eqb (code c) separator ≡ true
    → split separator (join_text s (String.◌∷◌ c t)) ≡ s ∷ split separator t
unfolding split
split-join_text separator String.[] t c h e = rw nil-append (rw e)
split-join_text separator (String.◌∷◌ d s) t c (p, h) e =
    rw cons-append (rw (p, split-join_text separator s t c h e))

eqb_same : (n : ℕ) → eqb n n ≡ true
eqb_same n = ground arith

strip_prefix-join_text : (p t : String) → strip_prefix p (join_text p t) ≡ some t
strip_prefix-join_text String.[] t = ap some (nil-append t)
strip_prefix-join_text (String.◌∷◌ c p) t =
    rw (cons-append c p t) (rw (eqb_same (code c), strip_prefix-join_text p t))

-- A part that begins a text is taken out of it.
pub remove_first-join_text :
    (c : Char) (p t : String) → remove_first (String.◌∷◌ c p) (join_text (String.◌∷◌ c p) t) ≡ t
unfolding remove_first
remove_first-join_text c p t =
    rw (cons-append c p t) (rw (eqb_same (code c), strip_prefix-join_text p t))

cons_tail : (c d : Char) (s t : String) → String.◌∷◌ c s ≡ String.◌∷◌ d t → s ≡ t
cons_tail c d s t h = cc

-- A common beginning can be taken off.
pub join_text_cancel : (p s t : String) → join_text p s ≡ join_text p t → s ≡ t
join_text_cancel String.[] s t h = sym (nil-append s) ∙ h ∙ nil-append t
join_text_cancel (String.◌∷◌ c p) s t h =
    join_text_cancel p s t (cons_tail c c _ _ (sym (cons-append c p s) ∙ h ∙ cons-append c p t))

pub join_text_assoc : (s t u : String) → join_text (join_text s t) u ≡ join_text s (join_text t u)
join_text_assoc String.[] t u = rw (nil-append t, nil-append (join_text t u))
join_text_assoc (String.◌∷◌ c s) t u = rw (
  cons-append c s t,
  cons-append c (join_text s t) u,
  cons-append c s (join_text t u),
  join_text_assoc s t u,
)

-- The same for a part that is a text and a character.
pub remove_first_of_prefix :
    (s t : String) (c : Char)
    → remove_first (join_text s (String.◌∷◌ c "")) (join_text (join_text s (String.◌∷◌ c "")) t) ≡ t
remove_first_of_prefix String.[] t c =
    rw (nil-append (String.◌∷◌ c "")) (remove_first-join_text c "" t)
remove_first_of_prefix (String.◌∷◌ d s) t c =
    rw (cons-append d s (String.◌∷◌ c ""))
      (remove_first-join_text d (join_text s (String.◌∷◌ c "")) t)

not_given : (t : String) → none ≢ some t
not_given t h = cc

-- A text with a beginning that the empty text has not is not empty.
pub is_blank-join_text :
    (p t : String) → strip_prefix p "" ≡ none → is_blank (join_text p t) ≡ false
is_blank-join_text p t h = elim (Bool-cases (is_blank (join_text p t))) [
  | inr k ↦ k
  | inl k ↦
      let empty : join_text p t ≡ "" = ground (arith, eq_iff (join_text p t) "") in
      absurd (not_given t (sym h ∙ ap (strip_prefix p) (sym empty) ∙ strip_prefix-join_text p t))
]
