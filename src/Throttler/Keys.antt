-- ===== src/Throttler/Keys.antt =====
-- Whom a throttler counts together: `generateKey` of
-- src/modules/common/guards/CustomThrottler.guard.ts.
use Prim.Native.Char.{Char}
use node_back_end_boilerplat.Throttler.{generate_key}
use node_back_end_boilerplat.Text.{Lacks, split, first}
use node_back_end_boilerplat.Text.Laws.{split-join_text, join_text_cancel}
use node_back_end_boilerplat.Prelude.{String, join_text, ◌≡◌, ◌∙◌, ap, refl, some, sym}
use text.Mathlib.TextLemmas.{nil-append, cons-append}

abbrev colon : Char
colon = ":"

colon-join_text : (s : String) → join_text ":" s ≡ String.◌∷◌ colon s
colon-join_text s = cons-append colon String.[] s ∙ ap (String.◌∷◌ colon) (nil-append s)

some_inv : (s t : String) → some s ≡ some t → s ≡ t
some_inv s t h = cc

first_part :
    (id call : String)
    → Lacks b':' id
    → first (split b':' (join_text id (join_text ":" call))) ≡ some id
first_part id call h = rw (colon-join_text call, split-join_text b':' id call colon h refl)

-- Two clients are never counted under one key: with identifiers that hold no colon, equal keys of
-- one throttler and one kind of context come of the same client and the same route or event.
pub generate_key_injective :
    (throttler_name client_context id id' call call' : String)
    → Lacks b':' id
    → Lacks b':' id'
    → generate_key throttler_name client_context id call
      ≡ generate_key throttler_name client_context id' call'
    → (id ≡ id') × (call ≡ call')
unfolding generate_key
generate_key_injective throttler_name client_context id id' call call' h h' e =
    let ends = join_text_cancel ":" _ _ (
      join_text_cancel client_context _ _ (
        join_text_cancel ":" _ _ (
          join_text_cancel throttler_name _ _ (join_text_cancel "CustomThrottlerGuard:" _ _ e)))) in
    let same = some_inv id id' (
      sym (first_part id call h) ∙ ap (λ s. first (split b':' s)) ends ∙ first_part id' call' h') in
    (
      same,
      join_text_cancel ":" call call'
          (join_text_cancel id' _ _ (ap (λ s. join_text s (join_text ":" call)) (sym same) ∙ ends)),
    )
