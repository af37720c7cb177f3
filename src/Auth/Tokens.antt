-- ===== src/Auth/Tokens.antt =====
-- What the guard of src/modules/api/guards/Auth.guard.ts lets in.
use node_back_end_boilerplat.Auth.{Decoded, validate_token_content, can_activate, agent_of}
use node_back_end_boilerplat.Prelude.{
  String, some, join_text, ◌≡◌, ap, true, false, arith, is_truthy, Option, none, eq_iff, refl,
  Bool-cases, inl, inr, ◌∙◌, is_blank, ◌≢◌,
}
use node_back_end_boilerplat.Value.{is_object, Value}
use node_back_end_boilerplat.Effects.{ok, Result, err, bind_result}
use text.Mathlib.TextLemmas.{append-eq-nil_iff}
use node_back_end_boilerplat.Strategy.{UserAuth}
use node_back_end_boilerplat.Text.{remove_first}
use node_back_end_boilerplat.Text.Laws.{remove_first-join_text}

not_empty : (s : String) → is_blank s ≡ false → s ≢ ""
not_empty s h = ground (arith, eq_iff s "")

given_if : (s : String) → s ≢ "" → is_truthy (some s) ≡ true
given_if s h = ground (arith, eq_iff s "")

pub bearer_given : (token : String) → is_truthy (some (join_text "Bearer " token)) ≡ true
bearer_given token = given_if _ (λ q. not_empty "Bearer " refl (append-eq-nil_iff.0 q).0)

-- A bearer of a good token is let in: a header that is `Bearer` and a token whose content is an
-- object makes the agent that the content names.
pub can_activate_of_bearer :
    (decode_jwt : String → Decoded) (token : String)
    → is_object (decode_jwt token).content ≡ true
    → can_activate decode_jwt (some (join_text "Bearer " token))
      ≡ ok (agent_of (decode_jwt token).content)
unfolding can_activate validate_token_content
can_activate_of_bearer decode_jwt token h =
    rw (bearer_given token, remove_first-join_text "B" "earer " token, h)

validated :
    (decoded : Decoded) (content : Value)
    → validate_token_content decoded ≡ ok content
    → (is_object decoded.content ≡ true) × (content ≡ decoded.content)
unfolding validate_token_content
validated decoded content h = ground arith

agent_inv :
    (r : Result Value) (agent : UserAuth)
    → bind_result r (λ content. ok (agent_of content)) ≡ ok agent
    → (content : Value) × (r ≡ ok content) × (agent ≡ agent_of content)
agent_inv (ok content) agent h = (content, refl, ground arith)
agent_inv (err e) agent h = cc

-- Only a good token is let in: where the guard lets a request in, the request has a header, what the header's
-- token decodes to is an object, and the agent is the one that this object names.
pub can_activate_sound :
    (decode_jwt : String → Decoded) (authorization : Option String) (agent : UserAuth)
    → can_activate decode_jwt authorization ≡ ok agent
    → (header : String) × (authorization ≡ some header)
      × (is_object (decode_jwt (remove_first "Bearer " header)).content ≡ true)
      × (agent ≡ agent_of (decode_jwt (remove_first "Bearer " header)).content)
unfolding can_activate
can_activate_sound decode_jwt none agent h = cc
can_activate_sound decode_jwt (some header) agent h = elim (Bool-cases (is_truthy (some header))) [
  | inr blank ↦ cc (rw blank at h)
  | inl given ↦
      let (content, checked, named) = agent_inv _ agent (rw given at h) in
      let (good, same) = validated _ content checked in
      (header, refl, good, named ∙ ap agent_of same)
]
