-- ===== src/Tests/Webhooks.antt =====
-- Examples of the hooks that are pulled.
use node_back_end_boilerplat.Prelude.{
  String, Bool, true, false, ◌≡◌, ◌==◌, if◌then◌else◌, refl, some, none, List, [], ◌∷◌, length, sym,
  ◌∙◌,
}
use node_back_end_boilerplat.Value.{Value, str, num, obj, field, end}
use node_back_end_boilerplat.Effects.{Result, ok, pure}
use node_back_end_boilerplat.Effects.Preserves.{Preserves}
use node_back_end_boilerplat.Webhook.{Hooks, hook_key, is_due, pull_all}
use node_back_end_boilerplat.Webhook.Due.{IsAmong, at_head, further, entries_of, pull_all-Preserves}
use node_back_end_boilerplat.Webhook.Pulled.{visits, due_hooks, pull_all-eq-visits}
use mathlib.Core.Bool.{false≢true}

-- The store is which keys there are.
abbrev pub Keys : Type 0
Keys = String → Bool

abbrev pub hooks_of : Hooks Keys
hooks_of = record {
  json = record { parse = λ t. none; stringify = λ v. "{}"; string_of = λ v. "" };
  redis = record {
    get_text = λ k. pure none;
    set_text = λ k t. pure "OK";
    expire = λ k n. pure tt;
    keys_like = λ p. pure [];
    get_texts = λ ks. pure [];
    remove_key = λ k s. (ok 1, λ j. if k == j then false else s j);
    flush = pure "OK";
    connect_socket = pure tt;
    quit = pure "OK";
    status = λ s. "ready";
  };
  request = λ method endpoint query body. pure end;
  generate_uuid = λ s. ("u1", s);
  to_date = λ t. 0;
  epoch_of = λ v. some 90;
  epoch_now = λ s. 50;
  to_lower_case = λ t. t;
  mocked_service_base_url = "http://mocked";
  hooks_time_to_live = 60;
}

-- One hook that is due at once and one that waits.
abbrev two_hooks : List (String × Value)
two_hooks =
    ("h1", obj (field "responseMethod" (str "post") end))
    ∷ ("h2", obj (field "sendAt" (num 90) end))
    ∷ []

abbrev Waits : Keys → Type 0
Waits s = s "hooks:new:h2" ≡ true

waits : is_due hooks_of 50 (obj (field "sendAt" (num 90) end)) ≡ false
unfolding is_due
waits = refl

removes_due :
    (id : String) (hook : Value)
    → IsAmong (id, hook) two_hooks
    → is_due hooks_of 50 hook ≡ true
    → Preserves Waits (hooks_of.redis.remove_key (hook_key "new" id))
unfolding hook_key is_due
removes_due id hook (at_head _) due = record { keeps = λ s p. p }
removes_due id hook (further _ _ (at_head _)) due = absurd (false≢true (sym waits ∙ due))
removes_due id hook (further _ _ (further _ _ h)) due = elim h [ ]

pull_all-Preserves_example :
    Preserves Waits (pull_all hooks_of "new" (obj end) 50 (entries_of "new" two_hooks))
pull_all-Preserves_example =
    pull_all-Preserves hooks_of "new" (obj end) 50 two_hooks
      (λ method endpoint query body. record { keeps = λ s p. p }) removes_due

pull_all-eq-visits_example :
    (outcomes : List (Result (Unit {0}) × Result Bool)) × (pull_all hooks_of "new"
        (obj end)
        50
        (entries_of "new" two_hooks)
        (λ k. true)
      ≡ (
        ok outcomes,
        visits hooks_of "new" (obj end) (due_hooks hooks_of 50 two_hooks) (λ k. true),
      ))
    × (length outcomes ≡ length (due_hooks hooks_of 50 two_hooks))
pull_all-eq-visits_example = pull_all-eq-visits hooks_of "new" (obj end) 50 two_hooks (λ k. true)
