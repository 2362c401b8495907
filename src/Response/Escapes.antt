-- ===== src/Response/Escapes.antt =====
-- The errors with which agent/response.py gives up on a reply.
use adversarial_agent_runtim.Prelude.{
  ℕ, String, true, false, ◌≡◌, inl, inr, ◌⊎◌, suc, sym, Bool-cases, Option-cases, Option, none,
  some, List, [], ◌∷◌, ap,
}
use adversarial_agent_runtim.Json.{
  Json, null, bool, int, float, str, list, dict, Fields, get_field, to_list,
}
use adversarial_agent_runtim.Errors.{
  Error, Result, ok, raise, raised, builtin, tool_argument_error, ◌>>=◌, bind_raises,
}
use adversarial_agent_runtim.Codec.{Codec, JsonLoads}
use adversarial_agent_runtim.Response.Source.{from_content, raw_items}
use adversarial_agent_runtim.Response.Repair.{repair}
use adversarial_agent_runtim.Response.ToolCalls.{
  ToolCall, dict_or_malformed, dict_or_repaired, coerce_arguments, is_argument_error,
  with_arguments, call_name, raw_arguments_of, parse_item, parse_items,
}
use adversarial_agent_runtim.Response.Reply.{
  text_parts, content_text, assistant_text, is_partial_turn, parse_agent_response,
}
use adversarial_agent_runtim.Response.TypeErrors.{
  TypeErrors, returns-TypeErrors, bind-TypeErrors, in_set-TypeErrors, content_items-TypeErrors,
  if-TypeErrors, text_parts-TypeErrors,
}

module _ (codec : Codec) (loads : JsonLoads) where
  -- If it raises, it raises a TypeError, or an error that `json.loads` raises on some text.
  abbrev Explained {ℓ} : {A : Type ℓ} → Result A → Type ℓ
  Explained {A} r =
      (e : Error)
      → Path (Result A) r (raised e)
      → (e.class ≡ builtin "TypeError") ⊎ ((s : String) × (loads s ≡ raised e))

  returns-Explained {ℓ} : {A : Type ℓ} (a : A) → Explained (ok a)
  returns-Explained a e same = cc

  from_TypeErrors {ℓ} : {A : Type ℓ} (r : Result A) → TypeErrors r → Explained r
  from_TypeErrors r h e same = inl (h e same)

  bind-Explained {ℓ κ} :
      {A : Type ℓ} {B : Type κ} (r : Result A) (f : A → Result B)
      → Explained r
      → ((a : A) → Explained (f a))
      → Explained (r >>= f)
  bind-Explained r f first rest e failed = elim (bind_raises r f e failed) [
    | inl same ↦ first e same
    | inr (a, _, same) ↦ rest a e same
  ]

  loads-Explained : (s : String) → Explained (loads s)
  loads-Explained s e same = inr (s, same)

  from_content-Explained : (o : Option Json) → Explained (from_content loads o)
  unfolding from_content
  from_content-Explained (some (list vs)) =
      from_TypeErrors _ (content_items-TypeErrors (to_list vs))
  from_content-Explained (some (str s)) =
      bind-Explained (loads s) _ (loads-Explained s) (λ parsed. returns-Explained _)
  from_content-Explained none = returns-Explained _
  from_content-Explained (some null) = returns-Explained _
  from_content-Explained (some (bool b)) = returns-Explained _
  from_content-Explained (some (int i)) = returns-Explained _
  from_content-Explained (some (float r)) = returns-Explained _
  from_content-Explained (some (dict d)) = returns-Explained _

  -- The errors of a coercion: a ToolArgumentError is caught, and every other is explained.
  abbrev Uncaught : Result Fields → Type 0
  Uncaught r =
      (e : Error)
      → r ≡ raised e
      → is_argument_error e.class ≡ false
      → (e.class ≡ builtin "TypeError") ⊎ ((s : String) × (loads s ≡ raised e))

  caught_error : (m : String) → Uncaught (raise tool_argument_error m)
  caught_error m e same other =
      let class : tool_argument_error ≡ e.class = cc in
      let caught : is_argument_error e.class ≡ true = ap is_argument_error (sym class) in cc

  second_try : (o : Option Json) → Uncaught (dict_or_malformed o)
  second_try (some (dict d)) e same other = cc
  second_try none e same other = caught_error _ e same other
  second_try (some null) e same other = caught_error _ e same other
  second_try (some (bool b)) e same other = caught_error _ e same other
  second_try (some (int i)) e same other = caught_error _ e same other
  second_try (some (float r)) e same other = caught_error _ e same other
  second_try (some (str s)) e same other = caught_error _ e same other
  second_try (some (list vs)) e same other = caught_error _ e same other

  try_again : (s : String) → Uncaught (loads (repair s) >>= dict_or_malformed)
  try_again s e failed other = elim (bind_raises (loads (repair s)) _ e failed) [
    | inl same ↦ inr (repair s, same)
    | inr (o, _, same) ↦ second_try o e same other
  ]

  first_try : (s : String) (o : Option Json) → Uncaught (dict_or_repaired loads s o)
  first_try s (some (dict d)) e same other = cc
  first_try s none e same other = try_again s e same other
  first_try s (some null) e same other = try_again s e same other
  first_try s (some (bool b)) e same other = try_again s e same other
  first_try s (some (int i)) e same other = try_again s e same other
  first_try s (some (float r)) e same other = try_again s e same other
  first_try s (some (str t)) e same other = try_again s e same other
  first_try s (some (list vs)) e same other = try_again s e same other

  coerce_arguments-Uncaught : (raw : Json) → Uncaught (coerce_arguments loads raw)
  unfolding coerce_arguments
  coerce_arguments-Uncaught null e same other = cc
  coerce_arguments-Uncaught (dict d) e same other = cc
  coerce_arguments-Uncaught (str s) e failed other = elim (bind_raises (loads s) _ e failed) [
    | inl same ↦ inr (s, same)
    | inr (o, _, same) ↦ first_try s o e same other
  ]
  coerce_arguments-Uncaught (bool b) e same other = caught_error _ e same other
  coerce_arguments-Uncaught (int i) e same other = caught_error _ e same other
  coerce_arguments-Uncaught (float r) e same other = caught_error _ e same other
  coerce_arguments-Uncaught (list vs) e same other = caught_error _ e same other

  with_arguments-Explained :
      (step index : ℕ) (d : Fields) (name : String) (raw : Json) (r : Result Fields)
      → Uncaught r
      → Explained (with_arguments codec step index d name raw r)
  with_arguments-Explained step index d name raw (ok args) h = returns-Explained _
  with_arguments-Explained step index d name raw (raised e) h =
      elim (Bool-cases (is_argument_error e.class)) [
        | inl caught ↦ rw caught (returns-Explained _)
        | inr other ↦ rw other (λ e' same. uncaught e' other same)
      ]
    where
      uncaught :
          (e' : Error)
          → is_argument_error e.class ≡ false
          → Path (Result (Option ToolCall × Option String)) (raised e) (raised e')
          → (e'.class ≡ builtin "TypeError") ⊎ ((s : String) × (loads s ≡ raised e'))
      uncaught e' other same = let here : e ≡ e' = cc in h e' (ap raised here) (rw (sym here) other)

  parse_item-Explained :
      (step index : ℕ) (item : Json) → Explained (parse_item codec loads step index item)
  unfolding parse_item
  parse_item-Explained step index (dict d) = elim (Option-cases (call_name d)) [
    | inl nameless ↦ rw (nameless, parse_item) (returns-Explained _)
    | inr (name, named) ↦
        rw (named, parse_item)
          (with_arguments-Explained step index d name (raw_arguments_of d) _
            (coerce_arguments-Uncaught (raw_arguments_of d)))
  ]
  parse_item-Explained step index null = returns-Explained _
  parse_item-Explained step index (bool b) = returns-Explained _
  parse_item-Explained step index (int i) = returns-Explained _
  parse_item-Explained step index (float r) = returns-Explained _
  parse_item-Explained step index (str s) = returns-Explained _
  parse_item-Explained step index (list vs) = returns-Explained _

  parse_items-Explained :
      (step index : ℕ) (found : List Json) → Explained (parse_items codec loads step index found)
  unfolding parse_items
  parse_items-Explained step index [] = returns-Explained _
  parse_items-Explained step index (item ∷ rest) =
      bind-Explained (parse_item codec loads step index item) _
        (parse_item-Explained step index item)
        (λ one.
          bind-Explained (parse_items codec loads step (suc index) rest) _
            (parse_items-Explained step (suc index) rest) (λ found. returns-Explained _))

  content_text-TypeErrors :
      (response : Fields) (o : Option Json) → TypeErrors (content_text codec response o)
  content_text-TypeErrors response none = returns-TypeErrors _
  content_text-TypeErrors response (some (list vs)) =
      bind-TypeErrors (text_parts (to_list vs)) _ (text_parts-TypeErrors (to_list vs))
        (λ parts. returns-TypeErrors _)
  content_text-TypeErrors response (some (str s)) = returns-TypeErrors _
  content_text-TypeErrors response (some null) = returns-TypeErrors _
  content_text-TypeErrors response (some (bool b)) = returns-TypeErrors _
  content_text-TypeErrors response (some (int i)) = returns-TypeErrors _
  content_text-TypeErrors response (some (float r)) = returns-TypeErrors _
  content_text-TypeErrors response (some (dict d)) = returns-TypeErrors _

  -- The only errors that parsing a reply can raise are a TypeError, and those that `json.loads` raises
  -- on some text and that are no JSONDecodeError.
  pub parse_agent_response-escapes :
      (response : Fields) (step : ℕ) (e : Error)
      → parse_agent_response codec loads response step ≡ raised e
      → (e.class ≡ builtin "TypeError") ⊎ ((s : String) × (loads s ≡ raised e))
  unfolding parse_agent_response raw_items assistant_text is_partial_turn
  parse_agent_response-escapes response step =
      bind-Explained (raw_items loads response) _
        (bind-Explained (from_content loads (get_field "content" response)) _
          (from_content-Explained _) (λ found. returns-Explained _))
        (λ found.
          bind-Explained (parse_items codec loads step 0 found) _
            (parse_items-Explained step 0 found)
            (λ items.
              bind-Explained (assistant_text codec response) _
                (from_TypeErrors _
                  (content_text-TypeErrors response (get_field "content" response)))
                (λ text.
                  bind-Explained (is_partial_turn response) _
                    (from_TypeErrors _
                      (if-TypeErrors _ _ _ (returns-TypeErrors _) (in_set-TypeErrors _ _)))
                    (λ partial. returns-Explained _))))
