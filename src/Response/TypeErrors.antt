-- ===== src/Response/TypeErrors.antt =====
-- The parts of agent/response.py that raise nothing but a TypeError.
use adversarial_agent_runtim.Prelude.{
  String, Bool, true, false, ◌≡◌, inl, inr, Option, none, some, List, [], ◌∷◌, if◌then◌else◌,
}
use adversarial_agent_runtim.Json.{Json, null, bool, int, float, str, list, dict, get_field}
use adversarial_agent_runtim.Errors.{Error, Result, ok, raise, raised, builtin, ◌>>=◌, bind_raises}
use adversarial_agent_runtim.Response.Source.{in_set, content_items}
use adversarial_agent_runtim.Response.Reply.{join_part, text_part, text_parts}

-- If it raises, it raises a TypeError.
abbrev pub TypeErrors {ℓ} : {A : Type ℓ} → Result A → Type ℓ
TypeErrors {A} r = (e : Error) → Path (Result A) r (raised e) → e.class ≡ builtin "TypeError"

class_of {ℓ} :
    {A : Type ℓ} {m : String} {e : Error}
    → Path (Result A) (raise (builtin "TypeError") m) (raised e)
    → e.class ≡ builtin "TypeError"
class_of same = cc

pub returns-TypeErrors {ℓ} : {A : Type ℓ} (a : A) → TypeErrors (ok a)
returns-TypeErrors a e same = cc

pub bind-TypeErrors {ℓ κ} :
    {A : Type ℓ} {B : Type κ} (r : Result A) (f : A → Result B)
    → TypeErrors r
    → ((a : A) → TypeErrors (f a))
    → TypeErrors (r >>= f)
bind-TypeErrors r f first rest e failed = elim (bind_raises r f e failed) [
  | inl same ↦ first e same
  | inr (a, _, same) ↦ rest a e same
]

pub in_set-TypeErrors : (texts : List String) (o : Option Json) → TypeErrors (in_set texts o)
unfolding in_set
in_set-TypeErrors texts none e same = cc
in_set-TypeErrors texts (some null) e same = cc
in_set-TypeErrors texts (some (bool b)) e same = cc
in_set-TypeErrors texts (some (int i)) e same = cc
in_set-TypeErrors texts (some (float r)) e same = cc
in_set-TypeErrors texts (some (str s)) e same = cc
in_set-TypeErrors texts (some (list vs)) e same = class_of same
in_set-TypeErrors texts (some (dict d)) e same = class_of same

pub content_items-TypeErrors : (vs : List Json) → TypeErrors (content_items vs)
unfolding content_items
content_items-TypeErrors [] = returns-TypeErrors _
content_items-TypeErrors (dict d ∷ rest) =
    bind-TypeErrors (in_set _ (get_field "type" d)) _ (in_set-TypeErrors _ _) (λ chosen.
      bind-TypeErrors (content_items rest) _ (content_items-TypeErrors rest)
        (λ found. returns-TypeErrors _))
content_items-TypeErrors (null ∷ rest) = content_items-TypeErrors rest
content_items-TypeErrors (bool b ∷ rest) = content_items-TypeErrors rest
content_items-TypeErrors (int i ∷ rest) = content_items-TypeErrors rest
content_items-TypeErrors (float r ∷ rest) = content_items-TypeErrors rest
content_items-TypeErrors (str s ∷ rest) = content_items-TypeErrors rest
content_items-TypeErrors (list ws ∷ rest) = content_items-TypeErrors rest

join_part-TypeErrors :
    (v : Json) (rest : Result (List String)) → TypeErrors rest → TypeErrors (join_part v rest)
join_part-TypeErrors (str s) rest h = bind-TypeErrors rest _ h (λ parts. returns-TypeErrors _)
join_part-TypeErrors null rest h = λ e same. class_of same
join_part-TypeErrors (bool b) rest h = λ e same. class_of same
join_part-TypeErrors (int i) rest h = λ e same. class_of same
join_part-TypeErrors (float r) rest h = λ e same. class_of same
join_part-TypeErrors (list vs) rest h = λ e same. class_of same
join_part-TypeErrors (dict d) rest h = λ e same. class_of same

pub if-TypeErrors {ℓ} :
    {A : Type ℓ} (b : Bool) (x y : Result A)
    → TypeErrors x
    → TypeErrors y
    → TypeErrors (if b then x else y)
if-TypeErrors true x y hx hy = hx
if-TypeErrors false x y hx hy = hy

text_part-TypeErrors :
    (o : Option Json) (v : Json) (rest : Result (List String))
    → TypeErrors rest
    → TypeErrors (text_part o v rest)
text_part-TypeErrors none v rest h = h
text_part-TypeErrors (some (str kind)) v rest h =
    if-TypeErrors _ _ _ (join_part-TypeErrors v rest h) h
text_part-TypeErrors (some null) v rest h = h
text_part-TypeErrors (some (bool b)) v rest h = h
text_part-TypeErrors (some (int i)) v rest h = h
text_part-TypeErrors (some (float r)) v rest h = h
text_part-TypeErrors (some (list vs)) v rest h = h
text_part-TypeErrors (some (dict d)) v rest h = h

pub text_parts-TypeErrors : (vs : List Json) → TypeErrors (text_parts vs)
unfolding text_parts
text_parts-TypeErrors [] = returns-TypeErrors _
text_parts-TypeErrors (dict d ∷ rest) =
    text_part-TypeErrors (get_field "type" d) _ _ (text_parts-TypeErrors rest)
text_parts-TypeErrors (null ∷ rest) = text_parts-TypeErrors rest
text_parts-TypeErrors (bool b ∷ rest) = text_parts-TypeErrors rest
text_parts-TypeErrors (int i ∷ rest) = text_parts-TypeErrors rest
text_parts-TypeErrors (float r ∷ rest) = text_parts-TypeErrors rest
text_parts-TypeErrors (str s ∷ rest) = text_parts-TypeErrors rest
text_parts-TypeErrors (list ws ∷ rest) = text_parts-TypeErrors rest
