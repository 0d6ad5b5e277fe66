-- ===== src/Mcp/Args/Types.antt =====
-- The values that the type check of an argument passes on.
use mathlib.Core.Path.{subst}
use whatsrust.Prelude.{ℕ, String, ◌≡◌, ◌⊎◌, sym, Bool, Option, none, some, some_cancel, inl, inr}
use whatsrust.Prelude.Int.{ℤ}
use whatsrust.Mcp.Tool.{
  Json, null, boolean, integer, unsigned, float, string, array, object, Items, Fields,
}
use whatsrust.Mcp.Args.{normalise_integer, check_type}

-- A number that is an integer of 64 bits, signed or not, or a float.
abbrev pub IsNumber : Json → Type 0
IsNumber v =
    ((n : ℤ) × (v ≡ integer n)) ⊎ (((n : ℕ) × (v ≡ unsigned n)) ⊎ ((n : Option ℤ) × (v ≡ float n)))

-- A value of the type that its JSON Schema type names, `integer` being one of 64 bits.
pub record HasType (ty : String) (v : Json) : Type 0 where
  pub is_text : ty ≡ "string" → (s : String) × (v ≡ string s)
  pub is_flag : ty ≡ "boolean" → (b : Bool) × (v ≡ boolean b)
  pub is_list : ty ≡ "array" → (vs : Items) × (v ≡ array vs)
  pub is_integer : ty ≡ "integer" → (n : ℤ) × (v ≡ integer n)
  pub is_numeric : ty ≡ "number" → IsNumber v
  pub is_record : ty ≡ "object" → (fs : Fields) × (v ≡ object fs)

string_of : (v w : Json) → check_type "string" v ≡ some w → (s : String) × (w ≡ string s)
unfolding check_type
string_of (string s) w h = (s, sym (some_cancel h))
string_of null w h = absurd (cc)
string_of (boolean b) w h = absurd (cc)
string_of (integer n) w h = absurd (cc)
string_of (unsigned n) w h = absurd (cc)
string_of (float n) w h = absurd (cc)
string_of (array vs) w h = absurd (cc)
string_of (object fs) w h = absurd (cc)

boolean_of : (v w : Json) → check_type "boolean" v ≡ some w → (b : Bool) × (w ≡ boolean b)
unfolding check_type
boolean_of (boolean b) w h = (b, sym (some_cancel h))
boolean_of null w h = absurd (cc)
boolean_of (string s) w h = absurd (cc)
boolean_of (integer n) w h = absurd (cc)
boolean_of (unsigned n) w h = absurd (cc)
boolean_of (float n) w h = absurd (cc)
boolean_of (array vs) w h = absurd (cc)
boolean_of (object fs) w h = absurd (cc)

array_of : (v w : Json) → check_type "array" v ≡ some w → (vs : Items) × (w ≡ array vs)
unfolding check_type
array_of (array vs) w h = (vs, sym (some_cancel h))
array_of null w h = absurd (cc)
array_of (string s) w h = absurd (cc)
array_of (integer n) w h = absurd (cc)
array_of (unsigned n) w h = absurd (cc)
array_of (float n) w h = absurd (cc)
array_of (boolean b) w h = absurd (cc)
array_of (object fs) w h = absurd (cc)

integer_of : (v w : Json) → check_type "integer" v ≡ some w → (n : ℤ) × (w ≡ integer n)
unfolding check_type normalise_integer
integer_of (integer n) w h = (n, sym (some_cancel h))
integer_of (float (some n)) w h = (n, sym (some_cancel h))
integer_of (float none) w h = absurd (cc)
integer_of null w h = absurd (cc)
integer_of (string s) w h = absurd (cc)
integer_of (array vs) w h = absurd (cc)
integer_of (unsigned n) w h = absurd (cc)
integer_of (boolean b) w h = absurd (cc)
integer_of (object fs) w h = absurd (cc)

object_of : (v w : Json) → check_type "object" v ≡ some w → (fs : Fields) × (w ≡ object fs)
unfolding check_type
object_of (object fs) w h = (fs, sym (some_cancel h))
object_of null w h = absurd (cc)
object_of (string s) w h = absurd (cc)
object_of (array vs) w h = absurd (cc)
object_of (integer n) w h = absurd (cc)
object_of (unsigned n) w h = absurd (cc)
object_of (float n) w h = absurd (cc)
object_of (boolean b) w h = absurd (cc)

check_type-IsNumber : (v w : Json) → check_type "number" v ≡ some w → IsNumber w
unfolding check_type
check_type-IsNumber (integer n) w h = inl (n, sym (some_cancel h))
check_type-IsNumber (unsigned n) w h = inr (inl (n, sym (some_cancel h)))
check_type-IsNumber (float n) w h = inr (inr (n, sym (some_cancel h)))
check_type-IsNumber null w h = absurd (cc)
check_type-IsNumber (string s) w h = absurd (cc)
check_type-IsNumber (array vs) w h = absurd (cc)
check_type-IsNumber (object fs) w h = absurd (cc)
check_type-IsNumber (boolean b) w h = absurd (cc)

pub check_type-HasType : (ty : String) (v w : Json) → check_type ty v ≡ some w → HasType ty w
check_type-HasType ty v w h = record {
  is_text = λ e. string_of v w (subst (λ k. check_type k v ≡ some w) e h);
  is_flag = λ e. boolean_of v w (subst (λ k. check_type k v ≡ some w) e h);
  is_list = λ e. array_of v w (subst (λ k. check_type k v ≡ some w) e h);
  is_integer = λ e. integer_of v w (subst (λ k. check_type k v ≡ some w) e h);
  is_numeric = λ e. check_type-IsNumber v w (subst (λ k. check_type k v ≡ some w) e h);
  is_record = λ e. object_of v w (subst (λ k. check_type k v ≡ some w) e h);
}
