-- ===== src/Mcp/Era/Agree.antt =====
-- What requests whose headers pass the checks have in common.
use whatsrust.Prelude.{
  String, ◌≡◌, refl, Bool, true, false, Option, none, some, List, if◌then◌else◌,
}
use whatsrust.Prelude.Texts.{Text, codes, same_text, same_text_iff}
use whatsrust.Http.{Header}
use whatsrust.Mcp.Tool.{
  Json, null, boolean, integer, unsigned, float, string, array, object, get, as_str,
}
use mathlib.Core.Path.{subst}
use whatsrust.Mcp.Era.Once.{of_option, StandsAtMostOnce, single_header-StandsAtMostOnce}
use whatsrust.Mcp.Era.Encoded.{StandsFor, decode_name_header-StandsFor, decode_name_header-absent}
use whatsrust.Mcp.Era.{
  RpcError, Era, legacy, modern, Single, absent, present, malformed, single_header, version_header,
  method_header, name_header, get_in, meta_version, name_field, Check, fine, wrong, check_meta,
  check_method, check_name, is_named, both, with_header, decode_name_header, with_name,
  validate_request_headers,
}

with_header-fine :
    (s : Single) (next : Option Text → Check)
    → with_header s next ≡ fine
    → (o : Option Text) × (s ≡ of_option o) × (next o ≡ fine)
unfolding with_header
with_header-fine absent next h = (none, refl, h)
with_header-fine (present v) next h = (some v, refl, h)
with_header-fine (malformed err) next h = absurd (cc)

both-fine : (a b : Check) → both a b ≡ fine → (a ≡ fine) × (b ≡ fine)
unfolding both
both-fine fine b h = (refl, h)
both-fine (wrong err) b h = absurd (cc)

-- The version in the body, where there is one, is the header's, and a modern request has one.
abbrev pub MetaAgrees : Era → Option Json → Option Text → Type 0
MetaAgrees era (some meta) (some v) = (s : String) × (meta ≡ string s) × (codes s ≡ v)
MetaAgrees era (some meta) none = Unit
MetaAgrees modern none version = false ≡ true
MetaAgrees legacy none version = Unit

-- The header, where there is one, is the method, and a modern request has one.
abbrev pub MethodAgrees : Era → Option Text → String → Type 0
MethodAgrees era (some v) method = v ≡ codes method
MethodAgrees modern none method = false ≡ true
MethodAgrees legacy none method = Unit

-- The name, where the method has such a field and there is a name, is the text of that field, and
-- a modern request of such a method has one.
abbrev pub NameAgrees : Era → Option Text → Option String → Json → Type 0
NameAgrees era name none request = Unit
NameAgrees era (some name) (some field) request =
    (s : String) × (as_str (get_in field (get "params" request)) ≡ some s) × (codes s ≡ name)
NameAgrees modern none (some field) request = false ≡ true
NameAgrees legacy none (some field) request = Unit

if_fine : (t : Bool) (err : RpcError) → (if t then fine else wrong err) ≡ fine → t ≡ true
if_fine true err h = refl
if_fine false err h = absurd (cc)

check_meta-agrees :
    (era : Era) (meta : Option Json) (version : Option Text)
    → check_meta era meta version ≡ fine
    → MetaAgrees era meta version
unfolding check_meta
check_meta-agrees era (some (string s)) (some v) h =
    (s, refl, (same_text_iff (codes s) v).0 (if_fine (same_text (codes s) v) _ h))
check_meta-agrees era (some null) (some v) h = absurd (cc)
check_meta-agrees era (some (boolean b)) (some v) h = absurd (cc)
check_meta-agrees era (some (integer n)) (some v) h = absurd (cc)
check_meta-agrees era (some (unsigned n)) (some v) h = absurd (cc)
check_meta-agrees era (some (float n)) (some v) h = absurd (cc)
check_meta-agrees era (some (array vs)) (some v) h = absurd (cc)
check_meta-agrees era (some (object fs)) (some v) h = absurd (cc)
check_meta-agrees era (some meta) none h = tt
check_meta-agrees modern none version h = absurd (cc)
check_meta-agrees legacy none version h = tt

check_method-agrees :
    (era : Era) (header : Option Text) (method : String)
    → check_method era header method ≡ fine
    → MethodAgrees era header method
unfolding check_method
check_method-agrees era (some v) method h =
    (same_text_iff v (codes method)).0 (if_fine (same_text v (codes method)) _ h)
check_method-agrees modern none method h = absurd (cc)
check_method-agrees legacy none method h = tt

is_named-agrees :
    (name : Text) (o : Option String)
    → is_named name o ≡ true
    → (s : String) × (o ≡ some s) × (codes s ≡ name)
unfolding is_named
is_named-agrees name none h = absurd (cc)
is_named-agrees name (some s) h = (s, refl, (same_text_iff (codes s) name).0 h)

check_name-agrees :
    (era : Era) (name : Option Text) (field : Option String) (request : Json)
    → check_name era name field request ≡ fine
    → NameAgrees era name field request
unfolding check_name
check_name-agrees era (some name) (some field) request h =
    is_named-agrees name (as_str (get_in field (get "params" request)))
      (if_fine (is_named name _) _ h)
check_name-agrees modern none (some field) request h = absurd (cc)
check_name-agrees legacy none (some field) request h = tt
check_name-agrees era name none request h = tt

module _ (base64 : Text → Option Text) where
  -- The name that a header that may be absent stands for.
  abbrev pub Decodes : Option Text → Option Text → Type 0
  Decodes none none = Unit
  Decodes none (some name) = false ≡ true
  Decodes (some v) none = false ≡ true
  Decodes (some v) (some name) = StandsFor base64 v name

  Decodes-lem :
      (v : Text) (name : Option Text)
      → decode_name_header base64 v ≡ of_option name
      → Decodes (some v) name
  Decodes-lem v none h = absurd (decode_name_header-absent base64 v h)
  Decodes-lem v (some name) h = decode_name_header-StandsFor base64 v name h

  with_name-fine :
      (header : Option Text) (next : Option Text → Check)
      → with_name base64 header next ≡ fine
      → (name : Option Text) × Decodes header name × (next name ≡ fine)
  unfolding with_name
  with_name-fine none next h = (none, tt, h)
  with_name-fine (some v) next h =
      let (name, e, h1) = with_header-fine (decode_name_header base64 v) next h in
      (name, Decodes-lem v name e, h1)

  -- The field of the parameters that the method names its target by, spelled out for each method.
  pub record TargetAgrees (era : Era) (name : Option Text) (method : String) (request : Json)
      : Type 0 where
    pub of_call : method ≡ "tools/call" → NameAgrees era name (some "name") request
    pub of_prompt : method ≡ "prompts/get" → NameAgrees era name (some "name") request
    pub of_resource : method ≡ "resources/read" → NameAgrees era name (some "uri") request

  NameAgrees-TargetAgrees :
      (era : Era) (name : Option Text) (method : String) (request : Json)
      → NameAgrees era name (name_field method) request
      → TargetAgrees era name method request
  unfolding name_field
  NameAgrees-TargetAgrees era name method request h = record {
    of_call = λ e. subst (λ m. NameAgrees era name (name_field m) request) e h;
    of_prompt = λ e. subst (λ m. NameAgrees era name (name_field m) request) e h;
    of_resource = λ e. subst (λ m. NameAgrees era name (name_field m) request) e h;
  }

  -- The headers of a request and its body say the same.
  pub record Agrees (era : Era) (headers : List Header) (request : Json) (method : String)
      : Type 0 where
    pub version : Option Text
    pub version_sent : StandsAtMostOnce headers version_header version
    pub version_agrees : MetaAgrees era (meta_version request) version
    pub of_method : Option Text
    pub method_sent : StandsAtMostOnce headers method_header of_method
    pub method_agrees : MethodAgrees era of_method method
    pub of_name : Option Text
    pub name_sent : StandsAtMostOnce headers name_header of_name
    pub name : Option Text
    pub decoded : Decodes of_name name
    pub name_agrees : TargetAgrees era name method request

  -- Headers that pass the checks agree with the body: each of the three headers is there at most once,
  -- in whatever case its name is written, with a visible value; the version is that of the body's
  -- metadata where there is one, the method header is the body's method, and the name, out of its
  -- Base64 word where it is one, is the field of the parameters that names the target of a tool call,
  -- a prompt or a resource; and a modern request has its metadata, its method header and, for these
  -- three methods, its name.
  pub validate_request_headers-Agrees :
      (era : Era) (headers : List Header) (request : Json) (method : String)
      → validate_request_headers base64 era headers request method ≡ fine
      → Agrees era headers request method
  unfolding validate_request_headers
  validate_request_headers-Agrees era headers request method h =
      let (version, version_sent, h1) =
        with_header-fine (single_header headers version_header) _ h in
      let (of_method, method_sent, h2) =
        with_header-fine (single_header headers method_header) _ h1 in
      let (of_name, name_sent, h3) = with_header-fine (single_header headers name_header) _ h2 in
      let (m, h4) = both-fine (check_meta era (meta_version request) version) _ h3 in
      let (n, h5) = both-fine (check_method era of_method method) _ h4 in
      let (name, decoded, h6) = with_name-fine of_name _ h5 in
      record {
        version = version;
        version_sent = single_header-StandsAtMostOnce headers version_header version version_sent;
        version_agrees = check_meta-agrees era (meta_version request) version m;
        of_method = of_method;
        method_sent = single_header-StandsAtMostOnce headers method_header of_method method_sent;
        method_agrees = check_method-agrees era of_method method n;
        of_name = of_name;
        name_sent = single_header-StandsAtMostOnce headers name_header of_name name_sent;
        name = name;
        decoded = decoded;
        name_agrees =
            NameAgrees-TargetAgrees era name method request
              (check_name-agrees era name (name_field method) request h6);
      }
