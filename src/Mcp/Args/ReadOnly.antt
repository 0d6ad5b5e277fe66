-- ===== src/Mcp/Args/ReadOnly.antt =====
-- Which routes the tools reach.
use mathlib.Core.Path.{subst}
use whatsrust.Prelude.{
  String, ◌≡◌, refl, Bool, true, false, not, ◌&&◌, ◌||◌, Option, none, some, List, [], ◌∷◌, str_eq,
  arith, inl, inr, Bool-cases, some_cancel,
}
use whatsrust.Prelude.Texts.{codes, same_text}
use whatsrust.Http.Router.{Route, route, is_read, find_route, route_table}
use whatsrust.Mcp.Tool.{Tool, allowed}
use whatsrust.Mcp.Args.{registry, find_in, find_tool}

-- A route that only reads, where the tool may be called in read-only mode.
abbrev reaches : Bool → Option Route → Bool
reaches may none = false
reaches may (some r) = is_read r || not may

abbrev tool_route : Tool → Option Route
tool_route t = route (codes (Tool.tool_method t)) (codes (Tool.tool_path t))

abbrev all_reach : List Tool → Bool
all_reach [] = true
all_reach (t ∷ ts) = reaches (allowed true t) (tool_route t) && all_reach ts

registry_reaches : all_reach registry ≡ true
unfolding registry allowed route find_route route_table same_text
registry_reaches = refl

and_parts : (a b : Bool) → (a && b) ≡ true → (a ≡ true) × (b ≡ true)
and_parts true b h = (refl, h)
and_parts false b h = absurd (cc)

abbrev Reaches : Tool → Type 0
Reaches t = (r : Route) × (tool_route t ≡ some r) × (allowed true t ≡ true → is_read r ≡ true)

read_when :
    (may : Bool) (o : Option Route)
    → reaches may o ≡ true
    → (r : Route) × (o ≡ some r) × (may ≡ true → is_read r ≡ true)
read_when may none h = absurd (cc)
read_when may (some r) h = (r, refl, ground arith)

find_in-Reaches :
    (ts : List Tool) (name : String) (t : Tool)
    → all_reach ts ≡ true
    → find_in ts name ≡ some t
    → Reaches t
unfolding find_in
find_in-Reaches [] name t h e = absurd (cc)
find_in-Reaches (u ∷ ts) name t h e =
    let (here, later) = and_parts (reaches (allowed true u) (tool_route u)) (all_reach ts) h in
    elim (Bool-cases (str_eq (Tool.name u) name)) [
      | inl hit ↦
          let same : u ≡ t = some_cancel (rw (hit, find_in) at e) in
          subst (λ k. Reaches k) same (read_when (allowed true u) (tool_route u) here)
      | inr miss ↦ find_in-Reaches ts name t later (rw (miss, find_in) at e)
    ]

-- Every tool of the registry maps to a route of the REST router, and a tool that a read-only
-- listener allows maps to a route that only reads.
pub find_tool-route :
    (name : String) (t : Tool)
    → find_tool name ≡ some t
    → (r : Route) × (route (codes (Tool.tool_method t)) (codes (Tool.tool_path t)) ≡ some r)
      × (allowed true t ≡ true → is_read r ≡ true)
unfolding find_tool
find_tool-route name t e = find_in-Reaches registry name t registry_reaches e
