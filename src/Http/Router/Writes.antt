-- ===== src/Http/Router/Writes.antt =====
-- Which methods the routes of src/api.rs that change something have.
use whatsrust.Prelude.{
  ◌≡◌, refl, ap, ◌∙◌, Bool, true, false, ◌&&◌, ◌||◌, Option, some, List, [], ◌∷◌, arith, inl, inr,
  if◌then◌else◌, some_cancel, ◌⊎◌,
}
use whatsrust.Prelude.Texts.{Text, codes, same_text, same_text_iff}
use whatsrust.Http.Router.{Route, Entry, route_table, find_route, route, is_read}

-- Every entry only reads or is a POST.
abbrev reads_or_posts : Entry → Bool
reads_or_posts e =
    is_read (Entry.entry_route e) || same_text (codes (Entry.entry_method e)) (codes "POST")

abbrev all_read_or_post : List Entry → Bool
all_read_or_post [] = true
all_read_or_post (e ∷ es) = reads_or_posts e && all_read_or_post es

table_reads_or_posts : all_read_or_post route_table ≡ true
unfolding route_table same_text
table_reads_or_posts = refl

and_parts : (a b : Bool) → (a && b) ≡ true → (a ≡ true) × (b ≡ true)
and_parts true b h = (refl, h)
and_parts false b h = absurd (cc)

found_or_later :
    {o : Option Route} {r s : Route} (hit : Bool)
    → (if hit then some s else o) ≡ some r
    → (hit ≡ true) × (s ≡ r) ⊎ (o ≡ some r)
found_or_later true h = inl (refl, some_cancel h)
found_or_later false h = inr h

-- Of an entry that is no read the method is POST.
posts :
    (read : Bool) (m method : Text)
    → (read || same_text m (codes "POST")) ≡ true
    → read ≡ false
    → same_text m method ≡ true
    → method ≡ codes "POST"
posts read m method ok w same =
    ground (arith, same_text_iff m (codes "POST"), same_text_iff m method)

find_route-post :
    (es : List Entry) (method path : Text) (r : Route)
    → all_read_or_post es ≡ true
    → find_route es method path ≡ some r
    → is_read r ≡ false
    → method ≡ codes "POST"
unfolding find_route
find_route-post [] method path r ok h w = absurd (cc)
find_route-post (e ∷ es) method path r ok h w =
    let (here, later) = and_parts (reads_or_posts e) (all_read_or_post es) ok in
    let m = codes (Entry.entry_method e) in
    elim (found_or_later (same_text m method && same_text (codes (Entry.entry_path e)) path) h) [
      | inl (hit, same) ↦
          posts (is_read (Entry.entry_route e)) m method here (ap is_read same ∙ w)
            ((and_parts (same_text m method) _ hit).0)
      | inr rest ↦ find_route-post es method path r later rest w
    ]

-- Every route that changes something is reached by a POST, and by no other method.
pub route-post :
    (method path : Text) (r : Route)
    → route method path ≡ some r
    → is_read r ≡ false
    → method ≡ codes "POST"
unfolding route
route-post method path r h w = find_route-post route_table method path r table_reads_or_posts h w
