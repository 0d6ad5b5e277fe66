-- ===== src/Dedup.antt =====
-- The cache of message ids that are being processed: `AtomicDedupCache` of src/dedup.rs. The map is a
-- list of entries, of which a lookup takes the one of its id. An operation is one step here, and tasks
-- take turns between operations: in the code an admission takes the generation, the entry and the
-- order one after the other, and what other tasks do between these is left out.
pub mod Bounds
mod Tests
use whatsrust.Prelude.{
  ℕ, suc, ◌+◌, ◌*◌, ◌%◌, ◌^◌, String, Bool, true, false, not, ◌&&◌, ◌||◌, Option, none, some, List,
  [], ◌∷◌, ◌++◌, ltb, ◌==◌, str_eq, length, keep, is_some, if◌then◌else◌,
}
use whatsrust.Prelude.Table.{first_where, update_where}

pub data DedupState : Type 0 where
  in_flight done : DedupState

pub record Entry : Type 0 where
  pub id : String
  pub state : DedupState
  pub gen : ℕ

-- An element of `order`.
pub record Ticket : Type 0 where
  pub id : String
  pub gen : ℕ

pub record Cache : Type 0 where
  pub entries : List Entry
  pub order : List Ticket
  pub capacity : ℕ
  pub gen : ℕ

abbrev pub new : ℕ → Cache
new capacity = record { entries = []; order = []; capacity = capacity; gen = 0 }

abbrev pub has_id : String → Entry → Bool
has_id id e = str_eq e.id id

abbrev pub lookup : String → List Entry → Option Entry
lookup id entries = first_where (has_id id) entries

unfoldable pub remove_id : String → List Entry → List Entry
remove_id id entries = keep (λ e. not (has_id id e)) entries

-- The ticket is that of the entry in the map.
unfoldable pub is_live : List Entry → Ticket → Bool
is_live entries t = elim (lookup t.id entries) [ none ↦ false | some e ↦ e.gen == t.gen ]

-- The loop that evicts: a ticket that is not live is skipped.
unfoldable pub evict : ℕ → List Ticket → List Entry → List Ticket × List Entry
unfolding is_live remove_id
evict capacity [] entries = ([], entries)
evict capacity (t ∷ ts) entries =
    let rest = evict capacity ts (if is_live entries t then remove_id t.id entries else entries) in
    if ltb capacity (length entries) then rest else (t ∷ ts, entries)

unfoldable pub compact : ℕ → List Entry → List Ticket → List Ticket
unfolding is_live
compact capacity entries order =
    if ltb (capacity * 3) (length order) then keep (is_live entries) order else order

-- The vacant arm of `try_admit`.
unfoldable pub admit : String → Cache → Cache
unfolding evict compact
admit id c =
    let entries = c.entries ++ record { id = id; state = in_flight; gen = c.gen } ∷ [] in
    let (order, kept) =
      evict c.capacity (c.order ++ record { id = id; gen = c.gen } ∷ []) entries in
    record c { entries = kept; order = compact c.capacity kept order; gen = (c.gen + 1) % 2 ^ 64 }

unfoldable pub try_admit : String → Cache → Cache × Bool
unfolding admit
try_admit id c = elim (lookup id c.entries) [
  | some e ↦ (record c { gen = (c.gen + 1) % 2 ^ 64 }, false)
  | none ↦ (admit id c, true)
]

unfoldable pub mark_done : String → Cache → Cache
mark_done id c = record c {
  entries = update_where (has_id id) (λ e. record e { state = done }) c.entries;
}

unfoldable pub remove : String → Cache → Cache
unfolding remove_id
remove id c = record c { entries = remove_id id c.entries }

unfoldable pub contains : String → Cache → Bool
contains id c = is_some (lookup id c.entries)

-- The operations of the threads, in the order in which they take effect.
pub data Op : Type 0 where
  admits marks removes : String → Op

unfoldable pub apply : Op → Cache → Cache
unfolding try_admit mark_done remove
apply (admits id) c = (try_admit id c).0
apply (marks id) c = mark_done id c
apply (removes id) c = remove id c

unfoldable pub run : List Op → Cache → Cache
unfolding apply
run [] c = c
run (o ∷ os) c = run os (apply o c)
