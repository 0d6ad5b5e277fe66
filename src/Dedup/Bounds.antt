-- ===== src/Dedup/Bounds.antt =====
-- The eviction loop and the compaction of src/dedup.rs, and histories of the cache.
use mathlib.Core.Path.{subst}
use whatsrust.Prelude.{
  ℕ, ◌*◌, ◌≤◌, ◌≡◌, ◌≢◌, ◌∙◌, sym, refl, String, Bool, true, false, not, ◌&&◌, ◌||◌, none, some,
  List, [], ◌∷◌, ◌++◌, arith, ltb, ◌==◌, str_eq, eq_iff, length, length-keep, keep, inl, inr,
  Bool-cases, Option-cases, some_cancel, if◌then◌else◌,
}
use whatsrust.Prelude.Table.{first_where, first_where-holds, first_where-append, update_where}
use whatsrust.Dedup.{
  Entry, Ticket, Cache, Op, admits, marks, removes, in_flight, done, new, has_id, lookup, remove_id,
  is_live, evict, compact, admit, try_admit, mark_done, remove, apply, run,
}

abbrev pub is_ticket : Entry → Ticket → Bool
is_ticket e t = str_eq t.id e.id && t.gen == e.gen

abbrev pub has_ticket : Entry → List Ticket → Bool
has_ticket e [] = false
has_ticket e (t ∷ ts) = is_ticket e t || has_ticket e ts

-- Each entry that a lookup finds has its ticket in the order.
abbrev pub IsCovered : List Ticket → List Entry → Type 0
IsCovered order entries =
    (id : String) (e : Entry) → lookup id entries ≡ some e → has_ticket e order ≡ true

lookup-remove_id :
    (id other : String) (entries : List Entry)
    → lookup id (remove_id other entries) ≡ (if str_eq id other then none else lookup id entries)
unfolding remove_id first_where
lookup-remove_id id other [] = ground arith
lookup-remove_id id other (e ∷ es) =
    ground (arith, eq_iff id other, eq_iff e.id id, eq_iff e.id other, lookup-remove_id id other es)

has_ticket-append :
    (e : Entry) (ts us : List Ticket)
    → has_ticket e (ts ++ us) ≡ (has_ticket e ts || has_ticket e us)
has_ticket-append e [] us = refl
has_ticket-append e (t ∷ ts) us = ground (arith, has_ticket-append e ts us)

lookup-id :
    (id : String) (entries : List Entry) {e : Entry} → lookup id entries ≡ some e → e.id ≡ id
lookup-id id entries {e} h = (eq_iff e.id id).0 (first_where-holds (has_id id) entries h)

-- A lookup after a removal finds what it found before, of another id.
lookup-removed :
    (id other : String) (entries : List Entry) {e : Entry}
    → lookup id (remove_id other entries) ≡ some e
    → (lookup id entries ≡ some e) × (id ≢ other)
lookup-removed id other entries {e} h = elim (Bool-cases (str_eq id other)) [
  | inl same ↦
      absurd (let g : none ≡ some e = rw (lookup-remove_id id other entries, same) at h in cc)
  | inr differs ↦ (
    rw (lookup-remove_id id other entries, differs) at h,
    λ same. ground (arith, (eq_iff id other).1 same, differs),
  )
]

dead-other :
    (t : Ticket) (id : String) (entries : List Entry) {e : Entry}
    → lookup id entries ≡ some e
    → is_live entries t ≡ false
    → is_ticket e t ≡ false
unfolding is_live
dead-other t id entries {e} found dead = elim (Bool-cases (str_eq t.id id)) [
  | inl same ↦
      let here : lookup t.id entries ≡ some e =
        subst (λ k. lookup k entries ≡ some e) (sym ((eq_iff t.id id).0 same)) found in
      ground (arith, here, dead)
  | inr differs ↦
      ground (arith, lookup-id id entries found, eq_iff t.id e.id, eq_iff t.id id, differs)
]

drop-IsCovered :
    (t : Ticket) (ts : List Ticket) (entries : List Entry)
    → IsCovered (t ∷ ts) entries
    → IsCovered ts (if is_live entries t then remove_id t.id entries else entries)
drop-IsCovered t ts entries covered id e found = elim (Bool-cases (is_live entries t)) [
  | inl live ↦
      let (before, differs) = lookup-removed id t.id entries (rw live at found) in
      let known = lookup-id id entries before in
      ground (arith, covered id e before, known, differs, eq_iff t.id e.id)
  | inr dead ↦
      let before : lookup id entries ≡ some e = rw dead at found in
      ground (arith, covered id e before, dead-other t id entries before dead)
]

-- Where each entry has a ticket the loop gets the map down to the capacity, and each entry that is
-- left still has its ticket.
evict_lem :
    (capacity : ℕ) (ts : List Ticket) (entries : List Entry)
    → IsCovered ts entries
    → (length (evict capacity ts entries).1 ≤ capacity)
      × IsCovered (evict capacity ts entries).0 (evict capacity ts entries).1
unfolding evict first_where
evict_lem capacity [] [] covered = (omega arith, covered)
evict_lem capacity [] (e ∷ es) covered =
    absurd (let g : false ≡ true = covered e.id e (ground (arith, eq_iff e.id e.id)) in cc)
evict_lem capacity (t ∷ ts) entries covered = elim (Bool-cases (ltb capacity (length entries))) [
  | inl over ↦ rw (over, evict) (evict_lem capacity ts _ (drop-IsCovered t ts entries covered))
  | inr fits ↦ rw (fits, evict) (ground arith, covered)
]

keep-has_ticket :
    (id : String) (entries : List Entry) (e : Entry) (ts : List Ticket)
    → lookup id entries ≡ some e
    → has_ticket e ts ≡ true
    → has_ticket e (keep (is_live entries) ts) ≡ true
keep-has_ticket id entries e [] found h = h
keep-has_ticket id entries e (t ∷ ts) found h = elim (Bool-cases (is_live entries t)) [
  | inl live ↦ rw live (ground (arith, h, keep-has_ticket id entries e ts found))
  | inr dead ↦
      rw dead (
        ground
          (arith, h, dead-other t id entries found dead, keep-has_ticket id entries e ts found))
]

compact-IsCovered :
    (capacity : ℕ) (entries : List Entry) (ts : List Ticket)
    → IsCovered ts entries
    → IsCovered (compact capacity entries ts) entries
unfolding compact
compact-IsCovered capacity entries ts covered id e found =
    elim (Bool-cases (ltb (capacity * 3) (length ts))) [
      | inl long ↦ rw (long, compact) (keep-has_ticket id entries e ts found (covered id e found))
      | inr short ↦ rw (short, compact) (covered id e found)
    ]

append-IsCovered :
    (new_entry : Entry) (ts : List Ticket) (entries : List Entry)
    → IsCovered ts entries
    → IsCovered
        (ts ++ record { id = new_entry.id; gen = new_entry.gen } ∷ [])
        (entries ++ new_entry ∷ [])
unfolding first_where
append-IsCovered n ts entries covered id e found = ground (
  arith,
  has_ticket-append e ts (record { id = n.id; gen = n.gen } ∷ []),
  covered id e,
  first_where-append (has_id id) entries (n ∷ []),
  found,
  eq_iff n.id n.id,
  eq_iff e.id e.id,
)

abbrev as_done : String → Entry → Entry
as_done other x = if has_id other x then record x { state = done } else x

lookup-marked :
    (id other : String) (entries : List Entry)
    → lookup id (update_where (has_id other) (λ x. record x { state = done }) entries)
      ≡ elim (lookup id entries) [ none ↦ none | some x ↦ some (as_done other x) ]
unfolding first_where update_where
lookup-marked id other [] = refl
lookup-marked id other (x ∷ entries) = ground (arith, lookup-marked id other entries)

has_ticket-as_done :
    (other : String) (x : Entry) (ts : List Ticket)
    → has_ticket (as_done other x) ts ≡ has_ticket x ts
has_ticket-as_done other x [] = refl
has_ticket-as_done other x (t ∷ ts) = ground (arith, has_ticket-as_done other x ts)

length-update_where :
    (p : Entry → Bool) (f : Entry → Entry) (entries : List Entry)
    → length (update_where p f entries) ≡ length entries
unfolding update_where
length-update_where p f [] = refl
length-update_where p f (e ∷ entries) = omega (arith, length-update_where p f entries)

-- What holds of the cache after every operation.
abbrev pub IsSane : Cache → Type 0
IsSane c = (length c.entries ≤ c.capacity) × IsCovered c.order c.entries

try_admit-IsSane : (id : String) (c : Cache) → IsSane c → IsSane (try_admit id c).0
unfolding try_admit admit
try_admit-IsSane id c h = elim (Option-cases (lookup id c.entries)) [
  | inr (e, known) ↦ rw (known, try_admit) h
  | inl fresh ↦
      let n : Entry = record { id = id; state = in_flight; gen = c.gen } in
      let (fits, covered) = evict_lem c.capacity _ _ (append-IsCovered n c.order c.entries h.1) in
      rw (fresh, try_admit) (fits, compact-IsCovered c.capacity _ _ covered)
]

remove-IsSane : (id : String) (c : Cache) → IsSane c → IsSane (remove id c)
unfolding remove remove_id
remove-IsSane id c h = (
  omega (arith, h.0, length-keep (λ e. not (has_id id e)) c.entries),
  λ other e found. h.1 other e (lookup-removed other id c.entries found).0,
)

mark_done-IsSane : (id : String) (c : Cache) → IsSane c → IsSane (mark_done id c)
unfolding mark_done
mark_done-IsSane id c h = (
  omega (arith, h.0, length-update_where (has_id id) (λ e. record e { state = done }) c.entries),
  λ other e found. elim (Option-cases (lookup other c.entries)) [
    | inl e' ↦
        absurd (let g : none ≡ some e = rw (lookup-marked other id c.entries, e') at found in cc)
    | inr (x, e') ↦
        let same : as_done id x ≡ e = some_cancel (
          let g : some (as_done id x) ≡ some e =
            rw (lookup-marked other id c.entries, e') at found in
          g) in
        subst (λ y. has_ticket y c.order ≡ true) same
          (has_ticket-as_done id x c.order ∙ h.1 other x e')
  ],
)

apply-IsSane : (o : Op) (c : Cache) → IsSane c → IsSane (apply o c)
unfolding apply
apply-IsSane (admits id) c h = try_admit-IsSane id c h
apply-IsSane (marks id) c h = mark_done-IsSane id c h
apply-IsSane (removes id) c h = remove-IsSane id c h

run-Sane : (os : List Op) (c : Cache) → IsSane c → IsSane (run os c)
unfolding run
run-Sane [] c h = h
run-Sane (o ∷ os) c h = run-Sane os (apply o c) (apply-IsSane o c h)

-- After any admissions, marks and removals from a new cache, the cache holds at most as many ids as
-- its capacity, and each id that it knows still has its ticket in the eviction order, so that it can
-- be evicted, however often ids were removed and admitted again.
pub run-IsSane : (os : List Op) (capacity : ℕ) → IsSane (run os (new capacity))
unfolding first_where
run-IsSane os capacity =
    run-Sane os (new capacity) (omega arith, λ id e found. absurd (ground arith))
