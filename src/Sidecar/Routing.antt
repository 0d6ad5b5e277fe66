-- ===== src/Sidecar/Routing.antt =====
-- Where the calls to the sidecar end up.
pub mod Runs
use mathlib.Core.Path.{subst}
use whatsrust.Prelude.{
  ℕ, suc, ◌+◌, ◌%◌, ◌^◌, ◌≤◌, ◌<◌, String, ◌≡◌, ◌≢◌, ◌⊎◌, refl, sym, ap, ◌∙◌, Bool, true, false,
  Option, none, some, List, [], ◌∷◌, ◌==◌, if◌then◌else◌, ltb, leb, ◌&&◌, length, arith, inl, inr,
  Bool-cases, Option-cases,
}
use whatsrust.Prelude.Table.{All}
use whatsrust.Sidecar.{
  Wire, CallResult, replied, exited, Entry, Sent, Shared, insert, lookup, delete, send, register,
  call_rpc, fail_all, mark_when, mark_dead, cancel_found, cancel, deliver_found, deliver, Line,
  read_failed, malformed, unroutable, response, read_line, Event, call, line, write_failed, timeout,
  step, run,
}

-- How often an id is waited for, answered and given up.
abbrev pub waiting : ℕ → List Entry → ℕ
waiting i [] = 0
waiting i (e ∷ es) = (if Entry.id e == i then 1 else 0) + waiting i es

abbrev pub answered : ℕ → List Sent → ℕ
answered i [] = 0
answered i (a ∷ sent) = (if Sent.call_id a == i then 1 else 0) + answered i sent

abbrev pub dropped : ℕ → List ℕ → ℕ
dropped i [] = 0
dropped i (j ∷ js) = (if j == i then 1 else 0) + dropped i js

abbrev pub fates : ℕ → Shared → ℕ
fates i s =
    waiting i (Shared.pending s) + answered i (Shared.answers s) + dropped i (Shared.given_up s)

-- Every call that was made, of the ids from 1 on, is at one place, no other one is anywhere, and on
-- a dead transport nobody waits.
pub record IsSane (s : Shared) : Type 0 where
  pub once : (i : ℕ) → fates i s ≡ (if leb 1 i && ltb i (Shared.next_id s) then 1 else 0)
  pub started : 1 ≤ Shared.next_id s
  pub dead_silent : (reason : String) → Shared.dead s ≡ some reason → Shared.pending s ≡ []

waiting-insert :
    (i : ℕ) (e : Entry) (es : List Entry)
    → waiting (Entry.id e) es ≡ 0
    → waiting i (insert e es) ≡ (if Entry.id e == i then 1 else 0) + waiting i es
unfolding insert
waiting-insert i e [] h = omega arith
waiting-insert i e (x ∷ es) h = ground (arith, waiting-insert i e es)

waiting-delete :
    (i j : ℕ) (es : List Entry) {e : Entry}
    → lookup i es ≡ some e
    → waiting j (delete i es) + (if i == j then 1 else 0) ≡ waiting j es
unfolding lookup delete
waiting-delete i j [] h = absurd (cc)
waiting-delete i j (x ∷ es) {e} h = ground (arith, waiting-delete i j es {e = e})

answered-fail_all :
    (i : ℕ) (reason : String) (es : List Entry) (sent : List Sent)
    → answered i (fail_all reason es sent) ≡ waiting i es + answered i sent
unfolding fail_all
answered-fail_all i reason [] sent = omega arith
answered-fail_all i reason (e ∷ es) sent = omega (arith, answered-fail_all i reason es sent)

lookup_empty : (i : ℕ) (es : List Entry) {e : Entry} → lookup i es ≡ some e → es ≢ []
unfolding lookup
lookup_empty i [] h g = absurd (cc)
lookup_empty i (x ∷ es) h g = absurd (cc)

register-IsSane :
    (o : Option String) (method : String) (s : Shared)
    → IsSane s
    → Shared.dead s ≡ o
    → Shared.next_id s + 1 < 2 ^ 64
    → IsSane (
        register o (Shared.next_id s) method record s { next_id = (Shared.next_id s + 1) % 2 ^ 64 })
unfolding register
register-IsSane (some reason) method s ok d small = record {
  once = λ i. ground (arith, IsSane.once ok i, IsSane.started ok);
  started = omega arith;
  dead_silent = IsSane.dead_silent ok;
}
register-IsSane none method s ok d small = record {
  once = λ i. ground (
    arith,
    IsSane.once ok i,
    IsSane.once ok (Shared.next_id s),
    IsSane.started ok,
    waiting-insert i (record { id = Shared.next_id s; method = method }) (Shared.pending s),
  );
  started = omega arith;
  dead_silent = λ reason e. absurd (let g = sym d ∙ e in cc);
}

mark_when-IsSane :
    (o : Option String) (reason : String) (s : Shared) → IsSane s → IsSane (mark_when o reason s)
unfolding mark_when
mark_when-IsSane (some earlier) reason s ok = ok
mark_when-IsSane none reason s ok = record {
  once = λ i.
      ground
        (arith, IsSane.once ok i, answered-fail_all i reason (Shared.pending s) (Shared.answers s));
  started = IsSane.started ok;
  dead_silent = λ r e. refl;
}

-- Nobody waits on a dead transport, so an entry is only found on a live one.
found_alive :
    {G : Type 0} (s : Shared) (i : ℕ) {e : Entry} {reason : String}
    → IsSane s
    → lookup i (Shared.pending s) ≡ some e
    → Shared.dead s ≡ some reason
    → G
found_alive s i {e} {reason} ok h d =
    absurd (lookup_empty i (Shared.pending s) h (IsSane.dead_silent ok reason d))

cancel_found-IsSane :
    (o : Option Entry) (i : ℕ) (s : Shared)
    → IsSane s
    → lookup i (Shared.pending s) ≡ o
    → IsSane (cancel_found o i s)
unfolding cancel_found
cancel_found-IsSane none i s ok h = ok
cancel_found-IsSane (some e) i s ok h = record {
  once = λ j. ground (arith, IsSane.once ok j, waiting-delete i j (Shared.pending s) {e = e} h);
  started = IsSane.started ok;
  dead_silent = λ r d. found_alive s i ok h d;
}

deliver_found-IsSane :
    (o : Option Entry) (i : ℕ) (w : Wire) (s : Shared)
    → IsSane s
    → lookup i (Shared.pending s) ≡ o
    → IsSane (deliver_found o i w s)
unfolding deliver_found
deliver_found-IsSane none i w s ok h = ok
deliver_found-IsSane (some e) i w s ok h = record {
  once = λ j. ground (arith, IsSane.once ok j, waiting-delete i j (Shared.pending s) {e = e} h);
  started = IsSane.started ok;
  dead_silent = λ r d. found_alive s i ok h d;
}
