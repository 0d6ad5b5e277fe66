-- ===== src/Sidecar/Routing/Runs.antt =====
-- The calls to the sidecar over a run of events.
use whatsrust.Prelude.{
  ℕ, ◌+◌, ◌%◌, ◌^◌, ◌≤◌, ◌<◌, String, ◌≡◌, ◌⊎◌, refl, ap, true, false, Option, none, some, List, [],
  ◌∷◌, length, arith, inl, inr,
}
use whatsrust.Sidecar.{
  Wire, replied, exited, Entry, Sent, Shared, new, lookup, register, call_rpc, fail_all, mark_when,
  mark_dead, cancel_found, cancel, deliver_found, deliver, Line, read_failed, malformed, unroutable,
  response, read_line, Event, call, line, write_failed, timeout, step, run,
}
use whatsrust.Sidecar.Routing.{
  IsSane, register-IsSane, mark_when-IsSane, cancel_found-IsSane, deliver_found-IsSane,
}

read_line-IsSane : (l : Line) (s : Shared) → IsSane s → IsSane (read_line l s)
unfolding read_line mark_dead deliver
read_line-IsSane (read_failed reason) s ok = mark_when-IsSane (Shared.dead s) reason s ok
read_line-IsSane malformed s ok = ok
read_line-IsSane unroutable s ok = ok
read_line-IsSane (response i w) s ok =
    deliver_found-IsSane (lookup i (Shared.pending s)) i w s ok refl

step-IsSane :
    (e : Event) (s : Shared) → IsSane s → Shared.next_id s + 1 < 2 ^ 64 → IsSane (step e s)
unfolding step call_rpc mark_dead cancel
step-IsSane (call method) s ok small = register-IsSane (Shared.dead s) method s ok refl small
step-IsSane (line l) s ok small = read_line-IsSane l s ok
step-IsSane (write_failed reason) s ok small = mark_when-IsSane (Shared.dead s) reason s ok
step-IsSane (timeout i) s ok small = cancel_found-IsSane (lookup i (Shared.pending s)) i s ok refl

next-register :
    (o : Option String) (i : ℕ) (method : String) (s : Shared)
    → Shared.next_id (register o i method s) ≡ Shared.next_id s
unfolding register
next-register none i method s = refl
next-register (some reason) i method s = refl

next-mark_when :
    (o : Option String) (reason : String) (s : Shared)
    → Shared.next_id (mark_when o reason s) ≡ Shared.next_id s
unfolding mark_when
next-mark_when none reason s = refl
next-mark_when (some earlier) reason s = refl

next-cancel_found :
    (o : Option Entry) (i : ℕ) (s : Shared) → Shared.next_id (cancel_found o i s) ≡ Shared.next_id s
unfolding cancel_found
next-cancel_found none i s = refl
next-cancel_found (some e) i s = refl

next-deliver_found :
    (o : Option Entry) (i : ℕ) (w : Wire) (s : Shared)
    → Shared.next_id (deliver_found o i w s) ≡ Shared.next_id s
unfolding deliver_found
next-deliver_found none i w s = refl
next-deliver_found (some e) i w s = refl

next-step : (e : Event) (s : Shared) → Shared.next_id (step e s) ≤ Shared.next_id s + 1
unfolding step call_rpc mark_dead cancel read_line deliver
next-step (call method) s = omega (
  arith,
  next-register (Shared.dead s) (Shared.next_id s) method
      record s { next_id = (Shared.next_id s + 1) % 2 ^ 64 },
)
next-step (line (read_failed reason)) s = omega (arith, next-mark_when (Shared.dead s) reason s)
next-step (line malformed) s = omega arith
next-step (line unroutable) s = omega arith
next-step (line (response i w)) s =
    omega (arith, next-deliver_found (lookup i (Shared.pending s)) i w s)
next-step (write_failed reason) s = omega (arith, next-mark_when (Shared.dead s) reason s)
next-step (timeout i) s = omega (arith, next-cancel_found (lookup i (Shared.pending s)) i s)

run-IsSane_from :
    (es : List Event) (s : Shared)
    → IsSane s
    → Shared.next_id s + length es < 2 ^ 64
    → IsSane (run es s)
unfolding run
run-IsSane_from [] s ok small = ok
run-IsSane_from (e ∷ es) s ok small =
    run-IsSane_from es (step e s) (step-IsSane e s ok (omega arith)) (omega (arith, next-step e s))

-- Over any run of calls, timeouts, response lines and pipe failures, of fewer than 2^64 - 1 events,
-- every call that was made, which has an id from 1 on, is waiting, answered or given up, exactly once
-- in one of the three; no other id is anywhere; and once the transport is dead no call is left waiting.
pub run-calls_once : (es : List Event) → 1 + length es < 2 ^ 64 → IsSane (run es new)
run-calls_once es small = run-IsSane_from es new new-IsSane (omega arith)
  where
    new-IsSane : IsSane new
    new-IsSane = record {
      once = λ i. ground arith;
      started = omega arith;
      dead_silent = λ r d. refl;
    }

-- An answer that holds a response, among the answers sent.
abbrev pub Got : ℕ → Wire → List Sent → Type 0
Got i w [] = false ≡ true
Got i w (a ∷ sent) = (a ≡ record { call_id = i; result = replied w }) ⊎ Got i w sent

-- The line with that response, among the events.
abbrev pub Came : ℕ → Wire → List Event → Type 0
Came i w [] = false ≡ true
Came i w (e ∷ es) = (e ≡ line (response i w)) ⊎ Came i w es

fail_all-Got :
    (i : ℕ) (w : Wire) (reason : String) (es : List Entry) (sent : List Sent)
    → Got i w (fail_all reason es sent)
    → Got i w sent
unfolding fail_all
fail_all-Got i w reason [] sent h = h
fail_all-Got i w reason (e ∷ es) sent (inl h) =
    absurd (let g : exited reason ≡ replied w = ap (λ a. Sent.result a) h in cc)
fail_all-Got i w reason (e ∷ es) sent (inr h) = fail_all-Got i w reason es sent h

mark_when-Got :
    (o : Option String) (i : ℕ) (w : Wire) (reason : String) (s : Shared)
    → Got i w (Shared.answers (mark_when o reason s))
    → Got i w (Shared.answers s)
unfolding mark_when
mark_when-Got (some earlier) i w reason s h = h
mark_when-Got none i w reason s h = fail_all-Got i w reason (Shared.pending s) (Shared.answers s) h

register-Got :
    (o : Option String) (i j : ℕ) (w : Wire) (method : String) (s : Shared)
    → Got i w (Shared.answers (register o j method s))
    → Got i w (Shared.answers s)
unfolding register
register-Got (some reason) i j w method s (inl h) =
    absurd (let g : exited reason ≡ replied w = ap (λ a. Sent.result a) h in cc)
register-Got (some reason) i j w method s (inr h) = h
register-Got none i j w method s h = h

cancel_found-Got :
    (o : Option Entry) (i j : ℕ) (w : Wire) (s : Shared)
    → Got i w (Shared.answers (cancel_found o j s))
    → Got i w (Shared.answers s)
unfolding cancel_found
cancel_found-Got none i j w s h = h
cancel_found-Got (some e) i j w s h = h

replied_cancel : {v w : Wire} → replied v ≡ replied w → v ≡ w
replied_cancel h = cc

deliver_found-Got :
    (o : Option Entry) (i j : ℕ) (w v : Wire) (s : Shared)
    → Got i w (Shared.answers (deliver_found o j v s))
    → (line (response j v) ≡ line (response i w)) ⊎ Got i w (Shared.answers s)
unfolding deliver_found
deliver_found-Got none i j w v s h = inr h
deliver_found-Got (some e) i j w v s (inr h) = inr h
deliver_found-Got (some e) i j w v s (inl h) =
    let ids : j ≡ i = ap (λ a. Sent.call_id a) h in
    let wires : v ≡ w = replied_cancel (ap (λ a. Sent.result a) h) in inl (cc)

step-Got :
    (e : Event) (i : ℕ) (w : Wire) (s : Shared)
    → Got i w (Shared.answers (step e s))
    → (e ≡ line (response i w)) ⊎ Got i w (Shared.answers s)
unfolding step call_rpc mark_dead cancel read_line deliver
step-Got (call method) i w s h =
    inr (register-Got (Shared.dead s) i (Shared.next_id s) w method _ h)
step-Got (line (read_failed reason)) i w s h = inr (mark_when-Got (Shared.dead s) i w reason s h)
step-Got (line malformed) i w s h = inr h
step-Got (line unroutable) i w s h = inr h
step-Got (line (response j v)) i w s h = deliver_found-Got (lookup j (Shared.pending s)) i j w v s h
step-Got (write_failed reason) i w s h = inr (mark_when-Got (Shared.dead s) i w reason s h)
step-Got (timeout j) i w s h = inr (cancel_found-Got (lookup j (Shared.pending s)) i j w s h)

run-Got :
    (es : List Event) (i : ℕ) (w : Wire) (s : Shared)
    → Got i w (Shared.answers (run es s))
    → Came i w es ⊎ Got i w (Shared.answers s)
unfolding run
run-Got [] i w s h = inr h
run-Got (e ∷ es) i w s h = elim (run-Got es i w (step e s) h) [
  | inl later ↦ inl (inr later)
  | inr now ↦ elim (step-Got e i w s now) [ inl this ↦ inl (inl this) | inr before ↦ inr before ]
]

-- A call is only ever answered with a response that a line brought under that call's own id.
pub run-routes :
    (es : List Event) (i : ℕ) (w : Wire) → Got i w (Shared.answers (run es new)) → Came i w es
run-routes es i w h = elim (run-Got es i w new h) [
  | inl came ↦ came
  | inr before ↦ absurd (cc (before))
]
