-- ===== src/Sidecar.antt =====
-- The calls to the embedding sidecar (src/embedder.rs): `SharedState`, `call_rpc` and the tasks that
-- write and read its pipes. Every locked section is one step. An answer is what the channel of a
-- call is sent; `given_up` notes the calls whose guard took them off the table.
use whatsrust.Prelude.{
  ℕ, suc, ◌+◌, ◌%◌, ◌^◌, String, Bool, true, false, Option, none, some, List, [], ◌∷◌, ◌++◌, ◌==◌,
  is_some, if◌then◌else◌, length, str_eq, ltb,
}
pub mod Routing
pub mod Verify
mod Tests

-- What a response line holds besides its id.
pub data Wire : Type 0 where
  wire_error : String → Wire
  wire_result : String → Wire
  wire_neither : Wire

pub data CallResult : Type 0 where
  replied : Wire → CallResult
  exited : String → CallResult

-- A `PendingEntry` under its id
pub record Entry : Type 0 where
  pub id : ℕ
  pub method : String

pub record Sent : Type 0 where
  pub call_id : ℕ
  pub result : CallResult

pub record Shared : Type 0 where
  pub pending : List Entry
  pub dead : Option String
  pub next_id : ℕ
  pub answers : List Sent
  pub given_up : List ℕ

abbrev pub new : Shared
new = record { pending = []; dead = none; next_id = 1; answers = []; given_up = [] }

-- `HashMap::insert` and `HashMap::remove`
unfoldable pub insert : Entry → List Entry → List Entry
insert e [] = e ∷ []
insert e (x ∷ xs) = let rest = insert e xs in if Entry.id x == Entry.id e then e ∷ xs else x ∷ rest

unfoldable pub lookup : ℕ → List Entry → Option Entry
lookup i [] = none
lookup i (x ∷ xs) = let rest = lookup i xs in if Entry.id x == i then some x else rest

unfoldable pub delete : ℕ → List Entry → List Entry
delete i [] = []
delete i (x ∷ xs) = let rest = delete i xs in if Entry.id x == i then xs else x ∷ rest

abbrev pub send : ℕ → CallResult → Shared → Shared
send i r s = record s { answers = record { call_id = i; result = r } ∷ Shared.answers s }

-- `register`, by what `dead` holds: a dead transport fails the call at once.
unfoldable pub register : Option String → ℕ → String → Shared → Shared
unfolding insert
register (some reason) i method s = send i (exited reason) s
register none i method s = record s {
  pending = insert (record { id = i; method = method }) (Shared.pending s);
}

-- `fetch_add(1)` on an AtomicU64
unfoldable pub call_rpc : String → Shared → Shared
unfolding register
call_rpc method s =
    register (Shared.dead s) (Shared.next_id s) method
      record s { next_id = (Shared.next_id s + 1) % 2 ^ 64 }

-- The answers that `mark_dead` sends to the calls it drains.
unfoldable pub fail_all : String → List Entry → List Sent → List Sent
fail_all reason [] sent = sent
fail_all reason (e ∷ es) sent =
    record { call_id = Entry.id e; result = exited reason } ∷ fail_all reason es sent

-- Only the first call has an effect.
unfoldable pub mark_when : Option String → String → Shared → Shared
unfolding fail_all
mark_when (some earlier) reason s = s
mark_when none reason s = record s {
  pending = [];
  dead = some reason;
  answers = fail_all reason (Shared.pending s) (Shared.answers s);
}

unfoldable pub mark_dead : String → Shared → Shared
unfolding mark_when
mark_dead reason s = mark_when (Shared.dead s) reason s

-- The guard of a call that is cancelled, by what `remove` finds.
unfoldable pub cancel_found : Option Entry → ℕ → Shared → Shared
unfolding delete
cancel_found none i s = s
cancel_found (some e) i s = record s {
  pending = delete i (Shared.pending s);
  given_up = i ∷ Shared.given_up s;
}

unfoldable pub cancel : ℕ → Shared → Shared
unfolding lookup cancel_found
cancel i s = cancel_found (lookup i (Shared.pending s)) i s

-- A response whose id nobody waits for is dropped.
unfoldable pub deliver_found : Option Entry → ℕ → Wire → Shared → Shared
unfolding delete
deliver_found none i w s = s
deliver_found (some e) i w s = send i (replied w) record s { pending = delete i (Shared.pending s) }

unfoldable pub deliver : ℕ → Wire → Shared → Shared
unfolding lookup deliver_found
deliver i w s = deliver_found (lookup i (Shared.pending s)) i w s

-- What the reader gets next.
pub data Line : Type 0 where
  read_failed : String → Line
  malformed : Line
  unroutable : Line
  response : ℕ → Wire → Line

unfoldable pub read_line : Line → Shared → Shared
unfolding mark_dead deliver
read_line (read_failed reason) s = mark_dead reason s
read_line malformed s = s
read_line unroutable s = s
read_line (response i w) s = deliver i w s

pub data Event : Type 0 where
  call : String → Event
  line : Line → Event
  write_failed : String → Event
  timeout : ℕ → Event

unfoldable pub step : Event → Shared → Shared
unfolding call_rpc read_line mark_dead cancel
step (call method) s = call_rpc method s
step (line l) s = read_line l s
step (write_failed reason) s = mark_dead reason s
step (timeout i) s = cancel i s

unfoldable pub run : List Event → Shared → Shared
unfolding step
run [] s = s
run (e ∷ es) s = run es (step e s)

-- `ModelInfo` and the wire form of an embedding response; a number stands for a float
pub record ModelInfo : Type 0 where
  pub model_id : String
  pub dim : ℕ

pub record EmbedWire : Type 0 where
  pub wire_model_id : String
  pub wire_dim : ℕ
  pub vectors : List (List ℕ)

pub data TransportFailure : Type 0 where
  model_mismatch : TransportFailure
  dim_mismatch : TransportFailure
  count_mismatch : TransportFailure
  length_mismatch : ℕ → TransportFailure

-- The loop over the vectors from index `i`.
unfoldable pub check_vectors : ℕ → ℕ → List (List ℕ) → Option TransportFailure
check_vectors dim i [] = none
check_vectors dim i (v ∷ vs) =
    let rest = check_vectors dim (suc i) vs in
    if length v == dim then rest else some (length_mismatch i)

unfoldable pub verify_embed_response : ModelInfo → ℕ → EmbedWire → Option TransportFailure
unfolding check_vectors
verify_embed_response expected count wire =
    if str_eq (EmbedWire.wire_model_id wire) (ModelInfo.model_id expected)
    then (if EmbedWire.wire_dim wire == ModelInfo.dim expected
        then (if length (EmbedWire.vectors wire) == count
            then check_vectors (ModelInfo.dim expected) 0 (EmbedWire.vectors wire)
            else some count_mismatch)
        else some dim_mismatch)
    else some model_mismatch
