-- ===== src/Backfill/Anchor.antt =====
-- Where a fetch starts, and where the next page does (src/backfill.rs).
use Prim.Native.Nat.{Ordering}
use Prim.Native.String.{compare as compare_text}
use whatsrust.Prelude.{
  ℕ, suc, ◌-◌, ◌*◌, ◌^◌, String, Bool, true, false, ◌&&◌, ◌||◌, Option, none, some, List, [], ◌∷◌,
  ltb, min, str_eq, if◌then◌else◌,
}
use whatsrust.Prelude.Int.{ℤ, pos, negsuc, ltb_ℤ, leb_ℤ}
use whatsrust.Store.Db.{Db, BackfillCursorRow}
use whatsrust.Store.Messages.{OldestMessageRow, get_oldest_message}
use whatsrust.Backfill.History.{WebMessageInfo, HistoryBatch}

pub record Anchor : Type 0 where
  pub oldest_msg_id : String
  pub oldest_msg_from_me : Bool
  pub oldest_msg_timestamp_ms : ℤ

-- A u64 `as i64`: the upper half wraps to the negative numbers.
abbrev pub as_i64 : ℕ → ℤ
as_i64 n = if ltb n (2 ^ 63) then pos n else negsuc (2 ^ 64 - 1 - n)

-- `i64::saturating_mul(1000)`
abbrev pub saturating_mul_1000 : ℤ → ℤ
saturating_mul_1000 (pos n) = pos (min (n * 1000) (2 ^ 63 - 1))
saturating_mul_1000 (negsuc n) = negsuc (min (suc n * 1000) (2 ^ 63) - 1)

abbrev pub or_false : Option Bool → Bool
or_false none = false
or_false (some b) = b

-- The closure of `filter_map`: a message without a time or a key id gives nothing.
unfoldable pub anchor_of : WebMessageInfo → Option Anchor
anchor_of m = elim m.message_timestamp [
  | none ↦ none
  | some ts ↦ elim m.key_id [
    | none ↦ none
    | some id ↦ some (record {
      oldest_msg_id = id;
      oldest_msg_from_me = or_false m.key_from_me;
      oldest_msg_timestamp_ms = saturating_mul_1000 (as_i64 ts);
    })
  ]
]

abbrev text_lt : String → String → Bool
text_lt s t = elim (compare_text s t) [ Ordering.lt ↦ true | _ ↦ false ]

-- `min_by_key` over (time, id): the earlier element stays on a tie.
abbrev pub is_before : Anchor → Anchor → Bool
is_before a b =
    ltb_ℤ a.oldest_msg_timestamp_ms b.oldest_msg_timestamp_ms
    || (leb_ℤ a.oldest_msg_timestamp_ms b.oldest_msg_timestamp_ms
        && text_lt a.oldest_msg_id b.oldest_msg_id)

unfoldable pub earlier : Option Anchor → Option Anchor → Option Anchor
earlier none b = b
earlier (some a) none = some a
earlier (some a) (some b) = if is_before b a then some b else some a

unfoldable pub oldest_of : Option Anchor → List WebMessageInfo → Option Anchor
unfolding anchor_of earlier
oldest_of best [] = best
oldest_of best (m ∷ ms) = oldest_of (earlier best (anchor_of m)) ms

unfoldable pub oldest_anchor : HistoryBatch → Option Anchor
unfolding oldest_of
oldest_anchor batch = oldest_of none batch.messages

pub data AnchorResolution : Type 0 where
  cursor : Anchor → AnchorResolution
  oldest_stored : Anchor → AnchorResolution
  no_anchor : AnchorResolution

abbrev non_empty : Option String → Option String
non_empty none = none
non_empty (some id) = if str_eq id "" then none else some id

unfoldable pub cursor_anchor : BackfillCursorRow → Option Anchor
cursor_anchor c = elim (non_empty c.oldest_msg_id) [
  | none ↦ none
  | some id ↦ elim c.oldest_msg_timestamp_ms [
    | none ↦ none
    | some ts ↦ some (record {
      oldest_msg_id = id;
      oldest_msg_from_me = or_false c.oldest_msg_from_me;
      oldest_msg_timestamp_ms = ts;
    })
  ]
]

unfoldable pub oldest_stored_anchor : OldestMessageRow → Anchor
oldest_stored_anchor row = record {
  oldest_msg_id = row.message_id;
  oldest_msg_from_me = row.from_me;
  oldest_msg_timestamp_ms = saturating_mul_1000 row.timestamp_secs;
}

-- `cursor.and_then(cursor_anchor)`
abbrev pub usable_cursor : Option BackfillCursorRow → Option Anchor
usable_cursor none = none
usable_cursor (some c) = cursor_anchor c

unfoldable pub resolve_anchor : String → Option BackfillCursorRow → Db → AnchorResolution
resolve_anchor chat c db = elim (usable_cursor c) [
  | some a ↦ cursor a
  | none ↦ elim (get_oldest_message chat db) [
    | some row ↦ oldest_stored (oldest_stored_anchor row)
    | none ↦ no_anchor
  ]
]
