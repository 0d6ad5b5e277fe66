-- ===== src/Outbound/OpKind.antt =====
-- The kinds of outbound operation, and the words that stand for them in the queue
-- (src/outbound.rs).
use package.text.Mathlib.Text.{◌==◌}
use whatsrust.Prelude.{
  String, ◌≡◌, ◌↔◌, refl, Option, none, some, inl, inr, eq_iff, if◌then◌else◌, Bool-cases,
}

pub data OutboundOpKind : Type 0 where
  text : OutboundOpKind
  reply : OutboundOpKind
  image : OutboundOpKind
  video : OutboundOpKind
  audio : OutboundOpKind
  document : OutboundOpKind
  sticker : OutboundOpKind
  location : OutboundOpKind
  contact : OutboundOpKind
  reaction : OutboundOpKind
  unreact : OutboundOpKind
  edit : OutboundOpKind
  revoke : OutboundOpKind
  poll : OutboundOpKind
  forward : OutboundOpKind
  view_once_image : OutboundOpKind
  view_once_video : OutboundOpKind
  status_text : OutboundOpKind
  status_image : OutboundOpKind
  status_video : OutboundOpKind
  status_revoke : OutboundOpKind

unfoldable pub as_str : OutboundOpKind → String
as_str text = "text"
as_str reply = "reply"
as_str image = "image"
as_str video = "video"
as_str audio = "audio"
as_str document = "document"
as_str sticker = "sticker"
as_str location = "location"
as_str contact = "contact"
as_str reaction = "reaction"
as_str unreact = "unreact"
as_str edit = "edit"
as_str revoke = "revoke"
as_str poll = "poll"
as_str forward = "forward"
as_str view_once_image = "view_once_image"
as_str view_once_video = "view_once_video"
as_str status_text = "status_text"
as_str status_image = "status_image"
as_str status_video = "status_video"
as_str status_revoke = "status_revoke"

unfoldable pub parse_str : String → Option OutboundOpKind
parse_str s =
    if s == "text"
    then some text
    else if s == "reply"
    then some reply
    else if s == "image"
    then some image
    else if s == "video"
    then some video
    else if s == "audio"
    then some audio
    else if s == "document"
    then some document
    else if s == "sticker"
    then some sticker
    else if s == "location"
    then some location
    else if s == "contact"
    then some contact
    else if s == "reaction"
    then some reaction
    else if s == "unreact"
    then some unreact
    else if s == "edit"
    then some edit
    else if s == "revoke"
    then some revoke
    else if s == "poll"
    then some poll
    else if s == "forward"
    then some forward
    else if s == "view_once_image"
    then some view_once_image
    else if s == "view_once_video"
    then some view_once_video
    else if s == "status_text"
    then some status_text
    else if s == "status_image"
    then some status_image
    else if s == "status_video"
    then some status_video
    else if s == "status_revoke"
    then some status_revoke
    else none

-- Every kind is read back from its word.
parse_str-as_str : (k : OutboundOpKind) → parse_str (as_str k) ≡ some k
unfolding parse_str as_str
parse_str-as_str text = refl
parse_str-as_str reply = refl
parse_str-as_str image = refl
parse_str-as_str video = refl
parse_str-as_str audio = refl
parse_str-as_str document = refl
parse_str-as_str sticker = refl
parse_str-as_str location = refl
parse_str-as_str contact = refl
parse_str-as_str reaction = refl
parse_str-as_str unreact = refl
parse_str-as_str edit = refl
parse_str-as_str revoke = refl
parse_str-as_str poll = refl
parse_str-as_str forward = refl
parse_str-as_str view_once_image = refl
parse_str-as_str view_once_video = refl
parse_str-as_str status_text = refl
parse_str-as_str status_image = refl
parse_str-as_str status_video = refl
parse_str-as_str status_revoke = refl

-- What was read is the word of its kind.
abbrev Reads : String → Option OutboundOpKind → Type 0
Reads s none = Unit
Reads s (some k) = s ≡ as_str k

test-Reads :
    (s w : String) (a rest : Option OutboundOpKind)
    → (s ≡ w → Reads s a)
    → Reads s rest
    → Reads s (if s == w then a else rest)
test-Reads s w a rest hit miss = elim (Bool-cases (s == w)) [
  | inl e ↦ rw e (hit ((eq_iff s w).0 e))
  | inr e ↦ rw e miss
]

parse_str-Reads : (s : String) → Reads s (parse_str s)
unfolding parse_str as_str
parse_str-Reads s =
    test-Reads s "text" _ _ (λ e. e)
      (test-Reads s "reply" _ _ (λ e. e)
        (test-Reads s "image" _ _ (λ e. e)
          (test-Reads s "video" _ _ (λ e. e)
            (test-Reads s "audio" _ _ (λ e. e)
              (test-Reads s "document" _ _ (λ e. e)
                (test-Reads s "sticker" _ _ (λ e. e)
                  (test-Reads s "location" _ _ (λ e. e)
                    (test-Reads s "contact" _ _ (λ e. e)
                      (test-Reads s "reaction" _ _ (λ e. e)
                        (test-Reads s "unreact" _ _ (λ e. e)
                          (test-Reads s "edit" _ _ (λ e. e)
                            (test-Reads s "revoke" _ _ (λ e. e)
                              (test-Reads s "poll" _ _ (λ e. e)
                                (test-Reads s "forward" _ _ (λ e. e)
                                  (test-Reads s "view_once_image" _ _ (λ e. e)
                                    (test-Reads s "view_once_video" _ _ (λ e. e)
                                      (test-Reads s "status_text" _ _ (λ e. e)
                                        (test-Reads s "status_image" _ _ (λ e. e)
                                          (test-Reads s "status_video" _ _ (λ e. e)
                                            (test-Reads s "status_revoke" _ _ (λ e. e)
                                              (tt)))))))))))))))))))))

-- A word that is read as a kind is the word of that kind, so no two words share a kind.
as_str-parse_str : (s : String) (k : OutboundOpKind) → parse_str s ≡ some k → s ≡ as_str k
as_str-parse_str s k h = rw h at (parse_str-Reads s)

-- A word is read as a kind exactly if it is the word of that kind: each kind is read back from its
-- word, no two words share a kind, and every other word is refused.
pub parse_str_iff : (s : String) (k : OutboundOpKind) → (parse_str s ≡ some k) ↔ (s ≡ as_str k)
parse_str_iff s k = (as_str-parse_str s k, λ same. rw same (parse_str-as_str k))
