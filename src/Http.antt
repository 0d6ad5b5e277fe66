-- ===== src/Http.antt =====
-- What the two HTTP listeners share: the types of src/api.rs that a request head and a response are.
use whatsrust.Prelude.{ℕ, Bool, List}
use whatsrust.Prelude.Texts.{Text}
pub mod Url
pub mod Headers
pub mod Tokens
pub mod Lossy
pub mod Head
pub mod Body
pub mod Router
pub mod Serve
pub mod Response
pub mod Samples
mod Tests
pub mod Gate

-- A header as sent: its name and its value.
pub record Header : Type 0 where
  pub name : Text
  pub value : Text

-- `CallContext`
pub record CallContext : Type 0 where
  pub loopback_file_access : Bool

-- `RestRequest`
pub record RestRequest : Type 0 where
  pub rest_method : Text
  pub rest_path : Text
  pub rest_query : List (Text × Text)
  pub rest_body : List ℕ
  pub rest_context : CallContext

-- `RequestHead`
pub record RequestHead : Type 0 where
  pub method : Text
  pub path : Text
  pub query : List (Text × Text)
  pub headers : List Header
  pub content_length : ℕ
  pub leftover : List ℕ
