-- ===== src/Http.antt =====
-- What the program uses of the `http` crate, and the parts of a request.
use docker_socket_proxy.Common.{
  ℕ, Bool, List, [], ◌∷◌, Option, none, some, Member, Str, to_ascii_lowercase, ◌≡◌, ◌↔◌,
}

-- The entries of a header map in order, or the calls of a message builder's `header`.
abbrev pub Headers : Type 0
Headers = List (Str × Str)

abbrev pub first_of : List Str → Option Str
first_of [] = none
first_of (v ∷ vs) = some v

-- `HeaderMap`, `HeaderValue::to_str` and `StatusCode::from_u16`. A header map is looked up by names
-- in lower case and yields its entries by its iterator; `get` is the first value of `get_all`. A value
-- that reads as text is that text, and a status code that is accepted is the number given. A
-- builder is given the parts of a message, and may refuse them.
pub record HeaderMaps : Type 1 where
  pub HeaderMap : Type 0
  pub iter : HeaderMap → Headers
  pub get : HeaderMap → Str → Option Str
  pub get_all : HeaderMap → Str → List Str
  pub to_str : Str → Option Str
  pub from_u16 : ℕ → Option ℕ
  -- the error of `Request::builder()` and of `Response::builder()` on these parts, if there is one
  pub request_error : (method target : Str) → Headers → Option Str
  pub response_error : ℕ → Headers → Option Str
  pub get_all_iff :
      (h : HeaderMap) (name v : Str)
      → to_ascii_lowercase name ≡ name
      → Member v (get_all h name) ↔ Member (name, v) (iter h)
  pub get_first : (h : HeaderMap) (name : Str) → get h name ≡ first_of (get_all h name)
  pub to_str_same : (v text : Str) → to_str v ≡ some text → text ≡ v
  pub from_u16_same : (n m : ℕ) → from_u16 n ≡ some m → m ≡ n

-- `on_upgrade`: whether the connection put its `OnUpgrade` into the extensions
pub record Request (H B : Type 0) : Type 0 where
  pub method : Str
  pub path : Str
  pub query : Option Str
  pub headers : H
  pub on_upgrade : Bool
  pub body : B
