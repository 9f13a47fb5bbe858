-- ===== src/Response.antt =====
-- common/interceptors/api-response.interceptor.ts. The time is an argument.
use nestjs_order_api.Base.{
  ℕ, String, Option, none, some, List, [], ◌∷◌, or_else, ◌<>◌, ◌===◌, if◌then◌else◌,
}
use nestjs_order_api.Prisma.{Action, pure, ◌>>=◌}
use nestjs_order_api.User.{filled}

pub data ResponseStatus : Type 0 where
  success error : ResponseStatus

pub record ApiResponse (A : Type 0) : Type 0 where
  pub status : ResponseStatus
  pub body : A
  pub message : String
  pub timestamp : ℕ

pub record ApiResponseOptions : Type 0 where
  pub message : Option String
  pub status : Option ResponseStatus

abbrev method_messages : List (String × String)
method_messages =
    ("create", "Resource created successfully")
    ∷ ("findAll", "Resources retrieved successfully")
    ∷ ("findOne", "Resource retrieved successfully")
    ∷ ("update", "Resource updated successfully")
    ∷ ("remove", "Resource deleted successfully")
    ∷ ("login", "Login successful")
    ∷ ("register", "Registration successful")
    ∷ ("checkout", "Order checkout successful")
    ∷ ("complete", "Order completed successfully")
    ∷ ("addItem", "Item added to order successfully")
    ∷ ("paymentReceived", "Payment marked as received")
    ∷ []

abbrev lookup : String → List (String × String) → Option String
lookup k [] = none
lookup k ((j, v) ∷ ms) = if j === k then some v else lookup k ms

unfoldable pub get_default_message : (method http_method : String) → String
get_default_message method http_method =
    or_else (lookup method method_messages) (http_method <> " operation completed successfully")

abbrev option_message : Option ApiResponseOptions → Option String
option_message none = none
option_message (some o) = filled o.message

abbrev option_status : Option ApiResponseOptions → Option ResponseStatus
option_status none = none
option_status (some o) = o.status

-- An answer is wrapped; an error passes.
unfoldable pub respond :
    {E A : Type 0}
    → Option ApiResponseOptions
    → (method http_method : String) → ℕ
    → Action E A
    → Action E (ApiResponse A)
unfolding get_default_message
respond options method http_method now next = do
  value ← next
  pure (record {
    status = or_else (option_status options) success;
    body = value;
    message = or_else (option_message options) (get_default_message method http_method);
    timestamp = now;
  })
