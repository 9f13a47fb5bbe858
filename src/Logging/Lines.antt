-- ===== src/Logging/Lines.antt =====
-- common/interceptors/logging.interceptor.ts: the lines that are logged of a request and of its answer.
-- Times, and the status of an error, are arguments; a line is the list of its characters.
use nestjs_order_api.Base.{
  ℕ, String, Option, none, some, List, [], ◌∷◌, ◌++◌, take, or_else, show_ℕ, ◌==◌, if◌then◌else◌,
}
use nestjs_order_api.Base.Chars.{codes}
use nestjs_order_api.Http.{Exn, Result, ok, err, message}
use nestjs_order_api.Prisma.{World, Action}
use nestjs_order_api.User.{filled}
use nestjs_order_api.Logging.{Values, build_request_details}

-- The fields of `request.user` that are read; none of them need be there.
pub record Requester : Type 0 where
  pub username : Option String
  pub role : Option String
  pub tenant_code : Option String

pub record LoggedRequest (V : Type 0) : Type 0 where
  pub method : String
  pub url : String
  pub ip : String
  pub user_agent : Option String
  pub user : Requester
  pub body : List (String × V)
  pub query : List (String × V)
  pub params : List (String × V)

-- `s ? `${before}${s}${after}` : ''`
abbrev pub part : String → Option (List ℕ) → String → List ℕ
part before none after = []
part before (some s) after = codes before ++ (s ++ codes after)

abbrev pub text : Option String → Option (List ℕ)
text none = none
text (some s) = some (codes s)

abbrev pub cut : ℕ → Option String → Option (List ℕ)
cut n none = none
cut n (some s) = some (take n (codes s))

abbrev pub name_of : Requester → List ℕ
name_of user = codes (or_else (filled user.username) "anonymous")

-- `[${timestamp}] ${method} ${url}`
abbrev pub opening : {V : Type 0} → String → LoggedRequest V → List ℕ
opening timestamp r =
    codes "[" ++ (codes timestamp ++ (codes "] " ++ (codes r.method ++ (codes " " ++ codes r.url))))

-- ` ${status} | ${ms}ms | User: ${username}`
abbrev pub closing : ℕ → ℕ → Requester → List ℕ
closing status ms user =
    codes " "
    ++ (codes (show_ℕ status)
        ++ (codes " | " ++ (codes (show_ℕ ms) ++ (codes "ms | User: " ++ name_of user))))

module _ {V : Type 0} (values : Values V) where
  unfoldable pub request_line : String → LoggedRequest V → List ℕ
  unfolding build_request_details
  request_line timestamp r =
      opening timestamp r
      ++ (codes " | IP: "
          ++ (codes r.ip
              ++ (part " | UA: " (cut 50 (filled r.user_agent)) ""
                  ++ (codes " | User: "
                      ++ (name_of r.user
                          ++ (part " (" (text (filled r.user.role)) ")"
                              ++ (part " | Tenant: " (text (filled r.user.tenant_code)) ""
                                  ++ part " | "
                                      (text (
                                        filled (
                                          some (
                                            build_request_details values r.body r.query r.params))))
                                      "")))))))

-- When an answer comes, and how long it took.
pub record Clocked : Type 0 where
  pub timestamp : String
  pub response_time : ℕ

-- `a || b`, where a may be undefined.
abbrev pub positive_or : Option ℕ → ℕ → ℕ
positive_or none d = d
positive_or (some n) d = if n == 0 then d else n

module _ {V : Type 0} where
  unfoldable pub answer_line : Clocked → ℕ → LoggedRequest V → List ℕ
  answer_line c status r = opening c.timestamp r ++ closing status c.response_time r.user

  module _ (status status_code : Exn → Option ℕ) where
    unfoldable pub error_line : Clocked → Exn → LoggedRequest V → List ℕ
    error_line c e r =
        opening c.timestamp r
        ++ (closing (positive_or (status e) (positive_or (status_code e) 500)) c.response_time
              r.user
            ++ (codes " | Error: " ++ codes (or_else (filled (some (message e))) "Unknown error")))

    -- `LoggingInterceptor.intercept`: the lines, and how the handler ended.
    abbrev pub logged : {E A : Type 0} → LoggedRequest V → Clocked → ℕ → Result A × World E → List ℕ
    logged r c answered (ok a, w) = answer_line c answered r
    logged r c answered (err e, w) = error_line c e r

    unfoldable pub intercept :
        {E A : Type 0}
        → Values V
        → (timestamp : String) (c : Clocked) (answered : ℕ) → LoggedRequest V
        → Action E A
        → World E
        → List (List ℕ) × (Result A × World E)
    unfolding request_line answer_line error_line
    intercept values timestamp c answered r handler w =
        (request_line values timestamp r ∷ logged r c answered (handler w) ∷ [], handler w)
