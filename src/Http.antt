-- ===== src/Http.antt =====
-- What a request handler throws: the HTTP exceptions of @nestjs/common with their messages, and any
-- other `Error`.
use nestjs_order_api.Base.{String}

pub data Exn : Type 0 where
  bad_request unauthorized forbidden not_found conflict too_many_requests : String → Exn
  failure : String → Exn

-- `error.message`.
abbrev pub message : Exn → String
message (bad_request m) = m
message (unauthorized m) = m
message (forbidden m) = m
message (not_found m) = m
message (conflict m) = m
message (too_many_requests m) = m
message (failure m) = m

pub data Result {ℓ} (A : Type ℓ) : Type ℓ where
  ok : A → Result A
  err : Exn → Result A
