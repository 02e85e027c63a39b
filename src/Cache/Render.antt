-- ===== src/Cache/Render.antt =====
-- service/render.go: the ways in which a page fails to render, and the source of a page.
use hirame.Prelude.{ℕ, List, Bytes}

-- connect.Code, as far as the service answers with it
pub data Code : Type 0 where
  canceled invalid_argument deadline_exceeded not_found resource_exhausted failed_precondition
        out_of_range internal unavailable :
      Code

-- codes.Code of gRPC: those that renderCode names, and all others
pub data GrpcCode : Type 0 where
  grpc_out_of_range grpc_invalid_argument grpc_resource_exhausted grpc_unavailable
        grpc_deadline_exceeded grpc_canceled grpc_other :
      GrpcCode

-- What renderError tells apart of the errors of a renderer, in its order.
pub data RenderFailure : Type 0 where
  connect_failure : Code → RenderFailure
  not_configured context_canceled context_deadline : RenderFailure
  status_failure : GrpcCode → RenderFailure
  other_failure : RenderFailure

-- A response, or the code of an error.
pub data Reply {ℓ} (A : Type ℓ) : Type ℓ where
  answer : A → Reply A
  refuse : Code → Reply A

-- gahakuclient.PageRequest
pub record PageRequest : Type 0 where
  pub source_path : Bytes
  pub page : ℕ
  pub format : Bytes
  pub max_width : ℕ
  pub max_height : ℕ

-- What a renderer does with a request: the slices that it hands on, or an error.
pub data RenderOutcome : Type 0 where
  rendered : List Bytes → RenderOutcome
  failed : RenderFailure → RenderOutcome

-- renderCode
abbrev pub render_code : GrpcCode → Code
render_code grpc_out_of_range = out_of_range
render_code grpc_invalid_argument = invalid_argument
render_code grpc_resource_exhausted = resource_exhausted
render_code grpc_unavailable = unavailable
render_code grpc_deadline_exceeded = deadline_exceeded
render_code grpc_canceled = canceled
render_code grpc_other = internal

-- renderError
abbrev pub render_error : RenderFailure → Code
render_error (connect_failure code) = code
render_error not_configured = unavailable
render_error context_canceled = canceled
render_error context_deadline = deadline_exceeded
render_error (status_failure code) = render_code code
render_error other_failure = internal
