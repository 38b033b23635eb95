-- ===== src/Provider/ErrorClassifier.antt =====
-- src/provider/ErrorClassifier.cpp
use embedded_agent.Base.{ltb, leb, ◌&&◌, if◌then◌else◌}
use embedded_agent.Core.Error.{Error, ErrorCode}

pub data ErrorClass : Type 0 where
  retryable non_retryable rate_limit : ErrorClass

unfoldable pub classify_error : Error → ErrorClass
classify_error e = elim e.code [
  | ErrorCode.rate_limit ↦ ErrorClass.rate_limit
  | ErrorCode.timeout ↦ ErrorClass.retryable
  | ErrorCode.network_error ↦
      if leb 500 e.http_status && ltb e.http_status 600
      then ErrorClass.retryable
      else ErrorClass.non_retryable
  | _ ↦ ErrorClass.non_retryable
]
