-- ===== src/Base/Result.antt =====
-- include/prs/result.h: the result codes.
pub data Result : Type 0 where
  ok unknown not_implemented out_of_memory platform_error invalid_state : Result
  not_found already_exists empty locked timeout : Result
