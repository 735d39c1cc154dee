-- ===== src/Prelude/Results.antt =====
-- Go's `(value, error)`, where a function gives the value only with a nil error.
pub data Result (E A : Type 0) : Type 0 where
  ok : A → Result E A
  err : E → Result E A
