-- ===== src/Endpoint/Float.antt =====
-- What endpoint/mod.rs does with `f32`: the constants of its estimate of the round trip time, and
-- the operations. The processor's arithmetic is a parameter.
use redpine_rs.Common.{ℕ}

pub record Float (F : Type 0) : Type 0 where
  pub alpha : F
  pub beta : F
  pub g_ms : F
  pub k : F
  pub one : F
  pub two : F
  pub add : F → F → F
  pub sub : F → F → F
  pub mul : F → F → F
  pub div : F → F → F
  pub abs : F → F
  pub max : F → F → F
  pub ceil : F → F
  pub of_u64 : ℕ → F
  pub to_u64 : F → ℕ
