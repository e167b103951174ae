-- ===== src/Base/Float.antt =====
-- What the code does with a float64: conversion from an integer, arithmetic and comparisons. The
-- type and its operations are a parameter of what uses them, since the language has no floats.
use Prim.Native.Nat.{ℕ, ◌+◌, ◌-◌, ◌*◌, ◌/◌}
use mathlib.Core.Bool.{Bool}
use braunrate.Base.Tests.{ltb, leb, eqb}

pub record Float64 {ℓ} (W : Type ℓ) : Type ℓ where
  pub of_ℕ : ℕ → W
  pub add : W → W → W
  pub sub : W → W → W
  pub mul : W → W → W
  pub div : W → W → W
  pub lt : W → W → Bool
  pub le : W → W → Bool
  pub eq : W → W → Bool

-- Whole numbers meet the signature, and serve where a test needs values.
instance abbrev pub whole_float : Float64 ℕ
whole_float = record {
  of_ℕ = λ n. n;
  add = λ a b. a + b;
  sub = λ a b. a - b;
  mul = λ a b. a * b;
  div = λ a b. a / b;
  lt = ltb;
  le = leb;
  eq = eqb;
}
