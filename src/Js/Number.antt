-- ===== src/Js/Number.antt =====
-- JavaScript numbers where the program computes with fractions: the operations that it uses, and
-- an instance, the integers as differences of two naturals.
use wind_solar_ess_agent.Base.{ℕ, ◌+◌, ◌-◌, ◌/◌, Bool, true, ltb, ◌==◌, if◌then◌else◌}

pub record Numbers : Type 1 where
  pub Number : Type 0
  -- `a < b`, false where one of them is `NaN`.
  pub less : Number → Number → Bool
  -- `a <= b`
  pub at_most : Number → Number → Bool
  -- `a === b`
  pub equal : Number → Number → Bool
  -- `Math.max` and `Math.min` of two numbers.
  pub max : Number → Number → Number
  pub min : Number → Number → Number
  pub add : Number → Number → Number
  pub negate : Number → Number
  pub divide : Number → Number → Number
  pub round : Number → Number
  pub of_ℕ : ℕ → Number
  pub is_finite : Number → Bool

abbrev pub integers : Numbers
integers = record {
  Number = ℕ × ℕ;
  less = λ a b. ltb (a.0 + b.1) (b.0 + a.1);
  at_most = λ a b. ltb (a.0 + b.1) (b.0 + a.1 + 1);
  equal = λ a b. a.0 + b.1 == b.0 + a.1;
  max = λ a b. if ltb (a.0 + b.1) (b.0 + a.1) then b else a;
  min = λ a b. if ltb (a.0 + b.1) (b.0 + a.1) then a else b;
  add = λ a b. (a.0 + b.0, a.1 + b.1);
  negate = λ a. (a.1, a.0);
  divide = λ a b. ((a.0 - a.1) / (b.0 - b.1), (a.1 - a.0) / (b.0 - b.1));
  round = λ a. a;
  of_ℕ = λ n. (n, 0);
  is_finite = λ _. true;
}
