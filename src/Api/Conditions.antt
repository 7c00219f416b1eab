-- ===== src/Api/Conditions.antt =====
-- Conditions of a status: apimeta.SetStatusCondition of k8s.io/apimachinery, with what it promises.
use singbox_operator.Base.{String, false, Option, some, List, ◌==◌, ◌≡◌, find}
use singbox_operator.Api.Objects.{Condition}

-- The condition of a type that a loop over the conditions meets first.
abbrev pub find_condition : String → List Condition → Option Condition
find_condition type = find (λ c. c.type == type)

pub record StatusConditions : Type 0 where
  pub set : List Condition → Condition → List Condition
  pub find_set :
      (conditions : List Condition) (c : Condition)
      → find_condition c.type (set conditions c) ≡ some c
  pub find_set_other :
      (conditions : List Condition) (c : Condition) (type : String)
      → c.type == type ≡ false
      → find_condition type (set conditions c) ≡ find_condition type conditions
