-- ===== src/Js/Promise.antt =====
-- What a promise comes to.
use securesupabase_js.Prelude.{Option, none, some}

-- A promise is fulfilled or rejected.
pub data Outcome (A E : Type 0) : Type 0 where
  fulfilled : A → Outcome A E
  rejected : E → Outcome A E

abbrev pub error_of : {A E : Type 0} → Outcome A E → Option E
error_of (fulfilled a) = none
error_of (rejected e) = some e

abbrev pub result_of : {A E : Type 0} → Outcome A E → Option A
result_of (fulfilled a) = some a
result_of (rejected e) = none
