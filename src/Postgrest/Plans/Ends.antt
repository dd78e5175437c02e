-- ===== src/Postgrest/Plans/Ends.antt =====
-- The calls of a plan that come after its filters, and what it starts with: none of them touches a
-- column's search parameter.
use securesupabase_js.Prelude.{
  ℕ, zero, suc, ◌≡◌, refl, true, false, Option, none, some, List, [], ◌∷◌, ◌++◌, arith,
}
use securesupabase_js.Js.Text.{Str, codes, str_eq, truthy}
use securesupabase_js.Edge.Query.{Call, Order, Single, Format}
use securesupabase_js.Edge.DbProxy.Guards.{is_identifier, is_word}
use securesupabase_js.Edge.DbProxy.Operations.{order_call, limit_calls, range_calls, last_calls}
use securesupabase_js.Client.DbProxy.Plan.{order_calls}
use securesupabase_js.Postgrest.Types.{Runtime}
use securesupabase_js.Postgrest.Transforms as Transforms
use securesupabase_js.Postgrest.Transforms.{set_param, key_of, referenced, prefer}
use securesupabase_js.Postgrest.Plans.{apply_call}
use securesupabase_js.Postgrest.Plans.Growth.{
  Grows-set, Grows-alike, Grows-both, Gives, Gives-call, Gives-nil, Gives-append,
}

-- A name that no other part of a request uses for its search parameters.
pub record IsColumn (j : Str) : Type 0 where
  pub identifier : is_identifier j ≡ true
  pub no_select : str_eq (codes "select") j ≡ false
  pub no_order : str_eq (codes "order") j ≡ false
  pub no_limit : str_eq (codes "limit") j ≡ false
  pub no_offset : str_eq (codes "offset") j ≡ false

str_eq-dot_word : (k s j : Str) → is_word j ≡ true → str_eq (k ++ b'.' ∷ s) j ≡ false
unfolding str_eq
str_eq-dot_word [] s [] h = refl
str_eq-dot_word [] s (c ∷ j) h = ground arith
str_eq-dot_word (d ∷ k) s [] h = refl
str_eq-dot_word (d ∷ k) s (c ∷ j) h = ground (arith, str_eq-dot_word k s j)

identifier-word : (j : Str) → is_identifier j ≡ true → is_word j ≡ true
unfolding is_identifier
identifier-word [] h = cc
identifier-word (c ∷ j) h = ground arith

key_of-other :
    (table : Option Str) (j : Str) → IsColumn j → str_eq (key_of table (codes "order")) j ≡ false
key_of-other none j column = column.no_order
key_of-other (some t) j column =
    str_eq-dot_word t (codes "order") j (identifier-word j column.identifier)

module _ (rt : Runtime) (j : Str) (column : IsColumn j) where
  Gives-order : (o : Order) → Gives rt j [] (order_call o.column o ∷ [])
  unfolding apply_call Transforms.order
  Gives-order o =
      Gives-call rt j [] _ _ (λ b. refl)
        (λ b.
          Grows-set j (key_of (truthy (referenced none o.referenced_table)) (codes "order")) _ b
            (key_of-other (truthy (referenced none o.referenced_table)) j column))

  pub Gives-orders : (os : List Order) → Gives rt j [] (order_calls os)
  Gives-orders [] = Gives-nil rt j
  Gives-orders (o ∷ os) =
      Gives-append rt j [] [] (order_call o.column o ∷ []) (order_calls os) (Gives-order o)
        (Gives-orders os)

  Gives-limit : (limit : Option ℕ) → Gives rt j [] (limit_calls limit)
  unfolding apply_call Transforms.limit
  Gives-limit none = Gives-nil rt j
  Gives-limit (some zero) = Gives-nil rt j
  Gives-limit (some (suc n)) =
      Gives-call rt j [] _ _ (λ b. refl) (λ b. Grows-set j (codes "limit") _ b column.no_limit)

  Gives-range : (range : Option (ℕ × ℕ)) → Gives rt j [] (range_calls range)
  unfolding apply_call Transforms.range
  Gives-range none = Gives-nil rt j
  Gives-range (some (from, to)) =
      Gives-call rt j [] _ _ (λ b. refl)
        (λ b.
          Grows-both j [] [] b _ _ (Grows-set j (codes "offset") _ b column.no_offset)
            (Grows-set j (codes "limit") _ _ column.no_limit))

  Gives-last :
      (single : Option Single) (format : Option Format) → Gives rt j [] (last_calls single format)
  unfolding apply_call Transforms.single Transforms.maybe_single Transforms.csv
  Gives-last (some Single.single) format =
      Gives-call rt j [] _ _ (λ b. refl) (λ b. Grows-alike j b _ refl refl refl refl)
  Gives-last (some Single.maybe_single) format =
      Gives-call rt j [] _ _ (λ b. refl) (λ b. Grows-alike j b _ refl refl refl refl)
  Gives-last none (some Format.csv) =
      Gives-call rt j [] _ _ (λ b. refl) (λ b. Grows-alike j b _ refl refl refl refl)
  Gives-last none (some Format.json) = Gives-nil rt j
  Gives-last none none = Gives-nil rt j

  pub Gives-end :
      (limit : Option ℕ) (range : Option (ℕ × ℕ)) (single : Option Single) (format : Option Format)
      → Gives rt j [] (limit_calls limit ++ (range_calls range ++ last_calls single format))
  Gives-end limit range single format =
      Gives-append rt j [] [] _ _ (Gives-limit limit)
        (Gives-append rt j [] [] _ _ (Gives-range range) (Gives-last single format))

  -- What a chain selects, after an update or a deletion.
  pub Gives-select : (columns : Str) → Gives rt j [] (Call.select columns ∷ [])
  unfolding apply_call Transforms.select
  Gives-select columns =
      Gives-call rt j [] _ _ (λ b. refl)
        (λ b.
          Grows-both j [] [] b _ _ (Grows-set j (codes "select") _ b column.no_select)
            (Grows-alike j _ _ refl refl refl refl))
