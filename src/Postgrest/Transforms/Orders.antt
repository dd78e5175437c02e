-- ===== src/Postgrest/Transforms/Orders.antt =====
-- How the calls of `order` and `limit` of packages/core/postgrest-js/src/PostgrestTransformBuilder.ts
-- add up.
use securesupabase_js.Prelude.{
  ◌≡◌, ◌∙◌, refl, sym, ap, true, false, Option, none, some, List, [], ◌∷◌, ◌++◌, map, ℕ,
  if◌then◌else◌,
}
use mathlib.Core.List.{append_assoc}
use securesupabase_js.Js.Text.{Str, codes, join, truthy, str_eq, or_else}
use securesupabase_js.Js.Text.Laws.{str_eq_refl}
use securesupabase_js.Js.Json.{Json, num}
use securesupabase_js.Edge.Query.{Order}
use securesupabase_js.Postgrest.Params.{get, get_all, get-set, get_all-set}
use securesupabase_js.Postgrest.Types.{Runtime, Builder}
use securesupabase_js.Postgrest.Filters.{eq}
use securesupabase_js.Postgrest.Filters.Arrays.{join-split}
use securesupabase_js.Postgrest.Transforms.{
  order, order_text, order_prefix, nulls_part, referenced, key_of, limit,
}

-- The orders of a request, given one after the other for the same table.
unfoldable pub orders : Option Str → List Order → Builder → Builder
orders table [] b = b
orders table (o ∷ os) b = orders table os (order o.column o.ascending o.nulls_first none table b)

abbrev pub order_key : Option Str → Str
order_key table = key_of (truthy (referenced none table)) (codes "order")

abbrev pub text_of : Order → Str
text_of o = order_text o.column o.ascending o.nulls_first

abbrev after_one : Option Str → Order → Builder → Builder
after_one table o b = order o.column o.ascending o.nulls_first none table b

order_text-ne_nil : (o : Order) → truthy (some (text_of o)) ≡ some (text_of o)
unfolding order_text
order_text-ne_nil o =
    by_column o.column (if or_else o.ascending true then codes "asc" else codes "desc")
  where
    by_column :
        (column direction : Str)
        → truthy (some (column ++ (codes "." ++ (direction ++ nulls_part o.nulls_first))))
          ≡ some (column ++ (codes "." ++ (direction ++ nulls_part o.nulls_first)))
    by_column [] direction = refl
    by_column (c ∷ column) direction = refl

truthy-suffix : (s t : Str) → truthy (some t) ≡ some t → truthy (some (s ++ t)) ≡ some (s ++ t)
truthy-suffix [] t h = h
truthy-suffix (c ∷ s) t h = refl

join-one : (s : Str) → join (codes ",") (s ∷ []) ≡ s
unfolding join
join-one s = refl

module _ (table : Option Str) where
  get-order :
      (o : Order) (b : Builder)
      → get (order_key table) (after_one table o b).params
        ≡ some (order_prefix (truthy (get (order_key table) b.params)) ++ text_of o)
  unfolding order
  get-order o b =
      get-set (order_key table) (order_key table)
        (order_prefix (truthy (get (order_key table) b.params)) ++ text_of o) b.params
      ∙ rw (str_eq_refl (order_key table)) refl

  get_all-order :
      (j : Str) (o : Order) (b : Builder)
      → str_eq (order_key table) j ≡ false
      → get_all j (after_one table o b).params ≡ get_all j b.params
  unfolding order
  get_all-order j o b other =
      get_all-set j (order_key table)
        (order_prefix (truthy (get (order_key table) b.params)) ++ text_of o) b.params
      ∙ rw (other) refl

  get_all-orders :
      (j : Str) (os : List Order) (b : Builder)
      → str_eq (order_key table) j ≡ false
      → get_all j (orders table os b).params ≡ get_all j b.params
  unfolding orders
  get_all-orders j [] b other = refl
  get_all-orders j (o ∷ os) b other =
      get_all-orders j os (after_one table o b) other ∙ get_all-order j o b other

  get-orders_after :
      (os : List Order) (s : Str) (b : Builder)
      → truthy (some s) ≡ some s
      → get (order_key table) b.params ≡ some s
      → get (order_key table) (orders table os b).params
        ≡ some (join (codes ",") (s ∷ map text_of os))
  unfolding orders
  get-orders_after [] s b h e = e ∙ ap some (sym (join-one s))
  get-orders_after (o ∷ os) s b h e =
      get-orders_after os (s ++ b',' ∷ text_of o) (after_one table o b)
        (truthy-suffix s (b',' ∷ text_of o) refl)
        (get-order o b
          ∙ ap (λ t. some (order_prefix t ++ text_of o)) (ap truthy e ∙ h)
          ∙ ap some (append_assoc s (codes ",") (text_of o)))
      ∙ ap some (join-split s (text_of o) (map text_of os))

  -- Calls of `order` for one table, on a builder that has none for it yet, leave one parameter with
  -- the orders in the sequence of the calls, the first of them the most significant, and every
  -- other parameter with its values.
  pub get-orders :
      (o : Order) (os : List Order) (b : Builder)
      → get (order_key table) b.params ≡ none
      → (get (order_key table) (orders table (o ∷ os) b).params
          ≡ some (join (codes ",") (map text_of (o ∷ os))))
        × ((j : Str)
            → str_eq (order_key table) j ≡ false
            → get_all j (orders table (o ∷ os) b).params ≡ get_all j b.params)
  unfolding orders
  get-orders o os b e = (
    get-orders_after os (text_of o) (after_one table o b) (order_text-ne_nil o)
        (get-order o b ∙ ap (λ t. some (order_prefix (truthy t) ++ text_of o)) e),
    λ j. get_all-orders j (o ∷ os) b,
  )

-- A filter on a column named `limit` is gone after `limit`: the request has the limit alone.
limit-replaces :
    (rt : Runtime) (n : ℕ) (v : Json) (b : Builder)
    → get_all (codes "limit") (limit rt n none none (eq rt (codes "limit") v b)).params
      ≡ rt.text (num n) ∷ []
unfolding limit
limit-replaces rt n v b =
    get_all-set (codes "limit") (codes "limit") (rt.text (num n)) (eq rt (codes "limit") v b).params
