-- ===== src/Postgrest/Transforms.antt =====
-- packages/core/postgrest-js/src/PostgrestTransformBuilder.ts, and the setters of PostgrestBuilder.ts.
-- `abortSignal`, and `returns`, which changes types alone, are left out.
pub mod Orders
use securesupabase_js.Prelude.{
  String, ℕ, ◌+◌, ◌-◌, leb, Bool, true, false, not, ◌&&◌, ◌==◌, Option, none, some, List, [], ◌∷◌,
  ◌++◌, keep, if◌then◌else◌,
}
use securesupabase_js.Js.Text.{Str, codes, join, is_space, nonempty, truthy, or_else, or_option}
use securesupabase_js.Js.Json.{Json, num}
use securesupabase_js.Postgrest.Params.{Params, append, set, get, header}
use securesupabase_js.Postgrest.Types.{Runtime, Builder, Method}

-- The column list without its white space outside quotes.
unfoldable pub clean_from : (quoted : Bool) → Str → Str
unfolding is_space
clean_from quoted [] = []
clean_from quoted (c ∷ s) =
    let rest = clean_from (if c == b'"' then not quoted else quoted) s in
    if is_space c && not quoted then rest else c ∷ rest

unfoldable pub cleaned_columns : Option Str → Str
unfolding clean_from
cleaned_columns columns = clean_from false (or_else columns (codes "*"))

abbrev pub prefer : Str → Builder → Builder
prefer v b = record b { headers = append (codes "prefer") v b.headers }

abbrev pub accept : Str → Builder → Builder
accept v b = record b { headers = set (codes "accept") v b.headers }

abbrev pub set_param : Str → Str → Builder → Builder
set_param name v b = record b { params = set name v b.params }

unfoldable pub select : Option Str → Builder → Builder
unfolding cleaned_columns append set
select columns b =
    prefer (codes "return=representation") (set_param (codes "select") (cleaned_columns columns) b)

-- The options of `order`, `limit` and `range`: a table that is referenced, by its old or new name.
abbrev pub referenced : (foreign_table referenced_table : Option Str) → Option Str
referenced foreign_table referenced_table = or_option referenced_table foreign_table

abbrev pub key_of : Option Str → Str → Str
key_of none name = name
key_of (some table) name = table ++ (codes "." ++ name)

abbrev pub nulls_part : Option Bool → Str
nulls_part none = []
nulls_part (some true) = codes ".nullsfirst"
nulls_part (some false) = codes ".nullslast"

-- column.asc, column.desc.nullslast and so on
unfoldable pub order_text : Str → Option Bool → Option Bool → Str
order_text column ascending nulls_first =
    column
    ++ (codes "."
        ++ ((if or_else ascending true then codes "asc" else codes "desc")
            ++ nulls_part nulls_first))

-- `${existingOrder ? `${existingOrder},` : ''}`
abbrev pub order_prefix : Option Str → Str
order_prefix none = []
order_prefix (some existing) = existing ++ codes ","

unfoldable pub order :
    Str
    → (ascending nulls_first : Option Bool) (foreign_table referenced_table : Option Str) → Builder
    → Builder
unfolding order_text get set
order column ascending nulls_first foreign_table referenced_table b =
    let key : Str = key_of (truthy (referenced foreign_table referenced_table)) (codes "order") in
    set_param key
      (order_prefix (truthy (get key b.params)) ++ order_text column ascending nulls_first) b

module _ (rt : Runtime) where
  unfoldable pub limit : ℕ → (foreign_table referenced_table : Option Str) → Builder → Builder
  unfolding set
  limit count foreign_table referenced_table =
      set_param (key_of (referenced foreign_table referenced_table) (codes "limit"))
        (rt.text (num count))

  -- `${to - from + 1}`
  abbrev row_count : (from to : ℕ) → Str
  row_count from to =
      if leb from (to + 1)
      then rt.text (num (to + 1 - from))
      else codes "-" ++ rt.text (num (from - to - 1))

  unfoldable pub range :
      (from to : ℕ) (foreign_table referenced_table : Option Str) → Builder → Builder
  unfolding set
  range from to foreign_table referenced_table b =
      let table : Option Str = referenced foreign_table referenced_table in
      set_param (key_of table (codes "limit")) (row_count from to)
        (set_param (key_of table (codes "offset")) (rt.text (num from)) b)

  unfoldable pub max_affected : ℕ → Builder → Builder
  unfolding append
  max_affected n b =
      prefer (codes "max-affected=" ++ rt.text (num n)) (prefer (codes "handling=strict") b)

unfoldable pub single : Builder → Builder
unfolding set
single = accept (codes "application/vnd.pgrst.object+json")

abbrev maybe_single_type : Method → Str
maybe_single_type Method.get = codes "application/json"
maybe_single_type _ = codes "application/vnd.pgrst.object+json"

unfoldable pub maybe_single : Builder → Builder
unfolding set
maybe_single b = record (accept (maybe_single_type b.method) b) { is_maybe_single = true }

unfoldable pub csv : Builder → Builder
unfolding set
csv = accept (codes "text/csv")

unfoldable pub geojson : Builder → Builder
unfolding set
geojson = accept (codes "application/geo+json")

pub record ExplainOptions : Type 0 where
  pub analyze : Bool
  pub verbose : Bool
  pub settings : Bool
  pub buffers : Bool
  pub wal : Bool
  pub json_format : Bool

abbrev option_name : Bool → String → List Str
option_name true name = codes name ∷ []
option_name false name = []

unfoldable pub explain : ExplainOptions → Builder → Builder
unfolding join set header
explain o b =
    let options : Str = join (codes "|") (
      option_name o.analyze "analyze"
      ++ (option_name o.verbose "verbose"
          ++ (option_name o.settings "settings"
              ++ (option_name o.buffers "buffers" ++ option_name o.wal "wal")))) in
    let media_type : Str = or_else (header (codes "accept") b.headers) (codes "application/json") in
    accept
      (codes "application/vnd.pgrst.plan+"
        ++ ((if o.json_format then codes "json" else codes "text")
            ++ (codes "; for=\""
                ++ (media_type ++ (codes "\"; options=" ++ (options ++ codes ";"))))))
      b

unfoldable pub rollback : Builder → Builder
unfolding append
rollback = prefer (codes "tx=rollback")

-- PostgrestBuilder
unfoldable pub throw_on_error : Builder → Builder
throw_on_error b = record b { should_throw_on_error = true }

-- setHeader, for a name in lower case
unfoldable pub set_header : Str → Str → Builder → Builder
unfolding set
set_header name v b = record b { headers = set name v b.headers }
