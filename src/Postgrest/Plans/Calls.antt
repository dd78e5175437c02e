-- ===== src/Postgrest/Plans/Calls.antt =====
-- What each call of a plan adds: the filters of `applyFilters` in functions/db-proxy/index.ts, and the
-- calls after them.
use securesupabase_js.Prelude.{◌≡◌, ◌∙◌, refl, sym, ap, ◌⊎◌, inl, inr, List, [], ◌∷◌, ◌++◌, map}
use mathlib.Core.List.{append_assoc, append-nil}
use securesupabase_js.Js.Text.{Str, codes}
use securesupabase_js.Js.Json.{Json, Items}
use securesupabase_js.Edge.Types.{Backend}
use securesupabase_js.Edge.Query.{Op, Call, Filter}
use securesupabase_js.Edge.DbProxy.Filters.{call_of}
use securesupabase_js.Postgrest.Params.{Params, append, get_all, get_all-append}
use securesupabase_js.Postgrest.Types.{Runtime, Builder}
use securesupabase_js.Postgrest.Filters as Filters
use securesupabase_js.Postgrest.Filters.{add}
use securesupabase_js.Postgrest.Filters.Values as Values
use securesupabase_js.Postgrest.Query.{entries_of}
use securesupabase_js.Postgrest.Plans.{apply_call, range_of, present}
use securesupabase_js.Postgrest.Plans.Growth.{blank, Grows, Grows-add, Fate, by_add, by_option}

module _ (rt : Runtime) (j : Str) where
  overlaps-Fate : (c : Str) (v : Json) → Fate rt j (Call.overlaps c v)
  unfolding apply_call Values.overlaps add
  overlaps-Fate c v =
      by_option rt j (Call.overlaps c v) (range_of v) (Values.overlaps rt c) (λ b. refl) grows
    where
      grows :
          (r : Str ⊎ Items) (b : Builder)
          → Grows j (get_all j (Values.overlaps rt c r blank).params) b (Values.overlaps rt c r b)
      grows (inl range) b = Grows-add j c _ b
      grows (inr vs) b = Grows-add j c _ b

  matched : List (Str × Json) → Params
  matched entries = map (λ e. (e.0, codes "eq." ++ rt.text e.1)) entries

  match-params :
      (entries : List (Str × Json)) (b : Builder)
      → (Filters.match rt (map present entries) b).params ≡ b.params ++ matched entries
  unfolding Filters.match Filters.eq add append matched
  match-params [] b = sym (append-nil b.params)
  match-params (e ∷ entries) b =
      match-params entries (Filters.eq rt e.0 e.1 b)
      ∙ append_assoc b.params ((e.0, codes "eq." ++ rt.text e.1) ∷ []) (matched entries)

  match-kept :
      (entries : List (Str × Json)) (b : Builder)
      → ((Filters.match rt (map present entries) b).method ≡ b.method)
        × ((Filters.match rt (map present entries) b).address ≡ b.address)
        × ((Filters.match rt (map present entries) b).schema ≡ b.schema)
  unfolding Filters.match Filters.eq add
  match-kept [] b = (refl, refl, refl)
  match-kept (e ∷ entries) b = match-kept entries (Filters.eq rt e.0 e.1 b)

  Grows-match :
      (entries : List (Str × Json)) (b : Builder)
      → Grows j
          (get_all j (Filters.match rt (map present entries) blank).params)
          b
          (Filters.match rt (map present entries) b)
  Grows-match entries b = record {
    values =
        ap (get_all j) (match-params entries b)
        ∙ get_all-append j b.params (matched entries)
        ∙ ap (λ ps. get_all j b.params ++ get_all j ps) (sym (match-params entries blank));
    method = (match-kept entries b).0;
    address = (match-kept entries b).1;
    schema = (match-kept entries b).2;
  }

  match-Fate : (query : Json) → Fate rt j (Call.match query)
  unfolding apply_call
  match-Fate query =
      by_option rt j (Call.match query) (entries_of rt query)
        (λ entries. Filters.match rt (map present entries)) (λ b. refl) Grows-match

  module _ (be : Backend) where
    pub call_of-Fate : (op : Op) (c : Str) (f : Filter) → Fate rt j (call_of be op c f)
    unfolding call_of apply_call Filters.eq Filters.neq Filters.gt Filters.gte Filters.lt
        Filters.lte Filters.is Filters.like Filters.ilike Filters.range_gt Filters.range_gte
        Filters.range_lt Filters.range_lte Filters.range_adjacent Filters.text_search Filters.not
        Filters.filter Filters.or Values.contains Values.contained_by Values.in_list
    call_of-Fate Op.overlaps c f = overlaps-Fate c _
    call_of-Fate Op.match c f = match-Fate _
    call_of-Fate Op.eq c f = by_add rt j _ _ _ (λ b. refl)
    call_of-Fate Op.neq c f = by_add rt j _ _ _ (λ b. refl)
    call_of-Fate Op.gt c f = by_add rt j _ _ _ (λ b. refl)
    call_of-Fate Op.gte c f = by_add rt j _ _ _ (λ b. refl)
    call_of-Fate Op.lt c f = by_add rt j _ _ _ (λ b. refl)
    call_of-Fate Op.lte c f = by_add rt j _ _ _ (λ b. refl)
    call_of-Fate Op.is c f = by_add rt j _ _ _ (λ b. refl)
    call_of-Fate Op.like c f = by_add rt j _ _ _ (λ b. refl)
    call_of-Fate Op.ilike c f = by_add rt j _ _ _ (λ b. refl)
    call_of-Fate _ c f = by_add rt j _ _ _ (λ b. refl)
