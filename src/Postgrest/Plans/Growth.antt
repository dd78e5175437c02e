-- ===== src/Postgrest/Plans/Growth.antt =====
-- What the calls of a plan do to the values of one search parameter.
use securesupabase_js.Prelude.{
  ◌≡◌, ◌∙◌, refl, sym, ap, ◌⊎◌, inl, inr, false, Option, none, some, List, [], ◌∷◌, ◌++◌,
}
use mathlib.Core.Option
use mathlib.Core.List.{append_assoc, append-nil}
use securesupabase_js.Js.Text.{Str, str_eq}
use securesupabase_js.Edge.Query.{Call}
use securesupabase_js.Postgrest.Params.{Params, append, get_all, get_all-append, get_all-set}
use securesupabase_js.Postgrest.Types.{Runtime, Builder, Method}
use securesupabase_js.Postgrest.Filters.{add}
use securesupabase_js.Postgrest.Transforms.{set_param}
use securesupabase_js.Postgrest.Plans.{apply_call, apply_calls, then_call}

-- A builder without parameters, on which a call shows what it adds.
abbrev pub blank : Builder
blank = record {
  method = Method.get;
  address = [];
  params = [];
  headers = [];
  schema = none;
  body = none;
  should_throw_on_error = false;
  is_maybe_single = false;
  url_length_limit = 0;
}

-- The values `vs` come after those that the parameter has, and the request stays what it is.
pub record Grows (j : Str) (vs : List Str) (b b' : Builder) : Type 0 where
  pub values : get_all j b'.params ≡ get_all j b.params ++ vs
  pub method : b'.method ≡ b.method
  pub address : b'.address ≡ b.address
  pub schema : b'.schema ≡ b.schema

module _ (j : Str) where
  pub Grows-add :
      (c t : Str) (b : Builder) → Grows j (get_all j (add c t blank).params) b (add c t b)
  unfolding add append
  Grows-add c t b = record {
    values = get_all-append j b.params ((c, t) ∷ []);
    method = refl;
    address = refl;
    schema = refl;
  }

  pub Grows-set : (k v : Str) (b : Builder) → str_eq k j ≡ false → Grows j [] b (set_param k v b)
  Grows-set k v b other = record {
    values = get_all-set j k v b.params ∙ rw (other) (sym (append-nil (get_all j b.params)));
    method = refl;
    address = refl;
    schema = refl;
  }

  pub Grows-alike :
      (b b' : Builder)
      → b'.params ≡ b.params
      → b'.method ≡ b.method
      → b'.address ≡ b.address
      → b'.schema ≡ b.schema
      → Grows j [] b b'
  Grows-alike b b' params method address schema = record {
    values = ap (get_all j) params ∙ sym (append-nil (get_all j b.params));
    method = method;
    address = address;
    schema = schema;
  }

  pub Grows-both :
      (vs ws : List Str) (b b' b'' : Builder)
      → Grows j vs b b'
      → Grows j ws b' b''
      → Grows j (vs ++ ws) b b''
  Grows-both vs ws b b' b'' g h = record {
    values = h.values ∙ ap (λ us. us ++ ws) g.values ∙ append_assoc (get_all j b.params) vs ws;
    method = h.method ∙ g.method;
    address = h.address ∙ g.address;
    schema = h.schema ∙ g.schema;
  }

-- The search parameters of a call on its own; `none` is a TypeError.
abbrev pub alone : Runtime → Call → Option Params
alone rt call = Option.map (λ (b : Builder). b.params) (apply_call rt call blank)

pub then_call_assoc :
    (m : Option Builder) (f g : Builder → Option Builder)
    → then_call (then_call m f) g ≡ then_call m (λ b. then_call (f b) g)
then_call_assoc none f g = refl
then_call_assoc (some b) f g = refl

pub then_call_map :
    (m : Option Builder) (f g : Builder → Option Builder)
    → ((b : Builder) → f b ≡ g b)
    → then_call m f ≡ then_call m g
then_call_map none f g e = refl
then_call_map (some b) f g e = e b

pub apply_calls-append :
    (rt : Runtime) (calls more_ : List Call) (b : Builder)
    → apply_calls rt (calls ++ more_) b ≡ then_call (apply_calls rt calls b) (apply_calls rt more_)
unfolding apply_calls
apply_calls-append rt [] more_ b = refl
apply_calls-append rt (call ∷ calls) more_ b =
    then_call_map (apply_call rt call b) _ _ (apply_calls-append rt calls more_)
    ∙ sym (then_call_assoc (apply_call rt call b) (apply_calls rt calls) (apply_calls rt more_))

module _ (rt : Runtime) (j : Str) where
  -- The calls succeed on every builder, and add the values.
  pub record Gives (vs : List Str) (calls : List Call) : Type 0 where
    pub run : (b : Builder) → (b' : Builder) × (apply_calls rt calls b ≡ some b') × Grows j vs b b'

  -- A call is a TypeError, or it adds to every builder what it does on its own.
  abbrev pub Fate : Call → Type 0
  Fate call =
      (alone rt call ≡ none)
      ⊎ ((ps : Params) × (alone rt call ≡ some ps) × Gives (get_all j ps) (call ∷ []))

  pub Gives-call :
      (vs : List Str) (call : Call) (f : Builder → Builder)
      → ((b : Builder) → apply_call rt call b ≡ some (f b))
      → ((b : Builder) → Grows j vs b (f b))
      → Gives vs (call ∷ [])
  unfolding apply_calls
  Gives-call vs call f applies grows = record {
    run = λ b. (f b, ap (λ m. then_call m (λ b'. some b')) (applies b), grows b);
  }

  pub by_option :
      {A : Type 0}
      → (call : Call) (m : Option A) (f : A → Builder → Builder)
      → ((b : Builder) → apply_call rt call b ≡ Option.map (λ a. f a b) m)
      → ((a : A) (b : Builder) → Grows j (get_all j (f a blank).params) b (f a b))
      → Fate call
  by_option call none f applies grows =
      inl (ap (Option.map (λ (b : Builder). b.params)) (applies blank))
  by_option call (some a) f applies grows = inr (
    (f a blank).params,
    ap (Option.map (λ (b : Builder). b.params)) (applies blank),
    Gives-call _ call (f a) applies (grows a),
  )

  pub by_add :
      (call : Call) (c t : Str)
      → ((b : Builder) → apply_call rt call b ≡ some (add c t b))
      → Fate call
  by_add call c t applies = by_option call (some t) (λ u. add c u) applies (λ u. Grows-add j c u)

  pub Gives-nil : Gives [] []
  unfolding apply_calls
  Gives-nil = record { run = λ b. (b, refl, Grows-alike j b b refl refl refl refl) }

  pub Gives-append :
      (vs ws : List Str) (calls more : List Call)
      → Gives vs calls
      → Gives ws more
      → Gives (vs ++ ws) (calls ++ more)
  Gives-append vs ws calls more_ g h = record {
    run = λ b.
        let (b', runs, grows) = g.run b in
        let (b'', runs', grows') = h.run b' in
        (
          b'',
          apply_calls-append rt calls more_ b
              ∙ ap (λ m. then_call m (apply_calls rt more_)) runs
              ∙ runs',
          Grows-both j vs ws b b' b'' grows grows',
        );
  }
