-- ===== src/Edge/Quiet/Checks.antt =====
-- The blocklist and the rate limiter keep every property of other events.
use securesupabase_js.Prelude.{ℕ, ◌+◌, not, Option, none, some, List, [], ◌∷◌, leb}
use securesupabase_js.Js.Text.{Str, codes, str_eq, or_else}
use securesupabase_js.Edge.Types.{
  Backend, Request, Response, State, Event, Client, BlockType, Row, failed, missing, found, RateRow,
  looked_up_block, read_rate, inserted_rate, restarted_rate, counted_rate,
}
use securesupabase_js.Edge.Effects.{Run, pure, or_run, ◌>>=◌}
use securesupabase_js.Edge.Effects.Keeps.{Keeps, Anything, Keeps-pure, Keeps-bind, Keeps-if}
use securesupabase_js.Edge.RateLimit.{
  check_rate_limit_with_policy, check_database, check_in_memory, after_read, check_row, is_recent,
  Store,
}
use securesupabase_js.Edge.Security.{
  check_blocked_with_policy, check_blocked_database, check_blocked_env, check_rows, after_row,
  denied,
}
use securesupabase_js.Edge.Quiet.Rules.{IsQuiet, after, Keeps-emit, Keeps-await, Keeps-observe}

module _ (Inv : State → Type 0)
    (quiet : (s : State) (e : Event) → IsQuiet e → Inv s → Inv (after e s)) where
  Keeps-after_row :
      (response : Response) (rest : Run (Option Response)) (row : Row (Unit {0}))
      → Keeps Inv Anything rest
      → Keeps Inv Anything (after_row response rest row)
  unfolding after_row
  Keeps-after_row response rest failed k = k
  Keeps-after_row response rest missing k = k
  Keeps-after_row response rest (found _) k = Keeps-pure (some response) tt

  Keeps-check_rows :
      (be : Backend) (req : Request) (admin : Client) (schema : Str) (now : ℕ)
      (checks : List (BlockType × Str))
      → Keeps Inv Anything (check_rows be req admin schema now checks)
  unfolding check_rows
  Keeps-check_rows be req admin schema now [] = Keeps-pure none tt
  Keeps-check_rows be req admin schema now ((kind, v) ∷ checks) =
      let ih = Keeps-check_rows be req admin schema now checks in
      Keeps-bind _ _
        ((Keeps-await Inv quiet) (looked_up_block admin _) _
          (λ s. quiet s (looked_up_block admin _) tt))
        (λ row _. Keeps-after_row (denied be req) _ row ih)

  Keeps-or_run :
      {A : Type 0} (o : Option A) (m : Run (Option A))
      → Keeps Inv Anything m
      → Keeps Inv Anything (or_run o m)
  unfolding or_run
  Keeps-or_run none m k = k
  Keeps-or_run (some a) m k = Keeps-pure (some a) tt

  Keeps-check_blocked_database :
      (be : Backend) (req : Request) (admin : Option Client) (id address : Option Str)
      → Keeps Inv Anything (check_blocked_database be req admin id address)
  unfolding check_blocked_database
  Keeps-check_blocked_database be req none id address = Keeps-pure none tt
  Keeps-check_blocked_database be req (some admin) id address =
      Keeps-if
        (not (
          str_eq (be.to_lower (or_else be.env.security_blocklist_mode (codes "env")))
            (codes "database")))
        (pure none) _ (λ _. Keeps-pure none tt)
        (λ _.
          Keeps-bind _ _ ((Keeps-observe Inv quiet) be.now)
            (λ now _. Keeps-check_rows be req admin _ now _))

  pub Keeps-check_blocked :
      (be : Backend) (req : Request) (admin : Option Client) (id address : Option Str)
      → Keeps Inv Anything (check_blocked_with_policy be req admin id address)
  unfolding check_blocked_with_policy
  Keeps-check_blocked be req admin id address =
      Keeps-or_run (check_blocked_env be req id address) _
        (Keeps-check_blocked_database be req admin id address)

  Keeps-check_row :
      (admin : Client) (schema identifier : Str) (limit now : ℕ) (window_start : Option ℕ)
      (hits : ℕ)
      → Keeps Inv Anything (check_row admin schema identifier limit now window_start hits)
  unfolding check_row
  Keeps-check_row admin schema identifier limit now none hits =
      Keeps-bind _ _
        ((Keeps-emit Inv quiet) (restarted_rate admin schema identifier now 1)
          (λ s. quiet s (restarted_rate admin schema identifier now 1) tt))
        (λ _ _. Keeps-pure none tt)
  Keeps-check_row admin schema identifier limit now (some start) hits =
      Keeps-if (not (is_recent now start)) _ _
        (λ _.
          Keeps-bind _ _
            ((Keeps-emit Inv quiet) (restarted_rate admin schema identifier now 1)
              (λ s. quiet s (restarted_rate admin schema identifier now 1) tt))
            (λ _ _. Keeps-pure none tt))
        (λ _.
          Keeps-if (leb limit hits) _ _ (λ _. Keeps-pure _ tt)
            (λ _.
              Keeps-bind _ _
                ((Keeps-emit Inv quiet) (counted_rate admin schema identifier (hits + 1))
                  (λ s. quiet s (counted_rate admin schema identifier (hits + 1)) tt))
                (λ _ _. Keeps-pure none tt)))

  -- the rate limiter may also change its map
  module _ (restore : (s : State) (store : Store) → Inv s → Inv (record s { store = store })) where
    Keeps-check_in_memory :
        (be : Backend) (identifier : Str) (limit : ℕ)
        → Keeps Inv Anything (check_in_memory be identifier limit)
    unfolding check_in_memory ◌>>=◌
    Keeps-check_in_memory be identifier limit = record { at = λ s h. (restore s _ h, tt) }

    Keeps-after_read :
        (be : Backend) (admin : Client) (schema identifier : Str) (limit now : ℕ)
        (row : Row RateRow)
        → Keeps Inv Anything (after_read be admin schema identifier limit now row)
    unfolding after_read
    Keeps-after_read be admin schema identifier limit now failed =
        Keeps-check_in_memory be identifier limit
    Keeps-after_read be admin schema identifier limit now missing =
        Keeps-bind _ _
          ((Keeps-emit Inv quiet) (inserted_rate admin schema identifier now 1)
            (λ s. quiet s (inserted_rate admin schema identifier now 1) tt))
          (λ _ _. Keeps-pure none tt)
    Keeps-after_read be admin schema identifier limit now (found row) =
        Keeps-check_row admin schema identifier limit now row.window_start row.hits

    Keeps-check_database :
        (be : Backend) (admin : Client) (identifier : Str) (limit : ℕ)
        → Keeps Inv Anything (check_database be admin identifier limit)
    unfolding check_database
    Keeps-check_database be admin identifier limit =
        Keeps-bind _ _ ((Keeps-observe Inv quiet) be.now) (λ now _.
          Keeps-bind _ _
            ((Keeps-await Inv quiet) (read_rate admin _ identifier) _
              (λ s. quiet s (read_rate admin _ identifier) tt))
            (λ row _. Keeps-after_read be admin _ identifier limit now row))

    pub Keeps-check_rate :
        (be : Backend) (admin : Client) (identifier : Str) (limit : ℕ)
        → Keeps Inv Anything (check_rate_limit_with_policy be admin identifier limit)
    unfolding check_rate_limit_with_policy
    Keeps-check_rate be admin identifier limit =
        Keeps-if
          (not (
            str_eq (be.to_lower (or_else be.env.security_rate_limit_mode (codes "memory")))
              (codes "database")))
          (check_in_memory be identifier limit) (check_database be admin identifier limit)
          (λ _. Keeps-check_in_memory be identifier limit)
          (λ _. Keeps-check_database be admin identifier limit)
