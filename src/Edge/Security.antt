-- ===== src/Edge/Security.antt =====
-- functions/_shared/security.ts; `hashPrefix` and the device context are in Security/Context.antt.
pub mod Context
pub use Context.{hash_prefix_lem}
unfoldable pub use Context.{
  get_first_forwarded_ip, parse_bool, hash_prefix, get_device_context, log_security_context,
}
use securesupabase_js.Prelude.{
  ℕ, Bool, true, false, not, ◌||◌, Option, none, some, List, [], ◌∷◌, ◌++◌, map, keep,
  if◌then◌else◌,
}
use securesupabase_js.Js.Text.{Str, codes, str_eq, has, split, trim, nonempty, truthy, or_else}
use securesupabase_js.Edge.Types.{
  Backend, Request, Response, Client, BlockType, ip, user_id, email, BlockLookup, looked_up_block,
  Row, failed, missing, found,
}
use securesupabase_js.Edge.Effects.{Run, pure, or_run, observe, await, ◌>>=◌}
use securesupabase_js.Edge.Http.{json_forbidden}

-- parseCsvSet
unfoldable pub parse_csv_set : Backend → Option Str → List Str
unfolding keep split trim
parse_csv_set be raw = elim (truthy raw) [
  | none ↦ []
  | some v ↦ keep nonempty (map (λ part. be.to_lower (trim part)) (split b',' v))
]

abbrev pub denied : Backend → Request → Response
denied be req = json_forbidden be req (codes "Access denied")

unfoldable pub check_blocked_ip : Backend → Request → Option Response
unfolding parse_csv_set get_first_forwarded_ip has
check_blocked_ip be req = elim (parse_csv_set be be.env.security_blocked_ips) [
  | [] ↦ none
  | first ∷ rest ↦
      if has (first ∷ rest) (get_first_forwarded_ip be req) then some (denied be req) else none
]

unfoldable pub check_blocked_email : Backend → Request → Option Str → Option Response
unfolding parse_csv_set has
check_blocked_email be req address = elim (truthy address) [
  | none ↦ none
  | some e ↦
      if has (parse_csv_set be be.env.security_blocked_emails) (be.to_lower e)
      then some (denied be req)
      else none
]

unfoldable pub check_blocked_user : Backend → Request → Str → Option Str → Option Response
unfolding parse_csv_set has
check_blocked_user be req id address =
    if has (parse_csv_set be be.env.security_blocked_user_ids) (be.to_lower id)
    then some (denied be req)
    else elim (truthy address) [
      | none ↦ none
      | some e ↦
          if has (parse_csv_set be be.env.security_blocked_emails) (be.to_lower e)
          then some (denied be req)
          else none
    ]

-- The checks on the environment's lists, in the order of the source.
unfoldable pub check_blocked_env : Backend → Request → Option Str → Option Str → Option Response
unfolding check_blocked_ip check_blocked_email check_blocked_user
check_blocked_env be req id address = elim (check_blocked_ip be req) [
  | some response ↦ some response
  | none ↦ elim (truthy id) [
    | some i ↦ check_blocked_user be req i address
    | none ↦ check_blocked_email be req address
  ]
]

abbrev check_for : Backend → BlockType → Option Str → List (BlockType × Str)
check_for be kind candidate = elim (truthy candidate) [
  | none ↦ []
  | some v ↦ (kind, be.to_lower v) ∷ []
]

-- The pairs that are looked up in the table.
unfoldable pub block_checks : Backend → Request → Option Str → Option Str → List (BlockType × Str)
unfolding get_first_forwarded_ip
block_checks be req id address =
    check_for be ip (some (get_first_forwarded_ip be req))
    ++ (check_for be user_id id ++ check_for be email address)

-- A failed lookup is passed over, and a row that is found ends the loop.
unfoldable pub after_row : Response → Run (Option Response) → Row (Unit {0}) → Run (Option Response)
after_row denied_response rest failed = rest
after_row denied_response rest missing = rest
after_row denied_response rest (found _) = pure (some denied_response)

-- `for (const check of checks)`
unfoldable pub check_rows :
    Backend → Request → Client → Str → ℕ → List (BlockType × Str) → Run (Option Response)
unfolding after_row
check_rows be req admin schema now [] = pure none
check_rows be req admin schema now ((kind, v) ∷ checks) =
    let rest = check_rows be req admin schema now checks in
    let lookup : BlockLookup = record {
      schema = schema;
      block_type = kind;
      value = v;
      now = now;
    } in
    do
      row ← await (looked_up_block admin lookup) (λ t. be.find_block t admin lookup)
      after_row (denied be req) rest row

-- The part on the database, where the environment's lists block nothing.
unfoldable pub check_blocked_database :
    Backend → Request → Option Client → Option Str → Option Str → Run (Option Response)
unfolding str_eq block_checks check_rows
check_blocked_database be req none id address = pure none
check_blocked_database be req (some admin) id address =
    let mode : Str = be.to_lower (or_else be.env.security_blocklist_mode (codes "env")) in
    if not (str_eq mode (codes "database")) then pure none else (do
      now ← observe be.now
      check_rows be req admin (or_else be.env.security_schema (codes "security")) now
          (block_checks be req id address))

unfoldable pub check_blocked_with_policy :
    Backend → Request → Option Client → Option Str → Option Str → Run (Option Response)
unfolding check_blocked_env check_blocked_database
check_blocked_with_policy be req admin_client id address =
    or_run (check_blocked_env be req id address)
      (check_blocked_database be req admin_client id address)
