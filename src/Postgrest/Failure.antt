-- ===== src/Postgrest/Failure.antt =====
-- packages/core/postgrest-js/src/PostgrestBuilder.ts: the response that `then` makes of an error that is
-- thrown on the way.
use securesupabase_js.Prelude.{
  String, ltb, Bool, false, ◌||◌, Option, none, some, [], ◌∷◌, ◌++◌, if◌then◌else◌,
}
use securesupabase_js.Js.Text.{Str, codes, str_eq, truthy, or_else}
use securesupabase_js.Js.Json.{num, str, obj, field, end}
use securesupabase_js.Postgrest.Types.{Runtime, Builder}
use securesupabase_js.Postgrest.Http.{FetchError, Platform, RowCount, Response}

module _ (rt : Runtime) (platform : Platform) where
  abbrev or_text : Option Str → String → Str
  or_text v fallback = or_else v (codes fallback)

  -- `${fetchError?.name ?? 'FetchError'}: ${fetchError?.message}`
  abbrev headline : FetchError → Str
  headline e = or_text e.name "FetchError" ++ (codes ": " ++ or_text e.message "undefined")

  abbrev code_part : Option Str → Str
  code_part none = []
  code_part (some code) = codes " (" ++ (code ++ codes ")")

  abbrev stack_part : Option Str → Str
  stack_part none = []
  stack_part (some stack) = 10 ∷ stack

  unfoldable pub details_text : FetchError → Str
  details_text e = elim e.cause [
    | none ↦ or_else e.stack []
    | some cause ↦
        headline e
        ++ (10 ∷ 10 ∷ codes "Caused by: "
            ++ (or_text cause.name "Error"
                ++ (codes ": "
                    ++ (or_else cause.message []
                        ++ (code_part (truthy cause.code) ++ stack_part (truthy cause.stack))))))
  ]

  abbrev equals : Option Str → String → Bool
  equals none text = false
  equals (some s) text = str_eq s (codes text)

  abbrev cause_name : FetchError → Option Str
  cause_name e = elim e.cause [ none ↦ none | some cause ↦ cause.name ]

  abbrev cause_code : FetchError → Option Str
  cause_code e = elim e.cause [ none ↦ none | some cause ↦ cause.code ]

  abbrev long_url : Builder → Str → Str
  long_url b note = if ltb b.url_length_limit (platform.url_length b) then note else []

  unfoldable pub hint_text : Builder → FetchError → Str
  unfolding str_eq
  hint_text b e =
      if equals e.name "AbortError" || equals e.code "ABORT_ERR"
      then codes "Request was aborted (timeout or manual cancellation)"
        ++ long_url b (
            codes ". Note: Your request URL is "
            ++ (rt.text (num (platform.url_length b))
                ++ codes
                    " characters, which may exceed server limits. If selecting many fields, consider using views. If filtering with large arrays (e.g., .in('id', [many IDs])), consider using an RPC function to pass values server-side."))
      else if equals (cause_name e) "HeadersOverflowError"
          || equals (cause_code e) "UND_ERR_HEADERS_OVERFLOW"
      then codes "HTTP headers exceeded server limits (typically 16KB)"
        ++ long_url b (
            codes ". Your request URL is "
            ++ (rt.text (num (platform.url_length b))
                ++ codes
                    " characters. If selecting many fields, consider using views. If filtering with large arrays (e.g., .in('id', [200+ IDs])), consider using an RPC function instead."))
      else []

  -- The response that stands for an error on the way.
  unfoldable pub error_response : Builder → FetchError → Response
  unfolding details_text hint_text
  error_response b e = record {
    error = some (
        obj (
          field (codes "message") (str (headline e)) (
            field (codes "details") (str (details_text e))
              (field (codes "hint") (str (hint_text b e)) (field (codes "code") (str []) end)))));
    data_ = none;
    count = RowCount.absent;
    status = 0;
    status_text = [];
  }
