-- ===== src/Server/Api/History.antt =====
-- The history of a tag: get_tag_history of crates/central-server/src/api.rs. The database answers the query
-- that is sent to it.
use ifascada.Prelude.{
  String, Bool, Option, none, some, List, [], ◌∷◌, same, unwrap_or, Result, ok, err,
}
use ifascada.Prelude.Int.{ℤ, pos}
use ifascada.Json.{Value, string, null, array, object, cons, nil, field, end, Items}

-- A row of `tag_events`.
pub record HistoryRow (F : Type 0) : Type 0 where
  pub id : Value F
  pub value : Value F
  pub quality : String
  pub timestamp : ℤ
  pub created_at : Option ℤ

pub record HistoryQuery : Type 0 where
  pub limit : Option ℤ
  pub offset : Option ℤ
  pub start : Option String
  pub finish : Option String  -- the field `end`
  pub order : Option String

-- What the database is asked: the rows of a tag at or after `lowest` and at or before `highest`, in an order.
pub record Query : Type 0 where
  pub tag_id : String
  pub lowest : Option String
  pub highest : Option String
  pub ascending : Bool
  pub limit : ℤ
  pub offset : ℤ

-- An end without a start is not looked at.
unfoldable pub highest_of : Option String → Option String → Option String
highest_of none finish = none
highest_of (some start) finish = finish

unfoldable pub query_of : (to_lowercase : String → String) → String → HistoryQuery → Query
unfolding highest_of
query_of to_lowercase id q = record {
  tag_id = id;
  lowest = q.start;
  highest = highest_of q.start q.finish;
  ascending = same (to_lowercase (unwrap_or q.order "desc")) "asc";
  limit = unwrap_or q.limit (pos 100);
  offset = unwrap_or q.offset (pos 0);
}

-- `rfc3339` prints a time of the database.
module _ {F : Type 0} (rfc3339 : ℤ → String) where
  created_json : Option ℤ → Value F
  created_json none = null
  created_json (some t) = string (rfc3339 t)

  unfoldable pub row_json : HistoryRow F → Value F
  unfolding created_json
  row_json r = object (
      field "id" r.id (
        field "value" r.value (
          field "quality" (string r.quality) (
            field "timestamp" (string (rfc3339 r.timestamp))
              (field "created_at" (created_json r.created_at) end)))))

  unfoldable pub rows_json : List (HistoryRow F) → Items F
  unfolding row_json
  rows_json [] = nil
  rows_json (r ∷ rows) = cons (row_json r) (rows_json rows)

  unfoldable pub get_tag_history :
      (to_lowercase : String → String)
      → (database : Query → Result (List (HistoryRow F)) String) → String
      → HistoryQuery
      → Value F
  unfolding rows_json
  get_tag_history to_lowercase database id q = elim (database (query_of to_lowercase id q)) [
    | ok rows ↦ array (rows_json rows)
    | err e ↦ object (field "error" (string e) end)
  ]
