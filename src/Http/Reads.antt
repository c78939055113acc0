-- ===== src/Http/Reads.antt =====
-- What a read asks for, rust-core/src/http.rs: `read_query` and `supabase_read_query` read it from a
-- request, `table_read_uri` and `table_write_uri` write it for the server that a request is forwarded
-- to. A text stands by its UTF-8 bytes, and a map of parameters by the list of its pairs, in the order
-- in which they were put in; the order in which the map is iterated is a parameter (`HashOrder`).
pub mod Encoding
pub mod Parts
use mathlib.Core.List.{Perm}
use serverless_db.Base.{
  ℕ, ◌+◌, ◌-◌, ◌/◌, ◌%◌, String, Bool, true, false, ◌&&◌, ◌||◌, not, Text, codes, Option, none,
  some, List, [], ◌∷◌, ◌++◌, map, ltb, ◌==◌, if◌then◌else◌,
}
use serverless_db.Error.{
  Result, ok, err, new, ◌>>=◌, unknown_read_session, insert_body_array, insert_body,
}
use serverless_db.Http.{HeaderMap, get, to_str, or_else, unwrap_or, non_empty}
use serverless_db.Json.{Value, array, object, Items, nil, cons}
use serverless_db.Postgrest.Parser.{parse_query_params}
use serverless_db.Postgrest.{SelectQuery, FilterExpr}
use serverless_db.Text.{strip_prefix, text_eq, is_empty, is_ascii_alphanumeric}
use serverless_db.Text.Decimal.{decimal, parse_u64}

pub data ReadSession : Type 0 where
  first_unconstrained first_primary from_bookmark : ReadSession

pub record ReadQuery : Type 0 where
  pub filters : List (Text × Text)
  pub limit : ℕ
  pub bookmark : Option Text
  pub session : ReadSession
  pub route_region : Option Text

pub record SupabaseReadQuery : Type 0 where
  pub pg : SelectQuery
  pub bookmark : Option Text
  pub session : ReadSession
  pub route_region : Option Text

-- How a `HashMap` with random hashes is iterated: in any order of its pairs.
pub record HashOrder : Type 0 where
  pub iterate : List (Text × Text) → List (Text × Text)
  pub iterate-Perm : (pairs : List (Text × Text)) → Perm (iterate pairs) pairs

-- `HashMap::insert`.
unfoldable pub insert : Text → Text → List (Text × Text) → List (Text × Text)
insert k v [] = (k, v) ∷ []
insert k v ((j, w) ∷ entries) =
    let rest = insert k v entries in if text_eq j k then (j, v) ∷ entries else (j, w) ∷ rest

unfoldable pub header_region : HeaderMap → Option Text
unfolding get is_empty
header_region headers =
    non_empty (to_str (or_else (get headers "x-sdb-region") (get headers "x-d1-region")))

unfoldable pub header_bookmark : HeaderMap → Option Text
unfolding get is_empty
header_bookmark headers =
    non_empty (to_str (or_else (get headers "x-d1-bookmark") (get headers "x-sdb-bookmark")))

unfoldable pub session_of : Text → Result ReadSession
session_of value =
    if text_eq value (codes "first-primary")
    then ok first_primary
    else if text_eq value (codes "first-unconstrained")
    then ok first_unconstrained
    else if text_eq value (codes "bookmark")
    then ok from_bookmark
    else err (new 400 unknown_read_session)

-- Sets an option where the value is not empty.
abbrev pub set_non_empty : Text → Option Text → Option Text
set_non_empty value old = if is_empty value then old else some value

-- One pair of the query.
abbrev pub read_named : Text → Text → ReadQuery → Result ReadQuery
read_named key value q =
    if text_eq key (codes "limit")
    then ok (record q { limit = unwrap_or (parse_u64 value) 100 })
    else if text_eq key (codes "bookmark")
    then ok (record q { bookmark = set_non_empty value q.bookmark })
    else if text_eq key (codes "session")
    then (session_of value >>= λ session. ok (record q { session = session }))
    else if text_eq key (codes "route_region")
    then ok (record q { route_region = set_non_empty value q.route_region })
    else ok q

unfoldable pub read_pair : Text → Text → ReadQuery → Result ReadQuery
unfolding session_of insert
read_pair key value q = elim (strip_prefix (codes "eq.") key) [
  | some column ↦ ok (record q { filters = insert column value q.filters })
  | none ↦ read_named key value q
]

unfoldable pub read_pairs : List (Text × Text) → ReadQuery → Result ReadQuery
unfolding read_pair
read_pairs [] q = ok q
read_pairs ((key, value) ∷ query) q = read_pair key value q >>= λ q'. read_pairs query q'

unfoldable pub read_query : HashOrder → List (Text × Text) → HeaderMap → Result ReadQuery
unfolding header_region header_bookmark read_pairs
read_query order query headers = read_pairs (order.iterate query) (record {
  filters = [];
  limit = 100;
  bookmark = header_bookmark headers;
  session = first_unconstrained;
  route_region = header_region headers;
})

-- `query.get(key)`.
unfoldable pub param : Text → List (Text × Text) → Option Text
param key [] = none
param key ((k, value) ∷ query) = if text_eq k key then some value else param key query

abbrev session_param : Option Text → Result ReadSession
session_param none = ok first_unconstrained
session_param (some value) = session_of value

abbrev override : Option Text → Option Text → Option Text
override none old = old
override (some value) old = set_non_empty value old

unfoldable pub supabase_read_query :
    HashOrder → List (Text × Text) → HeaderMap → Result SupabaseReadQuery
unfolding header_region header_bookmark param session_of
supabase_read_query order query headers = do
  pg ← parse_query_params (order.iterate query)
  session ← session_param (param (codes "session") query)
  ok (record {
    pg = pg;
    bookmark = override (param (codes "bookmark") query) (header_bookmark headers);
    session = session;
    route_region = override (param (codes "route_region") query) (header_region headers);
  })

unfoldable pub supabase_filters : HashOrder → List (Text × Text) → Result FilterExpr
supabase_filters order query = parse_query_params (order.iterate query) >>= λ pg. ok pg.filters

abbrev all_objects : Items → Bool
all_objects nil = true
all_objects (cons (object fields) items) = all_objects items
all_objects (cons v items) = false

unfoldable pub normalize_supabase_insert_body : Value → Result Items
normalize_supabase_insert_body (object fields) = ok (cons (object fields) nil)
normalize_supabase_insert_body (array nil) = err (new 400 insert_body_array)
normalize_supabase_insert_body (array (cons v items)) =
    if all_objects (cons v items) then ok (cons v items) else err (new 400 insert_body_array)
normalize_supabase_insert_body _ = err (new 400 insert_body)

abbrev pub hex_upper : ℕ → ℕ
hex_upper d = if ltb d 10 then b'0' + d else b'A' + (d - 10)

-- Bytes that stand for themselves.
unfoldable pub is_plain : ℕ → Bool
unfolding is_ascii_alphanumeric
is_plain b = is_ascii_alphanumeric b || b == b'-' || b == b'_' || b == b'.' || b == b'~'

unfoldable pub percent_encode : Text → Text
unfolding is_plain
percent_encode [] = []
percent_encode (b ∷ bytes) =
    let rest = percent_encode bytes in
    if is_plain b then b ∷ rest else b'%' ∷ hex_upper (b / 16) ∷ hex_upper (b % 16) ∷ rest

-- `pairs.join("&")`.
unfoldable pub join_pairs : List Text → Text
join_pairs [] = []
join_pairs (p ∷ []) = p
join_pairs (p ∷ q ∷ pairs) = p ++ b'&' ∷ join_pairs (q ∷ pairs)

unfoldable pub with_query : Text → List Text → Text
unfolding join_pairs
with_query path [] = path
with_query path (p ∷ pairs) = path ++ b'?' ∷ join_pairs (p ∷ pairs)

abbrev pub session_text : ReadSession → Text
session_text first_unconstrained = codes "first-unconstrained"
session_text first_primary = codes "first-primary"
session_text from_bookmark = codes "bookmark"

abbrev pub filter_pair : Text × Text → Text
filter_pair (key, value) = codes "eq." ++ (percent_encode key ++ b'=' ∷ percent_encode value)

abbrev pub session_pairs : ReadSession → List Text
session_pairs first_unconstrained = []
session_pairs session = (codes "session=" ++ percent_encode (session_text session)) ∷ []

abbrev pub optional_pair : Text → Option Text → List Text
optional_pair name none = []
optional_pair name (some value) = (name ++ b'=' ∷ percent_encode value) ∷ []

-- The decimal text of a u64 has 20 digits at most.
unfoldable pub read_pairs_of : HashOrder → ReadQuery → List Text
unfolding percent_encode
read_pairs_of order q =
    map filter_pair (order.iterate q.filters)
    ++ ((if q.limit == 100 then [] else (codes "limit=" ++ decimal 20 q.limit) ∷ [])
        ++ (session_pairs q.session
            ++ (optional_pair (codes "bookmark") q.bookmark
                ++ optional_pair (codes "route_region") q.route_region)))

abbrev pub table_path : Text → Text → Text
table_path project_id table = codes "/v1/projects/" ++ (project_id ++ (codes "/tables/" ++ table))

unfoldable pub table_read_uri : HashOrder → Text → Text → ReadQuery → Text
unfolding read_pairs_of with_query
table_read_uri order project_id table q =
    with_query (table_path project_id table) (read_pairs_of order q)

abbrev pub written_pair : Text × Text → Text
written_pair (key, value) = percent_encode key ++ b'=' ∷ percent_encode value

unfoldable pub table_write_uri : HashOrder → Text → Text → List (Text × Text) → Text
unfolding with_query percent_encode
table_write_uri order project_id table query =
    with_query (table_path project_id table) (map written_pair (order.iterate query))

unfoldable pub supabase_table_uri : HashOrder → Text → List (Text × Text) → Text
unfolding with_query percent_encode
supabase_table_uri order table query =
    with_query (codes "/rest/v1/" ++ table) (map written_pair (order.iterate query))
