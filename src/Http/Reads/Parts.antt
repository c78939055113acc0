-- ===== src/Http/Reads/Parts.antt =====
-- Uris with different queries differ: an inverse of `with_query`.
use serverless_db.Base.{
  ℕ, ◌≡◌, refl, ap, ◌∙◌, arith, not, Text, Option, none, some, List, [], ◌∷◌, ◌++◌, map, all-append,
  ◌==◌,
}
use serverless_db.Http.Reads.{join_pairs, with_query, written_pair, percent_encode}
use serverless_db.Http.Reads.Encoding.{
  AreBytes, percent_decode, percent_decode-percent_encode, percent_encode-Lacks, reserved_not_plain,
}
use serverless_db.Postgrest.Parser.{split_once}
use serverless_db.Text.{split}
use serverless_db.Text.Parts.{Lacks, split-cons, split_whole}

abbrev pub decoded : Option (Text × Text) → Text → Text × Text
decoded none s = (percent_decode s, [])
decoded (some (key, value)) s = (percent_decode key, percent_decode value)

unfoldable pub decode_pair : Text → Text × Text
decode_pair s = decoded (split_once b'=' s) s

abbrev pub target : Option (Text × Text) → Text → Text × List (Text × Text)
target none uri = (uri, [])
target (some (path, query)) uri = (path, map decode_pair (split b'&' query))

-- The path in front of the question mark, and the pairs behind it, with the percent-encoding undone.
unfoldable pub decode_uri : Text → Text × List (Text × Text)
decode_uri uri = target (split_once b'?' uri) uri

abbrev pub ArePairsOfBytes : List (Text × Text) → Type 0
ArePairsOfBytes [] = Unit {0}
ArePairsOfBytes ((key, value) ∷ pairs) = AreBytes key × AreBytes value × ArePairsOfBytes pairs

split_once-append :
    (sep : ℕ) (a b : Text) → Lacks sep a → split_once sep (a ++ sep ∷ b) ≡ some (a, b)
unfolding split_once
split_once-append sep [] b h = ground arith
split_once-append sep (c ∷ a) b h = ground (arith, split_once-append sep a b)

split_once-Lacks : (sep : ℕ) (a : Text) → Lacks sep a → split_once sep a ≡ none
unfolding split_once
split_once-Lacks sep [] h = refl
split_once-Lacks sep (c ∷ a) h = ground (arith, split_once-Lacks sep a)

decode_pair-written_pair :
    (key value : Text)
    → AreBytes key
    → AreBytes value
    → decode_pair (written_pair (key, value)) ≡ (key, value)
unfolding decode_pair
decode_pair-written_pair key value k v =
    rw
      (
        split_once-append b'=' (percent_encode key) (percent_encode value)
            (percent_encode-Lacks b'=' key reserved_not_plain.0 refl k),
        percent_decode-percent_encode key k,
        percent_decode-percent_encode value v,
      )
      refl

Lacks-written_pair :
    (key value : Text) → AreBytes key → AreBytes value → Lacks b'&' (written_pair (key, value))
Lacks-written_pair key value k v =
    all-append (λ c. not (c == b'&')) (percent_encode key) (b'=' ∷ percent_encode value)
      (percent_encode-Lacks b'&' key reserved_not_plain.1 refl k)
      (percent_encode-Lacks b'&' value reserved_not_plain.1 refl v)

split-join_pairs :
    (key value : Text) (pairs : List (Text × Text))
    → ArePairsOfBytes ((key, value) ∷ pairs)
    → split b'&' (join_pairs (map written_pair ((key, value) ∷ pairs)))
      ≡ map written_pair ((key, value) ∷ pairs)
unfolding join_pairs
split-join_pairs key value [] (k, v, t) =
    split_whole b'&' (written_pair (key, value)) (Lacks-written_pair key value k v)
split-join_pairs key value ((key', value') ∷ pairs) (k, v, t) =
    split-cons b'&' (written_pair (key, value))
      (join_pairs (map written_pair ((key', value') ∷ pairs))) (Lacks-written_pair key value k v)
    ∙ ap (λ (ps : List Text). written_pair (key, value) ∷ ps) (split-join_pairs key' value' pairs t)

decode_pairs :
    (pairs : List (Text × Text))
    → ArePairsOfBytes pairs
    → map decode_pair (map written_pair pairs) ≡ pairs
decode_pairs [] h = refl
decode_pairs ((key, value) ∷ pairs) (k, v, t) =
    rw (decode_pair-written_pair key value k v, decode_pairs pairs t) refl

-- A uri that is built of a path and pairs is read back to them. (They are bytes, and the path has no
-- question mark.)
pub decode_uri-with_query :
    (path : Text) (pairs : List (Text × Text))
    → Lacks b'?' path
    → ArePairsOfBytes pairs
    → decode_uri (with_query path (map written_pair pairs)) ≡ (path, pairs)
unfolding decode_uri with_query
decode_uri-with_query path [] h t = rw (split_once-Lacks b'?' path h) refl
decode_uri-with_query path ((key, value) ∷ pairs) h t =
    let query : Text = join_pairs (map written_pair ((key, value) ∷ pairs)) in
    rw (split_once-append b'?' path query h, split-join_pairs key value pairs t)
      (ap (λ (ps : List (Text × Text)). (path, ps)) (decode_pairs ((key, value) ∷ pairs) t))
