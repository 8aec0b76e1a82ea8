-- ===== src/Worker/ClickHouse.antt =====
-- internal/worker/clickhouse.go: the sink, which sends a batch of rows to ClickHouse in one
-- request.
use geotagger.Prelude.{
  ℕ, ◌+◌, ◌≤◌, ◌<◌, ◌↔◌, ◌≡◌, sym, append-nil, append_assoc, refl, Bool, true, false, ◌&&◌, not,
  List, [], ◌∷◌, ◌++◌, Option, none, some, ap, ◌∙◌, reverse, arith, ltb, leb, ◌==◌, if◌then◌else◌,
  length, length-append, Result, ok, err, All,
}
use geotagger.Text.Bytes.{Str, codes, is_empty}
use geotagger.Text.Strings.{split, split_from, split_from-append, Lacks}

pub record ClickHouse : Type 0 where
  pub endpoint : Str
  pub user : Str
  pub password : Str

-- The request that Insert sends: its URL, the credentials of basic authentication, its body.
pub record InsertRequest : Type 0 where
  pub url : Str
  pub content_type : Str
  pub basic_auth : Option (Str × Str)
  pub body : Str

pub data InsertError : Type 0 where
  bad_request transport : InsertError
  status : ℕ → InsertError

-- strings.TrimRight(s, "/"), on the string reversed.
unfoldable pub trim_slashes : Str → Str
trim_slashes [] = []
trim_slashes (c ∷ s) = let rest = trim_slashes s in if c == b'/' then rest else c ∷ s

unfoldable pub new_click_house : Str → Str → Str → ClickHouse
unfolding trim_slashes
new_click_house endpoint user password = record {
  endpoint = reverse (trim_slashes (reverse endpoint));
  user = user;
  password = password;
}

-- The two loops of Insert: the size that the buffer grows to, and the writes into it.
unfoldable pub body_bytes : ℕ → List Str → ℕ
body_bytes n [] = n
body_bytes n (row ∷ rows) = body_bytes (n + length row) rows

unfoldable pub write_rows : Str → List Str → Str
write_rows body [] = body
write_rows body (row ∷ rows) = write_rows ((body ++ row) ++ b'\n' ∷ []) rows

abbrev pub query : Str
query =
    codes
      "date_time_input_format=best_effort&query=INSERT+INTO+geotagger.audit_events+FORMAT+JSONEachRow"

unfoldable pub insert_request : ClickHouse → List Str → InsertRequest
unfolding write_rows
insert_request c rows = record {
  url = c.endpoint ++ codes "/?" ++ query;
  content_type = codes "application/x-ndjson";
  basic_auth = if is_empty c.user then none else some (c.user, c.password);
  body = write_rows [] rows;
}

-- `valid` tells whether net/http accepts the URL; `send` is the HTTP client, which answers with a
-- status or fails.
module _ (valid : Str → Bool) (send : InsertRequest → Option ℕ) where
  unfoldable pub check_status : Option ℕ → Result InsertError (Unit {0})
  check_status none = err transport
  check_status (some code) = if leb 200 code && ltb code 300 then ok tt else err (status code)

  unfoldable pub insert_rows : ClickHouse → List Str → Result InsertError (Unit {0})
  unfolding check_status insert_request
  insert_rows c [] = ok tt
  insert_rows c (row ∷ rows) =
      let req = insert_request c (row ∷ rows) in
      if not (valid req.url) then err bad_request else check_status (send req)

write_rows-append :
    (rows : List Str) (a b : Str) → write_rows (a ++ b) rows ≡ a ++ write_rows b rows
unfolding write_rows
write_rows-append [] a b = refl
write_rows-append (row ∷ rows) a b =
    ap (λ t. write_rows t rows)
      (ap (λ t. t ++ b'\n' ∷ []) (append_assoc a b row) ∙ append_assoc a (b ++ row) (b'\n' ∷ []))
    ∙ write_rows-append rows a ((b ++ row) ++ b'\n' ∷ [])

write_rows-body_bytes :
    (rows : List Str) (body : Str) (n : ℕ)
    → n ≡ length body + length rows
    → length (write_rows body rows) ≡ body_bytes n rows
unfolding write_rows body_bytes
write_rows-body_bytes [] body n e = omega (arith, e)
write_rows-body_bytes (row ∷ rows) body n e =
    write_rows-body_bytes rows ((body ++ row) ++ b'\n' ∷ []) (n + length row)
      (omega (arith, e, length-append (body ++ row) (b'\n' ∷ []), length-append body row))

split_from-write_rows :
    (rows : List Str)
    → All (Lacks b'\n') rows
    → split_from b'\n' [] (write_rows [] rows) ≡ rows ++ [] ∷ []
unfolding write_rows split_from
split_from-write_rows [] _ = refl
split_from-write_rows (row ∷ rows) (h, hs) = rw (write_rows-first) (
    split_from-append b'\n' [] row (write_rows [] rows) h
    ∙ ap (λ t. row ∷ t) (split_from-write_rows rows hs))
  where
    write_rows-first : write_rows (row ++ b'\n' ∷ []) rows ≡ row ++ b'\n' ∷ write_rows [] rows
    write_rows-first =
        ap (λ t. write_rows t rows) (sym (append-nil (row ++ b'\n' ∷ [])))
        ∙ write_rows-append rows (row ++ b'\n' ∷ []) []
        ∙ append_assoc row (b'\n' ∷ []) (write_rows [] rows)

-- For rows without a line feed, the body that Insert sends has exactly the bytes that its buffer
-- was grown to, and its lines are the rows in their order, each ended by a line feed, so that
-- the last part behind the line feeds is empty.
pub insert_request_body :
    (c : ClickHouse) (rows : List Str)
    → All (Lacks b'\n') rows
    → (length (insert_request c rows).body ≡ body_bytes (length rows) rows)
      × (split b'\n' (insert_request c rows).body ≡ rows ++ [] ∷ [])
unfolding insert_request split
insert_request_body c rows h =
    (write_rows-body_bytes rows [] (length rows) (omega arith), split_from-write_rows rows h)

module _ (valid : Str → Bool) (send : InsertRequest → Option ℕ) where
  -- Insert of a batch that is not empty succeeds exactly where its URL is accepted and the server
  -- answers its request with a status of 200 to 299.
  pub insert_rows_iff :
      (c : ClickHouse) (row : Str) (rows : List Str)
      → let req = insert_request c (row ∷ rows) in
        (insert_rows valid send c (row ∷ rows) ≡ ok tt) ↔ (
          (valid req.url ≡ true)
          × ((code : ℕ) × ((send req ≡ some code) × ((200 ≤ code) × (code < 300)))))
  unfolding insert_rows check_status
  insert_rows_iff c row rows = go (valid req.url) (send req)
    where
      req : InsertRequest
      req = insert_request c (row ∷ rows)

      go :
          (v : Bool) (answer : Option ℕ)
          → ((if not v then err bad_request else check_status valid send answer) ≡ ok tt)
            ↔ ((v ≡ true) × ((code : ℕ) × ((answer ≡ some code) × ((200 ≤ code) × (code < 300)))))
      go false answer = (λ e. cc, λ (e, _). cc)
      go true none = (λ e. cc, λ (_, (code, (e, _))). cc)
      go true (some k) =
          (λ e. (refl, (k, (refl, ground arith))), λ (_, (code, (e, h))). ground arith)
