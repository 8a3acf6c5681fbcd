-- ===== src/Dynamo/Polling.antt =====
-- seaplane-dynamo/dynamodb/gsi.go and scan.go: the reads that the watcher makes. A loop over pages
-- takes fuel, and `none` means that the fuel ran out.
pub mod Pages
pub mod Chunks
use rosa_hyperfleet_kube_app.Prelude.{
  ℕ, zero, suc, ◌+◌, ◌*◌, String, Bool, Option, none, some, List, [], ◌∷◌, ◌++◌, Assoc, lookup,
  insert, length, take, drop, if◌then◌else◌, ltb, nat_beq, string_eq,
}
use rosa_hyperfleet_kube_app.Base.{GoError, plain, wrap, concat, Result, ok, err, Io}
use rosa_hyperfleet_kube_app.Dynamo.Client.{
  Client, Item, Page, AttributeValue, member_s, member_n, member_other,
}
use rosa_hyperfleet_kube_app.Dynamo.Shard.{format_uint}

-- time.Parse(time.RFC3339, ·) and Time.Format(time.RFC3339Nano) in UTC.
pub record TimeText : Type 0 where
  pub parse : String → Option ℕ
  pub format : ℕ → String

-- What the polling functions are built on: the client, the time formats, and a wait for a number of
-- milliseconds that ends with an error if the context is done first.
pub record Poller (W : Type 0) : Type 0 where
  pub client : Client W
  pub time : TimeText
  pub wait : ℕ → Io W (Option GoError)

module _ {W : Type 0} (p : Poller W) where
  abbrev text_of : Option AttributeValue → Option String
  text_of (some (member_s t)) = some t
  text_of _ = none

  unfoldable pub extract_document_id_and_update_time : Item → Option (String × ℕ)
  extract_document_id_and_update_time item = elim (text_of (lookup "documentID" item)) [
    | none ↦ none
    | some doc_id ↦ elim (text_of (lookup "updateTime" item)) [
      | none ↦ none
      | some text ↦ elim (p.time.parse text) [ none ↦ none | some ut ↦ some (doc_id, ut) ]
    ]
  ]

  abbrev keep_item : Option (String × ℕ) → Item → Assoc String Item → Assoc String Item
  keep_item none item results = results
  keep_item (some (doc_id, ut)) item results = insert doc_id item results

  -- for _, item := range out.Items { …; results[docID] = item }
  unfoldable pub collect_items : List Item → Assoc String Item → Assoc String Item
  collect_items [] results = results
  collect_items (item ∷ items) results =
      collect_items items (keep_item (extract_document_id_and_update_time item) item results)

  abbrev keep_stub : Option (String × ℕ) → Assoc String ℕ → Assoc String ℕ
  keep_stub none results = results
  keep_stub (some (doc_id, ut)) results = insert doc_id ut results

  unfoldable pub collect_stubs : List Item → Assoc String ℕ → Assoc String ℕ
  collect_stubs [] results = results
  collect_stubs (item ∷ items) results =
      collect_stubs items (keep_stub (extract_document_id_and_update_time item) results)

  module _ (table : String) where
    unfoldable pub scan_from :
        ℕ → Item → Assoc String Item → Io W (Option (Result (Assoc String Item)))
    scan_from zero last_key results w = (none, w)
    scan_from (suc fuel) last_key results w =
        let (out, w') = p.client.scan table last_key w in
        elim out [
          | err e ↦ (some (err (wrap (concat ("scan " ∷ table ∷ [])) e)), w')
          | ok page ↦
              let results' = collect_items page.items results in
              elim page.last_evaluated_key [
                | [] ↦ (some (ok results'), w')
                | a ∷ key ↦ scan_from fuel (a ∷ key) results' w'
              ]
        ]

    unfoldable pub scan_all : ℕ → Io W (Option (Result (Assoc String Item)))
    unfolding scan_from
    scan_all fuel = scan_from fuel [] []

    unfoldable pub query_shard :
        ℕ → String → String → Item → Assoc String ℕ → Io W (Option (Result (Assoc String ℕ)))
    query_shard zero shard since last_key results w = (none, w)
    query_shard (suc fuel) shard since last_key results w =
        let (out, w') = p.client.query table shard since last_key w in
        elim out [
          | err e ↦
              (some (err (wrap (concat ("GSI query shard " ∷ shard ∷ " of " ∷ table ∷ [])) e)), w')
          | ok page ↦
              let results' = collect_stubs page.items results in
              elim page.last_evaluated_key [
                | [] ↦ (some (ok results'), w')
                | a ∷ key ↦ query_shard fuel shard since (a ∷ key) results' w'
              ]
        ]

    abbrev first_error :
        GoError → Option (Result (Assoc String ℕ)) × W → Option (Result (Assoc String ℕ)) × W
    first_error e (none, w) = (none, w)
    first_error e (some r, w) = (some (err e), w)

    -- The goroutines of QuerySince, one after another: every shard is queried, and the error of the
    -- first shard that has one is returned. `left` shards, from number `s`.
    unfoldable pub query_shards :
        ℕ → ℕ → ℕ → String → Assoc String ℕ → Io W (Option (Result (Assoc String ℕ)))
    query_shards zero s fuel since results w = (some (ok results), w)
    query_shards (suc left) s fuel since results w =
        let (r, w') = query_shard fuel (format_uint s) since [] results w in
        elim r [
          | none ↦ (none, w')
          | some (err e) ↦ first_error e (query_shards left (suc s) fuel since results w')
          | some (ok results') ↦ query_shards left (suc s) fuel since results' w'
        ]

    unfoldable pub query_since : ℕ → ℕ → ℕ → Io W (Option (Result (Assoc String ℕ)))
    unfolding query_shards query_shard
    query_since shard_count fuel since = query_shards shard_count 0 fuel (p.time.format since) []

    -- Before every attempt but the first: wait, and double the backoff while it is below 2 seconds.
    pub before_attempt : ℕ → ℕ → Io W (Option GoError)
    before_attempt zero backoff w = (none, w)
    before_attempt (suc attempt) backoff w = p.wait backoff w

    abbrev pub next_backoff : ℕ → ℕ → ℕ
    next_backoff zero backoff = backoff
    next_backoff (suc attempt) backoff = if ltb backoff 2000 then backoff * 2 else backoff

    -- The loop over the attempts of one chunk; `left` is 10 less the attempts made.
    unfoldable pub batch_attempts :
        ℕ → ℕ → ℕ → List String → Assoc String Item → Io W (Result (Assoc String Item))
    unfolding before_attempt
    batch_attempts left attempt backoff [] results w = (ok results, w)
    batch_attempts zero attempt backoff (k ∷ remaining) results w = (
      err (
          plain (
            concat (
              "BatchGetItem "
              ∷ table
              ∷ ": unprocessed keys remain after "
              ∷ format_uint attempt
              ∷ " attempts"
              ∷ []))),
      w,
    )
    batch_attempts (suc left) attempt backoff (k ∷ remaining) results w =
        let (stopped, w1) = before_attempt attempt backoff w in
        elim stopped [
          | some e ↦ (err (wrap (concat ("BatchGetItem " ∷ table ∷ [])) e), w1)
          | none ↦
              let (out, w2) = p.client.batch_get_item table (k ∷ remaining) w1 in
              elim out [
                | err e ↦ (err (wrap (concat ("BatchGetItem " ∷ table ∷ [])) e), w2)
                | ok (items, unprocessed) ↦
                    batch_attempts left (suc attempt) (next_backoff attempt backoff) unprocessed
                      (collect_items items results) w2
              ]
        ]

    unfoldable pub batch_chunks :
        List (List String) → Assoc String Item → Io W (Result (Assoc String Item))
    unfolding batch_attempts
    batch_chunks [] results w = (ok results, w)
    batch_chunks (chunk ∷ chunks) results w =
        let (r, w') = batch_attempts 10 0 50 chunk results w in
        elim r [ err e ↦ (err e, w') | ok results' ↦ batch_chunks chunks results' w' ]

abbrev pub batch_get_max : ℕ
batch_get_max = 100

-- docIDs[i:end] for i = 0, 100, 200, …; `rounds` bounds their number.
unfoldable pub chunks_of : ℕ → List String → List (List String)
chunks_of rounds [] = []
chunks_of zero (k ∷ ks) = []
chunks_of (suc rounds) (k ∷ ks) =
    take batch_get_max (k ∷ ks) ∷ chunks_of rounds (drop batch_get_max (k ∷ ks))

-- A list of n keys has at most n chunks.
unfoldable pub batch_get_items :
    {W : Type 0} (p : Poller W) → String → List String → Io W (Result (Assoc String Item))
unfolding batch_chunks chunks_of
batch_get_items p table doc_ids = batch_chunks p table (chunks_of (length doc_ids) doc_ids) []
