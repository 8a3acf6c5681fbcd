-- ===== src/Dynamo/Watcher/Fetched.antt =====
-- What BatchGetItems returns: documents that were asked for, each once and with a time.
use rosa_hyperfleet_kube_app.Prelude.{
  ℕ, zero, suc, String, ◌≡◌, refl, ◌∙◌, inl, inr, Bool, false, ◌||◌, Option, none, some, List, [],
  ◌∷◌, ◌++◌, Assoc, lookup, insert, IsMap, lookup-insert, ◌==◌, string_eq, contains, length, arith,
  Option-cases,
}
use std.Path.{subst}
use rosa_hyperfleet_kube_app.Base.{ok, Result-cases}
use rosa_hyperfleet_kube_app.Dynamo.Client.{Client, Item, AttributeValue, member_s}
use rosa_hyperfleet_kube_app.Dynamo.Polling.{
  Poller, extract_document_id_and_update_time, collect_items, batch_attempts, before_attempt,
  next_backoff, batch_chunks, batch_get_items, chunks_of,
}
use rosa_hyperfleet_kube_app.Dynamo.Polling.Chunks.{joined, chunks_complete}
use rosa_hyperfleet_kube_app.Dynamo.Watcher.Dated.{IsDated, collect_items-IsDated}

abbrev is_text : String → Option AttributeValue → Bool
is_text k (some (member_s t)) = t == k
is_text k _ = false

-- Whether an item of the list has the document ID.
abbrev pub names : String → List Item → Bool
names k [] = false
names k (item ∷ items) = is_text k (lookup "documentID" item) || names k items

-- The documented behaviour of BatchGetItem on a table: the items and the keys that it returns are of the
-- keys of the request.
pub record IsBatch {W : Type 0} (c : Client W) (table : String) : Type 0 where
  pub batch_get_item-asked :
      (w : W) (keys : List String) (items : List Item) (unprocessed : List String) (k : String)
      → (c.batch_get_item table keys w).0 ≡ ok (items, unprocessed)
      → contains keys k ≡ false
      → (names k items ≡ false) × (contains unprocessed k ≡ false)

contains-append :
    (xs ys : List String) (k : String) → contains (xs ++ ys) k ≡ (contains xs k || contains ys k)
contains-append [] ys k = refl
contains-append (x ∷ xs) ys k = ground (arith, contains-append xs ys k)

module _ {W : Type 0} (p : Poller W) where
  extract_text :
      (item : Item) (id : String) (ut : ℕ)
      → extract_document_id_and_update_time p item ≡ some (id, ut)
      → lookup "documentID" item ≡ some (member_s id)
  unfolding extract_document_id_and_update_time
  extract_text item id ut h = ground arith

  collect_items-absent :
      (items : List Item) (results : Assoc String Item) (k : String)
      → names k items ≡ false
      → lookup k (collect_items p items results) ≡ lookup k results
  unfolding collect_items
  collect_items-absent [] results k h = refl
  collect_items-absent (item ∷ items) results k h =
      elim (Option-cases (extract_document_id_and_update_time p item)) [
        | inl skipped ↦ rw skipped (collect_items-absent items results k (ground arith))
        | inr ((id, ut), kept) ↦ rw kept (
            collect_items-absent items (insert id item results) k (ground arith)
            ∙ ground (arith, lookup-insert id k item results, extract_text item id ut kept, h))
      ]

  module _ (table : String) (law : IsBatch p.client table) (ids : List String) where
    open law use {batch_get_item-asked}

    abbrev IsWithin : List String → Type 0
    IsWithin xs = (k : String) → contains ids k ≡ false → contains xs k ≡ false

    abbrev IsGood : Assoc String Item → Type 0
    IsGood results =
        IsMap results
        × IsDated p results
        × ((k : String) → contains ids k ≡ false → lookup k results ≡ none)

    collect-IsGood :
        (keys unprocessed : List String) (items : List Item) (results : Assoc String Item) (w : W)
        → IsWithin keys
        → IsGood results
        → (p.client.batch_get_item table keys w).0 ≡ ok (items, unprocessed)
        → IsGood (collect_items p items results) × IsWithin unprocessed
    collect-IsGood keys unprocessed items results w within (is_map, dated, absent) done =
        let (is_map', dated') = collect_items-IsDated p items results is_map dated in
        let asked = λ (k : String) (other : contains ids k ≡ false).
          batch_get_item-asked w keys items unprocessed k done (within k other) in
        (
          (
            is_map',
            dated',
            λ k other. collect_items-absent items results k (asked k other).0 ∙ absent k other,
          ),
          λ k other. (asked k other).1,
        )

    batch_attempts-IsGood :
        (left attempt backoff : ℕ) (keys : List String) (results full : Assoc String Item) (w : W)
        → IsWithin keys
        → IsGood results
        → (batch_attempts p table left attempt backoff keys results w).0 ≡ ok full
        → IsGood full
    unfolding batch_attempts
    batch_attempts-IsGood left attempt backoff [] results full w within good done =
        let same : results ≡ full = cc done in subst IsGood same good
    batch_attempts-IsGood zero attempt backoff (k ∷ keys) results full w within good done =
        absurd (cc done)
    batch_attempts-IsGood (suc left) attempt backoff (k ∷ keys) results full w within good done =
        elim (Option-cases (before_attempt p table attempt backoff w).0) [
          | inr (e, stopped) ↦ absurd (cc (rw (batch_attempts, stopped) at done))
          | inl ready ↦
              let w1 = (before_attempt p table attempt backoff w).1 in
              elim (Result-cases (p.client.batch_get_item table (k ∷ keys) w1).0) [
                | inl (e, failed) ↦ absurd (cc (rw (batch_attempts, ready, failed) at done))
                | inr ((items, unprocessed), answer) ↦
                    let (good', within') =
                      collect-IsGood (k ∷ keys) unprocessed items results w1 within good answer in
                    batch_attempts-IsGood left (suc attempt) (next_backoff p table attempt backoff)
                      unprocessed (collect_items p items results) full
                      (p.client.batch_get_item table (k ∷ keys) w1).1 within' good'
                      (rw (batch_attempts, ready, answer) at done)
              ]
        ]

    batch_chunks-IsGood :
        (chunks : List (List String)) (results full : Assoc String Item) (w : W)
        → IsWithin (joined chunks)
        → IsGood results
        → (batch_chunks p table chunks results w).0 ≡ ok full
        → IsGood full
    unfolding batch_chunks
    batch_chunks-IsGood [] results full w within good done =
        let same : results ≡ full = cc done in subst IsGood same good
    batch_chunks-IsGood (chunk ∷ chunks) results full w within good done =
        let split = λ (k : String) (other : contains ids k ≡ false).
          contains-append chunk (joined chunks) k in
        let first : IsWithin chunk = λ k other. ground (arith, split k other, within k other) in
        let rest : IsWithin (joined chunks) =
          λ k other. ground (arith, split k other, within k other) in
        elim (Result-cases (batch_attempts p table 10 0 50 chunk results w).0) [
          | inl (e, failed) ↦ absurd (cc (rw (batch_chunks, failed) at done))
          | inr (next, fetched) ↦
              batch_chunks-IsGood chunks next full
                (batch_attempts p table 10 0 50 chunk results w).1 rest
                (batch_attempts-IsGood 10 0 50 chunk results next w first good fetched)
                (rw (batch_chunks, fetched) at done)
        ]

  -- A batch read that succeeds gives documents of the keys, each once and with a time.
  pub batch_get_items-asked :
      (table : String) (ids : List String) (full : Assoc String Item) (w : W)
      → IsBatch p.client table
      → (batch_get_items p table ids w).0 ≡ ok full
      → IsMap full × IsDated p full × ((k : String) → contains ids k ≡ false → lookup k full ≡ none)
  unfolding batch_get_items lookup
  batch_get_items-asked table ids full w law done =
      batch_chunks-IsGood table law ids (chunks_of (length ids) ids) [] full w
        (λ k other. rw (chunks_complete ids).0 other) (tt, (λ k. refl), λ k other. refl) done
