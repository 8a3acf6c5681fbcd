-- ===== src/Tests/Memory.antt =====
-- A DynamoDB held in memory, a desire type with one content field, and a codec and a JSON library
-- for it.
use rosa_hyperfleet_kube_app.Prelude.{
  ℕ, String, ◌≡◌, ◌≢◌, refl, sym, ap, ◌⊎◌, inl, inr, true, false, ◌&&◌, Option, none, some, [], ◌∷◌,
  lookup, insert, lookup-insert, if◌then◌else◌, ◌==◌, string_eq, arith, eq_iff, Bool-cases,
}
use rosa_hyperfleet_kube_app.Base.{Result, ok, err, conditional_check_failed}
use rosa_hyperfleet_kube_app.Api.{Desire, DynamoDbMetadata, RawExtension}
use rosa_hyperfleet_kube_app.Dynamo.Client.{
  Client, Item, AttributeValue, member_s, member_n, member_other, WriteCondition, holds, IsDynamo,
  IsAvailable,
}
use rosa_hyperfleet_kube_app.Database.{Json, IsJson, AttributeCodec, IsCodec, is_extra}
use rosa_hyperfleet_kube_app.Database.Crud.{Backend, IsBackend}

abbrev pub Tables : Type 0
Tables = String → String → Option Item

abbrev pub nonempty : Option Item → Option Item
nonempty none = none
nonempty (some []) = none
nonempty (some (a ∷ i)) = some (a ∷ i)

abbrev pub item_of : Option Item → Item
item_of none = []
item_of (some i) = i

abbrev pub written : String → String → Option Item → Tables → Tables
written t id o w t' id' = if (t == t') && (id == id') then o else w t' id'

abbrev put_under :
    String → Item → WriteCondition → Option AttributeValue → Tables → Result (Unit {0}) × Tables
put_under t i cond (some (member_s id)) w =
    if holds cond (nonempty (w t id))
    then (ok tt, written t id (some i) w)
    else (err (conditional_check_failed "rejected"), w)
put_under t i cond _ w = (err (conditional_check_failed "no key"), w)

abbrev pub memory : Client Tables
memory = record {
  get_item = λ t id w. (ok (item_of (w t id)), w);
  put_item = λ t i cond w. put_under t i cond (lookup "documentID" i) w;
  delete_item = λ t id w. (ok tt, written t id none w);
  scan_pages = λ t w. ([], w);
  scan = λ t key w. (ok (record { items = []; last_evaluated_key = [] }), w);
  query = λ t shard since key w. (ok (record { items = []; last_evaluated_key = [] }), w);
  batch_get_item = λ t keys w. (ok ([], []), w);
}

pub nonempty-ne : (o : Option Item) → nonempty o ≢ some []
nonempty-ne none h = absurd (cc h)
nonempty-ne (some []) h = absurd (cc h)
nonempty-ne (some (a ∷ i)) h = absurd (cc h)

pub nonempty-item_of :
    (o : Option Item) (i : Item)
    → item_of o ≡ i
    → nonempty o ≡ (elim i [ [] ↦ none | a ∷ r ↦ some (a ∷ r) ])
nonempty-item_of none [] h = refl
nonempty-item_of none (a ∷ r) h = absurd (cc h)
nonempty-item_of (some []) [] h = refl
nonempty-item_of (some []) (a ∷ r) h = absurd (cc h)
nonempty-item_of (some (b ∷ s)) [] h = absurd (cc h)
nonempty-item_of (some (b ∷ s)) (a ∷ r) h = rw h refl

nonempty-keyed :
    (i : Item) (v : AttributeValue) → lookup "documentID" i ≡ some v → nonempty (some i) ≡ some i
unfolding lookup
nonempty-keyed [] v h = absurd (cc h)
nonempty-keyed (a ∷ i) v h = refl

abbrev pub memory_at : Tables → String → String → Option Item
memory_at w t id = nonempty (w t id)

pub put_holds :
    (w : Tables) (t id : String) (i : Item) (cond : WriteCondition) (u : Unit {0})
    → lookup "documentID" i ≡ some (member_s id)
    → (memory.put_item t i cond w).0 ≡ ok u
    → (holds cond (memory_at w t id) ≡ true)
put_holds w t id i cond u keyed done = elim (Bool-cases (holds cond (memory_at w t id))) [
  | inl met ↦ met
  | inr unmet ↦ absurd (cc (rw (keyed, unmet) at done))
]

pub put_item_at :
    (w : Tables) (t id : String) (i : Item) (cond : WriteCondition) (u : Unit {0}) (t' id' : String)
    → lookup "documentID" i ≡ some (member_s id)
    → (memory.put_item t i cond w).0 ≡ ok u
    → memory_at (memory.put_item t i cond w).1 t' id'
      ≡ (if (t == t') && (id == id') then some i else memory_at w t' id')
put_item_at w t id i cond u t' id' keyed done =
    rw (keyed, put_holds w t id i cond u keyed done)
      (ground (arith, nonempty-keyed i (member_s id) keyed))

pub put_rejected :
    (w : Tables) (t id : String) (i : Item) (cond : WriteCondition) (m t' id' : String)
    → lookup "documentID" i ≡ some (member_s id)
    → (memory.put_item t i cond w).0 ≡ err (conditional_check_failed m)
    → (holds cond (memory_at w t id) ≡ false)
      × (memory_at (memory.put_item t i cond w).1 t' id' ≡ memory_at w t' id')
put_rejected w t id i cond m t' id' keyed done = elim (Bool-cases (holds cond (memory_at w t id))) [
  | inl met ↦ absurd (cc (rw (keyed, met) at done))
  | inr unmet ↦ rw (keyed, unmet) (refl, refl)
]

put_answers :
    (w : Tables) (t : String) (i : Item) (cond : WriteCondition) (o : Option AttributeValue)
    → ((put_under t i cond o w).0 ≡ ok tt)
      ⊎ ((m : String) × ((put_under t i cond o w).0 ≡ err (conditional_check_failed m)))
put_answers w t i cond none = inr ("no key", refl)
put_answers w t i cond (some (member_n n)) = inr ("no key", refl)
put_answers w t i cond (some (member_other x)) = inr ("no key", refl)
put_answers w t i cond (some (member_s id)) = elim (Bool-cases (holds cond (memory_at w t id))) [
  | inl met ↦ inl (rw met refl)
  | inr unmet ↦ inr ("rejected", rw unmet refl)
]

pub ok_same {ℓ} : {A : Type ℓ} {a b : A} → ok a ≡ ok b → a ≡ b
ok_same h = cc h

pub nonempty-written :
    (t id : String) (w : Tables) (t' id' : String)
    → nonempty (written t id none w t' id')
      ≡ (if (t == t') && (id == id') then none else nonempty (w t' id'))
nonempty-written t id w t' id' = ground arith

abbrev pub memory_is_dynamo : IsDynamo memory
memory_is_dynamo = record {
  item_at = memory_at;
  item_at-ne-nil = λ w t id. nonempty-ne (w t id);
  get_item-ok = λ w t id i h. nonempty-item_of (w t id) i (ok_same h);
  get_item-item_at = λ w t id t' id'. refl;
  put_item-holds = put_holds;
  put_item-item_at = put_item_at;
  put_item-rejected = put_rejected;
  delete_item-item_at = λ w t id u t' id' done. nonempty-written t id w t' id';
}

pub memory-IsAvailable : IsAvailable memory
memory-IsAvailable = record {
  get_item_answers = λ w t id. (item_of (w t id), refl);
  put_item_answers = λ w t i cond. put_answers w t i cond (lookup "documentID" i);
}

-- A desire with one content field and a label.
pub record Note : Type 0 where
  pub metadata : DynamoDbMetadata
  pub content : Option RawExtension
  pub label : String

instance abbrev pub note_desire : Desire Note
note_desire = record {
  metadata = λ d. d.metadata;
  set_metadata = λ d m. record d { metadata = m };
  get_spec_kube_content = λ d. d.content;
  set_spec_kube_content = λ d x. record d { content = x };
  get_status_kube_content = λ d. none;
  set_status_kube_content = λ d x. d;
  tagged_part = λ d. record d { metadata = record d.metadata { document_id = "" }; content = none };
  metadata-set_metadata = λ d m. refl;
  spec-set_metadata = λ d m. refl;
  status-set_metadata = λ d m. refl;
  metadata-tagged_part = λ d. refl;
  spec-tagged_part = λ d. refl;
  status-tagged_part = λ d. refl;
  metadata-set_spec = λ d x. refl;
  metadata-set_status = λ d x. refl;
  status-set_spec = λ d x. refl;
  spec-set_status = λ d x. refl;
}

abbrev number : Option AttributeValue → ℕ
number (some (member_n n)) = n
number _ = 0

abbrev text : Option AttributeValue → String
text (some (member_s t)) = t
text _ = ""

abbrev pub marshal_note : Note → Item
marshal_note d =
    ("version", member_n d.metadata.version)
    ∷ ("updateTime", member_n d.metadata.update_time)
    ∷ ("createTime", member_n d.metadata.create_time)
    ∷ ("label", member_s d.label)
    ∷ []

abbrev pub unmarshal_note : Item → Note
unmarshal_note m = record {
  metadata = record {
    document_id = "";
    version = number (lookup "version" m);
    update_time = number (lookup "updateTime" m);
    create_time = number (lookup "createTime" m);
  };
  content = none;
  label = text (lookup "label" m);
}

abbrev pub note_codec : AttributeCodec Note
note_codec = record {
  marshal_map = λ d. ok (marshal_note d);
  unmarshal_map = λ m. ok (unmarshal_note m);
}

-- The field names are no extra attributes.
other_name : (k field : String) → is_extra k ≡ true → is_extra field ≡ false → (k == field) ≡ false
other_name k field extra plain_field = elim (Bool-cases (k == field)) [
  | inl same ↦ absurd (cc (rw ((eq_iff k field).0 same) at extra, plain_field))
  | inr other ↦ other
]

eq_sym : (a b : String) → (a == b) ≡ (b == a)
eq_sym a b = ground (arith, eq_iff a b, eq_iff b a)

marshal_extra : (d : Note) (k : String) → is_extra k ≡ true → lookup k (marshal_note d) ≡ none
unfolding lookup
marshal_extra d k extra =
    rw
      (
        eq_sym "version" k,
        eq_sym "updateTime" k,
        eq_sym "createTime" k,
        other_name k "version" extra refl,
        other_name k "updateTime" extra refl,
        eq_sym "label" k,
        other_name k "createTime" extra refl,
        other_name k "label" extra refl,
      )
      refl

unmarshal_insert :
    (m : Item) (k : String) (v : AttributeValue)
    → is_extra k ≡ true
    → unmarshal_note (insert k v m) ≡ unmarshal_note m
unmarshal_insert m k v extra =
    rw
      (
        lookup-insert k "version" v m,
        lookup-insert k "updateTime" v m,
        lookup-insert k "createTime" v m,
        lookup-insert k "label" v m,
        other_name k "version" extra refl,
        other_name k "updateTime" extra refl,
        other_name k "createTime" extra refl,
        other_name k "label" extra refl,
      )
      refl

unmarshal_marshal : (d : Note) → unmarshal_note (marshal_note d) ≡ note_desire.tagged_part d
unfolding lookup
unmarshal_marshal d = refl

note_version : (d : Note) → lookup "version" (marshal_note d) ≡ some (member_n d.metadata.version)
unfolding lookup
note_version d = refl

pub note-IsCodec : IsCodec note_codec
note-IsCodec = record {
  marshal-version = λ d m h. rw (sym (ok_same h)) (note_version d);
  marshal-extra = λ d m k h extra. rw (sym (ok_same h)) (marshal_extra d k extra);
  unmarshal-insert = λ m k v extra. ap ok (unmarshal_insert m k v extra);
  unmarshal-marshal = λ d m h. rw (sym (ok_same h)) (ap ok (unmarshal_marshal d));
}

-- JSON values are their texts, and the empty text is null.
abbrev pub text_json : Json String
text_json = record {
  unmarshal = λ t. ok t;
  marshal = λ v. ok (if v == "" then "null" else v);
  valid = λ t. true;
}

null_nonempty : (v : String) → ((if v == "" then "null" else v) == "") ≡ false
null_nonempty v = elim (Bool-cases (v == "")) [
  | inl empty ↦ rw empty refl
  | inr full ↦ rw full full
]

pub text-IsJson : IsJson text_json
text-IsJson = record {
  valid-marshal = λ v t h. refl;
  marshal-ne-empty = λ v t h. rw (sym (ok_same h)) (null_nonempty v);
}

-- The clock stands at 7.
abbrev pub backend : Backend Tables String Note
backend = record { client = memory; now = λ w. (7, w); json = text_json; codec = note_codec }

abbrev pub backend_law : IsBackend backend
backend_law = record {
  dynamo = memory_is_dynamo;
  json_law = text-IsJson;
  codec_law = note-IsCodec;
  item_at-now = λ w table id. refl;
}
