-- ===== src/Api/Accessors.antt =====
-- The accessor interfaces that the database layer asks of a desire type (DynamoDBMetadataAccessor and
-- KubeContentAccessor of internal/database), their implementations by ApplyDesire and ReadDesire,
-- and the laws that the database layer relies on.
use rosa_hyperfleet_kube_app.Prelude.{ℕ, String, ◌≡◌, refl, Option, none, some, []}
use rosa_hyperfleet_kube_app.Api.Types.{
  ApplyDesire, ReadDesire, DynamoDbMetadata, RawExtension, ServerSideApplyConfig, ResourceReference,
}

pub record Desire (T : Type 0) : Type 0 where
  pub metadata : T → DynamoDbMetadata
  pub set_metadata : T → DynamoDbMetadata → T
  pub get_spec_kube_content : T → Option RawExtension
  pub set_spec_kube_content : T → Option RawExtension → T
  pub get_status_kube_content : T → Option RawExtension
  pub set_status_kube_content : T → Option RawExtension → T
  -- the value without its fields that are tagged dynamodbav:"-"
  pub tagged_part : T → T
  pub metadata-set_metadata : (d : T) (m : DynamoDbMetadata) → metadata (set_metadata d m) ≡ m
  pub spec-set_metadata :
      (d : T) (m : DynamoDbMetadata)
      → get_spec_kube_content (set_metadata d m) ≡ get_spec_kube_content d
  pub status-set_metadata :
      (d : T) (m : DynamoDbMetadata)
      → get_status_kube_content (set_metadata d m) ≡ get_status_kube_content d
  pub metadata-tagged_part :
      (d : T) → metadata (tagged_part d) ≡ record (metadata d) { document_id = "" }
  pub spec-tagged_part : (d : T) → get_spec_kube_content (tagged_part d) ≡ none
  pub status-tagged_part : (d : T) → get_status_kube_content (tagged_part d) ≡ none
  pub metadata-set_spec :
      (d : T) (x : Option RawExtension) → metadata (set_spec_kube_content d x) ≡ metadata d
  pub metadata-set_status :
      (d : T) (x : Option RawExtension) → metadata (set_status_kube_content d x) ≡ metadata d
  pub status-set_spec :
      (d : T) (x : Option RawExtension)
      → get_status_kube_content (set_spec_kube_content d x) ≡ get_status_kube_content d
  pub spec-set_status :
      (d : T) (x : Option RawExtension)
      → get_spec_kube_content (set_status_kube_content d x) ≡ get_spec_kube_content d

-- GetDocumentID and SetDocumentID, of the embedded DynamoDBMetadata; so for the other fields.
module _ {T : Type 0} ⦃t : Desire T⦄ where
  abbrev pub get_document_id : T → String
  get_document_id d = (t.metadata d).document_id

  abbrev pub get_version : T → ℕ
  get_version d = (t.metadata d).version

  abbrev pub get_update_time : T → ℕ
  get_update_time d = (t.metadata d).update_time

  abbrev pub set_document_id : T → String → T
  set_document_id d id = t.set_metadata d (record (t.metadata d) { document_id = id })

abbrev content_of : Option ServerSideApplyConfig → Option RawExtension
content_of none = none
content_of (some c) = c.kube_content

abbrev without_content : Option ServerSideApplyConfig → Option ServerSideApplyConfig
without_content none = none
without_content (some c) = some (record { kube_content = none })

abbrev pub get_spec_kube_content : ApplyDesire → Option RawExtension
get_spec_kube_content d = content_of d.spec.server_side_apply

-- A nil ServerSideApply is allocated first.
abbrev pub set_spec_kube_content : ApplyDesire → Option RawExtension → ApplyDesire
set_spec_kube_content d ext = record d {
  spec = record d.spec { server_side_apply = some (record { kube_content = ext }) };
}

pub spec_tagged_part : (o : Option ServerSideApplyConfig) → content_of (without_content o) ≡ none
spec_tagged_part none = refl
spec_tagged_part (some c) = refl

instance abbrev pub apply_desire : Desire ApplyDesire
apply_desire = record {
  metadata = λ d. d.metadata;
  set_metadata = λ d m. record d { metadata = m };
  get_spec_kube_content = get_spec_kube_content;
  set_spec_kube_content = set_spec_kube_content;
  get_status_kube_content = λ d. none;
  set_status_kube_content = λ d x. d;
  tagged_part = λ d. record d {
    metadata = record d.metadata { document_id = "" };
    spec = record d.spec { server_side_apply = without_content d.spec.server_side_apply };
  };
  metadata-set_metadata = λ d m. refl;
  spec-set_metadata = λ d m. refl;
  status-set_metadata = λ d m. refl;
  metadata-tagged_part = λ d. refl;
  spec-tagged_part = λ d. spec_tagged_part d.spec.server_side_apply;
  status-tagged_part = λ d. refl;
  metadata-set_spec = λ d x. refl;
  metadata-set_status = λ d x. refl;
  status-set_spec = λ d x. refl;
  spec-set_status = λ d x. refl;
}

instance abbrev pub read_desire : Desire ReadDesire
read_desire = record {
  metadata = λ d. d.metadata;
  set_metadata = λ d m. record d { metadata = m };
  get_spec_kube_content = λ d. none;
  set_spec_kube_content = λ d x. d;
  get_status_kube_content = λ d. d.status.kube_content;
  set_status_kube_content = λ d x. record d { status = record d.status { kube_content = x } };
  tagged_part = λ d. record d {
    metadata = record d.metadata { document_id = "" };
    status = record d.status { kube_content = none };
  };
  metadata-set_metadata = λ d m. refl;
  spec-set_metadata = λ d m. refl;
  status-set_metadata = λ d m. refl;
  metadata-tagged_part = λ d. refl;
  spec-tagged_part = λ d. refl;
  status-tagged_part = λ d. refl;
  metadata-set_spec = λ d x. refl;
  metadata-set_status = λ d x. refl;
  status-set_spec = λ d x. refl;
  spec-set_status = λ d x. refl;
}

-- The zero values of Go: `&ApplyDesire{}`, `var initial T`.
abbrev pub no_resource : ResourceReference
no_resource = record { group = ""; version = ""; resource = ""; namespace = ""; name = "" }

abbrev pub zero_metadata : DynamoDbMetadata
zero_metadata = record { document_id = ""; version = 0; update_time = 0; create_time = 0 }

abbrev pub zero_apply_desire : ApplyDesire
zero_apply_desire = record {
  metadata = zero_metadata;
  spec = record {
    management_cluster = "";
    cluster_id = "";
    node_pool_name = "";
    type = "";
    target_item = no_resource;
    server_side_apply = none;
  };
  status = record {
    conditions = [];
    observed_desire_update_time = 0;
    applied_resource_generation = 0;
  };
}

abbrev pub zero_read_desire : ReadDesire
zero_read_desire = record {
  metadata = zero_metadata;
  spec = record {
    management_cluster = "";
    cluster_id = "";
    node_pool_name = "";
    target_item = no_resource;
  };
  status = record { conditions = []; observed_desire_update_time = 0; kube_content = none };
}
