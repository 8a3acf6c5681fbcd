-- ===== src/Controllers/Keys.antt =====
-- pkg/controllers/keys/keys.go: the keys of the work queues.
use rosa_hyperfleet_kube_app.Prelude.{String, if◌then◌else◌, ◌==◌, string_eq}
use rosa_hyperfleet_kube_app.Base.{Result, ok, err, plain}
use rosa_hyperfleet_kube_app.Api.{ApplyDesire, ReadDesire}

pub record ApplyDesireKey : Type 0 where
  pub cluster_id : String
  pub node_pool_name : String
  pub name : String

pub record ReadDesireKey : Type 0 where
  pub cluster_id : String
  pub node_pool_name : String
  pub name : String

unfoldable pub apply_desire_key_from_desire : ApplyDesire → Result ApplyDesireKey
apply_desire_key_from_desire d =
    if d.metadata.document_id == ""
    then err (plain "ApplyDesire has empty DocumentID")
    else ok (record {
      cluster_id = d.spec.cluster_id;
      node_pool_name = d.spec.node_pool_name;
      name = d.metadata.document_id;
    })

unfoldable pub read_desire_key_from_desire : ReadDesire → Result ReadDesireKey
read_desire_key_from_desire d =
    if d.metadata.document_id == ""
    then err (plain "ReadDesire has empty DocumentID")
    else ok (record {
      cluster_id = d.spec.cluster_id;
      node_pool_name = d.spec.node_pool_name;
      name = d.metadata.document_id;
    })
